-- ===== src/Pid/Tasks/Seen.antt =====
-- The numbers of a task with a new pid, and the task at each of them.
use linux_kernel_code_projec.Base.{
  ◌∙◌, ap, inl, inr, is_some, Option-cases, ℕ, Bool, zero, suc, ◌+◌, ◌<◌, ◌≡◌, refl, true, some,
  List, [], ◌∷◌, ◌==◌, ◌&&◌, if◌then◌else◌, arith, leb, ==_self, length, get_elem?,
}
use mathlib.Core.List.{map}
use linux_kernel_code_projec.Base.Run.{◌>>=◌, Returns}
use linux_kernel_code_projec.Store.{PidRef}
use linux_kernel_code_projec.PidMap.{PidMap}
use linux_kernel_code_projec.PidTable.{PidTable}
use linux_kernel_code_projec.Pid.{NsId, Namespace}
use linux_kernel_code_projec.Pid.Find.{Upid, find_pid_ns, pid_nr_ns}
use linux_kernel_code_projec.Pid.Alloc.{pid_ptr, System, Requests, alloc_pid}
use linux_kernel_code_projec.Pid.Maps.{HoldsAll}
use linux_kernel_code_projec.Pid.Nested.{Chain}
use linux_kernel_code_projec.Pid.Nested.Ranks.{spaces_from-level, get_elem?-length}
use linux_kernel_code_projec.Pid.Spaces.{spaces_from}
use linux_kernel_code_projec.Pid.Handles.{ns_of_pid}
use linux_kernel_code_projec.Pid.EveryLevel.{get_elem?-last}
use linux_kernel_code_projec.Pid.RoundTrip.{AllFound, alloc_pid-find_pid_ns}
use linux_kernel_code_projec.Pid.Tasks.{
  TaskId, Tasks, pidtype_pid, task_pid_of, attach_pid, pid_task, find_task_by_pid_ns,
  task_pid_nr_ns,
}
use linux_kernel_code_projec.Pid.Tasks.Current.{task_active_pid_ns, find_task_by_vpid}

get_elem?-map :
    (us : List Upid) (i : ℕ) (u : Upid)
    → get_elem? us i ≡ some u
    → get_elem? (map (λ v. v.ns) us) i ≡ some u.ns
get_elem?-map [] i u e = cc
get_elem?-map (v ∷ us) zero u e = let same : v ≡ u = cc in rw same refl
get_elem?-map (v ∷ us) (suc i) u e = get_elem?-map us i u e

-- The task has the pid, and is the first in its list.
abbrev pub IsFirst : TaskId → PidRef → Tasks → Type 0
IsFirst t p w = (w.thread_pid t ≡ some p) × (pid_task (some p) pidtype_pid w ≡ some t)

attach_pid-IsFirst :
    (t : TaskId) (p : PidRef) (w : Tasks)
    → w.thread_pid t ≡ some p
    → Returns (attach_pid t pidtype_pid w) (IsFirst t p)
unfolding attach_pid task_pid_of pid_task
attach_pid-IsFirst t p w e =
    let w' = record w {
      tasks = λ q k. if q == p && k == 0 then t ∷ w.tasks p 0 else w.tasks q k;
    } in
    (w', rw e refl, (e, rw (pid_task, ==_self p)))

module _ (T : PidTable) where
  -- Each number of the pid, in its namespace, is the number of the task and gives the task.
  abbrev pub IsSeen : TaskId → List Upid → Tasks → System T.ops → Type 0
  IsSeen t nums w s =
      (i : ℕ) (u : Upid)
      → get_elem? nums i ≡ some u
      → (task_pid_nr_ns T.ops t pidtype_pid u.ns w s ≡ some u.nr)
        × Returns (s.spaces u.ns) λ ns. find_task_by_pid_ns T.ops u.nr ns w ≡ some (some t)

  AllFound-get_elem? :
      (p : PidRef) (us : List Upid) (s : System T.ops) (i : ℕ) (u : Upid)
      → AllFound T p us s
      → get_elem? us i ≡ some u
      → Returns (s.spaces u.ns) λ ns. find_pid_ns T.ops u.nr ns ≡ some (some p)
  AllFound-get_elem? p [] s i u a e = cc
  AllFound-get_elem? p (v ∷ us) s zero u a e = let same : v ≡ u = cc in rw (← same) a.0
  AllFound-get_elem? p (v ∷ us) s (suc i) u a e = AllFound-get_elem? p us s i u a.1 e

  -- Each number is in a namespace on the level where it stands in the list.
  abbrev AtLevels : List Upid → System T.ops → Type 0
  AtLevels nums s =
      (i : ℕ) (u : Upid) → get_elem? nums i ≡ some u → Returns (s.spaces u.ns) (λ ns. ns.level ≡ i)

  IsFirst-IsSeen :
      (t : TaskId) (p : PidRef) (level : ℕ) (nums : List Upid) (w : Tasks) (s : System T.ops)
      → IsFirst t p w
      → s.pids p ≡ some (record { count = 1; level = level; numbers = nums })
      → length nums ≡ level + 1
      → AllFound T p nums s
      → AtLevels nums s
      → IsSeen t nums w s
  unfolding task_pid_nr_ns find_task_by_pid_ns pid_nr_ns task_pid_of
  IsFirst-IsSeen t p level nums w s (own, first) stored len a levels i u e =
      let below : i < length nums = get_elem?-length nums i u e in
      let le : leb i level ≡ true = ground arith in
      let (ns, there, found) = AllFound-get_elem? p nums s i u a e in
      let (ns', there', at) = levels i u e in
      (
        rw (
          task_pid_nr_ns,
          own,
          task_pid_of,
          own,
          stored,
          ◌>>=◌,
          there',
          ◌>>=◌,
          at,
          le,
          e,
          ◌>>=◌,
          ==_self u.ns,
        ),
        (ns, there, rw (found, first)),
      )

  -- The task is in the namespace, and finds itself there by its last number.
  abbrev pub FindsItself : TaskId → NsId → ℕ → List Upid → Tasks → System T.ops → Type 0
  FindsItself t id level nums w s =
      (task_active_pid_ns T.ops t w s ≡ some (some id))
      × ((u : Upid)
          → get_elem? nums level ≡ some u
          → (u.ns ≡ id) × (find_task_by_vpid T.ops t u.nr w s ≡ some (some t)))

  IsFirst-FindsItself :
      (t : TaskId) (p : PidRef) (id : NsId) (level : ℕ) (nums : List Upid) (w : Tasks)
      (s : System T.ops)
      → IsFirst t p w
      → s.pids p ≡ some (record { count = 1; level = level; numbers = nums })
      → IsSeen t nums w s
      → is_some (get_elem? nums level) ≡ true
      → ((u : Upid) → get_elem? nums level ≡ some u → u.ns ≡ id)
      → FindsItself t id level nums w s
  unfolding task_active_pid_ns find_task_by_vpid ns_of_pid
  IsFirst-FindsItself t p id level nums w s (own, first) stored seen long last =
      elim (Option-cases (get_elem? nums level)) [
        | inl none_there ↦ let long' = rw none_there at long in cc
        | inr (v, at) ↦
            let active : task_active_pid_ns T.ops t w s ≡ some (some id) =
              rw (task_active_pid_ns, own, stored, ◌>>=◌, at, ◌>>=◌)
                (ap (λ (j : NsId). some (some j)) (last v at)) in
            (
              active,
              λ u e.
                  let (ns, there, found) = (seen level u e).1 in
                  let here : s.spaces id ≡ some ns = rw (← last u e) there in
                  (last u e, rw (find_task_by_vpid, active, ◌>>=◌, here, ◌>>=◌) found),
            )
      ]

  module _ (pid_max : ℕ) (rq : Requests T.ops) (p : PidRef) (prepare : Bool) where
    -- If `pid_max` is above 1, the namespace has a reference, the table of every namespace holds a
    -- map, the namespace and its parents exist, on levels that go down to 0, with unused memory
    -- for each, and the `thread_pid` of a task is the new `struct pid`, then `alloc_pid` with that
    -- `struct pid` returns; and if it returns the pid, then the numbers of the pid are in the
    -- namespace and its parents, in this order from level 0 up to the namespace itself,
    -- `attach_pid` of the task returns, and after it each of the numbers is what
    -- `__task_pid_nr_ns` gives for the task in the namespace of that number, and
    -- `find_task_by_pid_ns` of it there gives the task; `task_active_pid_ns` of the task is the
    -- namespace of the allocation, and `find_task_by_vpid` called by the task with its number in
    -- that namespace gives the task.
    pub alloc_pid-find_task_by_pid_ns :
        (id : NsId) (ns : Namespace T.ops) (maps : NsId → PidMap) (s : System T.ops) (t : TaskId)
        (w : Tasks)
        → 1 < pid_max
        → 0 < ns.kref
        → s.spaces id ≡ some ns
        → Chain T pid_max rq s (ns.level + 1) (some id)
        → HoldsAll T maps s
        → w.thread_pid t ≡ some p
        → Returns (alloc_pid T.ops pid_max rq (some p) prepare id s) λ r.
          r.0 ≡ pid_ptr p
          → (nums : List Upid) × (length nums ≡ ns.level + 1)
            × (map (λ u. u.ns) nums ≡ spaces_from T s (ns.level + 1) (some id))
            × Returns
                (attach_pid t pidtype_pid w)
                λ w'. IsSeen t nums w' r.1 × FindsItself t id ns.level nums w' r.1
    alloc_pid-find_task_by_pid_ns id ns maps s t w lt ref at c held own =
        let (r, run, found) =
          alloc_pid-find_pid_ns T pid_max rq p prepare id ns maps s lt ref at c held in
        (
          r,
          run,
          λ ptr.
              let (nums, stored, len, all, names, ranks) = found ptr in
              let level_of : (i : ℕ) (u : Upid)
                  → get_elem? nums i ≡ some u
                  → (q : Namespace T.ops) × (s.spaces u.ns ≡ some q)
                    × (q.level ≡ i)
                    × (i + 1 ≡ ns.level + 1 → some id ≡ some u.ns) =
                λ i u e.
                  spaces_from-level T pid_max rq s (ns.level + 1) (some id) i u.ns c
                    (rw (← names) (get_elem?-map nums i u e)) in
              let levels : AtLevels nums r.1 = λ i u e.
                let (q, here, at_i, _) = level_of i u e in
                let (q', here', same) = ranks u.ns q here in (q', here', same ∙ at_i) in
              let last : (u : Upid) → get_elem? nums ns.level ≡ some u → u.ns ≡ id =
                λ u e. let (_, _, _, top) = level_of ns.level u e in let same = top refl in cc in
              let (w', attached, first) = attach_pid-IsFirst t p w own in
              let seen = IsFirst-IsSeen t p ns.level nums w' r.1 first stored len all levels in
              let long = get_elem?-last nums ns.level len in
              (
                nums,
                len,
                names,
                (
                  w',
                  attached,
                  (
                    seen,
                    IsFirst-FindsItself t p id ns.level nums w' r.1 first stored seen long last,
                  ),
                ),
              ),
        )
