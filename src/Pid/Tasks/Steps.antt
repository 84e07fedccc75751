-- ===== src/Pid/Tasks/Steps.antt =====
-- The lists of the tasks over sequences of steps, and when a pid is freed.
use linux_kernel_code_projec.Base.{
  ℕ, zero, suc, ◌<◌, ◌≡◌, ◌⊎◌, refl, sym, ◌∙◌, ap, inl, inr, true, false, Option, none, some, List,
  [], ◌∷◌, ◌==◌, arith, Bool-cases, ==_eq, ==_self,
}
use linux_kernel_code_projec.Base.Run.{◌>>=◌, Returns, >>=-eq-some}
use linux_kernel_code_projec.Store.{PidRef}
use linux_kernel_code_projec.PidMap.{PidMap}
use linux_kernel_code_projec.PidTable.{PidTable, TableOps}
use linux_kernel_code_projec.Pid.{NsId}
use linux_kernel_code_projec.Pid.Find.{PidStruct}
use linux_kernel_code_projec.Pid.Alloc.{System}
use linux_kernel_code_projec.Pid.Maps.{erase_all, HoldsAll, AllExist}
use linux_kernel_code_projec.Pid.Free.{Effect, free_pid}
use linux_kernel_code_projec.Pid.Free.Released.{free_pid-HoldsAll}
use linux_kernel_code_projec.Pid.Tasks.{
  TaskId, pidtype_pid, pidtype_max, Tasks, task_pid_of, has, hlist_empty, attach_pid, transfer_pid,
  any_task, change_pid_links, detach_pid, change_pid,
}
use linux_kernel_code_projec.Pid.Tasks.Linked.{
  IsLinked, IsUnlinked, IsAlone, attach_pid-IsLinked, unlinked, unlinked-IsLinked,
  unlinked-IsUnlinked, unlinked-IsAlone, task_pid_of-unlinked,
}
use linux_kernel_code_projec.Pid.Tasks.Moved.{transfer_pid-IsLinked}

same_first : {A B C : Type 0} (x y : A × B × C) → some x ≡ some y → x.0 ≡ y.0
same_first {A} {B} {C} x y e = let same : x ≡ y = cc in ap (λ (z : A × B × C). z.0) same

module _ (T : TableOps) where
  -- The calls of the rest of the kernel, each where it is allowed.
  pub data Step : Tasks × System T → Tasks × System T → Type 0 where
    attach :
        {w w' : Tasks} {s : System T} (t : TaskId) (type : ℕ) (p : PidRef)
        → task_pid_of t type w ≡ some p
        → IsUnlinked t type w
        → IsAlone t type w
        → attach_pid t type w ≡ some w'
        → Step (w, s) (w', s)
    detach :
        {w w' : Tasks} {s s' : System T} (t : TaskId) (type : ℕ) (p : PidRef)
        (effects : List Effect)
        → task_pid_of t type w ≡ some p
        → has t (w.tasks p type) ≡ true
        → detach_pid T t type w s ≡ some (w', s', effects)
        → Step (w, s) (w', s')
    change :
        {w w' : Tasks} {s s' : System T} (t : TaskId) (type : ℕ) (p q : PidRef)
        (effects : List Effect)
        → task_pid_of t type w ≡ some p
        → has t (w.tasks p type) ≡ true
        → change_pid T t type (some q) w s ≡ some (w', s', effects)
        → Step (w, s) (w', s')
    transfer :
        {w w' : Tasks} {s : System T} (old new : TaskId) (type : ℕ) (p : PidRef)
        → task_pid_of old type w ≡ some p
        → has old (w.tasks p type) ≡ true
        → IsUnlinked new type w
        → ((type == pidtype_pid) ≡ false → w.signal old ≡ w.signal new)
        → transfer_pid old new type w ≡ some w'
        → Step (w, s) (w', s)

  pub data Reach (start : Tasks × System T) : Tasks × System T → Type 0 where
    here : Reach start start
    next : {x y : Tasks × System T} → Reach start x → Step x y → Reach start y

  -- The lists and pids that `__change_pid` leaves, whether it frees the pid or not.
  change_pid_links-tasks :
      (t : TaskId) (type : ℕ) (p : PidRef) (new : Option PidRef) (w w' : Tasks) (s s' : System T)
      (effects : List Effect)
      → task_pid_of t type w ≡ some p
      → change_pid_links T t type new w s ≡ some (w', s', effects)
      → w' ≡ unlinked t type p new w
  unfolding change_pid_links
  change_pid_links-tasks t type p new w w' s s' effects has_pid run =
      let w₁ = unlinked t type p new w in
      let run' = rw (has_pid, ◌>>=◌) at run in
      elim (Bool-cases (any_task pidtype_max p w₁)) [
        | inl y ↦ let run'' = rw y at run' in sym (same_first (w₁, s, []) (w', s', effects) run'')
        | inr n ↦
            let run'' = rw n at run' in
            let (r, freed, e) = >>=-eq-some (free_pid T p s) (λ r. some (w₁, r.0, r.1)) run'' in
            sym (same_first (w₁, r.0, r.1) (w', s', effects) e)
      ]

  of_run : {A : Type 0} {P : A → Type 0} (m : Option A) (a : A) → m ≡ some a → Returns m P → P a
  of_run m a e (b, run, ok) = let same : b ≡ a = cc in rw (← same) ok

  pub Step-IsLinked :
      (w w' : Tasks) (s s' : System T) → Step (w, s) (w', s') → IsLinked w → IsLinked w'
  unfolding detach_pid change_pid
  Step-IsLinked w w' s s' (attach t type p has_pid free alone run) i =
      of_run (attach_pid t type w) w' run (attach_pid-IsLinked t type p w has_pid free alone i)
  Step-IsLinked w w' s s' (detach t type p effects has_pid linked run) i =
      rw (change_pid_links-tasks t type p none w w' s s' effects has_pid run)
        (unlinked-IsLinked t type p none w has_pid linked i)
  Step-IsLinked w w' s s' (change t type p q effects has_pid linked run) i =
      let ((w₁, s₁, effects₁), first, rest) =
        >>=-eq-some (change_pid_links T t type (some q) w s)
          (λ r. attach_pid t type r.0 >>= λ w₂. some (w₂, r.1, r.2)) run in
      let (w₂, second, e) =
        >>=-eq-some (attach_pid t type w₁) (λ w₂. some (w₂, s₁, effects₁)) rest in
      let step = change_pid_links-tasks t type p (some q) w w₁ s s₁ effects₁ has_pid first in
      of_run (attach_pid t type w₁) w'
        (second ∙ ap {B = Option Tasks} some (same_first (w₂, s₁, effects₁) (w', s', effects) e))
        (attach_pid-IsLinked t type q w₁
          (rw step (task_pid_of-unlinked t type p (some q) w has_pid linked i))
          (rw step (unlinked-IsUnlinked t type p (some q) w has_pid linked i))
          (rw step (unlinked-IsAlone t type p (some q) w has_pid linked i))
          (rw step (unlinked-IsLinked t type p (some q) w has_pid linked i)))
  Step-IsLinked w w' s s' (transfer old new type p has_pid linked free same run) i =
      of_run (transfer_pid old new type w) w' run
        (transfer_pid-IsLinked old new type p w has_pid linked free i same)

  -- If every task in a list has the pid of that list, and of the tasks in the lists of a type
  -- other than PIDTYPE_PID at most one has a given signal struct, then the same holds after any
  -- sequence of `attach_pid`, `detach_pid`, `change_pid` and `transfer_pid`, where `attach_pid` is
  -- called for a task that, as well as any other with its signal struct where the type is not
  -- PIDTYPE_PID, is in no list of the type, `detach_pid` and `change_pid` for a task in the list
  -- of its pid, and `transfer_pid` from such a task to one that is in no list of the type and
  -- shares its signal struct where the type is not PIDTYPE_PID.
  pub Reach-IsLinked :
      (start : Tasks × System T) (x : Tasks × System T)
      → IsLinked start.0
      → Reach start x
      → IsLinked x.0
  Reach-IsLinked start x i here = i
  Reach-IsLinked start y i (next {x = x} r st) =
      Step-IsLinked x.0 y.0 x.1 y.1 st (Reach-IsLinked start x i r)

some_has : (us : List TaskId) → hlist_empty us ≡ false → (u : TaskId) × (has u us ≡ true)
some_has [] e = cc
some_has (u ∷ us) e = (u, rw (==_self u))

no_has : (us : List TaskId) (u : TaskId) → hlist_empty us ≡ true → has u us ≡ false
no_has [] u e = refl
no_has (v ∷ us) u e = cc

any_task-some :
    (n : ℕ) (p : PidRef) (w : Tasks)
    → any_task n p w ≡ true
    → (k : ℕ) × (k < n) × (u : TaskId) × (has u (w.tasks p k) ≡ true)
unfolding any_task
any_task-some zero p w e = cc
any_task-some (suc n) p w e = elim (Bool-cases (hlist_empty (w.tasks p n))) [
  | inr full ↦ let (u, there) = some_has (w.tasks p n) full in (n, omega arith, u, there)
  | inl empty ↦
      let (k, lt, u, there) = any_task-some n p w (rw empty at e) in (k, omega arith, u, there)
]

any_task-none :
    (n : ℕ) (p : PidRef) (w : Tasks)
    → any_task n p w ≡ false
    → (k : ℕ) (u : TaskId) → k < n
    → has u (w.tasks p k) ≡ false
unfolding any_task
any_task-none zero p w e k u lt = absurd (omega arith)
any_task-none (suc n) p w e k u lt =
    let empty : hlist_empty (w.tasks p n) ≡ true = ground arith in
    elim (Bool-cases (k == n)) [
      | inl y ↦ rw (==_eq k n y) (no_has (w.tasks p n) u empty)
      | inr m ↦ any_task-none n p w (ground arith) k u (ground arith)
    ]

module _ (T : PidTable) where
  -- What `__change_pid` does with the pid that the task had.
  abbrev pub LeavesPid :
      PidRef
      → PidStruct
      → (NsId → PidMap)
      → System T.ops
      → Tasks × System T.ops × List Effect
      → Type 0
  LeavesPid p struct maps s r =
      (((k : ℕ) × (k < pidtype_max) × (u : TaskId) × (has u (r.0.tasks p k) ≡ true))
        × (r.1 ≡ s)
        × (r.2 ≡ []))
      ⊎ (((k : ℕ) (u : TaskId) → k < pidtype_max → has u (r.0.tasks p k) ≡ false)
          × HoldsAll T (erase_all struct.numbers maps) r.1)

  -- If every task in a list has the pid of that list, the task is in the list of an allocated pid,
  -- the table of every namespace holds a map, and the namespaces of the numbers of the pid exist,
  -- then `__change_pid` of the task returns. Either a task is left in a list of the pid, and the
  -- namespaces stay as they are; or none is left in any of its four lists, and its numbers are out
  -- of the maps.
  pub change_pid_links-LeavesPid :
      (t : TaskId) (type : ℕ) (p : PidRef) (new : Option PidRef) (w : Tasks) (s : System T.ops)
      (struct : PidStruct) (maps : NsId → PidMap)
      → IsLinked w
      → has t (w.tasks p type) ≡ true
      → s.pids p ≡ some struct
      → HoldsAll T maps s
      → AllExist T struct.numbers s
      → Returns (change_pid_links T.ops t type new w s) (LeavesPid p struct maps s)
  unfolding change_pid_links
  change_pid_links-LeavesPid t type p new w s struct maps i there stored held exist =
      let has_pid = i.linked t p type there in
      let w₁ = unlinked t type p new w in
      elim (Bool-cases (any_task pidtype_max p w₁)) [
        | inl y ↦ (
          (w₁, s, []),
          rw (has_pid, ◌>>=◌, y),
          inl (any_task-some pidtype_max p w₁ y, refl, refl),
        )
        | inr n ↦
            let (r, run, freed) = free_pid-HoldsAll T p struct s maps stored held exist in
            (
              (w₁, r.0, r.1),
              rw (has_pid, ◌>>=◌, n, run),
              inr (any_task-none pidtype_max p w₁ n, freed),
            )
      ]
