-- ===== src/Pid/Tasks.antt =====
-- skiplist/pid.c: the tasks that use a pid. A task has a pid of each type, and stands in the list of
-- that pid for the type.
pub mod Linked
pub mod Steps
pub mod Moved
pub mod Current
pub mod Seen
use linux_kernel_code_projec.Base.{
  ℕ, zero, suc, Bool, true, false, ◌&&◌, ◌||◌, not, Option, none, some, List, [], ◌∷◌, ◌==◌,
  if◌then◌else◌,
}
use linux_kernel_code_projec.Base.Run.{◌>>=◌}
use linux_kernel_code_projec.Store.{PidRef}
use linux_kernel_code_projec.PidTable.{TableOps}
use linux_kernel_code_projec.Pid.{NsId, Namespace}
use linux_kernel_code_projec.Pid.Find.{find_pid_ns, PidStruct, pid_nr_ns}
use linux_kernel_code_projec.Pid.Alloc.{System}
use linux_kernel_code_projec.Pid.Free.{Effect, free_pid}

-- `struct task_struct` and `struct signal_struct`
abbrev pub TaskId : Type 0
TaskId = ℕ

abbrev pub SignalId : Type 0
SignalId = ℕ

-- `enum pid_type`: PIDTYPE_PID and PIDTYPE_MAX
abbrev pub pidtype_pid : ℕ
pidtype_pid = 0

abbrev pub pidtype_max : ℕ
pidtype_max = 4

-- The fields `thread_pid` and `signal` of the tasks, `pids` of the signal structs, and the lists
-- `tasks` of the pids.
pub record Tasks : Type 0 where
  pub thread_pid : TaskId → Option PidRef
  pub signal : TaskId → SignalId
  pub pids : SignalId → ℕ → Option PidRef
  pub tasks : PidRef → ℕ → List TaskId

-- `*task_pid_ptr(task, type)`
unfoldable pub task_pid_of : TaskId → ℕ → Tasks → Option PidRef
task_pid_of t type w = if type == pidtype_pid then w.thread_pid t else w.pids (w.signal t) type

-- `*task_pid_ptr(task, type) = pid`
unfoldable pub set_task_pid : TaskId → ℕ → Option PidRef → Tasks → Tasks
set_task_pid t type p w =
    if type == pidtype_pid
    then record w { thread_pid = λ u. if u == t then p else w.thread_pid u }
    else record w { pids = λ s k. if s == w.signal t && k == type then p else w.pids s k }

abbrev pub set_tasks : PidRef → ℕ → List TaskId → Tasks → Tasks
set_tasks p type ts w = record w { tasks = λ q k. if q == p && k == type then ts else w.tasks q k }

abbrev pub has : TaskId → List TaskId → Bool
has t [] = false
has t (u ∷ us) = t == u || has t us

-- `hlist_del_rcu`, for a node that is in the list once
abbrev pub hlist_del : TaskId → List TaskId → List TaskId
hlist_del t [] = []
hlist_del t (u ∷ us) = if t == u then hlist_del t us else u ∷ hlist_del t us

-- `hlist_replace_rcu`
abbrev pub hlist_replace : TaskId → TaskId → List TaskId → List TaskId
hlist_replace old new [] = []
hlist_replace old new (u ∷ us) = (if old == u then new else u) ∷ hlist_replace old new us

-- `hlist_empty`
abbrev pub hlist_empty : List TaskId → Bool
hlist_empty [] = true
hlist_empty (u ∷ us) = false

-- `attach_pid`
unfoldable pub attach_pid : TaskId → ℕ → Tasks → Option Tasks
attach_pid t type w = do p ← task_pid_of t type w; some (set_tasks p type (t ∷ w.tasks p type) w)

-- The loop of `__change_pid` over the types below `tmp`: whether a list of the pid is not empty.
unfoldable pub any_task : ℕ → PidRef → Tasks → Bool
any_task zero p w = false
any_task (suc tmp) p w = not (hlist_empty (w.tasks p tmp)) || any_task tmp p w

-- `transfer_pid`. The old task is in the list of the pid that it has.
unfoldable pub transfer_pid : TaskId → TaskId → ℕ → Tasks → Option Tasks
transfer_pid old new type w = do
  p ← task_pid_of old type w
  let w₁ =
      if type == pidtype_pid
      then record w { thread_pid = λ u. if u == new then w.thread_pid old else w.thread_pid u }
      else w
  some (set_tasks p type (hlist_replace old new (w.tasks p type)) w₁)

-- `pid_task`
unfoldable pub pid_task : Option PidRef → ℕ → Tasks → Option TaskId
pid_task none type w = none
pid_task (some p) type w = elim (w.tasks p type) [ [] ↦ none | t ∷ ts ↦ some t ]

module _ (T : TableOps) where
  -- `__change_pid`, with the effects of `free_pid`. The task is in the list of the pid that it has;
  -- without one the code reads through NULL.
  unfoldable pub change_pid_links :
      TaskId → ℕ → Option PidRef → Tasks → System T → Option (Tasks × System T × List Effect)
  change_pid_links t type new w s = do
    p ← task_pid_of t type w
    let w₁ = set_task_pid t type new (set_tasks p type (hlist_del t (w.tasks p type)) w)
    if any_task pidtype_max p w₁
        then some (w₁, s, [])
        else (do (s₁, effects) ← free_pid T p s; some (w₁, s₁, effects))

  -- `detach_pid`
  unfoldable pub detach_pid :
      TaskId → ℕ → Tasks → System T → Option (Tasks × System T × List Effect)
  detach_pid t type w s = change_pid_links t type none w s

  -- `change_pid`
  unfoldable pub change_pid :
      TaskId → ℕ → Option PidRef → Tasks → System T → Option (Tasks × System T × List Effect)
  change_pid t type p w s = do
    (w₁, s₁, effects) ← change_pid_links t type p w s
    w₂ ← attach_pid t type w₁
    some (w₂, s₁, effects)

  -- `find_task_by_pid_ns`
  unfoldable pub find_task_by_pid_ns : ℕ → Namespace T → Tasks → Option (Option TaskId)
  find_task_by_pid_ns nr ns w = do p ← find_pid_ns T nr ns; some (pid_task p pidtype_pid w)

  -- `__task_pid_nr_ns` with a namespace; `pid_alive` is whether the task has a `thread_pid`.
  unfoldable pub task_pid_nr_ns : TaskId → ℕ → NsId → Tasks → System T → Option ℕ
  task_pid_nr_ns t type id w s = elim (w.thread_pid t) [
    | none ↦ some 0
    | some alive ↦ elim (task_pid_of t type w) [
      | none ↦ some 0
      | some p ↦ do struct ← s.pids p; ns ← s.spaces id; pid_nr_ns (some struct) id ns.level
    ]
  ]
