-- ===== src/Pid/Tasks/Current.antt =====
-- skiplist/pid.c and skiplist/pid.h: pids and tasks as the running task sees them, and references.
use linux_kernel_code_projec.Base.{
  ℕ, ◌+◌, Bool, Option, none, some, List, [], ◌∷◌, ◌==◌, get_elem?, if◌then◌else◌,
}
use linux_kernel_code_projec.Base.Run.{◌>>=◌}
use linux_kernel_code_projec.Store.{PidRef}
use linux_kernel_code_projec.PidTable.{TableOps}
use linux_kernel_code_projec.Pid.{NsId}
use linux_kernel_code_projec.Pid.Find.{PidStruct, find_pid_ns, pid_nr_ns}
use linux_kernel_code_projec.Pid.Alloc.{System}
use linux_kernel_code_projec.Pid.Handles.{ns_of_pid, get_pid}
use linux_kernel_code_projec.Pid.Tasks.{
  TaskId, Tasks, pidtype_pid, task_pid_of, pid_task, find_task_by_pid_ns,
}

-- `is_child_reaper`
unfoldable pub is_child_reaper : PidStruct → Option Bool
is_child_reaper p = do u ← get_elem? p.numbers p.level; some (u.nr == 1)

-- The tasks that `do_each_pid_task` visits: of PIDTYPE_PID only the first
unfoldable pub each_pid_task : Option PidRef → ℕ → Tasks → List TaskId
each_pid_task none type w = []
each_pid_task (some p) type w = elim (w.tasks p type) [
  | [] ↦ []
  | t ∷ ts ↦ if type == pidtype_pid then t ∷ [] else t ∷ ts
]

-- `get_task_struct`, on the references to the tasks
abbrev pub get_task_struct : Option TaskId → (TaskId → ℕ) → TaskId → ℕ
get_task_struct none usage = usage
get_task_struct (some t) usage = λ u. if u == t then usage t + 1 else usage u

-- `get_pid_task`
unfoldable pub get_pid_task :
    Option PidRef → ℕ → (TaskId → ℕ) → Tasks → Option TaskId × (TaskId → ℕ)
get_pid_task p type usage w =
    let result = pid_task p type w in (result, get_task_struct result usage)

module _ (T : TableOps) where
  -- `task_active_pid_ns`
  unfoldable pub task_active_pid_ns : TaskId → Tasks → System T → Option (Option NsId)
  task_active_pid_ns t w s = elim (w.thread_pid t) [
    | none ↦ some none
    | some p ↦ do struct ← s.pids p; ns_of_pid (some struct)
  ]

  -- `find_vpid`; `me` is the running task. Without a namespace the code reads through NULL.
  unfoldable pub find_vpid : TaskId → ℕ → Tasks → System T → Option (Option PidRef)
  find_vpid me nr w s = do
    active ← task_active_pid_ns me w s
    id ← active
    ns ← s.spaces id
    find_pid_ns T nr ns

  -- `pid_vnr`
  unfoldable pub pid_vnr : TaskId → Option PidRef → Tasks → System T → Option ℕ
  pid_vnr me p w s = do
    active ← task_active_pid_ns me w s
    elim p [
      | none ↦ some 0
      | some q ↦ do
        struct ← s.pids q
        id ← active
        ns ← s.spaces id
        pid_nr_ns (some struct) id ns.level
    ]

  -- `find_task_by_vpid`
  unfoldable pub find_task_by_vpid : TaskId → ℕ → Tasks → System T → Option (Option TaskId)
  find_task_by_vpid me nr w s = do
    active ← task_active_pid_ns me w s
    id ← active
    ns ← s.spaces id
    find_task_by_pid_ns T nr ns w

  -- `find_get_task_by_vpid`
  unfoldable pub find_get_task_by_vpid :
      TaskId → ℕ → (TaskId → ℕ) → Tasks → System T → Option (Option TaskId × (TaskId → ℕ))
  find_get_task_by_vpid me nr usage w s = do
    task ← find_task_by_vpid me nr w s
    some (task, get_task_struct task usage)

  -- `get_task_pid`
  unfoldable pub get_task_pid : TaskId → ℕ → Tasks → System T → Option (Option PidRef × System T)
  get_task_pid t type w s = do let p = task_pid_of t type w; s₁ ← get_pid T p s; some (p, s₁)
