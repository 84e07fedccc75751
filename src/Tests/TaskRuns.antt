-- ===== src/Tests/TaskRuns.antt =====
-- A task with the pid 70.
use linux_kernel_code_projec.Base.{refl, none, some, [], ◌∷◌, ◌==◌, if◌then◌else◌, ◌&&◌}
use linux_kernel_code_projec.Base.Run.{Returns}
use linux_kernel_code_projec.Skiplist.AsTable.{skiplist_ops, skiplist_table}
use linux_kernel_code_projec.Pid.Tasks.{Tasks, task_pid_of, attach_pid, change_pid_links}
use linux_kernel_code_projec.Pid.Tasks.Linked.{IsLinked}
use linux_kernel_code_projec.Pid.Tasks.Steps.{
  Step, Reach, Reach-IsLinked, LeavesPid, change_pid_links-LeavesPid,
}
use linux_kernel_code_projec.Tests.PidLifeRuns.{
  init_struct, used_system, used_system-HoldsAll, used_map,
}

-- The task 5, in no list yet.
abbrev pub new_tasks : Tasks
new_tasks = record {
  thread_pid = λ t. if t == 5 then some 70 else none;
  signal = λ t. t;
  pids = λ s k. none;
  tasks = λ p k. [];
}

abbrev one_task : Tasks
one_task = record new_tasks { tasks = λ p k. if p == 70 && k == 0 then 5 ∷ [] else [] }

new_tasks-IsLinked : IsLinked new_tasks
new_tasks-IsLinked = record {
  linked = λ t p type e. cc;
  leader = λ t u p q type e e' other same. cc;
}

-- `attach_pid` runs.
attached : Reach skiplist_ops (new_tasks, used_system) (one_task, used_system)
unfolding task_pid_of attach_pid
attached = Reach.next Reach.here (Step.attach 5 0 70 refl (λ p. refl) (λ other. cc) refl)

Reach-IsLinked_example : IsLinked one_task
Reach-IsLinked_example =
    Reach-IsLinked skiplist_ops (new_tasks, used_system) (one_task, used_system) new_tasks-IsLinked
      attached

change_pid_links-LeavesPid_example :
    Returns
      (change_pid_links skiplist_ops 5 0 none one_task used_system)
      (LeavesPid skiplist_table 70 init_struct (λ id. used_map) used_system)
change_pid_links-LeavesPid_example =
    change_pid_links-LeavesPid skiplist_table 5 0 70 none one_task used_system init_struct
      (λ id. used_map)
      (Reach-IsLinked skiplist_ops (new_tasks, used_system) (one_task, used_system)
        new_tasks-IsLinked attached)
      refl refl used_system-HoldsAll (refl, tt)
