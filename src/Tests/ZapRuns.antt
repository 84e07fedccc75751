-- ===== src/Tests/ZapRuns.antt =====
-- The end of a namespace with the pid 90 at the number 2, which the task 6 has.
use linux_kernel_code_projec.Base.{
  ℕ, ◌≤◌, ◌≡◌, refl, Bool, true, false, ◌||◌, ◌&&◌, none, some, [], ◌∷◌, ◌==◌, arith, pos, negsuc,
  if◌then◌else◌,
}
use linux_kernel_code_projec.Base.Run.{Returns}
use linux_kernel_code_projec.Store.{PidRef, int_of}
use linux_kernel_code_projec.PidMap
use linux_kernel_code_projec.PidMap.{PidMap, find}
use linux_kernel_code_projec.PidMap.Until.{has, IsUnreserved}
use linux_kernel_code_projec.Skiplist.Insert.Node.{IsFresh}
use linux_kernel_code_projec.Skiplist.AsTable.{
  skiplist_ops, skiplist_table, HoldsMap, Request, table_insert, table_insert_lem,
}
use linux_kernel_code_projec.Pid.{Namespace}
use linux_kernel_code_projec.Pid.Alloc.{System}
use linux_kernel_code_projec.Pid.Free.{disable_pid_allocation}
use linux_kernel_code_projec.Pid.Tasks.{TaskId, Tasks, pid_task}
use linux_kernel_code_projec.PidNamespace.Zap.{
  Exits, halt, wait_children, wait_allocated, reboot_pid_ns, exited, kill_pids,
  zap_pid_ns_processes,
}
use linux_kernel_code_projec.PidNamespace.Zap.Zapped.{IsSend}
use linux_kernel_code_projec.PidNamespace.Zap.Ended.{
  exit_signal, zap_pid_ns_processes-find, reboot_pid_ns-zap_pid_ns_processes,
}
use linux_kernel_code_projec.Tests.SkiplistRuns.{heap}
use linux_kernel_code_projec.Tests.PidRuns.{table, table-HoldsMap, request, init_ns}

abbrev map_two : PidMap
map_two = (int_of 2, some 90) ∷ []

abbrev stored_two : Returns (table_insert (request 0) table (int_of 2) (some 90)) λ r.
    (r.0 ≡ pos 0)
    × HoldsMap r.1 map_two
    × (true ≡ false → (b : Request) → IsFresh b.memory heap → IsFresh b.memory r.1.heap)
unfolding find PidMap.insert
stored_two =
    table_insert_lem (request 0) table [] (int_of 2) (some 90) table-HoldsMap
      (λ _ x e. ground arith)

abbrev ns_two : Namespace skiplist_ops
ns_two = record init_ns { table = stored_two.0.1; level = 1; parent = some 0 }

abbrev system_two : System skiplist_ops
system_two = record { spaces = λ id. if id == 1 then some ns_two else none; pids = λ p. none }

abbrev task_two : Tasks
task_two = record {
  thread_pid = λ t. if t == 6 then some 90 else none;
  signal = λ t. t;
  pids = λ s k. none;
  tasks = λ p k. if p == 90 && k == 0 then 6 ∷ [] else [];
}

abbrev alive : Exits
alive = record {
  fatal_signal_pending = λ t. false;
  ignores_sigchld = λ t. false;
  group_exit_code = λ g. 0;
  reboot = λ id. 0;
  child_reaper = λ id. 5;
}

-- A signal to one task
abbrev send_one : TaskId → (TaskId → Bool) → TaskId → Bool
send_one t pending u = u == t || pending u

send_one-IsSend : IsSend send_one
send_one-IsSend = record { sent = λ t f. ground arith; kept = λ t u f e. ground arith }

zap_pid_ns_processes-find_example :
    Returns
      (zap_pid_ns_processes send_one skiplist_ops true 5 1
        (negsuc 9 ∷ [])
        (1 ∷ [])
        task_two
        alive
        system_two)
      λ r.
        (disable_pid_allocation skiplist_ops 1 system_two ≡ some r.2)
        × (r.1.group_exit_code 5 ≡ (if 0 == 0 then 0 else 0))
        × ((k : ℕ) (p : PidRef) (t : TaskId)
            → int_of 2 ≤ k
            → find k map_two ≡ some (some p)
            → IsUnreserved (int_of 2) k map_two
            → pid_task (some p) 0 task_two ≡ some t
            → r.1.fatal_signal_pending t ≡ true)
        × ((t : TaskId)
            → has t r.0 ≡ true
            → (false ≡ false)
              × ((k : ℕ) × (p : PidRef) × (int_of 2 ≤ k)
                  × (find k map_two ≡ some (some p))
                  × IsUnreserved (int_of 2) k map_two
                  × (pid_task (some p) 0 task_two ≡ some t)))
unfolding wait_children wait_allocated
zap_pid_ns_processes-find_example =
    zap_pid_ns_processes-find send_one send_one-IsSend skiplist_table true 5 1 (negsuc 9 ∷ [])
      (1 ∷ []) task_two alive system_two ns_two map_two refl stored_two.2.1 refl refl

-- The task 6 is killed.
two_killed : (kill_pids send_one (90 ∷ []) task_two (λ t. false)).0 ≡ 6 ∷ []
unfolding kill_pids pid_task
two_killed = refl

reboot_pid_ns-zap_pid_ns_processes_example :
    let (b, x₁) = reboot_pid_ns send_one 1 halt alive in
    (b ≡ exited)
    × (x₁.fatal_signal_pending 5 ≡ true)
    × Returns
        (zap_pid_ns_processes send_one skiplist_ops true 5 1
          (negsuc 9 ∷ [])
          (1 ∷ [])
          task_two
          x₁
          system_two)
        λ r. r.1.group_exit_code 5 ≡ exit_signal halt
unfolding wait_children wait_allocated
reboot_pid_ns-zap_pid_ns_processes_example =
    reboot_pid_ns-zap_pid_ns_processes send_one send_one-IsSend skiplist_table halt true 1
      (negsuc 9 ∷ []) (1 ∷ []) task_two alive system_two ns_two map_two (ground arith) (λ e. cc)
      refl stored_two.2.1 refl refl
