-- ===== src/PidNamespace/Zap.antt =====
-- skiplist/pid_namespace.c: the end of a namespace, `zap_pid_ns_processes`, and `reboot_pid_ns`.
pub mod Zapped
pub mod Ended
use linux_kernel_code_projec.Base.{
  ℕ, Bool, true, false, Option, none, some, List, [], ◌∷◌, ◌==◌, if◌then◌else◌, ℤ, negsuc, pos,
}
use linux_kernel_code_projec.Base.Run.{◌>>=◌}
use linux_kernel_code_projec.Store.{PidRef, int_of}
use linux_kernel_code_projec.PidTable.{TableOps}
use linux_kernel_code_projec.Pid.{NsId}
use linux_kernel_code_projec.Pid.Alloc.{System, init_pid_ns, minus_einval}
use linux_kernel_code_projec.Pid.Free.{disable_pid_allocation}
use linux_kernel_code_projec.Pid.Tasks.{TaskId, SignalId, Tasks, pidtype_pid, pid_task}

-- The signals 1 and 2
abbrev pub sighup : ℕ
sighup = 1

abbrev pub sigint : ℕ
sigint = 2

-- -ECHILD
abbrev pub is_echild : ℤ → Bool
is_echild (pos n) = false
is_echild (negsuc n) = n == 9

-- The tasks for which SIGKILL is pending and those that ignore SIGCHLD, `group_exit_code` of the
-- signal structs, and `reboot` and `child_reaper` of the namespaces.
pub record Exits : Type 0 where
  pub fatal_signal_pending : TaskId → Bool
  pub ignores_sigchld : TaskId → Bool
  pub group_exit_code : SignalId → ℕ
  pub reboot : NsId → ℕ
  pub child_reaper : NsId → TaskId

-- The commands of `reboot`
pub data RebootCmd : Type 0 where
  restart2 : RebootCmd
  restart : RebootCmd
  power_off : RebootCmd
  halt : RebootCmd
  other : RebootCmd

-- `reboot_pid_ns` returns, or the task exits in `do_exit`.
pub data Rebooted : Type 0 where
  returned : ℤ → Rebooted
  exited : Rebooted

-- The waits for children: `kernel_wait4` is called until it returns -ECHILD.
unfoldable pub wait_children : List ℤ → Option (Unit {0})
wait_children [] = none
wait_children (rc ∷ rcs) = if is_echild rc then some tt else wait_children rcs

-- The waits until `pid_allocated` is `init_pids`, with the numbers that it has each time.
unfoldable pub wait_allocated : ℕ → List ℕ → Option (Unit {0})
wait_allocated init_pids [] = none
wait_allocated init_pids (n ∷ ns) = if n == init_pids then some tt else wait_allocated init_pids ns

-- `send` is how the kernel sends SIGKILL to a task: the tasks with SIGKILL pending afterwards.
module _ (send : TaskId → (TaskId → Bool) → TaskId → Bool) where
  -- The loop over the pids, with the tasks that get the signal
  unfoldable pub kill_pids : List PidRef → Tasks → (TaskId → Bool) → List TaskId × (TaskId → Bool)
  kill_pids [] w pending = ([], pending)
  kill_pids (p ∷ ps) w pending = elim (pid_task (some p) pidtype_pid w) [
    | none ↦ kill_pids ps w pending
    | some t ↦ elim (pending t) [
      | true ↦ kill_pids ps w pending
      | false ↦ let r = kill_pids ps w (send t pending) in (t ∷ r.0, r.1)
    ]
  ]

  -- `reboot_pid_ns`
  unfoldable pub reboot_pid_ns : NsId → RebootCmd → Exits → Rebooted × Exits
  reboot_pid_ns id cmd x =
      let kill : ℕ → Rebooted × Exits = λ sig. (
        exited,
        record x {
          reboot = λ j. if j == id then sig else x.reboot j;
          fatal_signal_pending = send (x.child_reaper id) x.fatal_signal_pending;
        },
      ) in
      if id == init_pid_ns then (returned (pos 0), x) else elim cmd [
        | restart2 ↦ kill sighup
        | restart ↦ kill sighup
        | power_off ↦ kill sigint
        | halt ↦ kill sigint
        | other ↦ (returned minus_einval, x)
      ]

  module _ (T : TableOps) where
    -- `zap_pid_ns_processes` for the running task `me`; `leader` is whether it leads its thread
    -- group, and `rcs` and `seen` are what the two waits see. `none` if they wait for ever.
    unfoldable pub zap_pid_ns_processes :
        Bool
        → TaskId
        → NsId
        → List ℤ
        → List ℕ
        → Tasks
        → Exits
        → System T
        → Option (List TaskId × Exits × System T)
    zap_pid_ns_processes leader me id rcs seen w x s = do
      s₁ ← disable_pid_allocation T id s
      ns ← s₁.spaces id
      pids ← T.iterate ns.table (int_of 2)
      let (killed, pending) = kill_pids pids w x.fatal_signal_pending
      _ ← wait_children rcs
      _ ← wait_allocated (if leader then 1 else 2) seen
      some (
        killed,
        record x {
          fatal_signal_pending = pending;
          ignores_sigchld = λ t. if t == me then true else x.ignores_sigchld t;
          group_exit_code = λ g.
              if g == w.signal me
              then (if x.reboot id == 0 then x.group_exit_code g else x.reboot id)
              else x.group_exit_code g;
        },
        s₁,
      )
