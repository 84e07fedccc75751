-- ===== src/PidNamespace/Zap/Ended.antt =====
-- What the end of a namespace leaves, and how a reboot shows.
use linux_kernel_code_projec.Base.{
  ==_ne, ℕ, ◌%◌, ◌^◌, ◌≤◌, ◌≡◌, ◌≢◌, refl, Bool, true, false, some, List, ◌==◌, if◌then◌else◌,
  ==_self, ℤ,
}
use linux_kernel_code_projec.Base.Run.{◌>>=◌, Returns}
use linux_kernel_code_projec.Store.{PidRef, int_of}
use linux_kernel_code_projec.PidMap.{PidMap, find, from, until_reserved}
use linux_kernel_code_projec.PidMap.Until.{
  has, IsUnreserved, until_reserved-from, from-until_reserved,
}
use linux_kernel_code_projec.PidTable.{PidTable}
use linux_kernel_code_projec.Pid.{NsId, Namespace}
use linux_kernel_code_projec.Pid.Alloc.{System, set_space, init_pid_ns}
use linux_kernel_code_projec.Pid.Free.{disable_pid_allocation}
use linux_kernel_code_projec.Pid.Tasks.{TaskId, Tasks, pidtype_pid, pid_task}
use linux_kernel_code_projec.PidNamespace.Zap.{
  Exits, RebootCmd, restart, restart2, power_off, halt, other, exited, sighup, sigint,
  wait_children, wait_allocated, kill_pids, reboot_pid_ns, zap_pid_ns_processes,
}
use linux_kernel_code_projec.PidNamespace.Zap.Zapped.{IsSend, kill_pids-pending, kill_pids-killed}

-- The signal by which the parent namespace sees a reboot
abbrev pub exit_signal : RebootCmd → ℕ
exit_signal restart2 = sighup
exit_signal restart = sighup
exit_signal power_off = sigint
exit_signal halt = sigint
exit_signal other = 0

module _ (send : TaskId → (TaskId → Bool) → TaskId → Bool) (i : IsSend send) (T : PidTable) where
  -- If a task that is sent SIGKILL has it pending and other tasks keep it, the table of a
  -- namespace holds a map, `kernel_wait4` returns -ECHILD at some point and `pid_allocated` gets
  -- to the number awaited, then `zap_pid_ns_processes` returns. The allocation is disabled, and
  -- the exit code is that of a reboot, if there was one. The first task of every pid from number 2
  -- on has SIGKILL pending, if no number from 2 to that of the pid is reserved; and SIGKILL is
  -- sent only to tasks that had none pending and are the first task of such a pid.
  pub zap_pid_ns_processes-find :
      (leader : Bool) (me : TaskId) (id : NsId) (rcs : List ℤ) (seen : List ℕ) (w : Tasks)
      (x : Exits) (s : System T.ops) (ns : Namespace T.ops) (m : PidMap)
      → s.spaces id ≡ some ns
      → T.Holds ns.table m
      → wait_children rcs ≡ some tt
      → wait_allocated (if leader then 1 else 2) seen ≡ some tt
      → Returns (zap_pid_ns_processes send T.ops leader me id rcs seen w x s) λ r.
        (disable_pid_allocation T.ops id s ≡ some r.2)
        × (r.1.group_exit_code (w.signal me)
            ≡ (if x.reboot id == 0 then x.group_exit_code (w.signal me) else x.reboot id))
        × ((k : ℕ) (p : PidRef) (t : TaskId)
            → int_of 2 ≤ k
            → find k m ≡ some (some p)
            → IsUnreserved (int_of 2) k m
            → pid_task (some p) pidtype_pid w ≡ some t
            → r.1.fatal_signal_pending t ≡ true)
        × ((t : TaskId)
            → has t r.0 ≡ true
            → (x.fatal_signal_pending t ≡ false)
              × ((k : ℕ) × (p : PidRef) × (int_of 2 ≤ k)
                  × (find k m ≡ some (some p))
                  × IsUnreserved (int_of 2) k m
                  × (pid_task (some p) pidtype_pid w ≡ some t)))
  unfolding zap_pid_ns_processes disable_pid_allocation
  zap_pid_ns_processes-find leader me id rcs seen w x s ns m at held reaped left =
      let order = T.Holds-IsOrdered ns.table m held in
      let pids = until_reserved (from (int_of 2) m) in
      let r = kill_pids send pids w x.fatal_signal_pending in
      (
        (
          r.0,
          record x {
            fatal_signal_pending = r.1;
            ignores_sigchld = λ t. if t == me then true else x.ignores_sigchld t;
            group_exit_code = λ g.
                if g == w.signal me
                then (if x.reboot id == 0 then x.group_exit_code g else x.reboot id)
                else x.group_exit_code g;
          },
          set_space T.ops id (some (record ns { pid_allocated = ns.pid_allocated % 2 ^ 31 })) s,
        ),
        rw (
          at,
          ◌>>=◌,
          ==_self id,
          ◌>>=◌,
          T.iterate_lem ns.table m (int_of 2) held,
          ◌>>=◌,
          reaped,
          ◌>>=◌,
          left,
        ),
        (
          rw at,
          rw (==_self (w.signal me)),
          λ k p t le e u task.
              kill_pids-pending send i pids w x.fatal_signal_pending p t
                (until_reserved-from (int_of 2) k p m order le e u) task,
          λ t killed.
              let (off, (p, there, task)) =
                kill_pids-killed send i pids w x.fatal_signal_pending t killed in
              let (k, le, e, u) = from-until_reserved (int_of 2) p m order there in
              (off, (k, p, le, e, u, task)),
        ),
      )

exit_signal_pos : (cmd : RebootCmd) → cmd ≢ other → (exit_signal cmd == 0) ≡ false
exit_signal_pos restart2 known = refl
exit_signal_pos restart known = refl
exit_signal_pos power_off known = refl
exit_signal_pos halt known = refl
exit_signal_pos other known = absurd (known refl)

reboot_pid_ns-exited :
    (send : TaskId → (TaskId → Bool) → TaskId → Bool) (id : NsId) (cmd : RebootCmd) (x : Exits)
    → (id == init_pid_ns) ≡ false
    → cmd ≢ other
    → reboot_pid_ns send id cmd x ≡ (
      exited,
      record x {
        reboot = λ j. if j == id then exit_signal cmd else x.reboot j;
        fatal_signal_pending = send (x.child_reaper id) x.fatal_signal_pending;
      },
    )
unfolding reboot_pid_ns
reboot_pid_ns-exited send id restart2 x e known = rw e
reboot_pid_ns-exited send id restart x e known = rw e
reboot_pid_ns-exited send id power_off x e known = rw e
reboot_pid_ns-exited send id halt x e known = rw e
reboot_pid_ns-exited send id other x e known = absurd (known refl)

-- If a task that is sent SIGKILL has it pending and other tasks keep it, then `reboot_pid_ns` of a
-- namespace other than the initial one, with a command that it knows, ends the task that calls it
-- and leaves the reaper of the namespace with SIGKILL pending; and if then the table of the
-- namespace holds a map, `kernel_wait4` returns -ECHILD at some point and `pid_allocated` gets to
-- the number awaited, then `zap_pid_ns_processes` of the reaper returns, and its exit code is
-- SIGHUP for a restart, and SIGINT for a halt or power-off.
pub reboot_pid_ns-zap_pid_ns_processes :
    (send : TaskId → (TaskId → Bool) → TaskId → Bool) (i : IsSend send) (T : PidTable)
    (cmd : RebootCmd) (leader : Bool) (id : NsId) (rcs : List ℤ) (seen : List ℕ) (w : Tasks)
    (x : Exits) (s : System T.ops) (ns : Namespace T.ops) (m : PidMap)
    → id ≢ init_pid_ns
    → cmd ≢ other
    → s.spaces id ≡ some ns
    → T.Holds ns.table m
    → wait_children rcs ≡ some tt
    → wait_allocated (if leader then 1 else 2) seen ≡ some tt
    → let (b, x₁) = reboot_pid_ns send id cmd x in
      (b ≡ exited)
      × (x₁.fatal_signal_pending (x.child_reaper id) ≡ true)
      × Returns
          (zap_pid_ns_processes send T.ops leader (x.child_reaper id) id rcs seen w x₁ s)
          λ r. r.1.group_exit_code (w.signal (x.child_reaper id)) ≡ exit_signal cmd
reboot_pid_ns-zap_pid_ns_processes send i T cmd leader id rcs seen w x s ns m child known at held
      reaped left =
    let sig = exit_signal cmd in
    let x₁ = record x {
      reboot = λ j. if j == id then sig else x.reboot j;
      fatal_signal_pending = send (x.child_reaper id) x.fatal_signal_pending;
    } in
    let (r, run, (_, code, _, _)) =
      zap_pid_ns_processes-find send i T leader (x.child_reaper id) id rcs seen w x₁ s ns m at held
        reaped left in
    rw (reboot_pid_ns-exited send id cmd x (==_ne id init_pid_ns child) known) (
      refl,
      i.sent (x.child_reaper id) x.fatal_signal_pending,
      (r, run, rw (==_self id, exit_signal_pos cmd known) at code),
    )
