-- ===== src/PidNamespace/Zap/Zapped.antt =====
-- Which tasks the end of a namespace kills, and how a reboot shows.
use linux_kernel_code_projec.Base.{
  ◌≡◌, inl, inr, Bool, true, false, some, List, [], ◌∷◌, ◌==◌, arith, Bool-cases, Option-cases,
  ==_eq, ==_self,
}
use linux_kernel_code_projec.Store.{PidRef}
use linux_kernel_code_projec.PidMap.Until.{has}
use linux_kernel_code_projec.Pid.Tasks.{TaskId, Tasks, pidtype_pid, pid_task}
use linux_kernel_code_projec.PidNamespace.Zap.{kill_pids}

-- A task to which SIGKILL is sent has it pending, and the others keep it.
pub record IsSend (send : TaskId → (TaskId → Bool) → TaskId → Bool) : Type 0 where
  pub sent : (t : TaskId) (pending : TaskId → Bool) → send t pending t ≡ true
  pub kept : (t u : TaskId) (pending : TaskId → Bool) → pending u ≡ true → send t pending u ≡ true

module _ (send : TaskId → (TaskId → Bool) → TaskId → Bool) (i : IsSend send) where
  kill_pids-kept :
      (ps : List PidRef) (w : Tasks) (pending : TaskId → Bool) (u : TaskId)
      → pending u ≡ true
      → (kill_pids send ps w pending).1 u ≡ true
  unfolding kill_pids
  kill_pids-kept [] w pending u e = e
  kill_pids-kept (p ∷ ps) w pending u e = elim (Option-cases (pid_task (some p) pidtype_pid w)) [
    | inl off ↦ rw (kill_pids, off) (kill_pids-kept ps w pending u e)
    | inr (t, at) ↦ elim (Bool-cases (pending t)) [
      | inl y ↦ rw (kill_pids, at, y) (kill_pids-kept ps w pending u e)
      | inr n ↦
          rw (kill_pids, at, n) (kill_pids-kept ps w (send t pending) u (i.kept t u pending e))
    ]
  ]

  pub kill_pids-pending :
      (ps : List PidRef) (w : Tasks) (pending : TaskId → Bool) (p : PidRef) (u : TaskId)
      → has p ps ≡ true
      → pid_task (some p) pidtype_pid w ≡ some u
      → (kill_pids send ps w pending).1 u ≡ true
  unfolding kill_pids
  kill_pids-pending [] w pending p u e at = cc
  kill_pids-pending (q ∷ ps) w pending p u e at = elim (Bool-cases (p == q)) [
    | inl y ↦
        let at' : pid_task (some q) pidtype_pid w ≡ some u = rw (← ==_eq p q y) at in
        elim (Bool-cases (pending u)) [
          | inl on ↦ rw (kill_pids, at', on) (kill_pids-kept ps w pending u on)
          | inr n ↦
              rw (kill_pids, at', n) (kill_pids-kept ps w (send u pending) u (i.sent u pending))
        ]
    | inr m ↦
        let e' : has p ps ≡ true = rw m at e in
        elim (Option-cases (pid_task (some q) pidtype_pid w)) [
          | inl off ↦ rw (kill_pids, off) (kill_pids-pending ps w pending p u e' at)
          | inr (t, there) ↦ elim (Bool-cases (pending t)) [
            | inl y ↦ rw (kill_pids, there, y) (kill_pids-pending ps w pending p u e' at)
            | inr n ↦ rw (kill_pids, there, n) (kill_pids-pending ps w (send t pending) p u e' at)
          ]
        ]
  ]

  pub kill_pids-killed :
      (ps : List PidRef) (w : Tasks) (pending : TaskId → Bool) (u : TaskId)
      → has u (kill_pids send ps w pending).0 ≡ true
      → (pending u ≡ false)
        × ((p : PidRef) × (has p ps ≡ true) × (pid_task (some p) pidtype_pid w ≡ some u))
  unfolding kill_pids
  kill_pids-killed [] w pending u e = cc
  kill_pids-killed (q ∷ ps) w pending u e =
      let behind : (f : TaskId → Bool)
          → has u (kill_pids send ps w f).0 ≡ true
          → (f u ≡ false)
            × ((p : PidRef) × (has p (q ∷ ps) ≡ true)
                × (pid_task (some p) pidtype_pid w ≡ some u)) =
        λ f there.
          let (off, (p, seen, at)) = kill_pids-killed ps w f u there in
          (off, (p, ground (arith, seen), at)) in
      elim (Option-cases (pid_task (some q) pidtype_pid w)) [
        | inl off ↦ behind pending (rw (kill_pids, off) at e)
        | inr (t, at) ↦ elim (Bool-cases (pending t)) [
          | inl y ↦ behind pending (rw (kill_pids, at, y) at e)
          | inr n ↦
              let e' = rw (kill_pids, at, n) at e in
              elim (Bool-cases (u == t)) [
                | inl y ↦
                    let same = ==_eq u t y in
                    (rw same n, (q, rw (==_self q) (ground arith), rw same at))
                | inr m ↦
                    let (off, found) = behind (send t pending) (rw m at e') in
                    (
                      elim (Bool-cases (pending u)) [
                        | inr off' ↦ off'
                        | inl on ↦ let still = i.kept t u pending on in cc
                      ],
                      found,
                    )
              ]
        ]
      ]
