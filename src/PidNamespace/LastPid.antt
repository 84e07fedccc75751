-- ===== src/PidNamespace/LastPid.antt =====
-- skiplist/pid_namespace.c, skiplist/pid_namespace.h and skiplist/loadavg.c: the last number that a
-- namespace gave out, as /proc/sys/kernel/ns_last_pid and /proc/loadavg show it.
use linux_kernel_code_projec.Base.{
  ℕ, zero, suc, ◌+◌, ◌<◌, ◌≡◌, sym, ap, ◌∙◌, Bool, true, ◌&&◌, not, Option, none, some,
  if◌then◌else◌, ==_self, arith, ℤ, pos, negsuc,
}
use linux_kernel_code_projec.Base.Run.{◌>>=◌, Returns}
use linux_kernel_code_projec.Store.{int_of}
use linux_kernel_code_projec.PidMap
use linux_kernel_code_projec.PidMap.{PidMap, find, find-insert}
use linux_kernel_code_projec.PidTable.{TableOps, PidTable}
use linux_kernel_code_projec.Pid.{NsId, Namespace, is_zero, alloc_nr}
use linux_kernel_code_projec.Pid.Scan.{invisible}
use linux_kernel_code_projec.Pid.Number.{
  Numbered, alloc_nr-Numbered, cyclic_fit-next, cyclic_fit-bounds,
}
use linux_kernel_code_projec.Pid.Choice.{alloc_nr-reserved}
use linux_kernel_code_projec.Pid.Alloc.{System, set_space}
use linux_kernel_code_projec.Pid.Handles.{pid_ns_get_cursor}
use linux_kernel_code_projec.PidNamespace.Install.{minus_eperm}

-- `n - 1` of a C int
abbrev pub pred_int : ℕ → ℤ
pred_int zero = negsuc 0
pred_int (suc n) = pos n

module _ (T : TableOps) where
  -- The last number that `loadavg_proc_show` prints
  unfoldable pub loadavg_last_pid : Namespace T → ℤ
  loadavg_last_pid ns = pred_int (pid_ns_get_cursor T ns)

  -- `pid_ns_ctl_handler` for the namespace of the running task. `proc` is `proc_dointvec_minmax`: from
  -- whether it writes and the number that it shows, to what it returns and the number afterwards.
  unfoldable pub pid_ns_ctl_handler :
      Bool → Bool → (Bool → ℕ → ℤ × ℕ) → NsId → System T → Option (ℤ × System T)
  pid_ns_ctl_handler capable write proc id w =
      if write && not capable then (do _ ← w.spaces id; some (minus_eperm, w)) else (do
        ns ← w.spaces id
        let (ret, next) = proc write ns.last_pid
        if is_zero ret && write
            then some (ret, set_space T id (some (record ns { last_pid = next })) w)
            else some (ret, w))

module _ (T : PidTable) (pid_max : ℕ) (mem mem' : ℕ → T.ops.Memory) where
  -- If a task with the capability writes a number to ns_last_pid of a namespace, the number after
  -- it is below `pid_max` and shows no pid, and memory is there for it and unused, then the next
  -- search in the namespace takes exactly the number after it, and makes it the last one.
  pub pid_ns_ctl_handler-alloc_nr :
      (proc : Bool → ℕ → ℤ × ℕ) (id : NsId) (w : System T.ops) (ns : Namespace T.ops) (m : PidMap)
      (n : ℕ) (ret : ℤ)
      → w.spaces id ≡ some ns
      → proc true ns.last_pid ≡ (pos 0, n)
      → n + 1 < pid_max
      → T.Holds ns.table m
      → ((j : ℕ) → T.Unused (mem j) ns.table)
      → ((j : ℕ) → T.Unused (mem' j) ns.table)
      → T.enough (mem (n + 1)) ≡ true
      → invisible m (n + 1) ≡ true
      → Returns
          (pid_ns_ctl_handler T.ops true true proc id w >>= λ r.
            r.1.spaces id >>= λ s. alloc_nr T.ops pid_max mem mem' s ret)
          (λ r. (r.0 ≡ some (n + 1)) × (r.1.last_pid ≡ n + 1))
  unfolding pid_ns_ctl_handler
  pid_ns_ctl_handler-alloc_nr proc id w ns m n ret at wrote lt held u u' memory free =
      let ns₁ = record ns { last_pid = n } in
      let (r, run, t) = alloc_nr-Numbered T pid_max mem mem' m ns₁ ret held u u' in
      let nr : r.0 ≡ some (n + 1) =
        t.nr ∙ cyclic_fit-next T pid_max mem mem' n m lt (ground arith) in
      (r, rw (at, ◌>>=◌, wrote, ==_self id, ◌>>=◌) run, (nr, rw nr at t.last_pid))

  -- On a table that holds a map, with memory that is unused, the search for a number returns, and
  -- if it takes a number, then the cursor of the namespace is this number, but /proc/loadavg
  -- prints the number before it.
  pub alloc_nr-loadavg_last_pid :
      (m : PidMap) (ns : Namespace T.ops) (ret : ℤ)
      → T.Holds ns.table m
      → ((j : ℕ) → T.Unused (mem j) ns.table)
      → ((j : ℕ) → T.Unused (mem' j) ns.table)
      → Returns (alloc_nr T.ops pid_max mem mem' ns ret) λ r.
        (j : ℕ)
        → r.0 ≡ some (j + 1)
        → (pid_ns_get_cursor T.ops r.1 ≡ j + 1) × (loadavg_last_pid T.ops r.1 ≡ pos j)
  unfolding loadavg_last_pid pid_ns_get_cursor
  alloc_nr-loadavg_last_pid m ns ret held u u' =
      let (r, run, t) = alloc_nr-Numbered T pid_max mem mem' m ns ret held u u' in
      (
        r,
        run,
        λ j e.
            let last : r.1.last_pid ≡ j + 1 = rw e at t.last_pid in
            let one : j + 1 ≡ suc j = omega arith in (last, rw (last, one)),
      )

  -- If `pid_max` is above 1, the table of a namespace holds a map, memory is unused, the search of
  -- one `alloc_pid` takes a number, and before the pid is published a task with the capability
  -- writes the number before it to ns_last_pid, then the search of another `alloc_pid` in the
  -- namespace, with memory that is unused, returns and takes the same number.
  pub alloc_nr-pid_ns_ctl_handler :
      (mem₂ mem₂' : ℕ → T.ops.Memory) (proc : Bool → ℕ → ℤ × ℕ) (id : NsId) (w : System T.ops)
      (m : PidMap) (ns : Namespace T.ops) (ret : ℤ) (n : ℕ) (r : Option ℕ × Namespace T.ops × ℤ)
      → T.Holds ns.table m
      → ((j : ℕ) → T.Unused (mem j) ns.table)
      → ((j : ℕ) → T.Unused (mem' j) ns.table)
      → alloc_nr T.ops pid_max mem mem' ns ret ≡ some r
      → r.0 ≡ some (n + 1)
      → 1 < pid_max
      → proc true (n + 1) ≡ (pos 0, n)
      → ((j : ℕ) → T.Unused (mem₂ j) r.1.table)
      → ((j : ℕ) → T.Unused (mem₂' j) r.1.table)
      → Returns
          (pid_ns_ctl_handler T.ops true true proc id (set_space T.ops id (some r.1) w) >>= λ s.
            s.1.spaces id >>= λ s'. alloc_nr T.ops pid_max mem₂ mem₂' s' ret)
          (λ q. q.0 ≡ r.0)
  unfolding pid_ns_ctl_handler
  alloc_nr-pid_ns_ctl_handler mem₂ mem₂' proc id w m ns ret n r held u u' run nr lt wrote u₂ u₂' =
      let (r', run', t) = alloc_nr-Numbered T pid_max mem mem' m ns ret held u u' in
      let same : some r' ≡ some r = cc in
      let e : r' ≡ r = ap (λ o. elim o [ none ↦ r' | some x ↦ x ]) same in
      let t' : Numbered T pid_max mem mem' m ns r = rw (← e) t in
      let (_, high, _) =
        cyclic_fit-bounds T pid_max mem mem' ns.last_pid m (n + 1) lt (sym t'.nr ∙ nr) in
      let holds : T.Holds r.1.table (PidMap.insert (int_of (n + 1)) none m) = rw nr at t'.holds in
      let last : r.1.last_pid ≡ n + 1 = rw nr at t'.last_pid in
      let ns₂ = record r.1 { last_pid = n } in
      let kept : find (int_of (n + 1)) (PidMap.insert (int_of (n + 1)) none m) ≡ some none =
        find-insert (int_of (n + 1)) (int_of (n + 1)) none m ∙ rw (==_self (int_of (n + 1))) in
      let (q, run₂, same_nr) =
        alloc_nr-reserved T pid_max mem₂ mem₂' (PidMap.insert (int_of (n + 1)) none m) ns₂ ret holds
          u₂ u₂' high kept in
      (q, rw (==_self id, ◌>>=◌, last, wrote, ==_self id, ◌>>=◌) run₂, same_nr ∙ rw nr)
