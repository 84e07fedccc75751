-- ===== src/Tests/EnterRuns.antt =====
-- A namespace of level 1 below the initial one: entering it, letting it go, and its last number.
use linux_kernel_code_projec.Base.{
  ℕ, ◌≡◌, refl, some, [], ◌+◌, ◌-◌, arith, true, false, Bool, pos, ◌⊎◌, inl, inr, ℤ,
}
use linux_kernel_code_projec.Base.Run.{◌>>=◌, Returns}
use linux_kernel_code_projec.PidMap
use linux_kernel_code_projec.PidMap.{PidMap}
use linux_kernel_code_projec.Skiplist.AsTable.{skiplist_ops, skiplist_table}
use linux_kernel_code_projec.Pid.{NsId, Namespace, start_pid, alloc_nr}
use linux_kernel_code_projec.Pid.Scan.{first_fit}
use linux_kernel_code_projec.Pid.Number.{Numbered, cyclic_fit, alloc_nr-Numbered}
use linux_kernel_code_projec.Pid.Alloc.{set_space, put_pid_ns, get_pid_ns}
use linux_kernel_code_projec.Pid.Handles.{pid_ns_get_cursor}
use linux_kernel_code_projec.PidNamespace.Ancestry.{Ancestry, IsUnder}
use linux_kernel_code_projec.PidNamespace.LetGo.{LetsGo, put_pid_ns-LetsGo}
use linux_kernel_code_projec.PidNamespace.Install.{minus_eperm, pidns_install, pidns_get_parent}
use linux_kernel_code_projec.PidNamespace.Entered.{
  Installed, pidns_install-Installed, pidns_get_parent-IsUnder,
}
use linux_kernel_code_projec.PidNamespace.LastPid.{
  pid_ns_ctl_handler, loadavg_last_pid, pid_ns_ctl_handler-alloc_nr, alloc_nr-pid_ns_ctl_handler,
  alloc_nr-loadavg_last_pid,
}
use linux_kernel_code_projec.Tests.PidRuns.{table-HoldsMap, no_request, request, init_ns}
use linux_kernel_code_projec.Tests.LevelRuns.{child_ns, levels, no_pids, levels-HoldsAll}

init-Ancestry : Ancestry skiplist_ops levels 0 0
init-Ancestry = (init_ns, refl, refl, refl, refl)

child-Ancestry : Ancestry skiplist_ops levels 1 1
child-Ancestry = (
  child_ns,
  refl,
  refl,
  (λ e. omega arith),
  omega arith,
  0,
  refl,
  (init_ns, refl, refl, refl, refl),
)

put_pid_ns-LetsGo_example :
    Returns (put_pid_ns skiplist_ops 2 1 levels) (LetsGo skiplist_ops levels 1 1)
put_pid_ns-LetsGo_example =
    put_pid_ns-LetsGo skiplist_table 1 1 levels no_pids child-Ancestry levels-HoldsAll

pidns_install-Installed_example :
    Returns
      (pidns_install skiplist_ops true true 0 0 1 levels)
      (Installed skiplist_table true true 0 0 0 1 levels)
pidns_install-Installed_example =
    pidns_install-Installed skiplist_table true true 0 0 1 levels no_pids 0 0 1 init-Ancestry
      init-Ancestry child-Ancestry
      (λ ns e. let same : child_ns ≡ ns = cc in rw (← same) (omega arith)) levels-HoldsAll

pidns_get_parent-IsUnder_example : Returns (pidns_get_parent skiplist_ops 0 1 levels) λ r.
    ((parent : NsId) × (r.0 ≡ inr parent)
      × IsUnder skiplist_ops levels parent 0
      × ((ns : Namespace skiplist_ops) → levels.spaces 1 ≡ some ns → ns.parent ≡ some parent)
      × (get_pid_ns skiplist_ops parent levels ≡ some r.1))
    ⊎ ((r ≡ (inl minus_eperm, levels))
        × ((ns : Namespace skiplist_ops) (parent : NsId)
            → levels.spaces 1 ≡ some ns
            → ns.parent ≡ some parent
            → ¬ IsUnder skiplist_ops levels parent 0))
pidns_get_parent-IsUnder_example =
    pidns_get_parent-IsUnder skiplist_table 0 1 levels 1 child-Ancestry

-- A write of 1, and a read.
abbrev write_one : Bool → ℕ → ℤ × ℕ
write_one true n = (pos 0, 1)
write_one false n = (pos 0, n)

pid_ns_ctl_handler-alloc_nr_example :
    Returns
      (pid_ns_ctl_handler skiplist_ops true true write_one 0 levels >>= λ r.
        r.1.spaces 0 >>= λ s. alloc_nr skiplist_ops 4 request request s (pos 0))
      (λ r. (r.0 ≡ some 2) × (r.1.last_pid ≡ 2))
unfolding PidMap.find
pid_ns_ctl_handler-alloc_nr_example =
    pid_ns_ctl_handler-alloc_nr skiplist_table 4 request request write_one 0 levels init_ns [] 1
      (pos 0) refl refl (omega arith) table-HoldsMap (λ j x e. ground arith) (λ j x e. ground arith)
      refl refl

alloc_nr-loadavg_last_pid_example :
    Returns (alloc_nr skiplist_ops 4 request request init_ns (pos 0)) λ r.
      (j : ℕ)
      → r.0 ≡ some (j + 1)
      → (pid_ns_get_cursor skiplist_ops r.1 ≡ j + 1) × (loadavg_last_pid skiplist_ops r.1 ≡ pos j)
alloc_nr-loadavg_last_pid_example =
    alloc_nr-loadavg_last_pid skiplist_table 4 request request [] init_ns (pos 0) table-HoldsMap
      (λ j x e. ground arith) (λ j x e. ground arith)

-- The first search takes 1.
abbrev first_search :
    Returns
      (alloc_nr skiplist_ops 4 request request init_ns (pos 0))
      (Numbered skiplist_table 4 request request [] init_ns)
first_search =
    alloc_nr-Numbered skiplist_table 4 request request [] init_ns (pos 0) table-HoldsMap
      (λ j x e. ground arith) (λ j x e. ground arith)

first_search_nr : first_search.0.0 ≡ some 1
unfolding cyclic_fit first_fit start_pid PidMap.find
first_search_nr = first_search.2.nr

abbrev write_back : Bool → ℕ → ℤ × ℕ
write_back true n = (pos 0, n - 1)
write_back false n = (pos 0, n)

alloc_nr-pid_ns_ctl_handler_example :
    Returns
      (pid_ns_ctl_handler skiplist_ops true true write_back 0
          (set_space skiplist_ops 0 (some first_search.0.1) levels)
        >>= λ s. s.1.spaces 0 >>= λ s'. alloc_nr skiplist_ops 4 no_request no_request s' (pos 0))
      (λ q. q.0 ≡ first_search.0.0)
alloc_nr-pid_ns_ctl_handler_example =
    alloc_nr-pid_ns_ctl_handler skiplist_table 4 request request no_request no_request write_back 0
      levels [] init_ns (pos 0) 0 first_search.0 table-HoldsMap (λ j x e. ground arith)
      (λ j x e. ground arith) first_search.1 first_search_nr (omega arith) refl (λ j x e. cc)
      (λ j x e. cc)
