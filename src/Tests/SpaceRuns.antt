-- ===== src/Tests/SpaceRuns.antt =====
-- New namespaces below the initial one.
use linux_kernel_code_projec.Base.{false, ◌⊎◌, ◌+◌, ◌≡◌, refl, some, arith, true, false, pos}
use linux_kernel_code_projec.Base.Run.{Returns}
use linux_kernel_code_projec.Skiplist.AsTable.{skiplist_ops, skiplist_table}
use linux_kernel_code_projec.PidNamespace.{
  SpaceUse, set_cell, ns_ptr, Answers, create_pid_namespace,
}
use linux_kernel_code_projec.PidNamespace.Created.{Child, held_parent, create_pid_namespace-Child}
use linux_kernel_code_projec.Pid.{NsId}
use linux_kernel_code_projec.PidNamespace.GaveBack.{GaveBack, create_pid_namespace-GaveBack}
use linux_kernel_code_projec.Tests.PidRuns.{request, init_ns}
use linux_kernel_code_projec.Tests.PidLifeRuns.{system}

abbrev answers : Answers skiplist_ops
answers = record {
  in_userns = true;
  ucounts = true;
  cell = some 1;
  header = request 0;
  cachep = true;
  inum = pos 0;
}

abbrev no_use : SpaceUse
no_use = record { ucounts = 0; in_use = λ id. false }

create_pid_namespace-Child_example :
    Returns (create_pid_namespace skiplist_ops answers 0 no_use system) λ r.
      (r.0 ≡ ns_ptr 1)
      × Child skiplist_table 0 1 init_ns r.2
      × (r.2.spaces 0 ≡ some (held_parent skiplist_table 0 init_ns))
      × (r.1 ≡ set_cell 1 true (record no_use { ucounts = 1 }))
create_pid_namespace-Child_example =
    create_pid_namespace-Child skiplist_table answers 0 init_ns system refl refl no_use 1
      (ground arith) refl refl

-- Without memory for the cache of pids
abbrev refused : Answers skiplist_ops
refused = record answers { cachep = false }

create_pid_namespace-GaveBack_example :
    Returns (create_pid_namespace skiplist_ops refused 0 no_use system) λ r.
      ((id : NsId) × (some 1 ≡ some id)
        × (r.0 ≡ ns_ptr id)
        × (r.1.ucounts ≡ 0 + 1)
        × (r.1.in_use id ≡ true))
      ⊎ GaveBack skiplist_table refused 0 init_ns system refl refl no_use r
create_pid_namespace-GaveBack_example =
    create_pid_namespace-GaveBack skiplist_table refused 0 init_ns system refl refl no_use
      (λ id e. refl)
