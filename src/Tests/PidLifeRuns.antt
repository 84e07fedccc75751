-- ===== src/Tests/PidLifeRuns.antt =====
-- Pids in the initial namespace.
use linux_kernel_code_projec.Base.{
  ◌≡◌, ◌≢◌, refl, subst, inl, inr, none, some, [], ◌∷◌, arith, true, false, pos, ◌==◌,
  if◌then◌else◌, Bool-cases,
}
use linux_kernel_code_projec.Base.Run.{◌>>=◌, Returns}
use linux_kernel_code_projec.Store.{PidRef, int_of}
use linux_kernel_code_projec.PidMap
use linux_kernel_code_projec.PidMap.{PidMap}
use linux_kernel_code_projec.Skiplist.Insert.Node.{IsFresh}
use linux_kernel_code_projec.Skiplist.AsTable.{
  Request, HoldsMap, table_insert, table_insert_lem, table_lookup_lem, skiplist_ops, skiplist_table,
}
use linux_kernel_code_projec.Pid.{Namespace}
use linux_kernel_code_projec.Pid.Find.{PidStruct, find_pid_ns}
use linux_kernel_code_projec.Pid.Alloc.{pid_ptr, System, Requests, alloc_pid, init_pid_ns}
use linux_kernel_code_projec.Pid.Free.{free_pid, disable_pid_allocation}
use linux_kernel_code_projec.Pid.Handles.{pidfd_open}
use linux_kernel_code_projec.Pid.Handles.Counted.{pidfd_open-count}
use linux_kernel_code_projec.Pid.Maps.{erase_all, HoldsAll}
use linux_kernel_code_projec.Pid.Free.Released.{free_pid-HoldsAll, disable-alloc_pid}
use linux_kernel_code_projec.Tests.PidRuns.{table, table-HoldsMap, request, no_request, init_ns}

abbrev pub system : System skiplist_ops
system = record { spaces = λ id. if id == 0 then some init_ns else none; pids = λ p. none }

abbrev pub requests : Requests skiplist_ops
requests = record { first = λ i. request; second = λ i. request; last = λ id. no_request 0 }

disable-alloc_pid_example :
    Returns
      (disable_pid_allocation skiplist_ops init_pid_ns system
        >>= alloc_pid skiplist_ops 4 requests (some 70) false init_pid_ns)
      (λ r. (q : PidRef) → r.0 ≢ pid_ptr q)
disable-alloc_pid_example =
    disable-alloc_pid skiplist_table 4 requests 70 false system init_ns [] refl refl table-HoldsMap
      (λ j x e. ground arith) (λ j x e. ground arith)

-- The pid 70 has the number 1.
abbrev pub used_map : PidMap
used_map = (int_of 1, some 70) ∷ []

abbrev pub used : Returns (table_insert (request 0) table (int_of 1) (some 70)) λ r.
    (r.0 ≡ pos 0)
    × HoldsMap r.1 used_map
    × (true ≡ false → (b : Request) → IsFresh b.memory table.heap → IsFresh b.memory r.1.heap)
unfolding PidMap.find PidMap.insert
used =
    table_insert_lem (request 0) table [] (int_of 1) (some 70) table-HoldsMap
      (λ _ x e. ground arith)

abbrev pub used_ns : Namespace skiplist_ops
used_ns = record init_ns { table = used.0.1 }

seen : find_pid_ns skiplist_ops 1 used_ns ≡ some (some 70)
unfolding find_pid_ns PidMap.find
seen = table_lookup_lem used.0.1 used_map (int_of 1) used.2.1

abbrev pub init_struct : PidStruct
init_struct = record { count = 1; level = 0; numbers = record { nr = 1; ns = 0 } ∷ [] }

abbrev pub used_system : System skiplist_ops
used_system = record {
  spaces = λ id. if id == 0 then some used_ns else none;
  pids = λ p. if p == 70 then some init_struct else none;
}

pub used_system-HoldsAll : HoldsAll skiplist_table (λ id. used_map) used_system
used_system-HoldsAll id ns e = elim (Bool-cases (id == 0)) [
  | inl y ↦
      let e' = rw y at e in
      let same : used_ns ≡ ns = cc in subst (λ s. HoldsMap s.table used_map) same used.2.1
  | inr q ↦ let e' = rw q at e in cc
]

free_pid-HoldsAll_example :
    Returns
      (free_pid skiplist_ops 70 used_system)
      (λ r. HoldsAll skiplist_table (erase_all init_struct.numbers (λ id. used_map)) r.0)
free_pid-HoldsAll_example =
    free_pid-HoldsAll skiplist_table 70 init_struct used_system (λ id. used_map) refl
      used_system-HoldsAll (refl, tt)

pidfd_open-count_example :
    Returns
      (pidfd_open skiplist_ops (pos 3) (λ p. true) 0 (pos 1) 0 used_system)
      λ r. (r.0 ≡ pos 3) × (r.1.pids 70 ≡ some (record init_struct { count = 2 }))
pidfd_open-count_example =
    pidfd_open-count skiplist_ops 70 (pos 3) (λ p. true) 0 1 used_system used_ns init_struct
      (record { nr = 1; ns = 0 }) refl seen refl refl (omega arith) (omega arith)
