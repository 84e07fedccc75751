-- ===== src/Tests/PidRuns.antt =====
-- The allocation of numbers on an empty namespace with a skip list.
use linux_kernel_code_projec.Base.{ℕ, ◌+◌, ◌^◌, refl, none, [], arith, false, pos}
use linux_kernel_code_projec.Base.Run.{Returns}
use linux_kernel_code_projec.Skiplist.View.{contents}
use linux_kernel_code_projec.Skiplist.AsTable.{
  Located, Request, HoldsMap, skiplist_ops, skiplist_table,
}
use linux_kernel_code_projec.Pid.{Namespace, scan, alloc_nr}
use linux_kernel_code_projec.Pid.Scan.{Scanned, scan-Scanned}
use linux_kernel_code_projec.Pid.Number.{Numbered, alloc_nr-Numbered}
use linux_kernel_code_projec.Tests.SkiplistRuns.{memory, heap, list, list-IsList}

abbrev pub table : Located
table = record { heap = heap; list = list; bound = 1 }

pub table-HoldsMap : HoldsMap table []
unfolding contents
table-HoldsMap = record {
  header = 1;
  nodes = [];
  valid = list-IsList;
  map = refl;
  short = omega arith;
}

abbrev pub request : ℕ → Request
request j = record { random = 0x10; memory = memory (j + 2) }

abbrev pub init_ns : Namespace skiplist_ops
init_ns = record {
  table = table;
  last_pid = 0;
  pid_allocated = 2 ^ 31;
  level = 0;
  parent = none;
  kref = 2;
}

scan-Scanned_example :
    Returns
      (scan skiplist_ops request 3 1 table (pos 0))
      (Scanned skiplist_table request [] 3 1 table)
scan-Scanned_example =
    scan-Scanned skiplist_table request [] 3 1 table (pos 0) table-HoldsMap (λ j x e. ground arith)

alloc_nr-Numbered_example :
    Returns
      (alloc_nr skiplist_ops 4 request request init_ns (pos 0))
      (Numbered skiplist_table 4 request request [] init_ns)
alloc_nr-Numbered_example =
    alloc_nr-Numbered skiplist_table 4 request request [] init_ns (pos 0) table-HoldsMap
      (λ j x e. ground arith) (λ j x e. ground arith)

-- The allocator has no memory, and none is asked for.
abbrev pub no_request : ℕ → Request
no_request j = record { random = 0; memory = record { node = none; array = false } }
