-- ===== src/Tests/LevelRuns.antt =====
-- A pid in two namespaces, of level 0 and 1.
use linux_kernel_code_projec.Base.{
  zero, suc, ◌≡◌, ◌≢◌, refl, List, none, some, [], arith, true, false, length, Option,
}
use mathlib.Core.List.{map}
use linux_kernel_code_projec.Base.Run.{Returns}
use linux_kernel_code_projec.PidMap.{PidMap}
use linux_kernel_code_projec.Skiplist.AsTable.{skiplist_ops, skiplist_table}
use linux_kernel_code_projec.Pid.{NsId, Namespace}
use linux_kernel_code_projec.Pid.Find.{Upid}
use linux_kernel_code_projec.Pid.Alloc.{pid_ptr, System, alloc_pid}
use linux_kernel_code_projec.Pid.Maps.{HoldsAll}
use linux_kernel_code_projec.Pid.Nested.{Chain}
use linux_kernel_code_projec.Pid.Spaces.{spaces_from}
use linux_kernel_code_projec.Pid.Free.{free_pid}
use linux_kernel_code_projec.Pid.EveryLevel.{AtEveryLevel, alloc_pid-AtEveryLevel}
use linux_kernel_code_projec.Pid.RoundTrip.{
  SameFound, Unreserved, alloc_pid-free_pid, alloc_pid-SameFound,
}
use linux_kernel_code_projec.Tests.PidRuns.{table-HoldsMap, init_ns}
use linux_kernel_code_projec.Pid.Tasks.{attach_pid}
use linux_kernel_code_projec.Pid.Tasks.Seen.{IsSeen, FindsItself, alloc_pid-find_task_by_pid_ns}
use linux_kernel_code_projec.Tests.PidLifeRuns.{requests}
use linux_kernel_code_projec.Tests.TaskRuns.{new_tasks}

abbrev pub child_ns : Namespace skiplist_ops
child_ns = record init_ns { level = 1; parent = some 0; kref = 2 }

abbrev space_of : NsId → Option (Namespace skiplist_ops)
space_of zero = some init_ns
space_of (suc zero) = some child_ns
space_of (suc (suc i)) = none

abbrev pub levels : System skiplist_ops
levels = record { spaces = space_of; pids = λ p. none }

abbrev pub no_pids : NsId → PidMap
no_pids id = []

pub levels-HoldsAll : HoldsAll skiplist_table no_pids levels
levels-HoldsAll zero ns e = let same : init_ns ≡ ns = cc in rw (← same) table-HoldsMap
levels-HoldsAll (suc zero) ns e = let same : child_ns ≡ ns = cc in rw (← same) table-HoldsMap
levels-HoldsAll (suc (suc i)) ns e = cc

levels-Chain : Chain skiplist_table 4 requests levels 2 (some 1)
levels-Chain = (
  1,
  child_ns,
  refl,
  refl,
  refl,
  (λ j x e. ground arith),
  (λ j x e. ground arith),
  (0, init_ns, refl, refl, refl, (λ j x e. ground arith), (λ j x e. ground arith), tt),
)

alloc_pid-AtEveryLevel_example :
    Returns
      (alloc_pid skiplist_ops 4 requests (some 70) false 1 levels)
      (AtEveryLevel skiplist_table 4 requests 70 false 1 levels child_ns no_pids)
alloc_pid-AtEveryLevel_example =
    alloc_pid-AtEveryLevel skiplist_table 4 requests 70 false 1 child_ns no_pids levels
      (omega arith) (omega arith) refl levels-Chain levels-HoldsAll

alloc_pid-find_task_by_pid_ns_example :
    Returns (alloc_pid skiplist_ops 4 requests (some 70) false 1 levels) λ r.
      r.0 ≡ pid_ptr 70
      → (nums : List Upid) × (length nums ≡ 2)
        × (map (λ u. u.ns) nums ≡ spaces_from skiplist_table levels 2 (some 1))
        × Returns
            (attach_pid 5 0 new_tasks)
            λ w. IsSeen skiplist_table 5 nums w r.1 × FindsItself skiplist_table 5 1 1 nums w r.1
alloc_pid-find_task_by_pid_ns_example =
    alloc_pid-find_task_by_pid_ns skiplist_table 4 requests 70 false 1 child_ns no_pids levels 5
      new_tasks (omega arith) (omega arith) refl levels-Chain levels-HoldsAll refl

alloc_pid-free_pid_example :
    Returns (alloc_pid skiplist_ops 4 requests (some 70) false 1 levels) λ r.
      r.0 ≡ pid_ptr 70
      → Returns (free_pid skiplist_ops 70 r.1) (λ f. SameFound skiplist_table levels f.0)
alloc_pid-free_pid_example =
    alloc_pid-free_pid skiplist_table 4 requests 70 false 1 child_ns no_pids levels (omega arith)
      (omega arith) refl levels-Chain levels-HoldsAll

alloc_pid-SameFound_example :
    Returns (alloc_pid skiplist_ops 4 requests (some 70) true 1 levels) λ r.
      r.0 ≢ pid_ptr 70
      → (r.1.pids 70 ≡ none)
        × SameFound skiplist_table levels r.1
        × Unreserved skiplist_table no_pids levels r.1
alloc_pid-SameFound_example =
    alloc_pid-SameFound skiplist_table 4 requests 70 true 1 child_ns no_pids levels (omega arith)
      (omega arith) refl levels-Chain levels-HoldsAll
