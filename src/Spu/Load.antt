-- ===== src/Spu/Load.antt =====
-- skiplist/sched.c: the count of the contexts that run or wait to run.
pub mod Active
use linux_kernel_code_projec.Base.{
  ℕ, zero, suc, ◌+◌, ◌-◌, ◌≤◌, ◌<◌, ◌≡◌, refl, inl, inr, Bool, true, false, Option, none, some,
  List, [], ◌∷◌, ◌++◌, length, length-append, ◌==◌, ltb, leb, ◌&&◌, arith, is_some, if◌then◌else◌,
  Bool-cases, Option-cases, ==_eq, ==_self,
}
use linux_kernel_code_projec.Spu.{Context, max_prio}
use linux_kernel_code_projec.Spu.Queue.{occ, occ-append, total, at_prio, IsCounted}
use linux_kernel_code_projec.Spu.Schedule.{SpuId, Spus}
use linux_kernel_code_projec.Spu.Schedule.Bound.{IsBound, bound_on}

-- The loop of `count_active_contexts`, over `n` nodes from `node` on
unfoldable pub add_active : ℕ → ℕ → (ℕ → ℕ) → ℕ → ℕ
add_active zero node counts nr_active = nr_active
add_active (suc n) node counts nr_active = add_active n (node + 1) counts (nr_active + counts node)

-- `count_active_contexts`
unfoldable pub count_active_contexts : ℕ → Spus → ℕ
count_active_contexts max_numnodes s = add_active max_numnodes 0 s.nr_active 0 + s.queue.nr_waiting
