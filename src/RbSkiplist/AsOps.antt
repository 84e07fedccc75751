-- ===== src/RbSkiplist/AsOps.antt =====
-- The list of rb-skiplist/pid_rb_skiplist.c as kernel/pid.c calls it, and the loop of
-- rb-skiplist/pid_namespace.c over it.
use linux_kernel_code_projec.Base.{ℕ, zero, suc, ◌+◌, Option, none, some, List, [], ◌∷◌, is_some, ℤ}
use linux_kernel_code_projec.Base.Run.{◌>>=◌}
use linux_kernel_code_projec.Store.{Addr, PidRef, Heap}
use linux_kernel_code_projec.PidTable.{TableOps}
use linux_kernel_code_projec.Skiplist.AsTable.{Request}
use linux_kernel_code_projec.RbSkiplist.{
  Rbtree, RbSkiplist, lookup, find_ge, iter_next, insert, remove, destroy, init,
}

-- A list in memory, with a number above that of its nodes for the fuel.
pub record RbLocated : Type 0 where
  pub heap : Heap
  pub list : RbSkiplist
  pub bound : ℕ

-- The loop of `zap_pid_ns_processes` over the cursor: the pids that its body sees. `n` bounds its
-- rounds.
unfoldable pub iterate_pids : ℕ → ℕ → ℕ → Option Addr → Heap → RbSkiplist → Option (List PidRef)
iterate_pids zero f nr cursor h sl = none
iterate_pids (suc n) f nr cursor h sl = iter_next f nr cursor h sl >>= λ r. elim r.0 [
  | none ↦ some []
  | some p ↦ do ps ← iterate_pids n f nr r.1 h sl; some (p ∷ ps)
]

module _ (rb : Rbtree) where
  unfoldable pub located_insert : Request → RbLocated → ℕ → Option PidRef → Option (ℤ × RbLocated)
  located_insert a s k p = do
    (code, h, l) ← insert rb s.bound k p a.random a.memory s.heap s.list
    some (code, record { heap = h; list = l; bound = s.bound + 1 })

  unfoldable pub located_remove : RbLocated → ℕ → Option RbLocated
  located_remove s k = do
    (_, h, l) ← remove rb s.bound k s.heap s.list
    some (record s { heap = h; list = l })

  unfoldable pub located_destroy : RbLocated → Option (Unit {0})
  located_destroy s = do _ ← destroy rb s.bound s.heap s.list; some tt

  -- A list in memory of its own.
  unfoldable pub located_init : Request → Option RbLocated
  located_init a = do
    (h, l) ← init a.memory (λ x. none)
    some (record { heap = h; list = l; bound = 1 })

  abbrev pub rb_skiplist_ops : TableOps
  rb_skiplist_ops = record {
    State = RbLocated;
    Memory = Request;
    has_header = λ s. is_some s.list.header;
    lookup = λ s k. lookup s.bound k s.heap s.list;
    find_ge = λ s k. find_ge s.bound k s.heap s.list;
    iterate = λ s k. iterate_pids s.bound s.bound k none s.heap s.list;
    insert = located_insert;
    remove = located_remove;
    destroy = located_destroy;
    init = located_init;
  }
