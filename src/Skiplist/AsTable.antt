-- ===== src/Skiplist/AsTable.antt =====
-- The list of skiplist/pid_skiplist.c as a table of pids.
use linux_kernel_code_projec.Base.{
  ℕ, ◌+◌, ◌<◌, ◌≡◌, refl, true, false, ◌||◌, Option, none, some, List, [], Option-cases, inl, inr,
  is_some, if◌then◌else◌, ℤ, pos, arith, length,
}
use linux_kernel_code_projec.Base.Run.{◌>>=◌, Returns}
use linux_kernel_code_projec.Store.{Addr, PidRef, Heap, Alloc}
use linux_kernel_code_projec.PidMap
use linux_kernel_code_projec.PidMap.{
  PidMap, find, visible, from, first_pid, until_reserved, IsOrdered,
}
use linux_kernel_code_projec.PidTable.{TableOps, PidTable}
use linux_kernel_code_projec.Skiplist.{
  Skiplist, minus_enomem, lookup, find_ge, iterate, insert, remove, destroy, init,
}
use linux_kernel_code_projec.Skiplist.Chain.{Entry}
use linux_kernel_code_projec.Skiplist.View.{IsList, contents, contents-IsOrdered}
use linux_kernel_code_projec.Skiplist.Read.{lookup-find, find_ge-from}
use linux_kernel_code_projec.Skiplist.Iterate.{iterate-until_reserved}
use linux_kernel_code_projec.Skiplist.Insert.{insert-Outcome}
use linux_kernel_code_projec.Skiplist.Insert.Node.{IsFresh, alloc_ok}
use linux_kernel_code_projec.Skiplist.Lifetime.{init-IsList, destroy-Freed}
use linux_kernel_code_projec.Skiplist.Remove.{remove-Removed}

-- A list in memory, with a number above that of its nodes for the fuel.
pub record Located : Type 0 where
  pub heap : Heap
  pub list : Skiplist
  pub bound : ℕ

-- What one insertion asks for: a random number and the answers of the allocator.
pub record Request : Type 0 where
  pub random : ℕ
  pub memory : Alloc

pub record HoldsMap (s : Located) (m : PidMap) : Type 0 where
  pub header : Addr
  pub nodes : List Entry
  pub valid : IsList s.heap s.list header nodes
  pub map : contents nodes ≡ m
  pub short : length nodes < s.bound

unfoldable pub table_insert : Request → Located → ℕ → Option PidRef → Option (ℤ × Located)
table_insert a s k p = do
  (code, h, l) ← insert s.bound k p a.random a.memory s.heap s.list
  some (code, record { heap = h; list = l; bound = s.bound + 1 })

unfoldable pub table_remove : Located → ℕ → Option Located
table_remove s k = do
  (_, h, l) ← remove s.bound k s.heap s.list
  some (record s { heap = h; list = l })

pub table_insert_lem :
    (a : Request) (s : Located) (m : PidMap) (k : ℕ) (p : Option PidRef)
    → HoldsMap s m
    → (is_some (find k m) ≡ false → IsFresh a.memory s.heap)
    → Returns (table_insert a s k p) λ r.
      (r.0 ≡ (if is_some (find k m) || alloc_ok a.memory then pos 0 else minus_enomem))
      × HoldsMap r.1 (if is_some (find k m) || alloc_ok a.memory then PidMap.insert k p m else m)
      × ((is_some (find k m) || alloc_ok a.memory) ≡ false
          → (b : Request) → IsFresh b.memory s.heap
          → IsFresh b.memory r.1.heap)
unfolding table_insert
table_insert_lem a s m k p v fresh =
    let (r, run, o) =
      insert-Outcome s.heap s.list v.header k p a.random a.memory v.valid (rw v.map fresh) s.bound
        v.short in
    (
      (r.0, record { heap = r.1; list = r.2; bound = s.bound + 1 }),
      rw run,
      (
        rw (← v.map) o.code,
        record {
          header = v.header;
          nodes = o.nodes;
          valid = o.list;
          map = rw (← v.map) o.holds;
          short = omega (arith, o.grows, v.short);
        },
        λ no_ok b unused x e. o.unused (rw v.map no_ok) x (unused x e),
      ),
    )

pub table_remove_lem :
    (s : Located) (m : PidMap) (k : ℕ)
    → HoldsMap s m
    → Returns (table_remove s k) (λ s'. HoldsMap s' (PidMap.erase k m))
unfolding table_remove
table_remove_lem s m k v =
    let (r, run, o) = remove-Removed s.heap s.list v.header v.valid k s.bound v.short in
    (
      record s { heap = r.1; list = r.2 },
      rw run,
      record {
        header = v.header;
        nodes = o.nodes;
        valid = o.list;
        map = rw (← v.map) o.holds;
        short = omega (arith, o.shrinks, v.short);
      },
    )

pub table_lookup_lem :
    (s : Located) (m : PidMap) (k : ℕ)
    → HoldsMap s m
    → lookup s.bound k s.heap s.list ≡ some (visible (find k m))
table_lookup_lem s m k v = rw (← v.map) (lookup-find v.valid.readable k s.bound v.short)

pub table_find_ge_lem :
    (s : Located) (m : PidMap) (k : ℕ)
    → HoldsMap s m
    → find_ge s.bound k s.heap s.list ≡ some (first_pid (from k m))
table_find_ge_lem s m k v = rw (← v.map) (find_ge-from v.valid.readable k s.bound v.short)

pub table_iterate_lem :
    (s : Located) (m : PidMap) (k : ℕ)
    → HoldsMap s m
    → iterate s.bound s.bound k none s.heap s.list ≡ some (until_reserved (from k m))
table_iterate_lem s m k v =
    rw (← v.map) (iterate-until_reserved v.valid.readable s.bound k s.bound v.short v.short)

pub table_IsOrdered : (s : Located) (m : PidMap) → HoldsMap s m → IsOrdered m
table_IsOrdered s m v = rw (← v.map) (contents-IsOrdered v.nodes v.valid.readable.sorted)

pub table_has_header : (s : Located) (m : PidMap) → HoldsMap s m → is_some s.list.header ≡ true
table_has_header s m v = rw v.valid.readable.header

unfoldable pub table_destroy : Located → Option (Unit {0})
table_destroy s = do _ ← destroy s.bound s.heap s.list; some tt

pub table_destroy_lem : (s : Located) (m : PidMap) → HoldsMap s m → table_destroy s ≡ some tt
unfolding table_destroy
table_destroy_lem s m v =
    let (g, run, freed) = destroy-Freed s.heap s.list v.header v.nodes v.valid s.bound v.short in
    rw run

-- A list in memory of its own.
unfoldable pub table_init : Request → Option Located
table_init a = do
  (h, l) ← init a.memory (λ x. none)
  some (record { heap = h; list = l; bound = 1 })

pub table_init_lem :
    (a : Request) → alloc_ok a.memory ≡ true → Returns (table_init a) (λ s. HoldsMap s [])
unfolding table_init contents
table_init_lem a e = elim (Option-cases a.memory.node) [
  | inl n ↦ let e' = rw n at e in cc
  | inr (hdr, y) ↦
      let array : a.memory.array ≡ true = rw y at e in
      let (r, run, v) = init-IsList a.memory (λ x. none) hdr y array in
      (
        record { heap = r.0; list = r.1; bound = 1 },
        rw run,
        record { header = hdr; nodes = []; valid = v; map = refl; short = omega arith },
      )
]

-- The operations of skiplist/pid_skiplist.c as kernel/pid.c calls them.
abbrev pub skiplist_ops : TableOps
skiplist_ops = record {
  State = Located;
  Memory = Request;
  has_header = λ s. is_some s.list.header;
  lookup = λ s k. lookup s.bound k s.heap s.list;
  find_ge = λ s k. find_ge s.bound k s.heap s.list;
  iterate = λ s k. iterate s.bound s.bound k none s.heap s.list;
  insert = table_insert;
  remove = table_remove;
  destroy = table_destroy;
  init = table_init;
}

-- The list of skiplist/pid_skiplist.c as the table that kernel/pid.c uses.
abbrev pub skiplist_table : PidTable
skiplist_table = record {
  ops = skiplist_ops;
  enough = λ a. alloc_ok a.memory;
  Unused = λ a s. IsFresh a.memory s.heap;
  Holds = HoldsMap;
  Holds-IsOrdered = table_IsOrdered;
  has_header_lem = table_has_header;
  lookup_lem = table_lookup_lem;
  find_ge_lem = table_find_ge_lem;
  iterate_lem = table_iterate_lem;
  insert_lem = table_insert_lem;
  remove_lem = table_remove_lem;
  destroy_lem = table_destroy_lem;
  init_lem = table_init_lem;
}
