-- ===== src/Tests/SkiplistRuns.antt =====
-- The plain skip list on a list with a header at address 1.
use linux_kernel_code_projec.Base.{
  ◌≡◌, refl, Option, none, some, List, [], ◌∷◌, arith, true, ◌||◌, is_some, ℤ, replicate,
  get_elem?-replicate, ◌==◌, if◌then◌else◌,
}
use linux_kernel_code_projec.Base.Run.{◌>>=◌, Returns}
use linux_kernel_code_projec.Store.{
  Addr, PidRef, Node, Heap, Alloc, write, load_key, load_pid, load_level, load_forward, set_key,
  set_pid, set_forward, free_node, node_alloc, int_of, int_min,
}
use linux_kernel_code_projec.PidMap.{visible, find}
use linux_kernel_code_projec.Skiplist.{
  Skiplist, random_level, random_level_loop, insert, lookup, remove, find_ge, iterate, destroy,
  walk, descend, has_key, link, insert_node, insert_new, unlink, shrink, remove_node, remove_from,
  visit, at_least, iter_next, destroy_loop,
}
use linux_kernel_code_projec.Skiplist.View.{IsList, header_entry, contents}
use linux_kernel_code_projec.Skiplist.Read.{lookup-find}
use linux_kernel_code_projec.Skiplist.Insert.{insert-Outcome}
use linux_kernel_code_projec.Skiplist.Insert.Node.{Outcome, alloc_ok}
use linux_kernel_code_projec.Skiplist.Remove.{remove-Removed, Removed}
use linux_kernel_code_projec.Skiplist.Lifetime.{destroy-Freed, Freed}

abbrev pub memory : Addr → Alloc
memory a = record { node = some a; array = true }

abbrev pub unused : Heap
unused a = none

abbrev pub header_node : Node
header_node = record { key = int_min; pid = none; forward = replicate 16 none; level = 16 }

abbrev pub heap : Heap
heap a = if a == 1 then some header_node else none

abbrev pub list : Skiplist
list = record { level = 1; header = some 1 }

header-IsList : (g : Heap) → g 1 ≡ some header_node → IsList g list 1 []
unfolding load_key load_pid load_level load_forward
header-IsList g e = record {
  readable = record {
    header = refl;
    stored = (
      record {
        key = rw e;
        pid = rw e;
        level = rw e;
        forward = λ i lt. rw e (get_elem?-replicate {A = Option Addr} 16 i none lt);
        room = λ i lt. rw (e, ◌>>=◌, get_elem?-replicate {A = Option Addr} 16 i none lt);
      },
      tt,
    );
    sorted = tt;
    level_pos = omega arith;
    level_max = omega arith;
  };
  distinct = (tt, tt);
  whole = tt;
}

pub list-IsList : IsList heap list 1 []
list-IsList = header-IsList heap refl

insert-Outcome_example : Returns (insert 3 (int_of 7) (some 70) 0x10 (memory 2) heap list) (
    Outcome
      (is_some (find (int_of 7) (contents [])) || alloc_ok (memory 2))
      heap
      (int_of 7)
      (some 70)
      1
      [])
insert-Outcome_example =
    insert-Outcome heap list 1 (int_of 7) (some 70) 0x10 (memory 2) list-IsList
      (λ _ x e. ground arith) 3 (omega arith)

-- The list after the insertion of 7.
abbrev grew : Returns (insert 3 (int_of 7) (some 70) 0x10 (memory 2) heap list) (
    Outcome
      (is_some (find (int_of 7) (contents [])) || alloc_ok (memory 2))
      heap
      (int_of 7)
      (some 70)
      1
      [])
grew =
    insert-Outcome heap list 1 (int_of 7) (some 70) 0x10 (memory 2) list-IsList
      (λ _ x e. ground arith) 3 (omega arith)

abbrev grown : ℤ × Heap × Skiplist
grown = grew.0

lookup-find_example :
    lookup 3 (int_of 7) grown.1 grown.2 ≡ some (visible (find (int_of 7) (contents grew.2.nodes)))
lookup-find_example = lookup-find grew.2.list.readable (int_of 7) 3 (omega (arith, grew.2.grows))

remove-Removed_example :
    Returns (remove 3 (int_of 7) grown.1 grown.2) (Removed (int_of 7) 1 grew.2.nodes)
remove-Removed_example =
    remove-Removed grown.1 grown.2 1 grew.2.list (int_of 7) 3 (omega (arith, grew.2.grows))

destroy-Freed_example :
    Returns (destroy 3 grown.1 grown.2) (Freed (header_entry 1 ∷ grew.2.nodes) grown.1)
destroy-Freed_example =
    destroy-Freed grown.1 grown.2 1 grew.2.nodes grew.2.list 3 (omega (arith, grew.2.grows))

abbrev spare_node : Node
spare_node = record { key = int_of 9; pid = none; forward = []; level = 0 }

-- A list and a node that is none of its.
abbrev with_spare : Heap
with_spare a = if a == 2 then some spare_node else heap a

-- Two insertions, a lookup, a removal and a lookup.
program : Unit {0}
unfolding write load_key load_pid load_level load_forward set_key set_pid set_forward free_node
    node_alloc random_level random_level_loop walk descend has_key link insert_node insert_new
    insert lookup unlink shrink remove_node remove_from remove visit at_least iter_next find_ge
    iterate destroy_loop destroy
program = tt

abbrev session : Option (Option PidRef × Option PidRef × Option PidRef × List PidRef)
session = do
  (_, h₁, l₁) ← insert 9 (int_of 7) (some 70) 0x10 (memory 2) heap list
  (_, h₂, l₂) ← insert 9 (int_of 3) (some 30) 0x100 (memory 3) h₁ l₁
  a ← lookup 9 (int_of 7) h₂ l₂
  b ← find_ge 9 (int_of 2) h₂ l₂
  ps ← iterate 9 9 (int_of 2) none h₂ l₂
  (_, h₃, l₃) ← remove 9 (int_of 7) h₂ l₂
  c ← lookup 9 (int_of 7) h₃ l₃
  some (a, b, c, ps)

session_returns : session ≡ some (some 70, some 30, none, 30 ∷ 70 ∷ [])
unfolding program
session_returns = refl
