-- ===== src/Tests/RbRuns.antt =====
-- The skip list with a tree: on an empty list, and on one with a node on every level.
use linux_kernel_code_projec.Base.{
  pos, ltb, ◌/◌, ◌*◌, ◌^◌, ◌≡◌, refl, ap, ◌∙◌, inl, Option, none, some, List, [], ◌∷◌, arith, false,
  replicate, get_elem?-replicate, ◌==◌, if◌then◌else◌,
}
use linux_kernel_code_projec.Store.{
  Addr, Node, Heap, load_key, load_pid, load_level, load_forward, int_of,
}
use linux_kernel_code_projec.Skiplist
use linux_kernel_code_projec.Skiplist.{max_level, random_level, random_level_loop}
use linux_kernel_code_projec.Skiplist.Chain.{Entry}
use linux_kernel_code_projec.RbSkiplist.{
  Tree, leaf, node, inorder, without, Rbtree, RbSkiplist, insert, lookup,
}
use linux_kernel_code_projec.RbSkiplist.Plain.{IsPlain, plain, lifted, insert-plain}
use linux_kernel_code_projec.Base.Run.{Returns}
use linux_kernel_code_projec.PidMap
use linux_kernel_code_projec.Skiplist.View.{IsList, contents}
use linux_kernel_code_projec.Skiplist.Shares.{random_level-above}
use linux_kernel_code_projec.RbSkiplist.Raised.{insert-lookup}
use linux_kernel_code_projec.RbSkiplist.Miss.{AtTop}
use linux_kernel_code_projec.RbPid.{RbNamespace, rb_find_pid_ns}
use linux_kernel_code_projec.RbPid.Lost.{rb_find_pid_ns-AtTop}
use linux_kernel_code_projec.Tests.SkiplistRuns.{memory, heap, list-IsList, header_node}

-- A tree that leans to the right.
abbrev spine : List Addr → Tree
spine [] = leaf
spine (x ∷ xs) = node leaf x (spine xs)

inorder-spine : (xs : List Addr) → inorder (spine xs) ≡ xs
inorder-spine [] = refl
inorder-spine (x ∷ xs) = ap (λ ys. x ∷ ys) (inorder-spine xs)

-- A library of trees that does not balance them.
abbrev unbalanced : Rbtree
unbalanced = record {
  rb_insert_color = λ t. t;
  rb_erase = λ x t. spine (without x (inorder t));
  inorder-rb_insert_color = λ t. refl;
  inorder-rb_erase = λ x t. inorder-spine (without x (inorder t));
}

abbrev rb_list : RbSkiplist
rb_list = record { level = 1; header = some 1; top = leaf; in_rb_tree = λ x. false }

rb_list-IsPlain : IsPlain rb_list
rb_list-IsPlain = record { top = refl; marks = λ x. refl }

insert-plain_example :
    insert unbalanced 3 (int_of 7) (some 70) 0x10 (memory 2) heap rb_list
    ≡ lifted rb_list (Skiplist.insert 3 (int_of 7) (some 70) 0x10 (memory 2) heap (plain rb_list))
unfolding load_level random_level random_level_loop
insert-plain_example =
    insert-plain unbalanced rb_list rb_list-IsPlain (int_of 7) (some 70) 0x10 (memory 2) heap
      (λ x e. ground arith) 1 refl refl (omega arith) 3

-- The node of 7 has every level.
abbrev high_node : Node
high_node = record { key = int_of 7; pid = some 70; forward = replicate 16 none; level = 16 }

abbrev pub high_heap : Heap
high_heap a =
    if a == 1
    then some (record header_node { forward = replicate 16 (some 2) })
    else if a == 2
    then some high_node
    else none

abbrev pub high_entry : Entry
high_entry = record { addr = 2; key = int_of 7; pid = some 70; lo = 0; hi = 16; slots = 16 }

abbrev pub high_list : RbSkiplist
high_list = record { level = 16; header = some 1; top = node leaf 2 leaf; in_rb_tree = λ x. x == 2 }

pub high_list-AtTop : AtTop high_heap high_list 1 [] high_entry []
unfolding load_key load_pid load_level load_forward
high_list-AtTop = record {
  list = record {
    readable = record {
      header = refl;
      stored = (
        record {
          key = refl;
          pid = refl;
          level = refl;
          forward = λ i lt. get_elem?-replicate {A = Option Addr} 16 i (some 2) lt ∙ ground arith;
          room = λ i lt. rw (get_elem?-replicate {A = Option Addr} 16 i (some 2) lt);
        },
        (
          record {
            key = refl;
            pid = refl;
            level = refl;
            forward = λ i lt. get_elem?-replicate {A = Option Addr} 16 i none lt;
            room = λ i lt. rw (get_elem?-replicate {A = Option Addr} 16 i none lt);
          },
          tt,
        ),
      );
      sorted = (tt, tt);
      level_pos = omega arith;
      level_max = omega arith;
    };
    distinct = ((ground arith, tt), (tt, tt));
    whole = ((refl, omega arith, omega arith, refl), tt);
  };
  tree = ((int_of 7, refl, tt, tt), tt, tt);
  here = inl refl;
  high = omega arith;
}

-- With the random number 0, a node gets all levels.
insert-lookup_example :
    Returns (insert unbalanced 3 (int_of 7) (some 70) 0 (memory 2) heap rb_list) λ r.
      (r.0 ≡ pos 0)
      × ((nodes : List Entry) × IsList r.1 (plain r.2) 1 nodes
          × (contents nodes ≡ PidMap.insert (int_of 7) (some 70) (contents [])))
      × (lookup 3 (int_of 7) r.1 r.2 ≡ some none)
unfolding random_level random_level_loop contents PidMap.find
insert-lookup_example =
    insert-lookup unbalanced rb_list rb_list-IsPlain (int_of 7) (some 70) 0 (memory 2) heap 1 []
      list-IsList refl refl 2 refl refl refl 3 3 (omega arith) (omega arith)

random_level-above_example :
    ltb 2 (random_level 0x100) ≡ (if ltb 2 8 then 0x100 / 16 ^ 2 * 16 ^ 2 == 0x100 else 0x100 == 0)
random_level-above_example = random_level-above 2 0x100 (omega arith) (omega arith) (omega arith)

abbrev high_ns : RbNamespace unbalanced
high_ns = record {
  table = record { heap = high_heap; list = high_list; bound = 3 };
  last_pid = 7;
  pid_allocated = 1;
  level = 0;
  parent = none;
  kref = 2;
}

rb_find_pid_ns-AtTop_example : rb_find_pid_ns unbalanced 7 high_ns ≡ some none
rb_find_pid_ns-AtTop_example =
    rb_find_pid_ns-AtTop unbalanced high_ns 7 1 [] high_entry [] high_list-AtTop (omega arith) refl
