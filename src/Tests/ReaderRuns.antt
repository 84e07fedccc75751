-- ===== src/Tests/ReaderRuns.antt =====
-- A lookup between two rounds of the writer's loops.
use linux_kernel_code_projec.Base.{
  ℕ, ◌<◌, ◌≡◌, refl, Option, none, some, [], ◌∷◌, ◌++◌, arith, ◌==◌, ◌&&◌, false, leb, ltb,
  if◌then◌else◌, replicate, get_elem?, get_elem?-replicate,
}
use linux_kernel_code_projec.Base.Run.{Returns}
use linux_kernel_code_projec.Store.{
  Addr, Node, Heap, load_key, load_pid, load_level, load_forward, int_of,
}
use linux_kernel_code_projec.PidMap
use linux_kernel_code_projec.PidMap.{find, visible}
use linux_kernel_code_projec.Skiplist.{link, unlink, lookup}
use linux_kernel_code_projec.Skiplist.Chain.{Entry}
use linux_kernel_code_projec.Skiplist.View.{contents}
use linux_kernel_code_projec.Skiplist.Between.{link-lookup, unlink-lookup}
use linux_kernel_code_projec.RbSkiplist.Plain.{plain}
use linux_kernel_code_projec.Tests.SkiplistRuns.{heap, list}
use linux_kernel_code_projec.Tests.RbRuns.{high_heap, high_list, high_entry, high_list-AtTop}

abbrev new_node : Node
new_node = record { key = int_of 7; pid = some 70; forward = none ∷ []; level = 1 }

-- The new node is filled and not linked yet.
abbrev filled_heap : Heap
filled_heap a = if a == 2 then some new_node else heap a

abbrev new_entry : Entry
new_entry = record { addr = 2; key = int_of 7; pid = some 70; slots = 1; lo = 0; hi = 0 }

one-preds : (j : ℕ) → j < 1 → get_elem? {A = Addr} (1 ∷ []) j ≡ some 1
one-preds j lt = let e : j ≡ 0 = omega arith in rw e

link-lookup_example : Returns (link 2 (1 ∷ []) 1 0 filled_heap) λ g.
    lookup 3 (int_of 7) g list
    ≡ some (visible (find (int_of 7) (PidMap.insert (int_of 7) (some 70) (contents []))))
unfolding load_key load_pid load_level load_forward
link-lookup_example =
    link-lookup filled_heap list 1 [] new_entry [] (1 ∷ []) (int_of 7) 3 (omega arith) 1
      (record {
        header = refl;
        level_pos = omega arith;
        level_max = omega arith;
        bottomed = tt;
        sorted = tt;
        below = tt;
        above = tt;
        preds = one-preds;
      })
      (
        record {
          key = refl;
          pid = refl;
          level = refl;
          forward = λ i lt.
              let off : (leb 0 i && ltb i 0) ≡ false = ground arith in
              rw off (get_elem?-replicate {A = Option Addr} 16 i none lt);
          room = λ i lt. rw (get_elem?-replicate {A = Option Addr} 16 i none lt);
        },
        (
          record {
            key = refl;
            pid = refl;
            level = refl;
            forward = λ i lt. absurd (omega arith);
            room = λ i lt. let e : i ≡ 0 = omega arith in rw e;
          },
          tt,
        ),
      )
      ((ground arith, tt), (tt, tt)) refl (omega arith) (omega arith)

unlink-lookup_example : Returns (unlink 2 (replicate 16 1) 3 0 high_heap) λ g.
    lookup 3 (int_of 7) g (plain high_list)
    ≡ some (visible (find (int_of 7) (PidMap.erase (int_of 7) (contents ([] ++ high_entry ∷ [])))))
unlink-lookup_example =
    unlink-lookup high_heap (plain high_list) 1 [] high_entry [] (replicate 16 1) (int_of 7) 3
      (omega arith) 3
      (record {
        header = refl;
        level_pos = omega arith;
        level_max = omega arith;
        bottomed = tt;
        sorted = tt;
        below = tt;
        above = tt;
        preds = λ j lt. get_elem?-replicate {A = Addr} 16 j 1 lt;
      })
      high_list-AtTop.list.readable.stored high_list-AtTop.list.distinct refl (omega arith)
      (omega arith) (omega arith)
