-- ===== src/Spu/Affinity.antt =====
-- skiplist/sched.c: the places of the contexts of a gang, next to the SPU of its reference context.
pub mod Placed
pub mod Gangs
pub mod Located
pub mod Got
use linux_kernel_code_projec.Base.{
  ℕ, zero, suc, ◌+◌, Bool, true, false, not, Option, none, some, List, [], ◌∷◌, ◌++◌, ◌==◌, ℤ, pos,
  negsuc, if◌then◌else◌,
}
use mathlib.Core.List.{reverse}
use linux_kernel_code_projec.Spu.{Context}
use linux_kernel_code_projec.Spu.Schedule.{SpuId, Spus, set_at}

-- `struct spu_gang`: the contexts on `aff_list_head` in order, the reference context, the
-- `aff_offset` of the contexts, and whether AFF_OFFSETS_SET is in `aff_flags`
pub record Gang : Type 0 where
  pub aff_list_head : List Context
  pub aff_ref_ctx : Context
  pub aff_offset : Context → ℤ
  pub aff_offsets_set : Bool

-- A list from an entry on, and the part before that entry: what a loop that starts there visits
-- until it comes to the head of the list.
unfoldable pub list_from : ℕ → List ℕ → List ℕ
list_from x [] = []
list_from x (y ∷ ys) = let rest = list_from x ys in if x == y then y ∷ ys else rest

unfoldable pub list_before : ℕ → List ℕ → List ℕ
list_before x [] = []
list_before x (y ∷ ys) = let rest = list_before x ys in if x == y then [] else y ∷ rest

-- A loop of `aff_set_offsets`, where `offset n` is the offset of the entry that is met after `n`
unfoldable pub set_offsets : (ℕ → ℤ) → ℕ → List Context → (Context → ℤ) → Context → ℤ
set_offsets offset n [] old = old
set_offsets offset n (c ∷ cs) old = set_offsets offset (n + 1) cs (set_at c (offset n) old)

-- `aff_set_offsets`
unfoldable pub aff_set_offsets : Gang → Gang
aff_set_offsets g =
    let back = reverse (list_before g.aff_ref_ctx g.aff_list_head) in
    let down = set_offsets negsuc 0 back g.aff_offset in
    record g {
      aff_offset = set_offsets pos 0 (list_from g.aff_ref_ctx g.aff_list_head) down;
      aff_offsets_set = true;
    }

-- `sched_spu`
unfoldable pub sched_spu : SpuId → Spus → Bool
sched_spu p s = elim (s.ctx p) [ none ↦ true | some c ↦ not (s.nosched c) ]

-- A loop of `ctx_location` over the SPUs in the order in which it visits them, each of which stands
-- on the node, or BUG_ON stops; the last one is the head of the loop, with which it ends.
unfoldable pub pass_spus : (SpuId → Bool) → (SpuId → Bool) → ℕ → List SpuId → Option SpuId
pass_spus sched on_node n [] = none
pass_spus sched on_node n (p ∷ []) = some p
pass_spus sched on_node zero (p ∷ q ∷ qs) = if on_node p then some p else none
pass_spus sched on_node (suc n) (p ∷ q ∷ qs) =
    let left = if sched p then n else suc n in
    let rest = pass_spus sched on_node left (q ∷ qs) in if on_node p then rest else none

-- The ring of the `aff_list` of the SPUs of a node, from an SPU on
abbrev pub ring_from : SpuId → List SpuId → List SpuId
ring_from ref ring = list_from ref ring ++ list_before ref ring

-- `ctx_location`, on the ring of the SPUs, which has `ref`; with `none` BUG_ON stops
unfoldable pub ctx_location : SpuId → ℤ → ℕ → List SpuId → Spus → Option SpuId
ctx_location ref (pos n) node ring s =
    pass_spus (λ p. sched_spu p s) (λ p. s.node p == node) n (ring_from ref ring)
ctx_location ref (negsuc n) node ring s =
    pass_spus (λ p. sched_spu p s) (λ p. s.node p == node) (suc n) (ring_from ref (reverse ring))
