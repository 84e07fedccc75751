-- ===== src/Spu/Affinity/Located.antt =====
-- That `ctx_location` gives an SPU, and that the reference SPU of a gang is in a ring.
use linux_kernel_code_projec.Base.{
  ℕ, zero, suc, ◌+◌, ◌<◌, ◌≡◌, refl, ◌∙◌, inl, inr, Bool, true, Option, none, some, List, [], ◌∷◌,
  ◌==◌, ltb, length, arith, if◌then◌else◌, not, ◌&&◌, ◌||◌, is_some, Bool-cases, Option-cases,
  ==_self, ℤ, pos, negsuc,
}
use mathlib.Core.List.{reverse}
use linux_kernel_code_projec.Spu.{Context}
use linux_kernel_code_projec.Spu.Queue.{occ, occ-append}
use linux_kernel_code_projec.Spu.Schedule.{SpuId, Spus}
use linux_kernel_code_projec.Spu.Activate.{over_nodes}
use linux_kernel_code_projec.Spu.Activate.Nodes.{over_nodes-some}
use linux_kernel_code_projec.Spu.Affinity.{
  sched_spu, pass_spus, list_from, list_before, ring_from, ctx_location,
}
use linux_kernel_code_projec.Spu.Affinity.Placed.{Home, occ-reverse}
use linux_kernel_code_projec.Spu.Affinity.Gangs.{Gangs, promised, first_suitable, aff_ref_location}

occ-split : (q x : ℕ) (ys : List ℕ) → occ q (list_from x ys) + occ q (list_before x ys) ≡ occ q ys
unfolding list_from list_before
occ-split q x [] = refl
occ-split q x (y ∷ ys) = elim (Bool-cases (x == y)) [
  | inl e ↦ rw e (omega arith)
  | inr n ↦ rw n (omega (arith, occ-split q x ys))
]

occ-ring_from : (q ref : SpuId) (ring : List SpuId) → occ q (ring_from ref ring) ≡ occ q ring
occ-ring_from q ref ring =
    occ-append q (list_from ref ring) (list_before ref ring) ∙ occ-split q ref ring

pass_spus-Returns :
    (sched on_node : SpuId → Bool) (n : ℕ) (ref : SpuId) (ps : List SpuId)
    → 0 < occ ref ps
    → Home on_node ps
    → is_some (pass_spus sched on_node n ps) ≡ true
unfolding pass_spus
pass_spus-Returns sched on_node n ref [] lt home = absurd (omega arith)
pass_spus-Returns sched on_node n ref (p ∷ []) lt home = refl
pass_spus-Returns sched on_node zero ref (p ∷ q ∷ qs) lt home =
    let on = home p (rw (==_self p) (omega arith)) in rw on refl
pass_spus-Returns sched on_node (suc n) ref (p ∷ q ∷ qs) lt home =
    let on = home p (rw (==_self p) (omega arith)) in
    let left = if sched p then n else suc n in
    let more : 0 < occ q (q ∷ qs) = rw (==_self q) (omega arith) in
    rw on (pass_spus-Returns sched on_node left q (q ∷ qs) more (λ x l. home x (omega arith)))

pub ctx_location-Returns :
    (ref : SpuId) (o : ℤ) (node : ℕ) (ring : List SpuId) (s : Spus)
    → 0 < occ ref ring
    → ((q : SpuId) → 0 < occ q ring → s.node q ≡ node)
    → is_some (ctx_location ref o node ring s) ≡ true
unfolding ctx_location
ctx_location-Returns ref (pos n) node ring s lt home =
    pass_spus-Returns (λ p. sched_spu p s) (λ p. s.node p == node) n ref (ring_from ref ring)
      (rw (occ-ring_from ref ref ring) lt)
      (λ q l. let l' = rw (occ-ring_from q ref ring) at l in rw (home q l') (==_self node))
ctx_location-Returns ref (negsuc n) node ring s lt home =
    pass_spus-Returns (λ p. sched_spu p s) (λ p. s.node p == node) (suc n) ref
      (ring_from ref (reverse ring))
      (rw (occ-ring_from ref ref (reverse ring), occ-reverse ref ring) lt)
      (λ q l.
        let l' = rw (occ-ring_from q ref (reverse ring), occ-reverse q ring) at l in
        rw (home q l') (==_self node))

first_suitable-listed :
    (mem_aff : Bool) (gs : Gangs) (s : Spus) (ps : List SpuId) (p : SpuId)
    → first_suitable mem_aff gs s ps ≡ some p
    → 0 < occ p ps
unfolding first_suitable
first_suitable-listed mem_aff gs s [] p e = cc
first_suitable-listed mem_aff gs s (q ∷ ps) p e =
    elim (Bool-cases ((not mem_aff || gs.has_mem_affinity q) && sched_spu q s)) [
      | inl y ↦ let e' = rw y at e in let same : q ≡ p = cc in rw (same, ==_self p) (omega arith)
      | inr n ↦ let l = first_suitable-listed mem_aff gs s ps p (rw n at e) in omega arith
    ]

-- The reference SPU is in the ring of its node.
abbrev pub HasRing : ℕ → Gangs → Spus → Type 0
HasRing id gs s = (p : SpuId) → gs.aff_ref_spu id ≡ some p → 0 < occ p (gs.ring (s.node p))

module _ (hz jiffies : ℕ) (allowed : Context → ℕ → Bool) (max_numnodes here : ℕ) where
  pub aff_ref_location-listed :
      (id : ℕ) (c : Context) (mem_aff : Bool) (gs : Gangs) (s : Spus) (p : SpuId)
      → aff_ref_location hz jiffies allowed max_numnodes here id c mem_aff gs s ≡ some p
      → (n : ℕ) × (0 < occ p (s.spus n))
  unfolding aff_ref_location
  aff_ref_location-listed id c mem_aff gs s p e =
      let on_node : ℕ → Option SpuId = λ n.
        if ltb (length (s.spus n)) (promised gs s (s.spus n) + gs.contexts id)
        then none
        else first_suitable mem_aff gs s (s.spus n) in
      elim (Option-cases (over_nodes max_numnodes (allowed c) on_node max_numnodes here)) [
        | inl m ↦ let e' = rw (aff_ref_location, m) at e in cc
        | inr ((n, q), m) ↦
            let e' = rw (aff_ref_location, m) at e in
            let same : q ≡ p = cc in
            let (_, found) =
              over_nodes-some max_numnodes (allowed c) on_node max_numnodes here n q m in
            (
              n,
              elim (Bool-cases
                  (ltb (length (s.spus n)) (promised gs s (s.spus n) + gs.contexts id))) [
                    | inl y ↦ let found' = rw y at found in cc
                    | inr f ↦
                        first_suitable-listed mem_aff gs s (s.spus n) p (rw (f, same) at found)
                  ],
            )
      ]
