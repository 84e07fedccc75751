-- ===== src/Spu/Affinity/Placed.antt =====
-- Where the contexts of a gang are placed.
use linux_kernel_code_projec.Base.{
  ℕ, zero, suc, ◌+◌, ◌≤◌, ◌<◌, ◌≡◌, refl, sym, ap, ◌∙◌, Bool, true, false, Option, some, List, [],
  ◌∷◌, ◌++◌, append_assoc, length, length-append, ◌==◌, ℤ, pos, negsuc, arith, ==_self,
}
use mathlib.Core.List.{reverse, reverse-cons, reverse-append, reverse-reverse, map}
use linux_kernel_code_projec.Spu.{Context}
use linux_kernel_code_projec.Spu.Queue.{occ, occ-append}
use linux_kernel_code_projec.Spu.Schedule.{SpuId, Spus, set_at}
use linux_kernel_code_projec.Spu.Affinity.{
  Gang, list_from, list_before, set_offsets, aff_set_offsets, sched_spu, pass_spus, ring_from,
  ctx_location,
}

pub occ-reverse : (c : ℕ) (xs : List ℕ) → occ c (reverse xs) ≡ occ c xs
occ-reverse c [] = refl
occ-reverse c (x ∷ xs) =
    let split = occ-append c (reverse xs) (x ∷ []) in
    rw (reverse-cons x xs) (omega (arith, split, occ-reverse c xs))

list_from-append : (x : ℕ) (ys zs : List ℕ) → occ x ys ≡ 0 → list_from x (ys ++ (x ∷ zs)) ≡ x ∷ zs
unfolding list_from
list_from-append x [] zs e = rw (==_self x) refl
list_from-append x (y ∷ ys) zs e =
    let apart : (x == y) ≡ false = ground arith in
    rw apart (list_from-append x ys zs (ground arith))

list_before-append : (x : ℕ) (ys zs : List ℕ) → occ x ys ≡ 0 → list_before x (ys ++ (x ∷ zs)) ≡ ys
unfolding list_before
list_before-append x [] zs e = rw (==_self x) refl
list_before-append x (y ∷ ys) zs e =
    let apart : (x == y) ≡ false = ground arith in
    rw apart (ap (λ l. y ∷ l) (list_before-append x ys zs (ground arith)))

-- `f n`, `f (n + 1)` and so on, `len` of them
abbrev upto : {A : Type 0} → (ℕ → A) → ℕ → ℕ → List A
upto f n zero = []
upto f n (suc len) = f n ∷ upto f (n + 1) len

upto-suc : {A : Type 0} (f : ℕ → A) (n len : ℕ) → upto (λ k. f (suc k)) n len ≡ upto f (suc n) len
upto-suc f n zero = refl
upto-suc f n (suc len) =
    let e : suc n + 1 ≡ suc (n + 1) = omega arith in
    rw e (ap (λ l. f (suc n) ∷ l) (upto-suc f (n + 1) len))

set_offsets-other :
    (offset : ℕ → ℤ) (n : ℕ) (cs : List Context) (old : Context → ℤ) (c : Context)
    → occ c cs ≡ 0
    → set_offsets offset n cs old c ≡ old c
unfolding set_offsets
set_offsets-other offset n [] old c e = refl
set_offsets-other offset n (d ∷ ds) old c e =
    let apart : (c == d) ≡ false = ground arith in
    set_offsets-other offset (n + 1) ds (set_at d (offset n) old) c (ground arith) ∙ rw apart refl

map-set_offsets :
    {A : Type 0} (h : ℤ → A) (offset : ℕ → ℤ) (n : ℕ) (cs : List Context) (old : Context → ℤ)
    → ((c : Context) → occ c cs ≤ 1)
    → map (λ c. h (set_offsets offset n cs old c)) cs ≡ upto (λ k. h (offset k)) n (length cs)
unfolding set_offsets
map-set_offsets h offset n [] old once = refl
map-set_offsets h offset n (d ∷ ds) old once =
    let first = once d in
    let gone : occ d ds ≡ 0 = ground (arith, ==_self d) in
    let rest =
      map-set_offsets h offset (n + 1) ds (set_at d (offset n) old)
        (λ c. let one = once c in omega arith) in
    rw (set_offsets-other offset (n + 1) ds (set_at d (offset n) old) d gone, ==_self d, rest) refl

map-same :
    {A : Type 0} (f g : Context → A) (cs : List Context)
    → ((c : Context) → 0 < occ c cs → f c ≡ g c)
    → map f cs ≡ map g cs
map-same f g [] same = refl
map-same f g (d ∷ ds) same =
    let head : f d ≡ g d = same d (rw (==_self d) (omega arith)) in
    rw (head, map-same f g ds (λ c l. same c (omega arith))) refl

-- All SPUs of a list are on the node.
abbrev pub Home : (SpuId → Bool) → List SpuId → Type 0
Home on_node ps = (q : SpuId) → 0 < occ q ps → on_node q ≡ true

module _ (sched on_node : SpuId → Bool) (all : (p : SpuId) → sched p ≡ true) where
  pass_spus-at :
      (ds : List SpuId) (p : SpuId) (es : List SpuId)
      → Home on_node (ds ++ (p ∷ es))
      → pass_spus sched on_node (length ds) (ds ++ (p ∷ es)) ≡ some p
  unfolding pass_spus
  pass_spus-at [] p [] home = refl
  pass_spus-at [] p (e ∷ es) home = let on = home p (rw (==_self p) (omega arith)) in rw on refl
  pass_spus-at (d ∷ []) p es home =
      let on = home d (rw (==_self d) (omega arith)) in
      rw (all d, on) (pass_spus-at [] p es (λ q l. home q (omega arith)))
  pass_spus-at (d ∷ d' ∷ ds) p es home =
      let on = home d (rw (==_self d) (omega arith)) in
      rw (all d, on) (pass_spus-at (d' ∷ ds) p es (λ q l. home q (omega arith)))

  upto-pass_spus :
      (ds ps es : List SpuId)
      → Home on_node (ds ++ (ps ++ es))
      → upto (λ k. pass_spus sched on_node k (ds ++ (ps ++ es))) (length ds) (length ps)
        ≡ map some ps
  upto-pass_spus ds [] es home = refl
  upto-pass_spus ds (p ∷ ps) es home =
      let e = append_assoc ds (p ∷ []) (ps ++ es) in
      let home' : Home on_node ((ds ++ (p ∷ [])) ++ (ps ++ es)) = λ q l. home q (rw e at l) in
      let rest = upto-pass_spus (ds ++ (p ∷ [])) ps es home' in
      let moved = rw (e, length-append ds (p ∷ [])) at rest in
      rw (pass_spus-at ds p (ps ++ es) home, moved) refl

ring_from-split :
    (p : SpuId) (prev next : List SpuId)
    → occ p (reverse prev) ≡ 0
    → ring_from p (reverse prev ++ (p ∷ next)) ≡ p ∷ (next ++ reverse prev)
ring_from-split p prev next gone =
    let f = list_from-append p (reverse prev) next gone in
    let b = list_before-append p (reverse prev) next gone in rw (f, b) refl

reverse-split :
    (p : SpuId) (prev next : List SpuId)
    → reverse (reverse prev ++ (p ∷ next)) ≡ reverse next ++ (p ∷ prev)
reverse-split p prev next =
    reverse-append (reverse prev) (p ∷ next)
    ∙ rw (reverse-cons p next, reverse-reverse prev) (append_assoc (reverse next) (p ∷ []) prev)

-- The place of a context of a gang, after `aff_set_offsets`, in a ring of SPUs
abbrev pub place : Gang → Spus → SpuId → ℕ → List SpuId → Context → Option SpuId
place g s p node ring c = ctx_location p ((aff_set_offsets g).aff_offset c) node ring s

module _ (g : Gang) (before after : List Context) where
  module _ (once : (c : Context) → occ c (reverse before ++ (g.aff_ref_ctx ∷ after)) ≤ 1)
      (gang : g.aff_list_head ≡ reverse before ++ (g.aff_ref_ctx ∷ after)) where
    once_split : (c : Context) → occ c before + occ c (g.aff_ref_ctx ∷ after) ≤ 1
    once_split c =
        let o = once c in
        let e = occ-append c (reverse before) (g.aff_ref_ctx ∷ after) in
        let r = occ-reverse c before in omega arith

    aff_offset-aff_set_offsets :
        (aff_set_offsets g).aff_offset
        ≡ set_offsets pos 0 (g.aff_ref_ctx ∷ after) (set_offsets negsuc 0 before g.aff_offset)
    unfolding aff_set_offsets
    aff_offset-aff_set_offsets =
        let ref = g.aff_ref_ctx in
        let o = once_split ref in
        let r = occ-reverse ref before in
        let gone : occ ref (reverse before) ≡ 0 = ground (arith, ==_self ref) in
        let f = list_from-append ref (reverse before) after gone in
        let b = list_before-append ref (reverse before) after gone in
        rw (gang, f, b, reverse-reverse before) refl

    module _ (s : Spus) (p : SpuId) (node : ℕ) (ring : List SpuId)
        (sched : (q : SpuId) → sched_spu q s ≡ true) where
      place-after :
          (up rest : List SpuId)
          → Home (λ q. s.node q == node) (p ∷ (up ++ rest))
          → ring_from p ring ≡ p ∷ (up ++ rest)
          → length up ≡ length after
          → map (place g s p node ring) (g.aff_ref_ctx ∷ after) ≡ map some (p ∷ up)
      unfolding ctx_location
      place-after up rest home around len =
          let h : ℤ → Option SpuId = λ o. ctx_location p o node ring s in
          let old = set_offsets negsuc 0 before g.aff_offset in
          let e =
            map-set_offsets h pos 0 (g.aff_ref_ctx ∷ after) old
              (λ c. let o = once_split c in omega arith) in
          let w =
            upto-pass_spus (λ q. sched_spu q s) (λ q. s.node q == node) sched [] (p ∷ up) rest
              home in
          let placed : map (place g s p node ring) (g.aff_ref_ctx ∷ after)
              ≡ map (λ c. h (set_offsets pos 0 (g.aff_ref_ctx ∷ after) old c))
                  (g.aff_ref_ctx ∷ after) =
            ap (λ (f : Context → ℤ). map (λ c. h (f c)) (g.aff_ref_ctx ∷ after))
              aff_offset-aff_set_offsets in
          let turned : upto (λ k. h (pos k)) 0 (length (g.aff_ref_ctx ∷ after))
              ≡ upto
                  (λ k. pass_spus (λ q. sched_spu q s) (λ q. s.node q == node) k (p ∷ (up ++ rest)))
                  0 (length (p ∷ up)) =
            ap
              (λ (l : List SpuId).
                upto (λ k. pass_spus (λ q. sched_spu q s) (λ q. s.node q == node) k l) 0
                  (suc (length after)))
              around
            ∙ ap
                (λ (n : ℕ).
                  upto
                    (λ k.
                      pass_spus (λ q. sched_spu q s) (λ q. s.node q == node) k (p ∷ (up ++ rest)))
                    0 (suc n))
                (sym len) in
          placed ∙ e ∙ turned ∙ w

      place-before :
          (down rest : List SpuId)
          → Home (λ q. s.node q == node) (p ∷ (down ++ rest))
          → ring_from p (reverse ring) ≡ p ∷ (down ++ rest)
          → length down ≡ length before
          → map (place g s p node ring) before ≡ map some down
      unfolding ctx_location
      place-before down rest home around len =
          let h : ℤ → Option SpuId = λ o. ctx_location p o node ring s in
          let below : Context → ℤ = set_offsets negsuc 0 before g.aff_offset in
          let same =
            map-same (place g s p node ring) (λ c. h (below c)) before
              (λ c l.
                let o = once_split c in
                let f = set_offsets-other pos 0 (g.aff_ref_ctx ∷ after) below c (omega arith) in
                rw (aff_offset-aff_set_offsets, f) refl) in
          let e =
            map-set_offsets h negsuc 0 before g.aff_offset
              (λ c. let o = once_split c in omega arith) in
          let w =
            upto-pass_spus (λ q. sched_spu q s) (λ q. s.node q == node) sched (p ∷ []) down rest
              home in
          same
          ∙ e
          ∙ rw (around, ← len)
              (upto-suc
                  (λ k.
                    pass_spus (λ q. sched_spu q s) (λ q. s.node q == node) k (p ∷ (down ++ rest)))
                  0 (length down)
                ∙ w)

      -- If the reference context of a gang is on the list of the gang, every context at most once,
      -- no SPU has a context with SPU_CREATE_NOSCHED, every SPU is at most once in a ring and all
      -- of them are on the node that is passed to `ctx_location`, and the SPUs of the ring that
      -- follow an SPU are, in this order, as many as there are contexts after the reference
      -- context, any others, and as many as there are contexts before it, then after
      -- `aff_set_offsets` of the gang `ctx_location` from that SPU gives the SPU itself for the
      -- reference context and, in order, the first of these SPUs for the contexts after it and the
      -- last of them for the contexts before it.
      pub ctx_location-aff_set_offsets :
          (prev next down up left : List SpuId)
          → ring ≡ reverse prev ++ (p ∷ next)
          → ((q : SpuId) → occ q ring ≤ 1)
          → ((q : SpuId) → 0 < occ q ring → s.node q ≡ node)
          → next ++ reverse prev ≡ up ++ (left ++ reverse down)
          → length up ≡ length after
          → length down ≡ length before
          → (map (place g s p node ring) (g.aff_ref_ctx ∷ after) ≡ map some (p ∷ up))
            × (map (place g s p node ring) before ≡ map some down)
      ctx_location-aff_set_offsets prev next down up left shape distinct at around lu ld =
          let d = distinct p in
          let e = rw shape at d in
          let o = occ-append p (reverse prev) (p ∷ next) in
          let gone : occ p (reverse prev) ≡ 0 = ground (arith, ==_self p) in
          let o' = occ-reverse p next in
          let gone' : occ p (reverse next) ≡ 0 = ground (arith, ==_self p) in
          let forth : ring_from p ring ≡ p ∷ (up ++ (left ++ reverse down)) =
            rw (shape, ring_from-split p prev next gone, around) refl in
          let mirror : prev ++ reverse next ≡ down ++ (reverse left ++ reverse up) = sym (
            rw
              (
                reverse-append next (reverse prev),
                reverse-reverse prev,
                reverse-append up (left ++ reverse down),
                reverse-append left (reverse down),
                reverse-reverse down,
                append_assoc down (reverse left) (reverse up),
              )
              at (ap reverse (sym around))) in
          let back : ring_from p (reverse ring) ≡ p ∷ (down ++ (reverse left ++ reverse up)) =
            ap (λ (l : List SpuId). ring_from p l) (ap reverse shape ∙ reverse-split p prev next)
            ∙ ring_from-split p next prev gone'
            ∙ ap (λ (l : List SpuId). p ∷ l) mirror in
          let home : Home (λ q. s.node q == node) ring = λ q l. rw (at q l) (==_self node) in
          let home_forth : Home (λ q. s.node q == node) (p ∷ (up ++ (left ++ reverse down))) =
            λ q l.
              let l' = rw (← around) at l in
              home q (
                rw shape (
                  let a = occ-append q next (reverse prev) in
                  let b = occ-append q (reverse prev) (p ∷ next) in omega arith)) in
          let home_back : Home (λ q. s.node q == node)
              (p ∷ (down ++ (reverse left ++ reverse up))) =
            λ q l.
              let l' = rw (← mirror) at l in
              home q (
                rw shape (
                  let a = occ-append q prev (reverse next) in
                  let b = occ-append q (reverse prev) (p ∷ next) in
                  let c = occ-reverse q next in let c' = occ-reverse q prev in omega arith)) in
          (
            place-after up (left ++ reverse down) home_forth forth lu,
            place-before down (reverse left ++ reverse up) home_back back ld,
          )
