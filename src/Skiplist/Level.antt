-- ===== src/Skiplist/Level.antt =====
-- The level of a new node, and the array `update` for it.
use linux_kernel_code_projec.Base.{
  ℕ, zero, suc, ◌+◌, ◌-◌, ◌/◌, ◌^◌, ◌≤◌, ◌<◌, ◌≡◌, inl, inr, ◌∙◌, some, List, [], ◌∷◌, ◌++◌, arith,
  Bool-cases, ◌==◌, length, replicate, get_elem?, get_elem?-append_left, get_elem?-append_right,
  get_elem?-replicate, ltb,
}
use linux_kernel_code_projec.Store.{Addr}
use linux_kernel_code_projec.Skiplist.{max_level, random_level, random_level_loop}
use linux_kernel_code_projec.Skiplist.Chain.{Entry, pred_at, All, Unlinked, pred_at-Unlinked}
use linux_kernel_code_projec.Skiplist.Search.{preds}

pub random_level_loop_bounds :
    (n level random : ℕ)
    → (level ≤ random_level_loop n level random) × (random_level_loop n level random ≤ level + n)
unfolding random_level_loop
random_level_loop_bounds zero level random = omega arith
random_level_loop_bounds (suc n) level random =
    ground (arith, random_level_loop_bounds n (level + 1) (random / 2 ^ 4))

-- The random level lies between 1 and 16, whatever the random number.
pub random_level_bounds :
    (random : ℕ) → (0 < random_level random) × (random_level random ≤ max_level)
unfolding random_level
random_level_bounds random = omega (arith, random_level_loop_bounds 15 1 random)

length-preds :
    (n : ℕ) (d : Addr) (xs : List Entry) (acc : List Addr)
    → length (preds n d xs acc) ≡ n + length acc
length-preds zero d xs acc = omega arith
length-preds (suc n) d xs acc = omega (arith, length-preds n d xs (pred_at n d xs ∷ acc))

get_elem?-preds_acc :
    (n : ℕ) (d : Addr) (xs : List Entry) (acc : List Addr) (j : ℕ)
    → get_elem? (preds n d xs acc) (n + j) ≡ get_elem? acc j
get_elem?-preds_acc zero d xs acc j = let e : 0 + j ≡ j = omega arith in rw e
get_elem?-preds_acc (suc n) d xs acc j =
    let e : suc n + j ≡ n + suc j = omega arith in
    rw e (get_elem?-preds_acc n d xs (pred_at n d xs ∷ acc) (suc j))

pub get_elem?-preds :
    (n : ℕ) (d : Addr) (xs : List Entry) (acc : List Addr) (j : ℕ)
    → j < n
    → get_elem? (preds n d xs acc) j ≡ some (pred_at j d xs)
get_elem?-preds zero d xs acc j lt = elim lt [ ]
get_elem?-preds (suc n) d xs acc j lt = elim (Bool-cases (j == n)) [
  | inl y ↦
      let e : j ≡ n + 0 = ground arith in
      let e' : n + 0 ≡ n = omega arith in
      rw (e, get_elem?-preds_acc n d xs (pred_at n d xs ∷ acc) 0, e')
  | inr q ↦ get_elem?-preds n d xs (pred_at n d xs ∷ acc) j (ground arith)
]

-- Above the level of the list there is only the header.
Unlinked-above :
    (level j : ℕ) (xs : List Entry) → All (λ e. e.hi ≤ level) xs → level ≤ j → Unlinked j xs
Unlinked-above level j [] a le = tt
Unlinked-above level j (e ∷ xs) a le = (ground arith, Unlinked-above level j xs a.1 le)

module _ (level lvl : ℕ) (hdr : Addr) (lows : List Entry) (low : All (λ e. e.hi ≤ level) lows) where
  -- `update` with the header for the levels that the list did not have.
  pub update_raised :
      (j : ℕ)
      → j < lvl
      → get_elem? (preds level hdr lows [] ++ replicate (lvl - level) hdr) j
        ≡ some (pred_at j hdr lows)
  update_raised j lt = elim (Bool-cases (ltb j level)) [
    | inl y ↦
        let shorter : j < level = ground arith in
        get_elem?-append_left (preds level hdr lows []) (replicate (lvl - level) hdr) j
          (omega (arith, length-preds level hdr lows []))
        ∙ get_elem?-preds level hdr lows [] j shorter
    | inr n ↦
        let le : level ≤ j = ground arith in
        let e : j ≡ length (preds level hdr lows []) + (j - level) =
          omega (arith, length-preds level hdr lows []) in
        rw (
          pred_at-Unlinked j hdr lows (Unlinked-above level j lows low le),
          e,
          get_elem?-append_right (preds level hdr lows []) (replicate (lvl - level) hdr)
              (j - level),
          get_elem?-replicate (lvl - level) (j - level) hdr (omega arith),
        )
  ]
