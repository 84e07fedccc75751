-- ===== src/PidMap/Until.antt =====
-- The pids that a cursor sees: those before the first number that is reserved.
use linux_kernel_code_projec.Base.{
  ℕ, ◌≤◌, ◌<◌, ◌≡◌, ◌≢◌, sym, ◌∙◌, inl, inr, Bool, true, false, ◌||◌, Option, none, some, List, [],
  ◌∷◌, ◌==◌, ltb, arith, if◌then◌else◌, Bool-cases, ==_eq, ==_self,
}
use linux_kernel_code_projec.Store.{PidRef}
use linux_kernel_code_projec.PidMap.{
  PidMap, find, from, until_reserved, KeysAbove, IsOrdered, find-KeysAbove,
}

abbrev pub has : ℕ → List ℕ → Bool
has n [] = false
has n (m ∷ ms) = n == m || has n ms

find-from :
    (j lo : ℕ) (m : PidMap)
    → IsOrdered m
    → find j (from lo m) ≡ (if ltb j lo then none else find j m)
unfolding find from
find-from j lo [] o = ground arith
find-from j lo ((i, q) ∷ m) o = ground (arith, find-from j lo m, find-KeysAbove j i m)

from-IsOrdered : (lo : ℕ) (m : PidMap) → IsOrdered m → IsOrdered (from lo m)
unfolding from
from-IsOrdered lo [] o = tt
from-IsOrdered lo ((i, q) ∷ m) o = ground (arith, from-IsOrdered lo m)

-- No number below this one is reserved.
abbrev pub IsUnreserved : ℕ → ℕ → PidMap → Type 0
IsUnreserved lo k m = (j : ℕ) → lo ≤ j → j < k → find j m ≢ some none

-- A number that is found behind the first one is greater.
find-behind : (i k : ℕ) (r : Option PidRef) (m : PidMap) → KeysAbove i m → find k m ≡ some r → i < k
find-behind i k r m above e = elim (Bool-cases (ltb i k)) [
  | inl y ↦ ground arith
  | inr n ↦ let gone = find-KeysAbove k i m (ground arith) above in absurd cc
]

until_reserved-has :
    (k : ℕ) (p : PidRef) (m : PidMap)
    → IsOrdered m
    → find k m ≡ some (some p)
    → IsUnreserved 0 k m
    → has p (until_reserved m) ≡ true
unfolding find until_reserved
until_reserved-has k p [] o e u = cc
until_reserved-has k p ((i, none) ∷ m) o e u = elim (Bool-cases (i == k)) [
  | inl y ↦ let e' = rw y at e in cc
  | inr n ↦
      let e' = rw n at e in
      let lt = find-behind i k (some p) m o.0 e' in absurd (u i (omega arith) lt (rw (==_self i)))
]
until_reserved-has k p ((i, some q) ∷ m) o e u = elim (Bool-cases (i == k)) [
  | inl y ↦
      let e' : some (some q) ≡ some (some p) = rw y at e in
      let same : q ≡ p = cc in rw (same, ==_self p)
  | inr n ↦
      let e' : find k m ≡ some (some p) = rw n at e in
      let rest : has p (until_reserved m) ≡ true = until_reserved-has k p m o.1 e' (λ j le lt bad.
        elim (Bool-cases (i == j)) [
          | inl y ↦ let above = find-KeysAbove j i m (ground arith) o.0 in absurd cc
          | inr a ↦ u j le lt (rw a bad)
        ]) in
      ground (arith, rest)
]

until_reserved-find :
    (p : PidRef) (m : PidMap)
    → IsOrdered m
    → has p (until_reserved m) ≡ true
    → (k : ℕ) × (find k m ≡ some (some p)) × IsUnreserved 0 k m
unfolding find until_reserved
until_reserved-find p [] o e = cc
until_reserved-find p ((i, none) ∷ m) o e = cc
until_reserved-find p ((i, some q) ∷ m) o e = elim (Bool-cases (p == q)) [
  | inl y ↦ (
    i,
    rw (==_self i, ==_eq p q y),
    λ j le lt bad.
        let apart : (i == j) ≡ false = ground arith in
        let bad' = rw apart at bad in
        let gone = find-KeysAbove j i m (omega arith) o.0 in absurd cc,
  )
  | inr n ↦
      let (k, at, u) = until_reserved-find p m o.1 (rw n at e) in
      let lt = find-behind i k (some p) m o.0 at in
      let apart : (i == k) ≡ false = ground arith in
      (
        k,
        rw apart at,
        λ j le less bad. elim (Bool-cases (i == j)) [
          | inl y ↦ let bad' = rw y at bad in absurd cc
          | inr a ↦ u j le less (rw a at bad)
        ],
      )
]

module _ (lo k : ℕ) (p : PidRef) (m : PidMap) (o : IsOrdered m) where
  -- From `lo` on, a pid is seen exactly if no number from `lo` to its own one is reserved.
  pub until_reserved-from :
      lo ≤ k
      → find k m ≡ some (some p)
      → IsUnreserved lo k m
      → has p (until_reserved (from lo m)) ≡ true
  until_reserved-from le e u =
      let at = find-from k lo m o in
      let high : ltb k lo ≡ false = ground arith in
      until_reserved-has k p (from lo m) (from-IsOrdered lo m o) (at ∙ rw high e) (λ j _ lt bad.
        let there = find-from j lo m o in
        elim (Bool-cases (ltb j lo)) [
          | inl y ↦ let there' = rw y at there in absurd cc
          | inr n ↦ let there' = rw n at there in u j (ground arith) lt (sym there' ∙ bad)
        ])

pub from-until_reserved :
    (lo : ℕ) (p : PidRef) (m : PidMap)
    → IsOrdered m
    → has p (until_reserved (from lo m)) ≡ true
    → (k : ℕ) × (lo ≤ k) × (find k m ≡ some (some p)) × IsUnreserved lo k m
from-until_reserved lo p m o e =
    let (k, at, u) = until_reserved-find p (from lo m) (from-IsOrdered lo m o) e in
    let there = find-from k lo m o in
    elim (Bool-cases (ltb k lo)) [
      | inl y ↦ let there' = rw y at there in cc
      | inr n ↦
          let there' = rw n at there in
          (
            k,
            ground arith,
            sym there' ∙ at,
            λ j le lt bad.
                let here = find-from j lo m o in
                let high : ltb j lo ≡ false = ground arith in
                let here' = rw high at here in u j (omega arith) lt (here' ∙ bad),
          )
    ]
