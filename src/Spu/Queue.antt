-- ===== src/Spu/Queue.antt =====
-- The run queue of the SPU scheduler keeps its counts.
use linux_kernel_code_projec.Base.{
  ℕ, zero, suc, ◌+◌, ◌-◌, ◌≤◌, ◌<◌, ◌≡◌, refl, inl, inr, false, not, Option, none, some, List, [],
  ◌∷◌, ◌++◌, length, length-append, ◌==◌, arith, is_some, if◌then◌else◌, Bool-cases, Option-cases,
  ==_eq, ==_self,
}
use linux_kernel_code_projec.Spu.{
  Context, max_prio, SpuPrioArray, list_empty, list_del, spu_add_to_rq, spu_del_from_rq,
}

-- How often a context is in a list
abbrev pub occ : Context → List Context → ℕ
occ c [] = 0
occ c (d ∷ ds) = (if c == d then 1 else 0) + occ c ds

pub occ-append : (c : Context) (ds es : List Context) → occ c (ds ++ es) ≡ occ c ds + occ c es
occ-append c [] es = omega arith
occ-append c (d ∷ ds) es = omega (arith, occ-append c ds es)

occ-list_del :
    (c d : Context) (cs : List Context)
    → occ d (list_del c cs) ≡ occ d cs - (if d == c then 1 else 0)
occ-list_del c d [] = ground arith
occ-list_del c d (e ∷ es) = ground (arith, occ-list_del c d es)

length-list_del :
    (c : Context) (cs : List Context) → 0 < occ c cs → length (list_del c cs) + 1 ≡ length cs
length-list_del c [] lt = absurd (omega arith)
length-list_del c (d ∷ ds) lt = ground (arith, length-list_del c ds)

-- The contexts in the lists of the first `n` priorities
unfoldable pub total : ℕ → (ℕ → List Context) → ℕ
total zero runq = 0
total (suc n) runq = length (runq n) + total n runq

total-above :
    (n p : ℕ) (runq : ℕ → List Context) (l : List Context)
    → n ≤ p
    → total n (λ i. if i == p then l else runq i) ≡ total n runq
unfolding total
total-above zero p runq l le = refl
total-above (suc n) p runq l le =
    let apart : (n == p) ≡ false = ground arith in rw (apart, total-above n p runq l (omega arith))

total-at :
    (n p : ℕ) (runq : ℕ → List Context) (l : List Context)
    → p < n
    → total n (λ i. if i == p then l else runq i) + length (runq p) ≡ total n runq + length l
unfolding total
total-at zero p runq l lt = absurd (omega arith)
total-at (suc n) p runq l lt = elim (Bool-cases (n == p)) [
  | inl y ↦
      let e = ==_eq n p y in
      let rest = total-above n p runq l (omega arith) in
      let rest' = rw e at rest in rw (y, e) (omega arith)
  | inr m ↦ let rest = total-at n p runq l (ground arith) in rw m (omega arith)
]

-- Whether a context is in the list of this priority
abbrev pub at_prio : ℕ → Option ℕ → ℕ
at_prio p none = 0
at_prio p (some q) = if q == p then 1 else 0

-- A context is in the list of its priority, once, or in none; the bitmap shows the lists that are not
-- empty, `nr_waiting` counts the contexts, and the timer is set while there are some.
pub record IsCounted (s : SpuPrioArray) : Type 0 where
  pub placed : (c : Context) (p : ℕ) → occ c (s.runq p) ≡ at_prio p (s.rq c)
  pub own : (c : Context) (p : ℕ) → s.rq c ≡ some p → (p ≡ s.prio c) × (p < max_prio)
  pub bits : (p : ℕ) → s.bitmap p ≡ not (list_empty (s.runq p))
  pub waiting : s.nr_waiting ≡ total max_prio s.runq
  pub timed : is_some s.timer ≡ not (s.nr_waiting == 0)

list_empty-occ : (c : Context) (ds : List Context) → 0 < occ c ds → list_empty ds ≡ false
list_empty-occ c [] lt = absurd (omega arith)
list_empty-occ c (d ∷ ds) lt = refl

list_empty-append : (c : Context) (ds : List Context) → list_empty (ds ++ c ∷ []) ≡ false
list_empty-append c [] = refl
list_empty-append c (d ∷ ds) = refl

pub spu_add_to_rq-IsCounted :
    (jiffies : ℕ) (c : Context) (s : SpuPrioArray)
    → s.prio c < max_prio
    → IsCounted s
    → IsCounted (spu_add_to_rq jiffies c s)
unfolding spu_add_to_rq
spu_add_to_rq-IsCounted jiffies c s lt i = elim (Option-cases (s.rq c)) [
  | inr (q, e) ↦ rw e i
  | inl free ↦ rw free (record {
    placed = λ d p.
        let old = i.placed d p in
        let more = occ-append d (s.runq (s.prio c)) (c ∷ []) in
        let gone : occ c (s.runq p) ≡ 0 = rw free at (i.placed c p) in
        ground (arith, old, more, gone);
    own = λ d p e. ground (arith, i.own d p);
    bits =
        λ p. let full = list_empty-append c (s.runq (s.prio c)) in ground (arith, i.bits p, full);
    waiting =
        let sum = total-at max_prio (s.prio c) s.runq (s.runq (s.prio c) ++ c ∷ []) lt in
        omega (arith, i.waiting, sum, length-append (s.runq (s.prio c)) (c ∷ []));
    timed = ground (arith, i.timed);
  })
]

pub spu_del_from_rq-IsCounted :
    (c : Context) (s : SpuPrioArray) → IsCounted s → IsCounted (spu_del_from_rq c s)
unfolding spu_del_from_rq
spu_del_from_rq-IsCounted c s i = elim (Option-cases (s.rq c)) [
  | inl free ↦ rw (spu_del_from_rq, free) i
  | inr (q, e) ↦
      let (mine, lt) = i.own c q e in
      let once : occ c (s.runq q) ≡ 1 = rw (e, ==_self q) at (i.placed c q) in
      let less = length-list_del c (s.runq q) (omega arith) in
      let full = list_empty-occ c (s.runq q) (omega arith) in
      let sum = total-at max_prio q s.runq (list_del c (s.runq q)) lt in
      rw (spu_del_from_rq, e)
        (record {
          placed = λ d p.
              let old = i.placed d p in
              let there = occ-list_del c d (s.runq q) in ground (arith, old, there);
          own = λ d p f. ground (arith, i.own d p);
          bits = λ p. let old = i.bits p in ground (arith, old, full, mine);
          waiting = omega (arith, i.waiting, sum, less);
          timed = ground (arith, i.timed);
        })
]
