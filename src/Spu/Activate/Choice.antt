-- ===== src/Spu/Activate/Choice.antt =====
-- What the loops of `spu_get_idle` and `find_victim` over the SPUs of one node find.
use linux_kernel_code_projec.Base.{
  ℕ, suc, ◌≤◌, ◌<◌, ◌≡◌, ◌⊎◌, inl, inr, Bool, true, false, Option, none, some, List, [], ◌∷◌, ◌==◌,
  arith, Bool-cases, ==_eq, ==_self,
}
use linux_kernel_code_projec.Spu.{Context}
use linux_kernel_code_projec.Spu.Queue.{occ}
use linux_kernel_code_projec.Spu.Schedule.{SpuId, Spus}
use linux_kernel_code_projec.Spu.Activate.{first_free, worse, worst}

pub first_free-some :
    (used : SpuId → Bool) (ps : List SpuId) (p : SpuId)
    → first_free used ps ≡ some p
    → (used p ≡ false) × (0 < occ p ps)
unfolding first_free
first_free-some used [] p e = cc
first_free-some used (q ∷ qs) p e = elim (Bool-cases (used q)) [
  | inl y ↦ let (off, there) = first_free-some used qs p (rw y at e) in (off, omega arith)
  | inr n ↦
      let e' = rw n at e in
      let same : q ≡ p = cc in
      let here : (p == q) ≡ true = rw (same, ==_self p) in (rw (← same) n, ground arith)
]

pub first_free-none :
    (used : SpuId → Bool) (ps : List SpuId) (p : SpuId)
    → first_free used ps ≡ none
    → 0 < occ p ps
    → used p ≡ true
unfolding first_free
first_free-none used [] p e lt = absurd (omega arith)
first_free-none used (q ∷ qs) p e lt = elim (Bool-cases (used q)) [
  | inr n ↦ let e' = rw n at e in cc
  | inl y ↦ elim (Bool-cases (p == q)) [
    | inl at ↦ rw (==_eq p q at) y
    | inr m ↦ first_free-none used qs p (rw y at e) (let lt' = rw m at lt in omega arith)
  ]
]

-- One more than the priority of a victim
abbrev pub level : Spus → Option Context → ℕ
level s none = 0
level s (some v) = suc (s.queue.prio v)

-- A context may be taken off for another one: its priority is worse, and it may be scheduled.
abbrev pub IsCandidate : Spus → Context → Context → Type 0
IsCandidate s c t = (s.queue.prio c < s.queue.prio t) × (s.nosched t ≡ false)

worse-level :
    (s : Spus) (c : Context) (victim : Option Context) (p : SpuId)
    → (level s victim ≤ level s (worse s c victim p))
      × ((t : Context)
          → s.ctx p ≡ some t
          → IsCandidate s c t
          → s.queue.prio t < level s (worse s c victim p))
unfolding worse
worse-level s c none p = (ground arith, λ t e h. ground arith)
worse-level s c (some v) p = (ground arith, λ t e h. ground arith)

worse-from :
    (s : Spus) (c : Context) (victim : Option Context) (p : SpuId) (r : Context)
    → worse s c victim p ≡ some r
    → (victim ≡ some r) ⊎ ((s.ctx p ≡ some r) × IsCandidate s c r)
unfolding worse
worse-from s c none p r e = ground arith
worse-from s c (some v) p r e = ground arith

worst-level :
    (s : Spus) (c : Context) (victim : Option Context) (ps : List SpuId)
    → (level s victim ≤ level s (worst s c victim ps))
      × ((p : SpuId) (t : Context)
          → 0 < occ p ps
          → s.ctx p ≡ some t
          → IsCandidate s c t
          → s.queue.prio t < level s (worst s c victim ps))
unfolding worst
worst-level s c victim [] = (omega arith, λ p t lt e h. absurd (omega arith))
worst-level s c victim (q ∷ qs) =
    let (up, here) = worse-level s c victim q in
    let (up', there) = worst-level s c (worse s c victim q) qs in
    (
      omega arith,
      λ p t lt e h. elim (Bool-cases (p == q)) [
        | inl y ↦
            let at : s.ctx q ≡ some t = rw (← ==_eq p q y) e in let low = here t at h in omega arith
        | inr n ↦ there p t (let lt' = rw n at lt in omega arith) e h
      ],
    )

worst-from :
    (s : Spus) (c : Context) (victim : Option Context) (ps : List SpuId) (r : Context)
    → worst s c victim ps ≡ some r
    → (victim ≡ some r) ⊎ ((p : SpuId) × (0 < occ p ps) × (s.ctx p ≡ some r) × IsCandidate s c r)
unfolding worst
worst-from s c victim [] r e = inl e
worst-from s c victim (q ∷ qs) r e = elim (worst-from s c (worse s c victim q) qs r e) [
  | inr (p, lt, at, h) ↦ inr (p, omega arith, at, h)
  | inl e' ↦ elim (worse-from s c victim q r e') [
    | inl old ↦ inl old
    | inr (at, h) ↦ let here : (q == q) ≡ true = ==_self q in inr (q, ground arith, at, h)
  ]
]

-- The victim of a node has the worst priority of the candidates there.
pub worst-some :
    (s : Spus) (c : Context) (ps : List SpuId) (r : Context)
    → worst s c none ps ≡ some r
    → ((p : SpuId) × (0 < occ p ps) × (s.ctx p ≡ some r) × IsCandidate s c r)
      × ((p : SpuId) (t : Context)
          → 0 < occ p ps
          → s.ctx p ≡ some t
          → IsCandidate s c t
          → s.queue.prio t ≤ s.queue.prio r)
worst-some s c ps r e = (
  elim (worst-from s c none ps r e) [ inl off ↦ cc | inr found ↦ found ],
  λ p t lt at h.
      let low = (worst-level s c none ps).1 p t lt at h in let low' = rw e at low in omega arith,
)

pub worst-none :
    (s : Spus) (c : Context) (ps : List SpuId) (p : SpuId) (t : Context)
    → worst s c none ps ≡ none
    → 0 < occ p ps
    → s.ctx p ≡ some t
    → ¬ IsCandidate s c t
worst-none s c ps p t e lt at h =
    let low = (worst-level s c none ps).1 p t lt at h in let low' = rw e at low in omega arith
