-- ===== src/Spu/Grab.antt =====
-- `grab_runnable_context` takes the best context that may run, and sequences of calls keep the queue.
use linux_kernel_code_projec.Base.{
  ℕ, zero, suc, ◌+◌, ◌-◌, ◌≤◌, ◌<◌, ◌≡◌, refl, subst, inl, inr, Bool, true, false, Option, none,
  some, List, [], ◌∷◌, ◌==◌, ltb, arith, if◌then◌else◌, Bool-cases, Option-cases, ==_eq, ==_self,
}
use linux_kernel_code_projec.Spu.{
  Context, max_prio, max_rt_prio, SpuPrioArray, list_empty, spu_add_to_rq, spu_del_from_rq,
  first_allowed, find_first_bit, best_allowed, grab_runnable_context, spu_update_sched_info,
}
use linux_kernel_code_projec.Spu.Queue.{
  occ, IsCounted, spu_add_to_rq-IsCounted, spu_del_from_rq-IsCounted,
}

first_allowed-some :
    (allowed : Context → Bool) (cs : List Context) (c : Context)
    → first_allowed allowed cs ≡ some c
    → (allowed c ≡ true) × (0 < occ c cs)
unfolding first_allowed
first_allowed-some allowed [] c e = cc
first_allowed-some allowed (d ∷ ds) c e = elim (Bool-cases (allowed d)) [
  | inl y ↦
      let e' = rw y at e in
      let same : d ≡ c = cc in
      let here : (c == d) ≡ true = rw (same, ==_self c) in (rw (← same) y, ground arith)
  | inr n ↦ let (a, there) = first_allowed-some allowed ds c (rw n at e) in (a, omega arith)
]

first_allowed-none :
    (allowed : Context → Bool) (cs : List Context) (c : Context)
    → first_allowed allowed cs ≡ none
    → 0 < occ c cs
    → allowed c ≡ false
unfolding first_allowed
first_allowed-none allowed [] c e lt = absurd (omega arith)
first_allowed-none allowed (d ∷ ds) c e lt = elim (Bool-cases (allowed d)) [
  | inl y ↦ let e' = rw y at e in cc
  | inr n ↦ elim (Bool-cases (c == d)) [
    | inl y ↦ rw (==_eq c d y) n
    | inr m ↦ first_allowed-none allowed ds c (rw n at e) (let lt' = rw m at lt in omega arith)
  ]
]

find_first_bit-first :
    (n i : ℕ) (bits : ℕ → Bool)
    → (find_first_bit n i bits ≤ i + n)
      × (i ≤ find_first_bit n i bits)
      × ((p : ℕ) → i ≤ p → p < find_first_bit n i bits → bits p ≡ false)
unfolding find_first_bit
find_first_bit-first zero i bits = (omega arith, omega arith, λ p le lt. absurd (omega arith))
find_first_bit-first (suc n) i bits = elim (Bool-cases (bits i)) [
  | inl y ↦ rw (find_first_bit, y) (omega arith, omega arith, λ p le lt. absurd (omega arith))
  | inr m ↦
      let (top, low, clear) = find_first_bit-first n (i + 1) bits in
      rw (find_first_bit, m)
        (
          omega arith,
          omega arith,
          λ p le lt. elim (Bool-cases (p == i)) [
            | inl y ↦ rw (==_eq p i y) m
            | inr q ↦ clear p (ground arith) lt
          ],
        )
]

-- A context is the first one that may run, of the priorities from `lo` to below `hi`; or there is none.
abbrev pub IsBest : (Context → Bool) → ℕ → ℕ → SpuPrioArray → Option Context → Type 0
IsBest allowed lo hi s none =
    (d : Context) (p : ℕ) → lo ≤ p → p < hi → 0 < occ d (s.runq p) → allowed d ≡ false
IsBest allowed lo hi s (some c) =
    (q : ℕ) × (lo ≤ q)
    × (q < hi)
    × (0 < occ c (s.runq q))
    × (allowed c ≡ true)
    × ((d : Context) (p : ℕ) → lo ≤ p → p < q → 0 < occ d (s.runq p) → allowed d ≡ false)

-- Lists of better priorities, without a context that may run, change nothing.
IsBest-down :
    (allowed : Context → Bool) (lo lo' hi : ℕ) (s : SpuPrioArray) (o : Option Context)
    → lo ≤ lo'
    → ((d : Context) (p : ℕ) → lo ≤ p → p < lo' → 0 < occ d (s.runq p) → allowed d ≡ false)
    → IsBest allowed lo' hi s o
    → IsBest allowed lo hi s o
IsBest-down allowed lo lo' hi s none le below b = λ d p low high there.
    elim (Bool-cases (ltb p lo')) [
      | inl y ↦ below d p low (ground arith) there
      | inr n ↦ b d p (ground arith) high there
    ]
IsBest-down allowed lo lo' hi s (some c) le below (q, low, high, there, a, best) = (
  q,
  omega arith,
  high,
  there,
  a,
  λ d p low' lt there'. elim (Bool-cases (ltb p lo')) [
    | inl y ↦ below d p low' (ground arith) there'
    | inr n ↦ best d p (ground arith) lt there'
  ],
)

best_allowed-IsBest :
    (allowed : Context → Bool) (n lo : ℕ) (s : SpuPrioArray)
    → IsBest allowed lo (lo + n) s (best_allowed allowed n lo s)
unfolding best_allowed
best_allowed-IsBest allowed zero lo s = λ d p le lt there. absurd (omega arith)
best_allowed-IsBest allowed (suc n) lo s = elim (Option-cases (first_allowed allowed (s.runq lo))) [
  | inr (c, e) ↦
      let (a, there) = first_allowed-some allowed (s.runq lo) c e in
      rw (best_allowed, e)
        (lo, omega arith, omega arith, there, a, λ d p le lt there'. absurd (omega arith))
  | inl e ↦
      let here : (d : Context) (p : ℕ) → p ≡ lo → 0 < occ d (s.runq p) → allowed d ≡ false =
        λ d p q there. first_allowed-none allowed (s.runq lo) d e (rw q at there) in
      let rest = best_allowed-IsBest allowed n (lo + 1) s in
      let sum : lo + 1 + n ≡ lo + suc n = omega arith in
      rw (best_allowed, e)
        (subst (λ hi. IsBest allowed lo hi s (best_allowed allowed n (lo + 1) s)) sum
          (IsBest-down allowed lo (lo + 1) (lo + 1 + n) s (best_allowed allowed n (lo + 1) s)
            (omega arith) (λ d p le lt there. here d p (omega arith) there) rest))
]

no_occ : (d : Context) (cs : List Context) → list_empty cs ≡ true → ¬ (0 < occ d cs)
no_occ d [] e lt = omega arith
no_occ d (c ∷ cs) e lt = cc

-- What `grab_runnable_context` returns and leaves.
pub record Grabbed (prio : ℕ) (allowed : Context → Bool) (s : SpuPrioArray)
    (r : Option Context × SpuPrioArray) : Type 0 where
  pub best : IsBest allowed 0 prio s r.0
  pub counted : IsCounted r.1
  pub left : r.1 ≡ (elim r.0 [ none ↦ s | some c ↦ spu_del_from_rq c s ])

-- On a run queue where every context is once in the list of its priority or in none, and the
-- bitmap, the count and the timer agree with the lists, `grab_runnable_context` returns a context
-- that may run on the node, is in a list below the limit, and has the best priority of all those;
-- it is taken off the queue. It returns none, and changes nothing, if no context below the limit
-- may run on the node. The queue agrees with its lists afterwards.
pub grab_runnable_context-Grabbed :
    (prio : ℕ) (allowed : Context → Bool) (s : SpuPrioArray)
    → IsCounted s
    → Grabbed prio allowed s (grab_runnable_context prio allowed s)
unfolding grab_runnable_context
grab_runnable_context-Grabbed prio allowed s i =
    let start = find_first_bit prio 0 s.bitmap in
    let (top, low, clear) = find_first_bit-first prio 0 s.bitmap in
    let found = best_allowed-IsBest allowed (prio - start) start s in
    let sum : start + (prio - start) ≡ prio = omega arith in
    let best : IsBest allowed 0 prio s (best_allowed allowed (prio - start) start s) =
      IsBest-down allowed 0 start prio s (best_allowed allowed (prio - start) start s) (omega arith)
        (λ d p le lt there.
          let off = clear p le lt in
          let empty : list_empty (s.runq p) ≡ true = ground (arith, i.bits p) in
          absurd (no_occ d (s.runq p) empty there))
        (rw sum at found) in
    elim (Option-cases (best_allowed allowed (prio - start) start s)) [
      | inl e ↦
          rw (grab_runnable_context, e) (record { best = rw e at best; counted = i; left = refl })
      | inr (c, e) ↦
          rw (grab_runnable_context, e)
            (record { best = rw e at best; counted = spu_del_from_rq-IsCounted c s i; left = refl })
    ]

-- The calls that change the run queue.
pub data Step : SpuPrioArray → SpuPrioArray → Type 0 where
  update :
      {s s' : SpuPrioArray} (task_prio static_prio : ℕ) (c : Context)
      → spu_update_sched_info task_prio static_prio c s ≡ some s'
      → Step s s'
  add :
      (s : SpuPrioArray) (jiffies : ℕ) (c : Context)
      → s.prio c < max_prio
      → Step s (spu_add_to_rq jiffies c s)
  del : (s : SpuPrioArray) (c : Context) → Step s (spu_del_from_rq c s)
  grab :
      (s : SpuPrioArray) (prio : ℕ) (allowed : Context → Bool)
      → Step s (grab_runnable_context prio allowed s).1

pub data Reach (start : SpuPrioArray) : SpuPrioArray → Type 0 where
  here : Reach start start
  next : {s s' : SpuPrioArray} → Reach start s → Step s s' → Reach start s'

spu_update_sched_info-IsCounted :
    (task_prio static_prio : ℕ) (c : Context) (s s' : SpuPrioArray)
    → spu_update_sched_info task_prio static_prio c s ≡ some s'
    → IsCounted s
    → IsCounted s'
unfolding spu_update_sched_info
spu_update_sched_info-IsCounted task_prio static_prio c s s' e i = elim (Option-cases (s.rq c)) [
  | inr (q, at) ↦ let e' = rw at at e in cc
  | inl free ↦
      let e' = rw free at e in
      let new : SpuPrioArray = record s {
        prio = λ d.
            if d == c
            then (if ltb task_prio max_rt_prio then task_prio else static_prio)
            else s.prio d;
      } in
      let same : new ≡ s' = cc in
      subst IsCounted same (record {
        placed = i.placed;
        own = λ d p at. elim (Bool-cases (d == c)) [
          | inl y ↦ let at' : s.rq c ≡ some p = rw (==_eq d c y) at at in cc
          | inr n ↦ rw n (i.own d p at)
        ];
        bits = i.bits;
        waiting = i.waiting;
        timed = i.timed;
      })
]

Step-IsCounted : (s s' : SpuPrioArray) → Step s s' → IsCounted s → IsCounted s'
Step-IsCounted s s' (update a b c e) i = spu_update_sched_info-IsCounted a b c s s' e i
Step-IsCounted s s' (add _ j c lt) i = spu_add_to_rq-IsCounted j c s lt i
Step-IsCounted s s' (del _ c) i = spu_del_from_rq-IsCounted c s i
Step-IsCounted s s' (grab _ prio allowed) i =
    (grab_runnable_context-Grabbed prio allowed s i).counted

-- If every context of a run queue is once in the list of its priority or in none, the bitmap shows
-- the lists that are not empty, `nr_waiting` is the number of contexts, and the timer is set
-- exactly while there are some, then the same holds after any sequence of `__spu_add_to_rq` with
-- priorities below MAX_PRIO, `__spu_del_from_rq`, `grab_runnable_context` and updates of
-- priorities by `__spu_update_sched_info`.
pub Reach-IsCounted : (start s : SpuPrioArray) → IsCounted start → Reach start s → IsCounted s
Reach-IsCounted start s i here = i
Reach-IsCounted start s' i (next {s = s} r st) =
    Step-IsCounted s s' st (Reach-IsCounted start s i r)
