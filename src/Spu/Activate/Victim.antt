-- ===== src/Spu/Activate/Victim.antt =====
-- The SPU that `find_victim` frees.
use linux_kernel_code_projec.Base.{
  ℕ, ◌-◌, ◌≤◌, ◌<◌, ◌≡◌, ◌⊎◌, refl, ap, ◌∙◌, inl, inr, Bool, true, false, Option, none, some, leb,
  arith, is_some, Bool-cases, Option-cases, ==_self,
}
use linux_kernel_code_projec.Base.Run.{Returns}
use linux_kernel_code_projec.Spu.{Context, SpuPrioArray, spu_add_to_rq}
use linux_kernel_code_projec.Spu.Queue.{occ}
use linux_kernel_code_projec.Spu.Schedule.{SpuId, Spus, set_at, spu_unschedule, spu_unbind_context}
use linux_kernel_code_projec.Spu.Schedule.Bound.{IsBound, spu_unschedule-IsBound}
use linux_kernel_code_projec.Spu.Schedule.Moves.{added-IsBound}
use linux_kernel_code_projec.Spu.Activate.{over_nodes, first_free, worst, find_victim}
use linux_kernel_code_projec.Spu.Activate.Nodes.{over_nodes-some, over_nodes-none}
use linux_kernel_code_projec.Spu.Activate.Choice.{
  IsCandidate, first_free-none, worst-some, worst-none,
}

pub spu_add_to_rq-queued :
    (jiffies : ℕ) (c : Context) (q : SpuPrioArray)
    → is_some ((spu_add_to_rq jiffies c q).rq c) ≡ true
unfolding spu_add_to_rq
spu_add_to_rq-queued jiffies c q = elim (Bool-cases (is_some (q.rq c))) [
  | inl y ↦ rw (y, y)
  | inr n ↦ rw (n, ==_self c)
]

module _ (hz jiffies : ℕ) (allowed : Context → ℕ → Bool) (max_numnodes here : ℕ) where
  -- No SPU of an allowed node is free.
  abbrev pub NoIdle : Context → Spus → Type 0
  NoIdle c s =
      (n : ℕ) (p : SpuId)
      → n < max_numnodes
      → allowed c n ≡ true
      → 0 < occ p (s.spus n)
      → s.used p ≡ true

  -- No context on an SPU of an allowed node may be taken off.
  abbrev pub NoVictim : Context → Spus → Type 0
  NoVictim c s =
      (n : ℕ) (p : SpuId) (t : Context)
      → n < max_numnodes
      → allowed c n ≡ true
      → 0 < occ p (s.spus n)
      → s.ctx p ≡ some t
      → ¬ IsCandidate s c t

  -- The context of this SPU may be taken off, and has the worst priority of those on its node.
  abbrev pub IsVictim : Context → Spus → SpuId → Context → Type 0
  IsVictim c s p v =
      (s.ctx p ≡ some v)
      × (allowed c (s.node p) ≡ true)
      × IsCandidate s c v
      × ((q : SpuId) (t : Context)
          → 0 < occ q (s.spus (s.node p))
          → s.ctx q ≡ some t
          → IsCandidate s c t
          → s.queue.prio t ≤ s.queue.prio v)

  pub spu_get_idle-none :
      (c : Context) (s : Spus)
      → here < max_numnodes
      → over_nodes max_numnodes (allowed c) (λ n. first_free s.used (s.spus n)) max_numnodes here
        ≡ none
      → NoIdle c s
  spu_get_idle-none c s lt e n p low may there =
      first_free-none s.used (s.spus n) p
        (over_nodes-none max_numnodes (allowed c) (λ n. first_free s.used (s.spus n)) max_numnodes
          here n e (omega arith) low (ground arith) may)
        there

  find_victim-none :
      (c : Context) (s : Spus)
      → here < max_numnodes
      → over_nodes max_numnodes (allowed c) (λ n. worst s c none (s.spus n)) max_numnodes here
        ≡ none
      → NoVictim c s
  find_victim-none c s lt e n p t low may there at =
      worst-none s c (s.spus n) p t
        (over_nodes-none max_numnodes (allowed c) (λ n. worst s c none (s.spus n)) max_numnodes here
          n e (omega arith) low (ground arith) may)
        there at

  -- What `find_victim` returns and leaves.
  abbrev pub Freed : Context → Spus → Option SpuId × Spus → Type 0
  Freed c s r =
      (NoVictim c s × (r ≡ (none, s)))
      ⊎ ((p : SpuId) × (v : Context) × IsVictim c s p v
          × (r.0 ≡ some p)
          × (r.1.ctx p ≡ none)
          × (r.1.spu v ≡ none)
          × (0 < occ p (r.1.spus (r.1.node p)))
          × (s.spu_run v ≡ true → is_some (r.1.queue.rq v) ≡ true)
          × ((d : Context) → s.runnable d ≡ false → r.1.runnable d ≡ false))

  pub find_victim-Freed :
      (c : Context) (s : Spus)
      → here < max_numnodes
      → IsBound s
      → Returns
          (find_victim hz jiffies allowed max_numnodes here c s)
          λ r. IsBound r.1 × Freed c s r
  unfolding find_victim spu_unschedule
  find_victim-Freed c s lt i =
      let f : ℕ → Option Context = λ n. worst s c none (s.spus n) in
      elim (Option-cases (over_nodes max_numnodes (allowed c) f max_numnodes here)) [
        | inl e ↦ ((none, s), rw (find_victim, e), (i, inl (find_victim-none c s lt e, refl)))
        | inr ((n, v), e) ↦
            let (may, found) = over_nodes-some max_numnodes (allowed c) f max_numnodes here n v e in
            let ((p, listed, at, cand), least) = worst-some s c (s.spus n) v found in
            let (node, _) = i.placed p n listed in
            let mine = i.there p v at in
            let (s₂, run, (i₂, idle, off, _, _, _, _, still, list, nodes, runs)) =
              spu_unschedule-IsBound p v false s s.time_slice at i (λ d _. i.slice d) in
            let run' : spu_unbind_context p v
                  (record s { nr_active = set_at n (s.nr_active n - 1) s.nr_active })
                ≡ some s₂ =
              rw node at run in
            let over : leb (s.queue.prio v) (s.queue.prio c) ≡ false = ground (arith, cand) in
            let real : 0 < occ p (s₂.spus (s₂.node p)) = rw (list, nodes, node) listed in
            let victim : IsVictim c s p v = (at, rw node may, cand, rw node least) in
            elim (Bool-cases (s₂.spu_run v)) [
              | inl y ↦
                  let s₃ = record s₂ { queue = spu_add_to_rq jiffies v s₂.queue } in
                  (
                    (some p, s₃),
                    rw (find_victim, e, mine, over, run', y),
                    (
                      added-IsBound jiffies v s₂ i₂,
                      inr (
                        p,
                        v,
                        victim,
                        refl,
                        idle,
                        off,
                        real,
                        (λ _. spu_add_to_rq-queued jiffies v s₂.queue),
                        still,
                      ),
                    ),
                  )
              | inr m ↦ (
                (some p, s₂),
                rw (find_victim, e, mine, over, run', m),
                (
                  i₂,
                  inr (
                    p,
                    v,
                    victim,
                    refl,
                    idle,
                    off,
                    real,
                    (λ y. let y' : s₂.spu_run v ≡ true = ap (λ g. g v) runs ∙ y in cc),
                    still,
                  ),
                ),
              )
            ]
      ]
