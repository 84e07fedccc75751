-- ===== src/Spu/Activate/Waits.antt =====
-- The ways in which `spu_activate` ends for a context without an SPU.
use linux_kernel_code_projec.Base.{
  ℕ, ◌<◌, ◌≡◌, ◌⊎◌, refl, inl, inr, Bool, true, false, none, some, arith, is_some, if◌then◌else◌,
  Bool-cases, ==_self,
}
use linux_kernel_code_projec.Spu.{Context, max_rt_prio, spu_add_to_rq}
use linux_kernel_code_projec.Spu.Queue.{occ}
use linux_kernel_code_projec.Spu.Schedule.{SpuId, Spus, set_at, spu_bind_context, schedule_on}
use linux_kernel_code_projec.Spu.Schedule.Bound.{IsBound, spu_bind_context-IsBound}
use linux_kernel_code_projec.Spu.Schedule.Moves.{added-IsBound}
use linux_kernel_code_projec.Spu.Activate.{
  Activation, returned_zero, restart_sys, asleep, over_nodes, first_free, spu_get_idle,
  spu_prio_wait,
}
use linux_kernel_code_projec.Spu.Activate.Victim.{NoIdle, NoVictim, IsVictim, spu_add_to_rq-queued}

pub used-IsBound :
    (p : SpuId) (s : Spus) → IsBound s → IsBound (record s { used = set_at p true s.used })
used-IsBound p s i = record {
  there = i.there;
  back = i.back;
  state = i.state;
  slice = i.slice;
  free = λ q e. ground (arith, i.free q);
  counted = i.counted;
  prio = i.prio;
  placed = i.placed;
  home = i.home;
  active = i.active;
}

-- An SPU without a context gets one that has no SPU.
pub schedule_on-IsBound :
    (hz jiffies : ℕ) (allowed : Context → ℕ → Bool) (p : SpuId) (c : Context) (s : Spus)
    → s.ctx p ≡ none
    → s.spu c ≡ none
    → 0 < occ p (s.spus (s.node p))
    → IsBound s
    → let r = schedule_on hz jiffies allowed p c s in
      IsBound r × (r.ctx p ≡ some c) × (r.spu ≡ set_at c (some p) s.spu) × (r.queue ≡ s.queue)
unfolding schedule_on
schedule_on-IsBound hz jiffies allowed p c s idle off real i =
    rw (schedule_on, idle)
      (
        spu_bind_context-IsBound hz p c s idle off real i,
        unfold spu_bind_context in rw (==_self p),
        unfold spu_bind_context in refl,
        unfold spu_bind_context in refl,
      )

module _ (hz jiffies : ℕ) (allowed : Context → ℕ → Bool) (max_numnodes here : ℕ) where
  -- What `spu_activate` returns and leaves, without a pending signal, for a context that has no SPU.
  abbrev pub Activated : Bool → Context → Spus → Activation × Spus → Type 0
  Activated late c s r =
      ((p : SpuId) × (s.used p ≡ false)
        × (allowed c (s.node p) ≡ true)
        × (r.0 ≡ returned_zero)
        × (r.1.ctx p ≡ some c))
      ⊎ (NoIdle hz jiffies allowed max_numnodes here c s
          × (s.queue.prio c < max_rt_prio)
          × ((p : SpuId) × (v : Context) × IsVictim hz jiffies allowed max_numnodes here c s p v
              × (r.0 ≡ returned_zero)
              × (r.1.ctx p ≡ some c)
              × (r.1.spu v ≡ none)
              × (s.spu_run v ≡ true → is_some (r.1.queue.rq v) ≡ true)))
      ⊎ (NoIdle hz jiffies allowed max_numnodes here c s
          × (s.queue.prio c < max_rt_prio → NoVictim hz jiffies allowed max_numnodes here c s)
          × (r.1.ctx ≡ s.ctx)
          × (s.nosched c ≡ true → late ≡ true → r ≡ (restart_sys, s))
          × (s.nosched c ≡ true → late ≡ false → (r.0 ≡ asleep) × (is_some (r.1.queue.rq c) ≡ true))
          × (s.nosched c ≡ false → (r.0 ≡ returned_zero) × (is_some (r.1.queue.rq c) ≡ true)))

  pub waits-Activated :
      (late : Bool) (c : Context) (s : Spus)
      → NoIdle hz jiffies allowed max_numnodes here c s
      → (s.queue.prio c < max_rt_prio → NoVictim hz jiffies allowed max_numnodes here c s)
      → IsBound s
      → let r =
          if s.nosched c
          then spu_prio_wait hz jiffies allowed max_numnodes here late c s
          else (returned_zero, record s { queue = spu_add_to_rq jiffies c s.queue }) in
        IsBound r.1 × Activated late c s r
  unfolding spu_prio_wait
  waits-Activated late c s none_free no_victim i =
      let queued = spu_add_to_rq-queued jiffies c s.queue in
      let i' = added-IsBound jiffies c s i in
      elim (Bool-cases (s.nosched c)) [
        | inr n ↦
            rw n (
              i',
              inr (inr (none_free, no_victim, refl, (λ y. cc), (λ y. cc), λ _. (refl, queued))),
            )
        | inl y ↦ elim (Bool-cases late) [
          | inl z ↦
              rw (y, z)
                (i, inr (inr (none_free, no_victim, refl, (λ _ _. refl), (λ _ m. cc), λ m. cc)))
          | inr m ↦
              rw (y, m)
                (
                  i',
                  inr (
                      inr (
                        none_free,
                        no_victim,
                        refl,
                        (λ _ z. cc),
                        (λ _ _. (refl, queued)),
                        λ n. cc,
                      )),
                )
        ]
      ]

  pub no_idle :
      (c : Context) (s : Spus)
      → over_nodes max_numnodes (allowed c) (λ n. first_free s.used (s.spus n)) max_numnodes here
        ≡ none
      → spu_get_idle hz jiffies allowed max_numnodes here c s ≡ (none, s)
  unfolding spu_get_idle
  no_idle c s e = rw (spu_get_idle, e)

  pub an_idle :
      (c : Context) (s : Spus) (n : ℕ) (p : SpuId)
      → over_nodes max_numnodes (allowed c) (λ m. first_free s.used (s.spus m)) max_numnodes here
        ≡ some (n, p)
      → spu_get_idle hz jiffies allowed max_numnodes here c s
        ≡ (some p, record s { used = set_at p true s.used })
  unfolding spu_get_idle
  an_idle c s n p e = rw (spu_get_idle, e)
