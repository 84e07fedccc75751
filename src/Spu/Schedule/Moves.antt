-- ===== src/Spu/Schedule/Moves.antt =====
-- Queueing, new time slices and `spu_schedule` keep contexts and SPUs pointing at each other.
use linux_kernel_code_projec.Base.{
  ℕ, ◌<◌, ◌≡◌, ◌∙◌, ap, inl, inr, Bool, true, false, none, some, arith, Bool-cases, Option-cases,
  ==_self,
}
use linux_kernel_code_projec.Spu.{
  Context, SpuPrioArray, spu_set_timeslice, spu_add_to_rq, spu_del_from_rq, grab_runnable_context,
}
use linux_kernel_code_projec.Spu.Queue.{
  IsCounted, occ, spu_add_to_rq-IsCounted, spu_del_from_rq-IsCounted,
}
use linux_kernel_code_projec.Spu.Grab.{grab_runnable_context-Grabbed}
use linux_kernel_code_projec.Spu.Schedule.{
  SpuId, Spus, set_at, spu_bind_context, schedule_on, spu_schedule,
}
use linux_kernel_code_projec.Spu.Schedule.Bound.{
  IsBound, spu_set_timeslice-pos, spu_bind_context-IsBound,
}

pub queued-IsBound :
    (q : SpuPrioArray) (s : Spus)
    → IsCounted q
    → q.prio ≡ s.queue.prio
    → IsBound s
    → IsBound (record s { queue = q })
queued-IsBound q s counted same i = record {
  there = i.there;
  back = i.back;
  state = i.state;
  slice = i.slice;
  free = i.free;
  counted = counted;
  prio = λ c. rw same (i.prio c);
  placed = i.placed;
  home = i.home;
  active = i.active;
}

spu_add_to_rq-prio :
    (jiffies : ℕ) (c : Context) (q : SpuPrioArray) → (spu_add_to_rq jiffies c q).prio ≡ q.prio
unfolding spu_add_to_rq
spu_add_to_rq-prio jiffies c q = ground arith

pub added-IsBound :
    (jiffies : ℕ) (c : Context) (s : Spus)
    → IsBound s
    → IsBound (record s { queue = spu_add_to_rq jiffies c s.queue })
added-IsBound jiffies c s i =
    queued-IsBound (spu_add_to_rq jiffies c s.queue) s
      (spu_add_to_rq-IsCounted jiffies c s.queue (i.prio c) i.counted)
      (spu_add_to_rq-prio jiffies c s.queue) i

-- Other time slices, none of them over.
pub resliced-IsBound :
    (ts : Context → ℕ) (s : Spus)
    → ((d : Context) → s.runnable d ≡ true → 0 < ts d)
    → IsBound s
    → IsBound (record s { time_slice = ts })
resliced-IsBound ts s long i = record {
  there = i.there;
  back = i.back;
  state = i.state;
  slice = long;
  free = i.free;
  counted = i.counted;
  prio = i.prio;
  placed = i.placed;
  home = i.home;
  active = i.active;
}

pub sliced-IsBound :
    (n : ℕ) (c : Context) (s : Spus)
    → 0 < n
    → IsBound s
    → IsBound (record s { time_slice = set_at c n s.time_slice })
sliced-IsBound n c s lt i =
    resliced-IsBound (set_at c n s.time_slice) s (λ d e. ground (arith, i.slice d)) i

pub idle_context : (c : Context) (s : Spus) → IsBound s → s.runnable c ≡ false → s.spu c ≡ none
idle_context c s i n = elim (Option-cases (s.spu c)) [
  | inl e ↦ e
  | inr (q, e) ↦ let st = i.state c in let no_spu = rw (n, e) at st in cc
]

module _ (hz jiffies : ℕ) (allowed : Context → ℕ → Bool) where
  -- A context that is not running is bound to an SPU without a context, or queued.
  pub spu_schedule-IsBound :
      (p : SpuId) (c : Context) (s : Spus)
      → 0 < occ p (s.spus (s.node p))
      → IsBound s
      → IsBound (spu_schedule hz jiffies allowed p c s)
        × (s.ctx p ≡ none
            → s.runnable c ≡ false
            → (spu_schedule hz jiffies allowed p c s).ctx p ≡ some c)
  unfolding spu_schedule schedule_on spu_bind_context
  spu_schedule-IsBound p c s real i = elim (Bool-cases (s.runnable c)) [
    | inl y ↦ rw y (i, λ idle off. cc)
    | inr n ↦
        let off = idle_context c s i n in
        let slice = spu_set_timeslice hz (s.queue.prio c) in
        let s₁ = record s { time_slice = set_at c slice s.time_slice } in
        elim (Option-cases (s.ctx p)) [
          | inl idle ↦
              rw (n, schedule_on, idle)
                (spu_bind_context-IsBound hz p c s idle off real i, λ _ _. rw (==_self p))
          | inr (d, busy) ↦
              rw (n, schedule_on, busy)
                (
                  added-IsBound jiffies c s₁
                      (sliced-IsBound slice c s (spu_set_timeslice-pos hz (s.queue.prio c)) i),
                  λ idle _. cc,
                )
        ]
  ]

  spu_del-prio : (c : Context) (q : SpuPrioArray) → (spu_del_from_rq c q).prio ≡ q.prio
  unfolding spu_del_from_rq
  spu_del-prio c q = elim (Option-cases (q.rq c)) [
    | inl e ↦ rw (spu_del_from_rq, e)
    | inr (p, e) ↦ rw (spu_del_from_rq, e)
  ]

  pub dropped-IsBound :
      (c : Context) (s : Spus)
      → IsBound s
      → IsBound (record s { queue = spu_del_from_rq c s.queue })
  dropped-IsBound c s i =
      queued-IsBound (spu_del_from_rq c s.queue) s (spu_del_from_rq-IsCounted c s.queue i.counted)
        (spu_del-prio c s.queue) i

  -- The queue after a context is taken from it.
  pub grabbed-IsBound :
      (limit : ℕ) (may : Context → Bool) (s : Spus)
      → IsBound s
      → IsBound (record s { queue = (grab_runnable_context limit may s.queue).1 })
  grabbed-IsBound limit may s i =
      let g = grab_runnable_context-Grabbed limit may s.queue i.counted in
      let same : (grab_runnable_context limit may s.queue).1.prio ≡ s.queue.prio =
        elim (Option-cases (grab_runnable_context limit may s.queue).0) [
          | inl e ↦ let l = rw e at g.left in ap (λ (q : SpuPrioArray). q.prio) l
          | inr (c, e) ↦
              let l = rw e at g.left in ap (λ (q : SpuPrioArray). q.prio) l ∙ spu_del-prio c s.queue
        ] in
      queued-IsBound (grab_runnable_context limit may s.queue).1 s g.counted same i
