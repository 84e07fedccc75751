-- ===== src/Spu/Schedule/Kept.antt =====
-- Each of the scheduler's calls returns, with contexts and SPUs that point at each other.
use linux_kernel_code_projec.Base.{
  ℕ, zero, suc, ◌+◌, ◌-◌, ◌<◌, ◌≡◌, refl, List, [], ◌∷◌, inl, inr, Bool, true, false, ◌&&◌, not,
  some, ◌==◌, arith, Bool-cases, Option-cases, ==_self,
}
use linux_kernel_code_projec.Base.Run.{◌>>=◌, Returns}
use linux_kernel_code_projec.Spu.{Context, max_prio, spu_add_to_rq, grab_runnable_context}
use linux_kernel_code_projec.Spu.Queue.{occ}
use linux_kernel_code_projec.Spu.Schedule.{
  SpuId, Spus, set_at, spu_schedule, spu_deactivate, spu_yield, preempt, tick, tick_all,
  spusched_thread,
}
use linux_kernel_code_projec.Spu.Schedule.Bound.{IsBound, spu_unschedule-IsBound}
use linux_kernel_code_projec.Spu.Schedule.Moves.{
  spu_schedule-IsBound, grabbed-IsBound, added-IsBound, resliced-IsBound, sliced-IsBound,
}
use linux_kernel_code_projec.Spu.Activate.{spu_activate}
use linux_kernel_code_projec.Spu.Activate.Outcome.{spu_activate-Activated}
use linux_kernel_code_projec.Spu.Schedule.Handover.{deactivate-Deactivated}

module _ (hz jiffies : ℕ) (allowed : Context → ℕ → Bool) where
  pub spu_deactivate-IsBound :
      (c : Context) (s : Spus) → IsBound s → Returns (spu_deactivate hz jiffies allowed c s) IsBound
  unfolding spu_deactivate
  spu_deactivate-IsBound c s i =
      let (r, run, (bound, _)) = deactivate-Deactivated hz jiffies allowed c true max_prio s i in
      (r.1, rw run, bound)

  pub spu_yield-IsBound :
      (c : Context) (s : Spus) → IsBound s → Returns (spu_yield hz jiffies allowed c s) IsBound
  unfolding spu_yield
  spu_yield-IsBound c s i = elim (Bool-cases (s.nosched c)) [
    | inl y ↦ (s, rw y, i)
    | inr n ↦
        let (r, run, (bound, _)) = deactivate-Deactivated hz jiffies allowed c false max_prio s i in
        (r.1, rw (n, run), bound)
  ]

  -- With what is left of a time slice, which may be nothing.
  preempt-IsBound :
      (p : SpuId) (c : Context) (s : Spus)
      → s.spu c ≡ some p
      → IsBound (record s { time_slice = set_at c 1 s.time_slice })
      → ((d : Context) → (d == c) ≡ false → s.runnable d ≡ true → 0 < s.time_slice d)
      → Returns (preempt hz jiffies allowed c s) IsBound
  unfolding preempt
  preempt-IsBound p c s on i long =
      let may : Context → Bool = λ d. allowed d (s.node p) in
      let limit = s.queue.prio c + 1 in
      let s₁ = record s { queue = (grab_runnable_context limit may s.queue).1 } in
      let i₁ =
        grabbed-IsBound hz jiffies allowed limit may
          (record s { time_slice = set_at c 1 s.time_slice }) i in
      elim (Option-cases (grab_runnable_context limit may s.queue).0) [
        | inl empty ↦ elim (Bool-cases (s.time_slice c == 0)) [
          | inl y ↦
              (record s₁ { time_slice = set_at c 1 s₁.time_slice }, rw (on, ◌>>=◌, empty, y), i₁)
          | inr n ↦ (
            s₁,
            rw (on, ◌>>=◌, empty, n),
            resliced-IsBound s.time_slice (record s₁ { time_slice = set_at c 1 s₁.time_slice })
                (λ d e. ground (arith, long d)) i₁,
          )
        ]
        | inr (n, best) ↦
            let (
              s₂,
              run,
              (i₂, idle, off, stopped, released, flags, queue, still, list, where_, _),
            ) =
              spu_unschedule-IsBound p c false s₁ (set_at c 1 s₁.time_slice) (i.back p c on) i₁
                long in
            let real : 0 < occ p (s₂.spus (s₂.node p)) =
              rw (list, where_) (i.home p c (i.back p c on)) in
            elim (Bool-cases (s₂.spu_run c)) [
              | inl y ↦
                  let s₃ = record s₂ { queue = spu_add_to_rq jiffies c s₂.queue } in
                  (
                    spu_schedule hz jiffies allowed p n s₃,
                    rw (on, ◌>>=◌, best, run, ◌>>=◌, y),
                    (spu_schedule-IsBound hz jiffies allowed p n s₃ real
                        (added-IsBound jiffies c s₂ i₂)).0,
                  )
              | inr m ↦ (
                spu_schedule hz jiffies allowed p n s₂,
                rw (on, ◌>>=◌, best, run, ◌>>=◌, m),
                (spu_schedule-IsBound hz jiffies allowed p n s₂ real i₂).0,
              )
            ]
      ]

  pub tick-IsBound :
      (c : Context) (s : Spus) → IsBound s → Returns (tick hz jiffies allowed c s) IsBound
  unfolding tick
  tick-IsBound c s i = elim (Bool-cases (s.runnable c)) [
    | inr n ↦ (s, rw n, i)
    | inl runs ↦ elim (Bool-cases (s.nosched c)) [
      | inl y ↦ (s, rw (runs, y), i)
      | inr n ↦ elim (Bool-cases (s.fifo c)) [
        | inl y ↦ (s, rw (runs, n, y), i)
        | inr m ↦
            let s₁ = record s { time_slice = set_at c (s.time_slice c - 1) s.time_slice } in
            elim (Bool-cases (not (s₁.time_slice c == 0) && s.spu_run c)) [
              | inl keep ↦
                  let left : s₁.time_slice c ≡ s.time_slice c - 1 = rw (==_self c) in
                  (
                    s₁,
                    rw (runs, n, m, keep),
                    sliced-IsBound (s.time_slice c - 1) c s (ground (arith, left)) i,
                  )
              | inr over ↦ elim (Option-cases (s.spu c)) [
                | inl off ↦ let st = i.state c in let no_spu = rw (runs, off) at st in cc
                | inr (p, on) ↦
                    let (r, run, bound) =
                      preempt-IsBound p c s₁ on
                        (resliced-IsBound (set_at c 1 s₁.time_slice) s
                          (λ d e. ground (arith, i.slice d)) i)
                        (λ d other e. ground (arith, i.slice d)) in
                    (r, rw (runs, n, m, over) run, bound)
              ]
            ]
      ]
    ]
  ]

  pub tick_all-IsBound :
      (ps : List SpuId) (s : Spus) → IsBound s → Returns (tick_all hz jiffies allowed ps s) IsBound
  unfolding tick_all
  tick_all-IsBound [] s i = (s, refl, i)
  tick_all-IsBound (p ∷ ps) s i = elim (Option-cases (s.ctx p)) [
    | inl e ↦ let (r, run, ok) = tick_all-IsBound ps s i in (r, rw (tick_all, e) run, ok)
    | inr (c, e) ↦
        let (s₁, run₁, i₁) = tick-IsBound c s i in
        let (r, run, ok) = tick_all-IsBound ps s₁ i₁ in (r, rw (tick_all, e, run₁, ◌>>=◌) run, ok)
  ]

  pub spusched_thread-IsBound :
      (n node : ℕ) (s : Spus)
      → IsBound s
      → Returns (spusched_thread hz jiffies allowed n node s) IsBound
  unfolding spusched_thread
  spusched_thread-IsBound zero node s i = (s, refl, i)
  spusched_thread-IsBound (suc n) node s i =
      let (s₁, run₁, i₁) = tick_all-IsBound (s.spus node) s i in
      let (r, run, ok) = spusched_thread-IsBound n (node + 1) s₁ i₁ in
      (r, rw (spusched_thread, run₁, ◌>>=◌) run, ok)

  pub spu_activate-IsBound :
      (max_numnodes here : ℕ) (signal late : Bool) (c : Context) (s : Spus)
      → here < max_numnodes
      → IsBound s
      → Returns (spu_activate hz jiffies allowed max_numnodes here signal late c s) λ r. IsBound r.1
  spu_activate-IsBound max_numnodes here signal late c s lt i =
      let (r, run, (ok, _, _, _)) =
        spu_activate-Activated hz jiffies allowed max_numnodes here signal late c s lt i in
      (r, run, ok)
