-- ===== src/Spu/Schedule/Handover.antt =====
-- What `__spu_deactivate` leaves on the SPU.
use linux_kernel_code_projec.Base.{
  ℕ, ◌≡◌, ◌⊎◌, refl, ◌∙◌, ap, inl, inr, Bool, true, false, none, some, Bool-cases, Option-cases,
}
use linux_kernel_code_projec.Base.Run.{◌>>=◌, Returns}
use linux_kernel_code_projec.Spu.{Context, grab_runnable_context}
use linux_kernel_code_projec.Spu.Grab.{IsBest, grab_runnable_context-Grabbed}
use linux_kernel_code_projec.Spu.Schedule.{SpuId, Spus, spu_schedule, deactivate}
use linux_kernel_code_projec.Spu.Schedule.Bound.{IsBound, spu_unschedule-IsBound}
use linux_kernel_code_projec.Spu.Schedule.Moves.{spu_schedule-IsBound, grabbed-IsBound}

module _ (hz jiffies : ℕ) (allowed : Context → ℕ → Bool) where
  -- What `__spu_deactivate` returns and leaves.
  abbrev pub Deactivated : Context → Bool → ℕ → Spus → Bool × Spus → Type 0
  Deactivated c force limit s r =
      ((s.spu c ≡ none) × (r ≡ (false, s)))
      ⊎ ((p : SpuId) × (s.spu c ≡ some p)
          × (((r.0 ≡ false)
                × IsBest (λ d. allowed d (s.node p)) 0 limit s.queue none
                × (force ≡ true → (r.1.spu c ≡ none) × (r.1.ctx p ≡ none) × (r.1.used p ≡ false))
                × (force ≡ false → r.1.spu c ≡ some p))
              ⊎ ((n : Context) × (r.0 ≡ true)
                  × IsBest (λ d. allowed d (s.node p)) 0 limit s.queue (some n)
                  × (s.nosched n ≡ true → r.1.ctx p ≡ none)
                  × (s.nosched n ≡ false → s.runnable n ≡ false → r.1.ctx p ≡ some n))))

  -- If contexts and SPUs point at each other, exactly the contexts with an SPU are runnable and
  -- have a time slice above 0, free SPUs have no context, priorities are below MAX_PRIO, the run
  -- queue agrees with its lists, every SPU with a context is once in the list of its node and in
  -- no other list, and `nr_active` of a node is the number of its SPUs with a context, then
  -- `__spu_deactivate` returns, and all this holds afterwards. A context without an SPU changes
  -- nothing. Where no context below the limit may run on the node, the forced call takes the
  -- context off and frees the SPU, and the other one leaves the context there. Where one may, the
  -- call returns true for one of them with the best priority: it is on the SPU then if it was not
  -- runnable and has no SPU_CREATE_NOSCHED, and with that flag the SPU is left without a context.
  pub deactivate-Deactivated :
      (c : Context) (force : Bool) (limit : ℕ) (s : Spus)
      → IsBound s
      → Returns
          (deactivate hz jiffies allowed c force limit s)
          λ r. IsBound r.1 × Deactivated c force limit s r
  unfolding deactivate
  deactivate-Deactivated c force limit s i = elim (Option-cases (s.spu c)) [
    | inl off ↦ ((false, s), rw (off, deactivate), (i, inl (off, refl)))
    | inr (p, on) ↦
        let may : Context → Bool = λ d. allowed d (s.node p) in
        let s₁ = record s { queue = (grab_runnable_context limit may s.queue).1 } in
        let i₁ = grabbed-IsBound hz jiffies allowed limit may s i in
        let g = grab_runnable_context-Grabbed limit may s.queue i.counted in
        let at = i.back p c on in
        elim (Option-cases (grab_runnable_context limit may s.queue).0) [
          | inl empty ↦ elim (Bool-cases force) [
            | inl y ↦
                let (s₂, run, (i₂, idle, off, stopped, released, _, _, _, _, _, _)) =
                  spu_unschedule-IsBound p c true s₁ s₁.time_slice at i₁ (λ d _. i₁.slice d) in
                (
                  (false, s₂),
                  rw (deactivate, on, empty, y, run),
                  (
                    i₂,
                    inr (
                      p,
                      on,
                      inl (refl, rw empty at g.best, (λ _. (off, idle, released)), λ n. cc),
                    ),
                  ),
                )
            | inr n ↦ (
              (false, s₁),
              rw (deactivate, on, empty, n),
              (i₁, inr (p, on, inl (refl, rw empty at g.best, (λ y. cc), λ _. on))),
            )
          ]
          | inr (n, best) ↦
              let (
                s₂,
                run,
                (i₂, idle, off, stopped, released, flags, queue, still, list, where_, _),
              ) =
                spu_unschedule-IsBound p c false s₁ s₁.time_slice at i₁ (λ d _. i₁.slice d) in
              let (i₃, started) =
                spu_schedule-IsBound hz jiffies allowed p n s₂ (rw (list, where_) (i.home p c at))
                  i₂ in
              elim (Bool-cases (s.nosched n)) [
                | inl y ↦
                    let waits : s₂.nosched n ≡ true = ap (λ f. f n) flags ∙ y in
                    (
                      (true, s₂),
                      rw (deactivate, on, best, run, ◌>>=◌, waits),
                      (i₂, inr (p, on, inr (n, refl, rw best at g.best, (λ _. idle), λ m. cc))),
                    )
                | inr m ↦
                    let starts : s₂.nosched n ≡ false = ap (λ f. f n) flags ∙ m in
                    (
                      (true, spu_schedule hz jiffies allowed p n s₂),
                      rw (deactivate, on, best, run, ◌>>=◌, starts),
                      (
                        i₃,
                        inr (
                          p,
                          on,
                          inr (
                            n,
                            refl,
                            rw best at g.best,
                            (λ y. cc),
                            λ _ saved. started idle (still n saved),
                          ),
                        ),
                      ),
                    )
              ]
        ]
  ]
