-- ===== src/Spu/Activate/Outcome.antt =====
-- What `spu_activate` does with a context.
use linux_kernel_code_projec.Base.{
  ℕ, ◌<◌, ◌≡◌, refl, ◌∙◌, inl, inr, Bool, true, false, Option, none, some, ◌==◌, ltb, arith,
  is_some, Bool-cases, Option-cases, ==_eq, ltb→lt,
}
use linux_kernel_code_projec.Base.Run.{◌>>=◌, Returns}
use linux_kernel_code_projec.Spu.{Context, max_rt_prio}
use linux_kernel_code_projec.Spu.Schedule.{SpuId, Spus, set_at, schedule_on}
use linux_kernel_code_projec.Spu.Schedule.Bound.{IsBound}
use linux_kernel_code_projec.Spu.Schedule.Moves.{idle_context}
use linux_kernel_code_projec.Spu.Activate.{
  Activation, returned_zero, restart_sys, over_nodes, first_free, spu_get_idle, activate_top,
  spu_activate,
}
use linux_kernel_code_projec.Spu.Activate.Waits.{
  Activated, used-IsBound, schedule_on-IsBound, waits-Activated, no_idle, an_idle,
}
use linux_kernel_code_projec.Spu.Activate.Victim.{spu_get_idle-none, find_victim-Freed}
use linux_kernel_code_projec.Spu.Activate.Nodes.{over_nodes-some}
use linux_kernel_code_projec.Spu.Activate.Choice.{first_free-some}

module _ (hz jiffies : ℕ) (allowed : Context → ℕ → Bool) (max_numnodes here : ℕ) where
  abbrev pub Outcome : Bool → Bool → Context → Spus → Activation × Spus → Type 0
  Outcome signal late c s r =
      IsBound r.1
      × (is_some (s.spu c) ≡ true → r ≡ (returned_zero, s))
      × (s.spu c ≡ none → signal ≡ true → r ≡ (restart_sys, s))
      × (s.spu c ≡ none
          → signal ≡ false
          → Activated hz jiffies allowed max_numnodes here late c s r)

  quiet-Outcome :
      (late : Bool) (c : Context) (s : Spus) (r : Activation × Spus)
      → s.spu c ≡ none
      → IsBound r.1
      → Activated hz jiffies allowed max_numnodes here late c s r
      → Outcome false late c s r
  quiet-Outcome late c s r off i a =
      (i, (λ b. absurd (let b' = rw off at b in cc)), (λ _ y. cc), λ _ _. a)

  -- With no SPU free
  busy-Outcome :
      (late : Bool) (c : Context) (s : Spus)
      → here < max_numnodes
      → IsBound s
      → s.spu c ≡ none
      → over_nodes max_numnodes (allowed c) (λ n. first_free s.used (s.spus n)) max_numnodes here
        ≡ none
      → Returns
          (spu_activate hz jiffies allowed max_numnodes here false late c s)
          λ r. Outcome false late c s r
  unfolding spu_activate activate_top
  busy-Outcome late c s lt i off e =
      let none_free = spu_get_idle-none hz jiffies allowed max_numnodes here c s lt e in
      let idle : spu_get_idle hz jiffies allowed max_numnodes here c s ≡ (none, s) =
        no_idle hz jiffies allowed max_numnodes here c s e in
      elim (Bool-cases (ltb (s.queue.prio c) max_rt_prio)) [
        | inr slow ↦
            let (i', a) =
              waits-Activated hz jiffies allowed max_numnodes here late c s none_free
                (λ rt. absurd (ground arith)) i in
            (_, rw (off, idle, idle, slow), quiet-Outcome late c s _ off i' a)
        | inl rt ↦
            let (r, run, (i₂, freed)) =
              find_victim-Freed hz jiffies allowed max_numnodes here c s lt i in
            elim freed [
              | inl (no_victim, same) ↦
                  let run' = rw same at run in
                  let (i', a) =
                    waits-Activated hz jiffies allowed max_numnodes here late c s none_free
                      (λ _. no_victim) i in
                  (_, rw (off, idle, idle, rt, run'), quiet-Outcome late c s _ off i' a)
              | inr (p, v, victim, at, bare, gone, real, again, still) ↦
                  let saved : s.runnable c ≡ false = i.state c ∙ rw off in
                  let off₂ = idle_context c r.1 i₂ (still c saved) in
                  let (i₃, on, spus, queue) =
                    schedule_on-IsBound hz jiffies allowed p c r.1 bare off₂ real i₂ in
                  let apart : (v == c) ≡ false = elim (Bool-cases (v == c)) [
                    | inr n ↦ n
                    | inl y ↦
                        let mine = i.there p v victim.0 in
                        let theirs : s.spu c ≡ some p = rw (← ==_eq v c y) mine in cc
                  ] in
                  (
                    (returned_zero, schedule_on hz jiffies allowed p c r.1),
                    rw (off, idle, idle, rt, run, ◌>>=◌, at),
                    quiet-Outcome late c s _ off i₃ (
                        inr (
                          inl (
                            none_free,
                            ltb→lt (s.queue.prio c) max_rt_prio rt,
                            (
                              p,
                              v,
                              victim,
                              refl,
                              on,
                              rw (spus, apart) gone,
                              λ y. rw queue (again y),
                            ),
                          ))),
                  )
            ]
      ]

  -- If contexts and SPUs point at each other, exactly the contexts with an SPU are runnable and
  -- have a time slice above 0, free SPUs have no context, priorities are below MAX_PRIO, the run
  -- queue agrees with its lists, every SPU with a context is once in the list of its node and in
  -- no other list, and `nr_active` of a node is the number of its SPUs with a context, then
  -- `spu_activate` on a node below MAX_NUMNODES returns, and all this holds afterwards. A context
  -- with an SPU changes nothing, and without one a pending signal gives -ERESTARTSYS and changes
  -- nothing. Otherwise the context gets an SPU of an allowed node that was free; or no SPU of an
  -- allowed node was free, the context has a real-time priority and gets the SPU of a context
  -- without SPU_CREATE_NOSCHED that has a worse priority than its own, and the worst of all those
  -- on its node, and the former context is off the SPU and waits if it has SPU_SCHED_SPU_RUN; or
  -- no SPU was free, the priority is not a real-time one or no context on an allowed node may be
  -- taken off, and no SPU changes its context: then the context is in the run queue afterwards,
  -- and sleeps if it has SPU_CREATE_NOSCHED, unless a signal arrived before that, which gives
  -- -ERESTARTSYS and changes nothing.
  pub spu_activate-Activated :
      (signal late : Bool) (c : Context) (s : Spus)
      → here < max_numnodes
      → IsBound s
      → Returns
          (spu_activate hz jiffies allowed max_numnodes here signal late c s)
          λ r. Outcome signal late c s r
  unfolding spu_activate activate_top
  spu_activate-Activated signal late c s lt i =
      let f : ℕ → Option SpuId = λ n. first_free s.used (s.spus n) in
      elim (Option-cases (s.spu c)) [
        | inr (p, on) ↦ ((returned_zero, s), rw on, (i, (λ _. refl), (λ off. cc), λ off. cc))
        | inl off ↦ elim (Bool-cases signal) [
          | inl y ↦ (
            (restart_sys, s),
            rw (off, y),
            (i, (λ b. absurd (let b' = rw off at b in cc)), (λ _ _. refl), λ _ m. cc),
          )
          | inr quiet ↦
              elim (Option-cases (over_nodes max_numnodes (allowed c) f max_numnodes here)) [
                | inl e ↦ rw quiet (busy-Outcome late c s lt i off e)
                | inr ((n, p), e) ↦
                    let s₁ = record s { used = set_at p true s.used } in
                    let idle : spu_get_idle hz jiffies allowed max_numnodes here c s
                        ≡ (some p, s₁) =
                      an_idle hz jiffies allowed max_numnodes here c s n p e in
                    let (may, found) =
                      over_nodes-some max_numnodes (allowed c) f max_numnodes here n p e in
                    let (free, listed) = first_free-some s.used (s.spus n) p found in
                    let (node, _) = i.placed p n listed in
                    let (i₂, on, _, _) =
                      schedule_on-IsBound hz jiffies allowed p c s₁ (i.free p free) off
                        (rw node listed) (used-IsBound p s i) in
                    (
                      (returned_zero, schedule_on hz jiffies allowed p c s₁),
                      rw (off, quiet, idle, idle),
                      rw quiet
                          (quiet-Outcome late c s _ off i₂ (inl (p, free, rw node may, refl, on))),
                    )
              ]
        ]
      ]
