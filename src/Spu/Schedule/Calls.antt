-- ===== src/Spu/Schedule/Calls.antt =====
-- Sequences of the scheduler's calls.
use linux_kernel_code_projec.Base.{
  ℕ, ◌<◌, ◌≡◌, refl, ◌∙◌, subst, ap, Bool, true, Option, none, some, is_some,
}
use linux_kernel_code_projec.Base.Run.{Returns}
use linux_kernel_code_projec.Spu.{Context, spu_del_from_rq}
use linux_kernel_code_projec.Spu.Queue.{occ}
use linux_kernel_code_projec.Spu.Schedule.{
  SpuId, Spus, spu_schedule, spu_deactivate, spu_yield, tick, spusched_thread,
}
use linux_kernel_code_projec.Spu.Schedule.Bound.{IsBound}
use linux_kernel_code_projec.Spu.Schedule.Moves.{spu_schedule-IsBound, dropped-IsBound}
use linux_kernel_code_projec.Spu.Activate.{Activation, activate_top, spu_activate}
use linux_kernel_code_projec.Spu.Schedule.Kept.{
  spu_deactivate-IsBound, spu_yield-IsBound, tick-IsBound, spusched_thread-IsBound,
  spu_activate-IsBound,
}

module _ (hz jiffies : ℕ) (allowed : Context → ℕ → Bool) (max_numnodes : ℕ) where
  -- Calls of `spu_schedule`, `spu_activate`, `spu_deactivate`, `spu_yield`, `spusched_tick` and
  -- passes of `spusched_thread`. `wake_up` is the end of `spu_prio_wait`, and `again` the jump to
  -- `spu_activate_top` after it, which does not look at `ctx->spu`: the step is for a context that
  -- has no SPU there.
  pub data Step : Spus → Spus → Type 0 where
    schedule :
        (s : Spus) (p : SpuId) (c : Context)
        → 0 < occ p (s.spus (s.node p))
        → Step s (spu_schedule hz jiffies allowed p c s)
    activate :
        {s : Spus} {r : Activation × Spus} (here : ℕ) (signal late : Bool) (c : Context)
        → here < max_numnodes
        → spu_activate hz jiffies allowed max_numnodes here signal late c s ≡ some r
        → Step s r.1
    wake_up : (s : Spus) (c : Context) → Step s (record s { queue = spu_del_from_rq c s.queue })
    again :
        {s : Spus} {r : Activation × Spus} (here : ℕ) (signal late : Bool) (c : Context)
        → here < max_numnodes
        → s.spu c ≡ none
        → activate_top hz jiffies allowed max_numnodes here signal late c s ≡ some r
        → Step s r.1
    let_go :
        {s s' : Spus} (c : Context) → spu_deactivate hz jiffies allowed c s ≡ some s' → Step s s'
    yield : {s s' : Spus} (c : Context) → spu_yield hz jiffies allowed c s ≡ some s' → Step s s'
    tick_over : {s s' : Spus} (c : Context) → tick hz jiffies allowed c s ≡ some s' → Step s s'
    tick_round :
        {s s' : Spus} → spusched_thread hz jiffies allowed max_numnodes 0 s ≡ some s' → Step s s'

  pub data Reach (start : Spus) : Spus → Type 0 where
    here : Reach start start
    next : {s s' : Spus} → Reach start s → Step s s' → Reach start s'

  of_run : {A : Type 0} (P : A → Type 0) (m : Option A) (a : A) → m ≡ some a → Returns m P → P a
  of_run P m a e (b, run, ok) =
      let same : some b ≡ some a = cc in
      subst P (ap (λ o. elim o [ none ↦ b | some x ↦ x ]) same) ok

  spu_activate-top :
      (here : ℕ) (signal late : Bool) (c : Context) (s : Spus)
      → s.spu c ≡ none
      → spu_activate hz jiffies allowed max_numnodes here signal late c s
        ≡ activate_top hz jiffies allowed max_numnodes here signal late c s
  unfolding spu_activate
  spu_activate-top node signal late c s off = rw off refl

  Step-IsBound : (s s' : Spus) → Step s s' → IsBound s → IsBound s'
  Step-IsBound s s' (schedule _ p c real) i =
      (spu_schedule-IsBound hz jiffies allowed p c s real i).0
  Step-IsBound s s' (activate {r = r} node signal late c lt e) i =
      of_run (λ x. IsBound x.1) (spu_activate hz jiffies allowed max_numnodes node signal late c s)
        r e (spu_activate-IsBound hz jiffies allowed max_numnodes node signal late c s lt i)
  Step-IsBound s s' (wake_up _ c) i = dropped-IsBound hz jiffies allowed c s i
  Step-IsBound s s' (again {r = r} node signal late c lt off e) i =
      of_run (λ x. IsBound x.1) (spu_activate hz jiffies allowed max_numnodes node signal late c s)
        r (spu_activate-top node signal late c s off ∙ e)
        (spu_activate-IsBound hz jiffies allowed max_numnodes node signal late c s lt i)
  Step-IsBound s s' (let_go c e) i =
      of_run IsBound (spu_deactivate hz jiffies allowed c s) s' e
        (spu_deactivate-IsBound hz jiffies allowed c s i)
  Step-IsBound s s' (yield c e) i =
      of_run IsBound (spu_yield hz jiffies allowed c s) s' e
        (spu_yield-IsBound hz jiffies allowed c s i)
  Step-IsBound s s' (tick_over c e) i =
      of_run IsBound (tick hz jiffies allowed c s) s' e (tick-IsBound hz jiffies allowed c s i)
  Step-IsBound s s' (tick_round e) i =
      of_run IsBound (spusched_thread hz jiffies allowed max_numnodes 0 s) s' e
        (spusched_thread-IsBound hz jiffies allowed max_numnodes 0 s i)

  reached : (start s : Spus) → IsBound start → Reach start s → IsBound s
  reached start s i here = i
  reached start s' i (next {s = s} r st) = Step-IsBound s s' st (reached start s i r)

  returned : {A : Type 0} (P : A → Type 0) (m : Option A) → Returns m P → is_some m ≡ true
  returned P m (a, e, ok) = rw e

  -- If contexts and SPUs point at each other, exactly the contexts with an SPU are runnable and
  -- have a time slice above 0, free SPUs have no context, priorities are below MAX_PRIO, the run
  -- queue agrees with its lists, every SPU with a context is once in the list of its node and in
  -- no other list, and `nr_active` of a node is the number of its SPUs with a context, then the
  -- same holds after any sequence of `spu_activate` on nodes below MAX_NUMNODES, of the end of
  -- `spu_prio_wait` and of the jump to `spu_activate_top` after it, for a context that has no SPU
  -- at that point, of `spu_schedule` on SPUs in the list of their node, of `spu_deactivate`,
  -- `spu_yield`, `spusched_tick` and passes of `spusched_thread`; and there `spu_activate`,
  -- `spu_deactivate`, `spu_yield` and `spusched_tick` return for any context, and so does a pass
  -- of `spusched_thread`.
  pub Reach-IsBound :
      (start s : Spus)
      → IsBound start
      → Reach start s
      → IsBound s
        × (is_some (spusched_thread hz jiffies allowed max_numnodes 0 s) ≡ true)
        × ((c : Context)
            → (is_some (spu_deactivate hz jiffies allowed c s) ≡ true)
              × (is_some (spu_yield hz jiffies allowed c s) ≡ true)
              × (is_some (tick hz jiffies allowed c s) ≡ true)
              × ((node : ℕ) (signal late : Bool)
                  → node < max_numnodes
                  → is_some (spu_activate hz jiffies allowed max_numnodes node signal late c s)
                    ≡ true))
  Reach-IsBound start s i r =
      let bound = reached start s i r in
      (
        bound,
        returned IsBound (spusched_thread hz jiffies allowed max_numnodes 0 s)
            (spusched_thread-IsBound hz jiffies allowed max_numnodes 0 s bound),
        λ c. (
          returned IsBound (spu_deactivate hz jiffies allowed c s)
              (spu_deactivate-IsBound hz jiffies allowed c s bound),
          returned IsBound (spu_yield hz jiffies allowed c s)
              (spu_yield-IsBound hz jiffies allowed c s bound),
          returned IsBound (tick hz jiffies allowed c s)
              (tick-IsBound hz jiffies allowed c s bound),
          λ node signal late lt.
              returned (λ x. IsBound x.1)
                (spu_activate hz jiffies allowed max_numnodes node signal late c s)
                (spu_activate-IsBound hz jiffies allowed max_numnodes node signal late c s lt
                  bound),
        ),
      )
