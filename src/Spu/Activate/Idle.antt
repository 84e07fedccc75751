-- ===== src/Spu/Activate/Idle.antt =====
-- An SPU that `__spu_deactivate` leaves to a context with SPU_CREATE_NOSCHED.
use linux_kernel_code_projec.Base.{
  ℕ, ◌<◌, ◌≡◌, ◌≢◌, ap, ◌∙◌, inl, inr, Bool, true, false, Option, none, some, Bool-cases,
  Option-cases,
}
use linux_kernel_code_projec.Base.Run.{◌>>=◌, Returns}
use linux_kernel_code_projec.Spu.{Context, grab_runnable_context}
use linux_kernel_code_projec.Spu.Schedule.{SpuId, Spus, deactivate}
use linux_kernel_code_projec.Spu.Schedule.Bound.{IsBound, spu_unschedule-IsBound}
use linux_kernel_code_projec.Spu.Schedule.Moves.{grabbed-IsBound}
use linux_kernel_code_projec.Spu.Activate.{over_nodes, first_free, spu_get_idle, find_victim}
use linux_kernel_code_projec.Spu.Activate.Nodes.{over_nodes-some}
use linux_kernel_code_projec.Spu.Activate.Choice.{first_free-some}
use linux_kernel_code_projec.Spu.Activate.Victim.{find_victim-Freed}

module _ (hz jiffies : ℕ) (allowed : Context → ℕ → Bool) (max_numnodes here : ℕ) where
  spu_get_idle-used :
      (c : Context) (p : SpuId) (s : Spus)
      → s.used p ≡ true
      → (spu_get_idle hz jiffies allowed max_numnodes here c s).0 ≢ some p
  unfolding spu_get_idle
  spu_get_idle-used c p s busy at =
      let f : ℕ → Option SpuId = λ n. first_free s.used (s.spus n) in
      elim (Option-cases (over_nodes max_numnodes (allowed c) f max_numnodes here)) [
        | inl e ↦ let at' = rw (spu_get_idle, e) at at in cc
        | inr ((n, q), e) ↦
            let at' = rw (spu_get_idle, e) at at in
            let (_, found) = over_nodes-some max_numnodes (allowed c) f max_numnodes here n q e in
            let (off, _) = first_free-some s.used (s.spus n) q found in
            let same : q ≡ p = cc in let off' = rw same at off in cc
      ]

  find_victim-idle :
      (c : Context) (p : SpuId) (s t : Spus)
      → here < max_numnodes
      → s.ctx p ≡ none
      → IsBound s
      → find_victim hz jiffies allowed max_numnodes here c s ≢ some (some p, t)
  find_victim-idle c p s t lt idle i at =
      let (r, run, (_, freed)) = find_victim-Freed hz jiffies allowed max_numnodes here c s lt i in
      let same : some r ≡ some (some p, t) = cc in
      let first : r.0 ≡ some p = ap (λ o. elim o [ none ↦ r.0 | some x ↦ x.0 ]) same in
      elim freed [
        | inl (_, e) ↦ let e' = ap (λ (x : Option SpuId × Spus). x.0) e in cc
        | inr (q, v, (on, _, _, _), e, _, _, _, _, _) ↦
            let same' : q ≡ p = cc in let on' = rw same' at on in cc
      ]

-- If contexts and SPUs point at each other, exactly the contexts with an SPU are runnable and have
-- a time slice above 0, free SPUs have no context, priorities are below MAX_PRIO, the run queue
-- agrees with its lists, every SPU with a context is once in the list of its node and in no other
-- list, and `nr_active` of a node is the number of its SPUs with a context, and the best context
-- below the limit that waits and may run on the node has SPU_CREATE_NOSCHED, then
-- `__spu_deactivate` of a context on an SPU returns and leaves that SPU without a context and
-- SPU_USED, so that `spu_get_idle` on a node below MAX_NUMNODES does not return it and
-- `find_victim` does not free it, for any context.
pub deactivate-find_victim :
    (hz jiffies : ℕ) (allowed : Context → ℕ → Bool) (c n : Context) (p : SpuId) (force : Bool)
    (limit : ℕ) (s : Spus)
    → IsBound s
    → s.spu c ≡ some p
    → (grab_runnable_context limit (λ d. allowed d (s.node p)) s.queue).0 ≡ some n
    → s.nosched n ≡ true
    → Returns (deactivate hz jiffies allowed c force limit s) λ r.
      (r.1.ctx p ≡ none)
      × (r.1.used p ≡ true)
      × ((max_numnodes here : ℕ) (d : Context)
          → here < max_numnodes
          → ((spu_get_idle hz jiffies allowed max_numnodes here d r.1).0 ≢ some p)
            × ((t : Spus)
                → find_victim hz jiffies allowed max_numnodes here d r.1 ≢ some (some p, t)))
unfolding deactivate
deactivate-find_victim hz jiffies allowed c n p force limit s i on best sleeps =
    let may : Context → Bool = λ d. allowed d (s.node p) in
    let s₁ = record s { queue = (grab_runnable_context limit may s.queue).1 } in
    let i₁ = grabbed-IsBound hz jiffies allowed limit may s i in
    let at = i.back p c on in
    let (s₂, run, (i₂, idle, off, stopped, released, flags, _, _, _, _, _)) =
      spu_unschedule-IsBound p c false s₁ s₁.time_slice at i₁ (λ d _. i₁.slice d) in
    let waits : s₂.nosched n ≡ true = ap (λ f. f n) flags ∙ sleeps in
    let used : s.used p ≡ true = elim (Bool-cases (s.used p)) [
      | inl y ↦ y
      | inr m ↦ let bare = i.free p m in cc
    ] in
    (
      (true, s₂),
      rw (deactivate, on, best, run, ◌>>=◌, waits),
      (
        idle,
        released ∙ used,
        λ max_numnodes here d lt. (
          spu_get_idle-used hz jiffies allowed max_numnodes here d p s₂ (released ∙ used),
          λ t. find_victim-idle hz jiffies allowed max_numnodes here d p s₂ t lt idle i₂,
        ),
      ),
    )
