-- ===== src/Spu/Activate.antt =====
-- skiplist/sched.c: `spu_activate` for a context without a gang, and the count of active contexts.
pub mod Nodes
pub mod Choice
pub mod Victim
pub mod Waits
pub mod Outcome
pub mod Idle
use linux_kernel_code_projec.Base.{
  ℕ, zero, suc, ◌+◌, ◌-◌, Bool, true, false, ◌&&◌, not, Option, none, some, List, [], ◌∷◌, ltb, leb,
  is_some, if◌then◌else◌,
}
use linux_kernel_code_projec.Base.Run.{◌>>=◌}
use linux_kernel_code_projec.Spu.{Context, max_rt_prio, spu_add_to_rq}
use linux_kernel_code_projec.Spu.Schedule.{SpuId, Spus, set_at, spu_unbind_context, schedule_on}

-- The first free SPU of a list
unfoldable pub first_free : (SpuId → Bool) → List SpuId → Option SpuId
first_free used [] = none
first_free used (p ∷ ps) = if used p then first_free used ps else some p

-- What the loop of `find_victim` over the SPUs of a node makes of one SPU
unfoldable pub worse : Spus → Context → Option Context → SpuId → Option Context
worse s c victim p = elim (s.ctx p) [
  | none ↦ victim
  | some tmp ↦
      let above : Bool = elim victim [
        | none ↦ true
        | some v ↦ ltb (s.queue.prio v) (s.queue.prio tmp)
      ] in
      if ltb (s.queue.prio c) (s.queue.prio tmp) && not (s.nosched tmp) && above
      then some tmp
      else victim
]

-- That loop
unfoldable pub worst : Spus → Context → Option Context → List SpuId → Option Context
worst s c victim [] = victim
worst s c victim (p ∷ ps) = worst s c (worse s c victim p) ps

-- A loop over `n` nodes from `node` on, which goes round at MAX_NUMNODES, skips the nodes that are
-- not allowed, and ends at the first one with a result
unfoldable pub over_nodes : {A : Type 0} → ℕ → (ℕ → Bool) → (ℕ → Option A) → ℕ → ℕ → Option (ℕ × A)
over_nodes max_numnodes ok f zero node = none
over_nodes max_numnodes ok f (suc n) node =
    let m = if ltb node max_numnodes then node else 0 in
    let rest = over_nodes max_numnodes ok f n (m + 1) in
    if ok m then (elim (f m) [ none ↦ rest | some a ↦ some (m, a) ]) else rest

-- What `spu_activate` ends in: it returns 0 or -ERESTARTSYS, or sleeps in `spu_prio_wait`.
pub data Activation : Type 0 where
  returned_zero : Activation
  restart_sys : Activation
  asleep : Activation

module _ (hz jiffies : ℕ) (allowed : Context → ℕ → Bool) (max_numnodes here : ℕ) where
  -- `spu_get_idle` of a context without a gang, on a processor of the node `here`
  unfoldable pub spu_get_idle : Context → Spus → Option SpuId × Spus
  spu_get_idle c s =
      let found =
        over_nodes max_numnodes (allowed c) (λ n. first_free s.used (s.spus n)) max_numnodes here in
      elim found [
        | none ↦ (none, s)
        | some r ↦ (some r.1, record s { used = set_at r.1 true s.used })
      ]

  -- `find_victim`, where no other thread holds the locks; `none` if it would search for ever.
  unfoldable pub find_victim : Context → Spus → Option (Option SpuId × Spus)
  find_victim c s =
      let found =
        over_nodes max_numnodes (allowed c) (λ n. worst s c none (s.spus n)) max_numnodes here in
      elim found [
        | none ↦ some (none, s)
        | some r ↦ do
          p ← s.spu r.1
          let s₁ = record s { nr_active = set_at r.0 (s.nr_active r.0 - 1) s.nr_active }
          s₂ ← if leb (s.queue.prio r.1) (s.queue.prio c) then none else spu_unbind_context p r.1 s₁
          some (
            some p,
            if s₂.spu_run r.1 then record s₂ { queue = spu_add_to_rq jiffies r.1 s₂.queue } else s₂,
          )
      ]

  -- `spu_prio_wait` up to the call of `schedule`; a signal makes `spu_activate` return.
  unfoldable pub spu_prio_wait : Bool → Context → Spus → Activation × Spus
  spu_prio_wait signal c s =
      if signal
      then (restart_sys, s)
      else (asleep, record s { queue = spu_add_to_rq jiffies c s.queue })

  -- `spu_activate` from the label `spu_activate_top` on; `signal` and `late` say if a signal is
  -- pending at the label and in `spu_prio_wait`.
  unfoldable pub activate_top : Bool → Bool → Context → Spus → Option (Activation × Spus)
  activate_top signal late c s =
      let (idle, s₁) = spu_get_idle c s in
      let no_spu : Spus → Activation × Spus = λ t.
        if t.nosched c
        then spu_prio_wait late c t
        else (returned_zero, record t { queue = spu_add_to_rq jiffies c t.queue }) in
      if signal then some (restart_sys, s) else elim idle [
        | some p ↦ some (returned_zero, schedule_on hz jiffies allowed p c s₁)
        | none ↦
            if ltb (s₁.queue.prio c) max_rt_prio
            then (do
              r ← find_victim c s₁
              elim r.0 [
                | some p ↦ some (returned_zero, schedule_on hz jiffies allowed p c r.1)
                | none ↦ some (no_spu r.1)
              ])
            else some (no_spu s₁)
      ]

  -- `spu_activate`
  unfoldable pub spu_activate : Bool → Bool → Context → Spus → Option (Activation × Spus)
  spu_activate signal late c s =
      if is_some (s.spu c) then some (returned_zero, s) else activate_top signal late c s
