-- ===== src/Spu/Schedule.antt =====
-- skiplist/sched.c: contexts on the SPUs. The registers of an SPU and the counts for statistics are
-- not in the state.
pub mod Bound
pub mod Moves
pub mod Kept
pub mod Handover
pub mod Calls
use linux_kernel_code_projec.Base.{
  ℕ, zero, suc, ◌+◌, ◌-◌, Bool, true, false, ◌&&◌, not, Option, none, some, List, [], ◌∷◌, ◌==◌,
  if◌then◌else◌,
}
use linux_kernel_code_projec.Base.Run.{◌>>=◌}
use linux_kernel_code_projec.Spu.{
  Context, max_prio, SpuPrioArray, spu_set_timeslice, spu_add_to_rq, grab_runnable_context,
}

abbrev pub SpuId : Type 0
SpuId = ℕ

-- `struct spu`: its context, whether it is SPU_USED, and its node. `struct spu_context`: its SPU,
-- whether it is SPU_STATE_RUNNABLE, the flags SPU_CREATE_NOSCHED and SPU_SCHED_SPU_RUN, whether its
-- policy is SCHED_FIFO, and its time slice. `cbe_spu_info`: the SPUs of a node, and `nr_active`.
pub record Spus : Type 0 where
  pub queue : SpuPrioArray
  pub ctx : SpuId → Option Context
  pub used : SpuId → Bool
  pub node : SpuId → ℕ
  pub spu : Context → Option SpuId
  pub runnable : Context → Bool
  pub nosched : Context → Bool
  pub spu_run : Context → Bool
  pub fifo : Context → Bool
  pub time_slice : Context → ℕ
  pub spus : ℕ → List SpuId
  pub nr_active : ℕ → ℕ

abbrev pub set_at : {A : Type 0} → ℕ → A → (ℕ → A) → ℕ → A
set_at i a f j = if j == i then a else f j

-- `spu_bind_context`
unfoldable pub spu_bind_context : SpuId → Context → Spus → Spus
spu_bind_context p c s = record s {
  ctx = set_at p (some c) s.ctx;
  spu = set_at c (some p) s.spu;
  runnable = set_at c true s.runnable;
}

-- `spu_unbind_context`, which reads the flags of the context of the SPU
unfoldable pub spu_unbind_context : SpuId → Context → Spus → Option Spus
spu_unbind_context p c s = do
  d ← s.ctx p
  some (record s {
    runnable = set_at c false s.runnable;
    ctx = set_at p none s.ctx;
    spu = set_at c none s.spu;
  })

-- `spu_unschedule`
unfoldable pub spu_unschedule : SpuId → Context → Bool → Spus → Option Spus
spu_unschedule p c free_spu s = spu_unbind_context p c (record s {
  nr_active = set_at (s.node p) (s.nr_active (s.node p) - 1) s.nr_active;
  used = if free_spu then set_at p false s.used else s.used;
})

module _ (hz jiffies : ℕ) (allowed : Context → ℕ → Bool) where
  -- `__spu_schedule`
  unfoldable pub schedule_on : SpuId → Context → Spus → Spus
  schedule_on p c s =
      let slice = spu_set_timeslice hz (s.queue.prio c) in
      let s₁ = record s { time_slice = set_at c slice s.time_slice } in
      elim (s₁.ctx p) [
        | none ↦ record (spu_bind_context p c s₁) {
          nr_active = set_at (s.node p) (s.nr_active (s.node p) + 1) s.nr_active;
          used = set_at p true s₁.used;
        }
        | some d ↦ record s₁ { queue = spu_add_to_rq jiffies c s₁.queue }
      ]

  -- `spu_schedule`
  unfoldable pub spu_schedule : SpuId → Context → Spus → Spus
  spu_schedule p c s = if s.runnable c then s else schedule_on p c s

  -- `__spu_deactivate`
  unfoldable pub deactivate : Context → Bool → ℕ → Spus → Option (Bool × Spus)
  deactivate c force limit s = elim (s.spu c) [
    | none ↦ some (false, s)
    | some p ↦
        let (new, queue) = grab_runnable_context limit (λ d. allowed d (s.node p)) s.queue in
        let s₁ = record s { queue = queue } in
        elim new [
          | none ↦
              if force
              then (do s₂ ← spu_unschedule p c true s₁; some (false, s₂))
              else some (false, s₁)
          | some n ↦ do
            s₂ ← spu_unschedule p c false s₁
            some (true, if s₂.nosched n then s₂ else spu_schedule p n s₂)
        ]
  ]

  -- `spu_deactivate`
  unfoldable pub spu_deactivate : Context → Spus → Option Spus
  spu_deactivate c s = do r ← deactivate c true max_prio s; some r.1

  -- `spu_yield`
  unfoldable pub spu_yield : Context → Spus → Option Spus
  spu_yield c s = if s.nosched c then some s else (do r ← deactivate c false max_prio s; some r.1)

  -- What `spusched_tick` does once the time slice is over, or the context does not run
  unfoldable pub preempt : Context → Spus → Option Spus
  preempt c s = do
    p ← s.spu c
    let (new, queue) =
        grab_runnable_context (s.queue.prio c + 1) (λ d. allowed d (s.node p)) s.queue
    let s₁ = record s { queue = queue }
    elim new [
      | none ↦
          some (
            if s₁.time_slice c == 0
            then record s₁ { time_slice = set_at c 1 s₁.time_slice }
            else s₁)
      | some n ↦ do
        s₂ ← spu_unschedule p c false s₁
        some (
            spu_schedule p n
              (if s₂.spu_run c then record s₂ { queue = spu_add_to_rq jiffies c s₂.queue } else s₂))
    ]

  -- `spusched_tick`; a context that runs has a time slice above 0.
  unfoldable pub tick : Context → Spus → Option Spus
  tick c s =
      if not (s.runnable c)
      then some s
      else if s.nosched c
      then some s
      else if s.fifo c
      then some s
      else let s₁ = record s { time_slice = set_at c (s.time_slice c - 1) s.time_slice } in
        if not (s₁.time_slice c == 0) && s.spu_run c then some s₁ else preempt c s₁

  -- The loop of `spusched_thread` over the SPUs of a node
  unfoldable pub tick_all : List SpuId → Spus → Option Spus
  tick_all [] s = some s
  tick_all (p ∷ ps) s = elim (s.ctx p) [
    | none ↦ tick_all ps s
    | some c ↦ do s₁ ← tick c s; tick_all ps s₁
  ]

  -- A pass of `spusched_thread` over `n` nodes from `node` on
  unfoldable pub spusched_thread : ℕ → ℕ → Spus → Option Spus
  spusched_thread zero node s = some s
  spusched_thread (suc n) node s = do s₁ ← tick_all (s.spus node) s; spusched_thread n (node + 1) s₁
