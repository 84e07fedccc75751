-- ===== src/Spu.antt =====
-- skiplist/sched.c: the run queue of the SPU scheduler. A context is known by its number.
pub mod Queue
pub mod Grab
pub mod Affinity
pub mod Schedule
pub mod Activate
pub mod Load
pub mod Slices
use linux_kernel_code_projec.Base.{
  ℕ, zero, suc, ◌+◌, ◌-◌, ◌*◌, ◌/◌, Bool, true, false, ◌&&◌, ◌||◌, not, Option, none, some, List,
  [], ◌∷◌, ◌++◌, ◌==◌, ltb, is_some, if◌then◌else◌,
}

abbrev pub Context : Type 0
Context = ℕ

-- MAX_PRIO, MAX_USER_PRIO and NORMAL_PRIO
abbrev pub max_prio : ℕ
max_prio = 140

abbrev pub max_user_prio : ℕ
max_user_prio = 40

abbrev pub normal_prio : ℕ
normal_prio = 120

-- SPUSCHED_TICK
abbrev pub spusched_tick : ℕ
spusched_tick = 10

-- MIN_SPU_TIMESLICE and DEF_SPU_TIMESLICE
unfoldable pub min_spu_timeslice : ℕ → ℕ
min_spu_timeslice hz =
    if ltb (5 * hz / (1000 * spusched_tick)) 1 then 1 else 5 * hz / (1000 * spusched_tick)

unfoldable pub def_spu_timeslice : ℕ → ℕ
def_spu_timeslice hz = 100 * hz / (1000 * spusched_tick)

-- SCALE_PRIO
unfoldable pub scale_prio : ℕ → ℕ → ℕ → ℕ
scale_prio hz x prio =
    let slice = x * (max_prio - prio) / (max_user_prio / 2) in
    if ltb slice (min_spu_timeslice hz) then min_spu_timeslice hz else slice

-- `spu_set_timeslice`: the time slice for a priority, with HZ
unfoldable pub spu_set_timeslice : ℕ → ℕ → ℕ
spu_set_timeslice hz prio =
    if ltb prio normal_prio
    then scale_prio hz (def_spu_timeslice hz * 4) prio
    else scale_prio hz (def_spu_timeslice hz) prio

-- `struct spu_prio_array`, with the priority of each context, the list that its node `rq` is in, and
-- the time for which `spusched_timer` is set.
pub record SpuPrioArray : Type 0 where
  pub bitmap : ℕ → Bool
  pub runq : ℕ → List Context
  pub nr_waiting : ℕ
  pub prio : Context → ℕ
  pub rq : Context → Option ℕ
  pub timer : Option ℕ

abbrev pub list_empty : List Context → Bool
list_empty [] = true
list_empty (c ∷ cs) = false

abbrev pub list_del : Context → List Context → List Context
list_del c [] = []
list_del c (d ∷ ds) = if c == d then ds else d ∷ list_del c ds

abbrev pub set_bit : ℕ → Bool → (ℕ → Bool) → ℕ → Bool
set_bit n b bits i = if i == n then b else bits i

-- MAX_RT_PRIO
abbrev pub max_rt_prio : ℕ
max_rt_prio = 100

-- The priority that `__spu_update_sched_info` gives a context, from those of the running task, with
-- its BUG_ON
unfoldable pub spu_update_sched_info : ℕ → ℕ → Context → SpuPrioArray → Option SpuPrioArray
spu_update_sched_info task_prio static_prio c s =
    if is_some (s.rq c)
    then none
    else some (record s {
      prio = λ d.
          if d == c
          then (if ltb task_prio max_rt_prio then task_prio else static_prio)
          else s.prio d;
    })

-- `__spu_add_to_rq`
unfoldable pub spu_add_to_rq : ℕ → Context → SpuPrioArray → SpuPrioArray
spu_add_to_rq jiffies c s = if is_some (s.rq c) then s else record s {
  runq = λ p. if p == s.prio c then s.runq (s.prio c) ++ c ∷ [] else s.runq p;
  rq = λ d. if d == c then some (s.prio c) else s.rq d;
  bitmap = set_bit (s.prio c) true s.bitmap;
  timer = if s.nr_waiting == 0 then some (jiffies + spusched_tick) else s.timer;
  nr_waiting = s.nr_waiting + 1;
}

-- `__spu_del_from_rq`
unfoldable pub spu_del_from_rq : Context → SpuPrioArray → SpuPrioArray
spu_del_from_rq c s = elim (s.rq c) [
  | none ↦ s
  | some q ↦
      let runq : ℕ → List Context = λ p. if p == q then list_del c (s.runq q) else s.runq p in
      record s {
        runq = runq;
        rq = λ d. if d == c then none else s.rq d;
        bitmap =
            if list_empty (runq (s.prio c)) then set_bit (s.prio c) false s.bitmap else s.bitmap;
        timer = if s.nr_waiting == 1 then none else s.timer;
        nr_waiting = s.nr_waiting - 1;
      }
]

-- The first context of a list that may run on the node
unfoldable pub first_allowed : (Context → Bool) → List Context → Option Context
first_allowed allowed [] = none
first_allowed allowed (c ∷ cs) = if allowed c then some c else first_allowed allowed cs

-- `find_first_bit`, from `i` on for `n` bits
unfoldable pub find_first_bit : ℕ → ℕ → (ℕ → Bool) → ℕ
find_first_bit zero i bits = i
find_first_bit (suc n) i bits = if bits i then i else find_first_bit n (i + 1) bits

-- The loop of `grab_runnable_context`, over `n` priorities from `best` on
unfoldable pub best_allowed : (Context → Bool) → ℕ → ℕ → SpuPrioArray → Option Context
best_allowed allowed zero best s = none
best_allowed allowed (suc n) best s = elim (first_allowed allowed (s.runq best)) [
  | some c ↦ some c
  | none ↦ best_allowed allowed n (best + 1) s
]

-- `grab_runnable_context`; `allowed` is `__node_allowed` for the node.
unfoldable pub grab_runnable_context :
    ℕ → (Context → Bool) → SpuPrioArray → Option Context × SpuPrioArray
grab_runnable_context prio allowed s =
    let best = find_first_bit prio 0 s.bitmap in
    elim (best_allowed allowed (prio - best) best s) [
      | some c ↦ (some c, spu_del_from_rq c s)
      | none ↦ (none, s)
    ]
