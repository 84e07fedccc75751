-- ===== src/Tests/SpuRuns.antt =====
-- A run queue with one context of priority 120.
use linux_kernel_code_projec.Base.{
  ℕ, ◌+◌, ◌<◌, ◌≡◌, ◌≢◌, length, ltb, refl, is_some, none, some, [], ◌∷◌, arith, Bool, true, false,
  ◌==◌, if◌then◌else◌,
}
use linux_kernel_code_projec.Spu.{
  Context, SpuPrioArray, spu_add_to_rq, grab_runnable_context, find_first_bit, best_allowed,
  first_allowed,
}
use linux_kernel_code_projec.Base.Run.{Returns}
use linux_kernel_code_projec.Spu.Schedule.{
  Spus, set_at, spu_schedule, schedule_on, spu_bind_context, spu_unbind_context, deactivate,
  spu_deactivate, spu_yield, tick, spusched_thread,
}
use linux_kernel_code_projec.Spu.Schedule.Bound.{IsBound}
use linux_kernel_code_projec.Spu.Schedule.Calls
use linux_kernel_code_projec.Spu.Activate.{
  returned_zero, first_free, worse, worst, over_nodes, spu_get_idle, find_victim, activate_top,
  spu_activate,
}
use linux_kernel_code_projec.Spu.Activate.Outcome.{Outcome, spu_activate-Activated}
use linux_kernel_code_projec.Spu.Schedule.Handover.{Deactivated, deactivate-Deactivated}
use linux_kernel_code_projec.Spu.Activate.Idle.{deactivate-find_victim}
use linux_kernel_code_projec.Spu.Load.{add_active, count_active_contexts}
use linux_kernel_code_projec.Spu.Load.Active.{
  active_contexts, count_active_contexts-active_contexts,
}
use linux_kernel_code_projec.Spu.Slices.{ticks, IsDue, Preempted, ticks-Preempted}
use linux_kernel_code_projec.Spu.Queue.{occ, IsCounted, total, spu_add_to_rq-IsCounted}
use linux_kernel_code_projec.Spu.Grab.{
  Reach, Step, Grabbed, Reach-IsCounted, grab_runnable_context-Grabbed,
}

abbrev empty_queue : SpuPrioArray
empty_queue = record {
  bitmap = λ p. false;
  runq = λ p. [];
  nr_waiting = 0;
  prio = λ c. 120;
  rq = λ c. none;
  timer = none;
}

empty_queue-IsCounted : IsCounted empty_queue
unfolding total
empty_queue-IsCounted = record {
  placed = λ c p. refl;
  own = λ c p e. cc;
  bits = λ p. refl;
  waiting = refl;
  timed = refl;
}

abbrev one_context : SpuPrioArray
one_context = spu_add_to_rq 1000 5 empty_queue

one_context-Reach : Reach empty_queue one_context
one_context-Reach = Reach.next Reach.here (Step.add empty_queue 1000 5 (omega arith))

Reach-IsCounted_example : IsCounted one_context
Reach-IsCounted_example =
    Reach-IsCounted empty_queue one_context empty_queue-IsCounted one_context-Reach

grab_runnable_context-Grabbed_example :
    Grabbed 140 (λ c. true) one_context (grab_runnable_context 140 (λ c. true) one_context)
grab_runnable_context-Grabbed_example =
    grab_runnable_context-Grabbed 140 (λ c. true) one_context
      (spu_add_to_rq-IsCounted 1000 5 empty_queue (omega arith) empty_queue-IsCounted)

-- The context 7 runs on the SPU 0, and the context 5 waits.
abbrev busy : Spus
busy = record {
  queue = one_context;
  ctx = λ p. if p == 0 then some 7 else none;
  used = λ p. p == 0;
  node = λ p. 0;
  spu = λ c. if c == 7 then some 0 else none;
  runnable = λ c. c == 7;
  nosched = λ c. false;
  spu_run = λ c. true;
  fifo = λ c. false;
  time_slice = λ c. 1;
  spus = λ n. if n == 0 then 0 ∷ 1 ∷ [] else [];
  nr_active = λ n. if n == 0 then 1 else 0;
}

busy-IsBound : IsBound busy
unfolding spu_add_to_rq
busy-IsBound = record {
  there = λ p c e. ground arith;
  back = λ p c e. ground arith;
  state = λ c. ground arith;
  slice = λ c e. omega arith;
  free = λ p e. ground arith;
  counted = spu_add_to_rq-IsCounted 1000 5 empty_queue (omega arith) empty_queue-IsCounted;
  prio = λ c. omega arith;
  placed = λ p n lt. ground arith;
  home = λ p c e. ground arith;
  active = λ n. ground arith;
}

deactivate-Deactivated_example :
    Returns
      (deactivate 100 2000 (λ c n. true) 7 true 140 busy)
      λ r. IsBound r.1 × Deactivated 100 2000 (λ c n. true) 7 true 140 busy r
deactivate-Deactivated_example =
    deactivate-Deactivated 100 2000 (λ c n. true) 7 true 140 busy busy-IsBound

-- After a call of `spu_schedule`, and one of `spu_activate` that makes the context 9 wait
abbrev started : Spus
started = spu_schedule 100 2000 (λ c n. true) 1 5 busy

abbrev waiting : Spus
waiting = record started { queue = spu_add_to_rq 2000 9 started.queue }

spu_activate-started :
    spu_activate 100 2000 (λ c n. true) 1 0 false false 9 started ≡ some (returned_zero, waiting)
unfolding spu_activate activate_top spu_get_idle over_nodes first_free spu_schedule schedule_on
    spu_bind_context spu_add_to_rq
spu_activate-started = refl

Reach-IsBound_example :
    IsBound waiting
    × (is_some (spusched_thread 100 2000 (λ c n. true) 1 0 waiting) ≡ true)
    × ((c : Context)
        → (is_some (spu_deactivate 100 2000 (λ d n. true) c waiting) ≡ true)
          × (is_some (spu_yield 100 2000 (λ d n. true) c waiting) ≡ true)
          × (is_some (tick 100 2000 (λ d n. true) c waiting) ≡ true)
          × ((node : ℕ) (signal late : Bool)
              → node < 1
              → is_some (spu_activate 100 2000 (λ d n. true) 1 node signal late c waiting) ≡ true))
Reach-IsBound_example =
    Calls.Reach-IsBound 100 2000 (λ c n. true) 1 busy waiting busy-IsBound
      (Calls.Reach.next
        (Calls.Reach.next Calls.Reach.here (Calls.Step.schedule busy 1 5 (omega arith)))
        (Calls.Step.activate 0 false false 9 (omega arith) spu_activate-started))

-- The jump to `spu_activate_top` for the context 7, which has the SPU 0 and gets the SPU 1 too
activate_top-busy :
    activate_top 100 2000 (λ c n. true) 1 0 false false 7 busy
    ≡ some (
      returned_zero,
      schedule_on 100 2000 (λ c n. true) 1 7 (record busy { used = set_at 1 true busy.used }),
    )
unfolding activate_top spu_get_idle over_nodes first_free
activate_top-busy = refl

schedule_on-busy :
    let r =
      schedule_on 100 2000 (λ c n. true) 1 7 (record busy { used = set_at 1 true busy.used }) in
    (r.ctx 0 ≡ some 7) × (r.ctx 1 ≡ some 7)
unfolding schedule_on spu_bind_context
schedule_on-busy = (refl, refl)

-- All SPUs are in use: a context of real-time priority takes the SPU of the context 7.
abbrev urgent : Spus
urgent = record busy {
  used = λ p. true;
  queue = record empty_queue { prio = λ c. if c == 3 then 50 else 120 };
}

urgent-IsBound : IsBound urgent
unfolding total
urgent-IsBound = record {
  there = λ p c e. ground arith;
  back = λ p c e. ground arith;
  state = λ c. ground arith;
  slice = λ c e. omega arith;
  free = λ p e. cc;
  counted = record {
    placed = λ c p. refl;
    own = λ c p e. cc;
    bits = λ p. refl;
    waiting = refl;
    timed = refl;
  };
  prio = λ c. ground arith;
  placed = λ p n lt. ground arith;
  home = λ p c e. ground arith;
  active = λ n. ground arith;
}

spu_activate-Activated_example :
    Returns
      (spu_activate 100 2000 (λ c n. true) 1 0 false false 3 urgent)
      (Outcome 100 2000 (λ c n. true) 1 0 false false 3 urgent)
spu_activate-Activated_example =
    spu_activate-Activated 100 2000 (λ c n. true) 1 0 false false 3 urgent (omega arith)
      urgent-IsBound

-- It does.
urgent_runs :
    Returns
      (spu_activate 100 2000 (λ c n. true) 1 0 false false 3 urgent)
      λ r. (r.1.ctx 0 ≡ some 3) × (r.1.spu 7 ≡ none) × (is_some (r.1.queue.rq 7) ≡ true)
unfolding spu_activate activate_top spu_get_idle find_victim worst worse over_nodes first_free
    schedule_on spu_bind_context spu_unbind_context spu_add_to_rq
urgent_runs = (_, refl, (refl, refl, refl))

count_active_contexts-active_contexts_example :
    (count_active_contexts 1 busy ≡ length (active_contexts 1 busy))
    × ((c : Context)
        → occ c (active_contexts 1 busy)
          ≡ (elim (busy.spu c) [ none ↦ 0 | some p ↦ if ltb (busy.node p) 1 then 1 else 0 ])
            + (if is_some (busy.queue.rq c) then 1 else 0))
count_active_contexts-active_contexts_example =
    count_active_contexts-active_contexts 1 busy busy-IsBound

-- The context 7 runs and the context 5 waits.
busy_contexts : (count_active_contexts 1 busy ≡ 2) × (active_contexts 1 busy ≡ 7 ∷ 5 ∷ [])
unfolding count_active_contexts add_active spu_add_to_rq
busy_contexts = (refl, refl)

busy-IsDue : IsDue 100 2000 (λ c n. true) 0 7 5 busy
unfolding spu_add_to_rq
busy-IsDue = record {
  on = refl;
  sched = refl;
  slices = refl;
  runs = refl;
  waits = (120, refl, omega arith);
  may = refl;
  saved = λ e at. ground arith;
}

ticks-Preempted_example :
    Returns (ticks 100 2000 (λ c n. true) 1 7 busy) (Preempted 100 2000 (λ c n. true) 0 7 busy)
ticks-Preempted_example =
    ticks-Preempted 100 2000 (λ c n. true) 0 0 7 5 busy busy-IsBound busy-IsDue refl

-- Now the context 5 has SPU_CREATE_NOSCHED.
abbrev sleeper : Spus
sleeper = record busy { nosched = λ c. c == 5 }

sleeper-IsBound : IsBound sleeper
sleeper-IsBound = record {
  there = busy-IsBound.there;
  back = busy-IsBound.back;
  state = busy-IsBound.state;
  slice = busy-IsBound.slice;
  free = busy-IsBound.free;
  counted = busy-IsBound.counted;
  prio = busy-IsBound.prio;
  placed = busy-IsBound.placed;
  home = busy-IsBound.home;
  active = busy-IsBound.active;
}

sleeper_grabbed : (grab_runnable_context 140 (λ d. true) sleeper.queue).0 ≡ some 5
unfolding grab_runnable_context find_first_bit best_allowed first_allowed spu_add_to_rq
sleeper_grabbed = refl

deactivate-find_victim_example : Returns (deactivate 100 2000 (λ c n. true) 7 true 140 sleeper) λ r.
    (r.1.ctx 0 ≡ none)
    × (r.1.used 0 ≡ true)
    × ((max_numnodes here : ℕ) (d : Context)
        → here < max_numnodes
        → ((spu_get_idle 100 2000 (λ c n. true) max_numnodes here d r.1).0 ≢ some 0)
          × ((t : Spus)
              → find_victim 100 2000 (λ c n. true) max_numnodes here d r.1 ≢ some (some 0, t)))
deactivate-find_victim_example =
    deactivate-find_victim 100 2000 (λ c n. true) 7 5 0 true 140 sleeper sleeper-IsBound refl
      sleeper_grabbed refl
