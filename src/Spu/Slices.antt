-- ===== src/Spu/Slices.antt =====
-- skiplist/sched.c: what happens once a time slice is over.
use linux_kernel_code_projec.Base.{
  ℕ, zero, suc, ◌+◌, ◌-◌, ◌≤◌, ◌<◌, ◌≡◌, ap, ◌∙◌, inl, inr, Bool, true, false, Option, none, some,
  ◌==◌, arith, is_some, Bool-cases, Option-cases, ==_eq, ==_self,
}
use linux_kernel_code_projec.Base.Run.{◌>>=◌, Returns}
use linux_kernel_code_projec.Spu.{Context, spu_add_to_rq, grab_runnable_context}
use linux_kernel_code_projec.Spu.Queue.{occ, IsCounted}
use linux_kernel_code_projec.Spu.Grab.{IsBest, grab_runnable_context-Grabbed}
use linux_kernel_code_projec.Spu.Schedule.{SpuId, Spus, set_at, spu_schedule, preempt, tick}
use linux_kernel_code_projec.Spu.Schedule.Bound.{IsBound, spu_unschedule-IsBound}
use linux_kernel_code_projec.Spu.Schedule.Moves.{
  added-IsBound, resliced-IsBound, grabbed-IsBound, idle_context,
}
use linux_kernel_code_projec.Spu.Activate.Victim.{spu_add_to_rq-queued}
use linux_kernel_code_projec.Spu.Activate.Waits.{schedule_on-IsBound}

module _ (hz jiffies : ℕ) (allowed : Context → ℕ → Bool) where
  -- Calls of `spusched_tick` for one context
  unfoldable pub ticks : ℕ → Context → Spus → Option Spus
  ticks zero c s = some s
  ticks (suc n) c s = do s₁ ← tick hz jiffies allowed c s; ticks n c s₁

  -- The context runs on this SPU, is scheduled by time slices, and another one may have the SPU.
  pub record IsDue (p : SpuId) (c d : Context) (s : Spus) : Type 0 where
    pub on : s.spu c ≡ some p
    pub sched : s.nosched c ≡ false
    pub slices : s.fifo c ≡ false
    pub runs : s.spu_run c ≡ true
    pub waits : (q : ℕ) × (s.queue.rq d ≡ some q) × (q ≤ s.queue.prio c)
    pub may : allowed d (s.node p) ≡ true
    pub saved : (e : Context) → is_some (s.queue.rq e) ≡ true → s.runnable e ≡ false

  -- The SPU has the best context that waited, and its former context waits.
  abbrev pub Preempted : SpuId → Context → Spus → Spus → Type 0
  Preempted p c s r =
      (n : Context) × IsBest (λ d. allowed d (s.node p)) 0 (s.queue.prio c + 1) s.queue (some n)
      × (r.ctx p ≡ some n)
      × (r.spu c ≡ none)
      × (is_some (r.queue.rq c) ≡ true)

  listed-is_some :
      (c : Context) (p : ℕ) (s : Spus)
      → IsCounted s.queue
      → 0 < occ c (s.queue.runq p)
      → is_some (s.queue.rq c) ≡ true
  listed-is_some c p s i lt = elim (Option-cases (s.queue.rq c)) [
    | inr (q, e) ↦ rw e
    | inl e ↦ let at = i.placed c p in let at' = rw e at at in absurd (omega arith)
  ]

  -- The new context gets the SPU, and the former one is in the queue.
  handed :
      (p : SpuId) (c n : Context) (s : Spus)
      → IsBound s
      → s.ctx p ≡ none
      → s.spu c ≡ none
      → s.runnable n ≡ false
      → (c == n) ≡ false
      → 0 < occ p (s.spus (s.node p))
      → let r =
          spu_schedule hz jiffies allowed p n
            (record s { queue = spu_add_to_rq jiffies c s.queue }) in
        (r.ctx p ≡ some n) × (r.spu c ≡ none) × (is_some (r.queue.rq c) ≡ true)
  unfolding spu_schedule
  handed p c n s i idle off saved apart real =
      let s₁ = record s { queue = spu_add_to_rq jiffies c s.queue } in
      let i₁ = added-IsBound jiffies c s i in
      let (_, on, spus, queue) =
        schedule_on-IsBound hz jiffies allowed p n s₁ idle (idle_context n s i saved) real i₁ in
      rw saved (on, rw (spus, apart) off, rw queue (spu_add_to_rq-queued jiffies c s.queue))

  preempt-Preempted :
      (p : SpuId) (c d : Context) (s : Spus)
      → IsBound (record s { time_slice = set_at c 1 s.time_slice })
      → ((e : Context) → (e == c) ≡ false → s.runnable e ≡ true → 0 < s.time_slice e)
      → IsDue p c d s
      → Returns (preempt hz jiffies allowed c s) (Preempted p c s)
  unfolding preempt
  preempt-Preempted p c d s i long due =
      let may : Context → Bool = λ e. allowed e (s.node p) in
      let limit = s.queue.prio c + 1 in
      let s₁ = record s { queue = (grab_runnable_context limit may s.queue).1 } in
      let i₁ =
        grabbed-IsBound hz jiffies allowed limit may
          (record s { time_slice = set_at c 1 s.time_slice }) i in
      let g = grab_runnable_context-Grabbed limit may s.queue i.counted in
      elim (Option-cases (grab_runnable_context limit may s.queue).0) [
        | inl empty ↦
            let (q, at, le) = due.waits in
            let bad = rw empty at g.best in
            let there = i.counted.placed d q in
            let listed : occ d (s.queue.runq q) ≡ 1 = rw (at, ==_self q) at there in
            let bar = bad d q (omega arith) (omega arith) (omega arith) in
            absurd (let open_to = due.may in cc)
        | inr (n, best) ↦
            let first = rw best at g.best in
            let (q, _, _, there, _, _) = first in
            let idle_n = due.saved n (listed-is_some n q s i.counted there) in
            let apart : (c == n) ≡ false = elim (Bool-cases (c == n)) [
              | inr m ↦ m
              | inl y ↦
                  let st = i.state c in
                  let on = due.on in
                  let st' : s.runnable c ≡ true = rw on at st in
                  let other : s.runnable c ≡ false = rw (==_eq c n y) idle_n in cc
            ] in
            let (s₂, run, (i₂, idle, off, _, _, _, _, still, list, nodes, flags)) =
              spu_unschedule-IsBound p c false s₁ (set_at c 1 s₁.time_slice) (i.back p c due.on) i₁
                long in
            let y : s₂.spu_run c ≡ true = ap (λ f. f c) flags ∙ due.runs in
            let real : 0 < occ p (s₂.spus (s₂.node p)) =
              rw (list, nodes) (i.home p c (i.back p c due.on)) in
            let (on, gone, again) = handed p c n s₂ i₂ idle off (still n idle_n) apart real in
            (
              spu_schedule hz jiffies allowed p n
                  (record s₂ { queue = spu_add_to_rq jiffies c s₂.queue }),
              rw (due.on, ◌>>=◌, best, run, ◌>>=◌, y),
              (n, first, on, gone, again),
            )
      ]

  -- The time slice gets shorter by one.
  tick-keeps :
      (k : ℕ) (p : SpuId) (c d : Context) (s : Spus)
      → IsBound s
      → IsDue p c d s
      → s.time_slice c ≡ suc (suc k)
      → tick hz jiffies allowed c s ≡ some (record s { time_slice = set_at c (suc k) s.time_slice })
  unfolding tick
  tick-keeps k p c d s i due e =
      let st = i.state c in
      let on = due.on in
      let runs : s.runnable c ≡ true = rw on at st in
      let less : suc (suc k) - 1 ≡ suc k = omega arith in
      let more : (suc k == 0) ≡ false = ground arith in
      rw (runs, due.sched, due.slices, e, less, ==_self c, more, due.runs)

  tick-Preempted :
      (p : SpuId) (c d : Context) (s : Spus)
      → IsBound s
      → IsDue p c d s
      → s.time_slice c ≡ 1
      → Returns (tick hz jiffies allowed c s) (Preempted p c s)
  unfolding tick
  tick-Preempted p c d s i due e =
      let st = i.state c in
      let on = due.on in
      let runs : s.runnable c ≡ true = rw on at st in
      let s₁ = record s { time_slice = set_at c (s.time_slice c - 1) s.time_slice } in
      let over : (s₁.time_slice c == 0) ≡ true = rw (==_self c, e) in
      let (r, run, done) =
        preempt-Preempted p c d s₁
          (resliced-IsBound (set_at c 1 s₁.time_slice) s (λ f g. ground (arith, i.slice f)) i)
          (λ f other g. ground (arith, i.slice f))
          (record {
            on = due.on;
            sched = due.sched;
            slices = due.slices;
            runs = due.runs;
            waits = due.waits;
            may = due.may;
            saved = due.saved;
          }) in
      (r, rw (runs, due.sched, due.slices, over) run, done)

  -- If contexts and SPUs point at each other, exactly the contexts with an SPU are runnable and
  -- have a time slice above 0, free SPUs have no context, priorities are below MAX_PRIO, the run
  -- queue agrees with its lists, every SPU with a context is once in the list of its node and in
  -- no other list, and `nr_active` of a node is the number of its SPUs with a context, a context
  -- runs on an SPU without SPU_CREATE_NOSCHED and SCHED_FIFO and with SPU_SCHED_SPU_RUN, a context
  -- that may run on the node waits with a priority that is no worse, and no context that waits is
  -- runnable, then as many calls of `spusched_tick` as its time slice return, and after them the
  -- SPU has one of the best contexts that waited and may run there, and the former context has no
  -- SPU and waits.
  pub ticks-Preempted :
      (k : ℕ) (p : SpuId) (c d : Context) (s : Spus)
      → IsBound s
      → IsDue p c d s
      → s.time_slice c ≡ suc k
      → Returns (ticks (suc k) c s) (Preempted p c s)
  unfolding ticks
  ticks-Preempted zero p c d s i due e =
      let (r, run, done) = tick-Preempted p c d s i due e in (r, rw (ticks, run), done)
  ticks-Preempted (suc k) p c d s i due e =
      let (r, run, done) =
        ticks-Preempted k p c d (record s { time_slice = set_at c (suc k) s.time_slice })
          (resliced-IsBound (set_at c (suc k) s.time_slice) s (λ f g. ground (arith, i.slice f)) i)
          (record {
            on = due.on;
            sched = due.sched;
            slices = due.slices;
            runs = due.runs;
            waits = due.waits;
            may = due.may;
            saved = due.saved;
          })
          (rw (==_self c)) in
      (r, rw (ticks, tick-keeps k p c d s i due e, ◌>>=◌) run, done)
