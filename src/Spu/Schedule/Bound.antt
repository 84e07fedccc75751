-- ===== src/Spu/Schedule/Bound.antt =====
-- Contexts and SPUs point at each other.
use linux_kernel_code_projec.Base.{
  ℕ, ◌+◌, ◌-◌, ◌<◌, ◌≡◌, refl, Bool, true, false, Option, none, some, List, [], ◌∷◌, ◌==◌, arith,
  is_some, if◌then◌else◌, ==_self,
}
use linux_kernel_code_projec.Base.Run.{Returns}
use linux_kernel_code_projec.Spu.{
  Context, max_prio, spu_set_timeslice, scale_prio, min_spu_timeslice,
}
use linux_kernel_code_projec.Spu.Queue.{IsCounted, occ}
use linux_kernel_code_projec.Spu.Schedule.{
  SpuId, Spus, set_at, spu_bind_context, spu_unbind_context, spu_unschedule,
}

-- How many SPUs of a list have a context
abbrev pub bound_on : (SpuId → Option Context) → List SpuId → ℕ
bound_on ctx [] = 0
bound_on ctx (p ∷ ps) = (if is_some (ctx p) then 1 else 0) + bound_on ctx ps

bound_on-bind :
    (p : SpuId) (c : Context) (ctx : SpuId → Option Context) (ps : List SpuId)
    → ctx p ≡ none
    → bound_on (set_at p (some c) ctx) ps ≡ bound_on ctx ps + occ p ps
bound_on-bind p c ctx [] e = omega arith
bound_on-bind p c ctx (q ∷ qs) e = ground (arith, bound_on-bind p c ctx qs e)

bound_on-unbind :
    (p : SpuId) (c : Context) (ctx : SpuId → Option Context) (ps : List SpuId)
    → ctx p ≡ some c
    → bound_on (set_at p none ctx) ps + occ p ps ≡ bound_on ctx ps
bound_on-unbind p c ctx [] e = omega arith
bound_on-unbind p c ctx (q ∷ qs) e = ground (arith, bound_on-unbind p c ctx qs e)

-- An SPU has a context exactly if the context has it; exactly these contexts are runnable, and have a
-- time slice; an SPU that is free has none. The queue agrees with its lists. An SPU is in the list of
-- its node, once, or in none, and then has no context; a node counts its SPUs with a context.
pub record IsBound (s : Spus) : Type 0 where
  pub there : (p : SpuId) (c : Context) → s.ctx p ≡ some c → s.spu c ≡ some p
  pub back : (p : SpuId) (c : Context) → s.spu c ≡ some p → s.ctx p ≡ some c
  pub state : (c : Context) → s.runnable c ≡ is_some (s.spu c)
  pub slice : (c : Context) → s.runnable c ≡ true → 0 < s.time_slice c
  pub free : (p : SpuId) → s.used p ≡ false → s.ctx p ≡ none
  pub counted : IsCounted s.queue
  pub prio : (c : Context) → s.queue.prio c < max_prio
  pub placed : (p : SpuId) (n : ℕ) → 0 < occ p (s.spus n) → (s.node p ≡ n) × (occ p (s.spus n) ≡ 1)
  pub home : (p : SpuId) (c : Context) → s.ctx p ≡ some c → 0 < occ p (s.spus (s.node p))
  pub active : (n : ℕ) → s.nr_active n ≡ bound_on s.ctx (s.spus n)

pub spu_set_timeslice-pos : (hz prio : ℕ) → 0 < spu_set_timeslice hz prio
unfolding spu_set_timeslice scale_prio min_spu_timeslice
spu_set_timeslice-pos hz prio = ground arith

-- Binding a context without an SPU to an SPU without a context.
pub spu_bind_context-IsBound :
    (hz : ℕ) (p : SpuId) (c : Context) (s : Spus)
    → s.ctx p ≡ none
    → s.spu c ≡ none
    → 0 < occ p (s.spus (s.node p))
    → IsBound s
    → IsBound
        (record (spu_bind_context p c (record s {
          time_slice = set_at c (spu_set_timeslice hz (s.queue.prio c)) s.time_slice;
        })) {
          nr_active = set_at (s.node p) (s.nr_active (s.node p) + 1) s.nr_active;
          used = set_at p true s.used;
        })
unfolding spu_bind_context
spu_bind_context-IsBound hz p c s idle off real i =
    let long = spu_set_timeslice-pos hz (s.queue.prio c) in
    record {
      there = λ q d e. ground (arith, i.there q d);
      back = λ q d e. ground (arith, i.back q d);
      state = λ d. ground (arith, i.state d);
      slice = λ d e. ground (arith, i.slice d, long);
      free = λ q e. ground (arith, i.free q);
      counted = i.counted;
      prio = i.prio;
      placed = i.placed;
      home = λ q d e. ground (arith, i.home q d, real);
      active = λ n.
          let more = bound_on-bind p c s.ctx (s.spus n) idle in
          ground (arith, i.active n, more, i.placed p n, i.placed p (s.node p));
    }

-- Taking a context from its SPU, whatever is left of its time slice.
pub spu_unschedule-IsBound :
    (p : SpuId) (c : Context) (free_spu : Bool) (s : Spus) (ts : Context → ℕ)
    → s.ctx p ≡ some c
    → IsBound (record s { time_slice = ts })
    → ((d : Context) → (d == c) ≡ false → s.runnable d ≡ true → 0 < s.time_slice d)
    → Returns (spu_unschedule p c free_spu s) λ r.
      IsBound r
      × (r.ctx p ≡ none)
      × (r.spu c ≡ none)
      × (r.runnable c ≡ false)
      × (r.used p ≡ (if free_spu then false else s.used p))
      × (r.nosched ≡ s.nosched)
      × (r.queue ≡ s.queue)
      × ((d : Context) → s.runnable d ≡ false → r.runnable d ≡ false)
      × (r.spus ≡ s.spus)
      × (r.node ≡ s.node)
      × (r.spu_run ≡ s.spu_run)
unfolding spu_unschedule spu_unbind_context
spu_unschedule-IsBound p c free_spu s ts e i long =
    let mine = i.there p c e in
    let s₁ = record s {
      nr_active = set_at (s.node p) (s.nr_active (s.node p) - 1) s.nr_active;
      used = if free_spu then set_at p false s.used else s.used;
    } in
    (
      record s₁ {
        runnable = set_at c false s.runnable;
        ctx = set_at p none s.ctx;
        spu = set_at c none s.spu;
      },
      rw e,
      (
        record {
          there = λ q d f. ground (arith, i.there q d, mine);
          back = λ q d f. ground (arith, i.back q d, e);
          state = λ d. ground (arith, i.state d);
          slice = λ d f. ground (arith, long d);
          free = λ q f. ground (arith, i.free q);
          counted = i.counted;
          prio = i.prio;
          placed = i.placed;
          home = λ q d f. ground (arith, i.home q d);
          active = λ n.
              let less = bound_on-unbind p c s.ctx (s.spus n) e in
              ground (arith, i.active n, less, i.placed p n, i.placed p (s.node p), i.home p c e);
        },
        rw (==_self p),
        rw (==_self c),
        rw (==_self c),
        ground arith,
        refl,
        refl,
        (λ d f. ground arith),
        refl,
        refl,
        refl,
      ),
    )
