-- ===== src/Spu/Load/Active.antt =====
-- The count is that of the contexts on the SPUs and in the run queue.
use linux_kernel_code_projec.Base.{
  ℕ, zero, suc, ◌+◌, ◌≡◌, refl, inl, inr, true, false, Option, none, some, List, [], ◌∷◌, ◌++◌,
  length, length-append, ◌==◌, ltb, leb, ◌&&◌, arith, is_some, if◌then◌else◌, Bool-cases,
  Option-cases, ==_eq, ==_self,
}
use linux_kernel_code_projec.Spu.{Context, max_prio}
use linux_kernel_code_projec.Spu.Queue.{occ, occ-append, total, IsCounted}
use linux_kernel_code_projec.Spu.Schedule.{SpuId, Spus}
use linux_kernel_code_projec.Spu.Schedule.Bound.{IsBound, bound_on}
use linux_kernel_code_projec.Spu.Load.{add_active, count_active_contexts}

abbrev with_head : Option Context → List Context → List Context
with_head none cs = cs
with_head (some c) cs = c ∷ cs

-- The contexts on the SPUs of a list
abbrev running : (SpuId → Option Context) → List SpuId → List Context
running ctx [] = []
running ctx (p ∷ ps) = with_head (ctx p) (running ctx ps)

-- The contexts on the SPUs of `n` nodes from `node` on
abbrev on_nodes : ℕ → ℕ → Spus → List Context
on_nodes zero node s = []
on_nodes (suc n) node s = running s.ctx (s.spus node) ++ on_nodes n (node + 1) s

-- The contexts in the lists of the first `n` priorities
abbrev queued : ℕ → (ℕ → List Context) → List Context
queued zero runq = []
queued (suc n) runq = runq n ++ queued n runq

abbrev pub active_contexts : ℕ → Spus → List Context
active_contexts max_numnodes s = on_nodes max_numnodes 0 s ++ queued max_prio s.queue.runq

length-running :
    (ctx : SpuId → Option Context) (ps : List SpuId) → length (running ctx ps) ≡ bound_on ctx ps
length-running ctx [] = refl
length-running ctx (p ∷ ps) = elim (Option-cases (ctx p)) [
  | inl e ↦ rw e (omega (arith, length-running ctx ps))
  | inr (c, e) ↦ rw e (omega (arith, length-running ctx ps))
]

length-queued : (n : ℕ) (runq : ℕ → List Context) → length (queued n runq) ≡ total n runq
unfolding total
length-queued zero runq = refl
length-queued (suc n) runq = rw (length-append (runq n) (queued n runq), length-queued n runq)

length-on_nodes :
    (n node acc : ℕ) (s : Spus)
    → IsBound s
    → add_active n node s.nr_active acc ≡ acc + length (on_nodes n node s)
unfolding add_active
length-on_nodes zero node acc s i = omega arith
length-on_nodes (suc n) node acc s i = omega (
  arith,
  length-on_nodes n (node + 1) (acc + s.nr_active node) s i,
  length-append (running s.ctx (s.spus node)) (on_nodes n (node + 1) s),
  length-running s.ctx (s.spus node),
  i.active node,
)

occ-running-none :
    (c : Context) (s : Spus) (ps : List SpuId)
    → s.spu c ≡ none
    → IsBound s
    → occ c (running s.ctx ps) ≡ 0
occ-running-none c s [] off i = refl
occ-running-none c s (p ∷ ps) off i = elim (Option-cases (s.ctx p)) [
  | inl e ↦ rw e (occ-running-none c s ps off i)
  | inr (d, e) ↦ elim (Bool-cases (c == d)) [
    | inl y ↦ let mine = i.there p d e in let theirs = rw (← ==_eq c d y) at mine in cc
    | inr n ↦ rw (e, n) (omega (arith, occ-running-none c s ps off i))
  ]
]

occ-running-some :
    (c : Context) (p : SpuId) (s : Spus) (ps : List SpuId)
    → s.spu c ≡ some p
    → IsBound s
    → occ c (running s.ctx ps) ≡ occ p ps
occ-running-some c p s [] on i = refl
occ-running-some c p s (q ∷ qs) on i =
    let rest = occ-running-some c p s qs on i in
    elim (Option-cases (s.ctx q)) [
      | inl e ↦ elim (Bool-cases (p == q)) [
        | inl y ↦ let at = i.back p c on in let at' = rw (==_eq p q y) at at in cc
        | inr n ↦ rw (e, n) (omega (arith, rest))
      ]
      | inr (d, e) ↦
          let mine = i.there q d e in
          elim (Bool-cases (c == d)) [
            | inl y ↦
                let both : s.spu c ≡ some q = rw (==_eq c d y) mine in
                let same : p ≡ q = cc in
                let here : (p == q) ≡ true = rw (same, ==_self q) in rw (e, y, here, rest)
            | inr n ↦
                let apart : (p == q) ≡ false = elim (Bool-cases (p == q)) [
                  | inr m ↦ m
                  | inl y ↦
                      let at = i.back p c on in
                      let at' = rw (==_eq p q y) at at in
                      let same : c ≡ d = cc in
                      let here : (c == d) ≡ true = rw (same, ==_self d) in cc
                ] in
                rw (e, n, apart, rest)
          ]
    ]

-- The nodes that the loop visits
abbrev pub visited : ℕ → ℕ → ℕ → ℕ
visited n node m = if leb node m && ltb m (node + n) then 1 else 0

occ-on_nodes-none :
    (c : Context) (n node : ℕ) (s : Spus)
    → s.spu c ≡ none
    → IsBound s
    → occ c (on_nodes n node s) ≡ 0
occ-on_nodes-none c zero node s off i = refl
occ-on_nodes-none c (suc n) node s off i = omega (
  arith,
  occ-append c (running s.ctx (s.spus node)) (on_nodes n (node + 1) s),
  occ-running-none c s (s.spus node) off i,
  occ-on_nodes-none c n (node + 1) s off i,
)

occ-on_nodes-some :
    (c : Context) (p : SpuId) (n node : ℕ) (s : Spus)
    → s.spu c ≡ some p
    → IsBound s
    → occ c (on_nodes n node s) ≡ visited n node (s.node p)
occ-on_nodes-some c p zero node s on i = ground arith
occ-on_nodes-some c p (suc n) node s on i =
    let sum = occ-append c (running s.ctx (s.spus node)) (on_nodes n (node + 1) s) in
    let first = occ-running-some c p s (s.spus node) on i in
    let rest = occ-on_nodes-some c p n (node + 1) s on i in
    let real = i.home p c (i.back p c on) in
    let (_, once) = i.placed p (s.node p) real in
    elim (Bool-cases (s.node p == node)) [
      | inl y ↦
          let e = ==_eq (s.node p) node y in
          let once' : occ p (s.spus node) ≡ 1 = rw e at once in ground (arith, sum, first, rest)
      | inr m ↦
          let away : occ p (s.spus node) ≡ 0 = ground (arith, i.placed p node) in
          ground (arith, sum, first, rest)
    ]

-- Whether the list of a context is one of the first `n`
abbrev below : ℕ → Option ℕ → ℕ
below n none = 0
below n (some q) = if ltb q n then 1 else 0

occ-queued :
    (c : Context) (n : ℕ) (s : Spus)
    → IsCounted s.queue
    → occ c (queued n s.queue.runq) ≡ below n (s.queue.rq c)
occ-queued c zero s i = elim (Option-cases (s.queue.rq c)) [
  | inl e ↦ rw e
  | inr (q, e) ↦ rw e (ground arith)
]
occ-queued c (suc n) s i =
    let sum = occ-append c (s.queue.runq n) (queued n s.queue.runq) in
    let first = i.placed c n in
    let rest = occ-queued c n s i in
    elim (Option-cases (s.queue.rq c)) [
      | inl e ↦ let first' = rw e at first in let rest' = rw e at rest in rw e (omega arith)
      | inr (q, e) ↦
          let first' = rw e at first in
          let rest' = rw e at rest in rw e (ground (arith, sum, first', rest'))
    ]

-- If contexts and SPUs point at each other, exactly the contexts with an SPU are runnable and have
-- a time slice above 0, free SPUs have no context, priorities are below MAX_PRIO, the run queue
-- agrees with its lists, every SPU with a context is once in the list of its node and in no other
-- list, and `nr_active` of a node is the number of its SPUs with a context, then
-- `count_active_contexts` is the length of a list of contexts in which each context occurs once
-- for its SPU, if it has one on a node below MAX_NUMNODES, and once for its place in the run
-- queue, if it has one.
pub count_active_contexts-active_contexts :
    (max_numnodes : ℕ) (s : Spus)
    → IsBound s
    → (count_active_contexts max_numnodes s ≡ length (active_contexts max_numnodes s))
      × ((c : Context)
          → occ c (active_contexts max_numnodes s)
            ≡ (elim (s.spu c) [ none ↦ 0 | some p ↦ if ltb (s.node p) max_numnodes then 1 else 0 ])
              + (if is_some (s.queue.rq c) then 1 else 0))
unfolding count_active_contexts
count_active_contexts-active_contexts max_numnodes s i = (
  omega (
    arith,
    length-on_nodes max_numnodes 0 0 s i,
    length-queued max_prio s.queue.runq,
    length-append (on_nodes max_numnodes 0 s) (queued max_prio s.queue.runq),
    i.counted.waiting,
  ),
  λ c.
      let sum = occ-append c (on_nodes max_numnodes 0 s) (queued max_prio s.queue.runq) in
      let waits : occ c (queued max_prio s.queue.runq) ≡ (if is_some (s.queue.rq c) then 1 else 0) =
        elim (Option-cases (s.queue.rq c)) [
          | inl e ↦ let q = occ-queued c max_prio s i.counted in let q' = rw e at q in rw e q'
          | inr (q, e) ↦
              let (_, lt) = i.counted.own c q e in
              let at = occ-queued c max_prio s i.counted in
              let at' = rw e at at in rw e (ground (arith, at', lt))
        ] in
      elim (Option-cases (s.spu c)) [
        | inl e ↦ let runs = occ-on_nodes-none c max_numnodes 0 s e i in rw (e, sum, runs, waits)
        | inr (p, e) ↦
            let runs = occ-on_nodes-some c p max_numnodes 0 s e i in
            rw e (ground (arith, sum, runs, waits))
      ],
)
