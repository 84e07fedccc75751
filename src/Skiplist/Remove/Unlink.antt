-- ===== src/Skiplist/Remove/Unlink.antt =====
-- The loop of `pid_skiplist_remove` that unlinks the node, level by level from the lowest.
use linux_kernel_code_projec.Base.{
  ℕ, zero, suc, ◌+◌, ◌≤◌, ◌<◌, ◌≡◌, ◌≢◌, refl, ◌∙◌, ap, subst, inl, inr, Option, some, List, [],
  ◌∷◌, ◌++◌, arith, Bool-cases, false, ltb, if◌then◌else◌, get_elem?, ==_ne, ==_self,
}
use linux_kernel_code_projec.Base.Run.{◌>>=◌, Returns}
use linux_kernel_code_projec.Store.{Addr, Heap, load_key, load_forward, set_forward}
use linux_kernel_code_projec.Store.Laws.{Links, set_forward-Links}
use linux_kernel_code_projec.Skiplist.{unlink, points_to}
use linux_kernel_code_projec.Skiplist.Chain.{
  Entry, linked, next_at, pred_at, AllStored, All, AllStored-right, NotAt, Distinct, Bottomed,
  Distinct-right, Distinct-replace,
}
use linux_kernel_code_projec.Skiplist.Rewire.{Turned, turn, Keeps, exchange}
use linux_kernel_code_projec.Skiplist.Pred.{forward-pred_at, NotAt-pred_at, AllStored-NotAt}

-- One write, `u->forward[i] = w`.
Turned-unlink :
    (h g : Heap) (u x : Addr) (i : ℕ) (w : Option Addr) → Links h u i w g → Turned h g u x i w
Turned-unlink h g u x i w k = record {
  others = λ c nu nx. record {
    key = k.key c;
    pid = k.pid c;
    level = k.level c;
    forward = λ j. rw (k.forward, ==_ne c u nu);
  };
  key = k.key u;
  pid = k.pid u;
  level = k.level u;
  forward_self = rw (k.forward, ==_self u, ==_self i);
  forward_ne = λ j nj. rw (k.forward, ==_self u, ==_ne j i nj);
}

points_to-NotAt :
    (i : ℕ) (x : Addr) (r : List Entry) → NotAt x r → points_to (next_at i r) x ≡ false
points_to-NotAt i x [] n = refl
points_to-NotAt i x (e ∷ r) n = elim (Bool-cases (linked e i)) [
  | inl y ↦ rw y (==_ne e.addr x n.0)
  | inr q ↦ rw q (points_to-NotAt i x r n.1)
]

abbrev pub at_lo : Entry → ℕ → Entry
at_lo x i = record x { lo = i }

-- The lowest level on which the node is left, where the loop went up to a level.
abbrev pub left_at : Entry → ℕ → ℕ
left_at x i = if ltb i x.hi then i else x.hi

module _ (d x : Entry) (lows highs : List Entry) (update : List Addr) (level : ℕ)
    (z : Bottomed lows)
    (preds : (j : ℕ) → j < level → get_elem? update j ≡ some (pred_at j d.addr lows))
    (top : level ≤ d.hi) (x_top : x.hi ≤ level) where
  here : (i : ℕ) → i < x.hi → next_at i (at_lo x i ∷ highs) ≡ some x.addr
  here i lt = ground arith

  away : (i : ℕ) → next_at i (at_lo x (suc i) ∷ highs) ≡ next_at i highs
  away i = ground arith

  past : (i : ℕ) → x.hi ≤ i → next_at i (at_lo x i ∷ highs) ≡ next_at i highs
  past i le = ground arith

  elsewhere :
      (i j : ℕ) → j ≢ i → next_at j (at_lo x i ∷ highs) ≡ next_at j (at_lo x (suc i) ∷ highs)
  elsewhere i j ne = ground arith

  -- One round, where the node is on the level.
  unlink-step :
      (h : Heap) (i : ℕ)
      → AllStored h (d ∷ lows ++ at_lo x i ∷ highs)
      → Distinct (d ∷ lows ++ at_lo x i ∷ highs)
      → i < x.hi
      → (g : Heap) × (load_forward h (pred_at i d.addr lows) i ≡ some (some x.addr))
        × (load_forward h x.addr i ≡ some (next_at i highs))
        × (set_forward h (pred_at i d.addr lows) i (next_at i highs) ≡ some g)
        × AllStored g (d ∷ lows ++ at_lo x (suc i) ∷ highs)
  unlink-step h i s a lt =
      let u = pred_at i d.addr lows in
      let l =
        forward-pred_at h i (at_lo x i ∷ highs) d lows s (omega arith) ∙ ap some (here i lt) in
      let away_u = NotAt-pred_at i d lows (at_lo x i ∷ highs) a in
      let sx = AllStored-right h (d ∷ lows) (at_lo x i ∷ highs) s in
      let ax = Distinct-right (d ∷ lows) (at_lo x i ∷ highs) a in
      let (g, w, k) = set_forward-Links h u i (next_at i highs) l in
      let t = Turned-unlink h g u x.addr i (next_at i highs) k in
      (
        g,
        l,
        sx.0.forward i lt,
        w,
        turn h g i (at_lo x i) (at_lo x (suc i)) highs (next_at i highs) (elsewhere i) (away i)
            (
              record {
                key = rw k.key sx.0.key;
                pid = rw k.pid sx.0.pid;
                level = rw k.level sx.0.level;
                forward = λ j j_lt. rw (k.forward, ==_ne x.addr u away_u.0) (sx.0.forward j j_lt);
                room = λ j j_lt. rw (k.forward, ==_ne x.addr u away_u.0) (sx.0.room j j_lt);
              },
              AllStored-NotAt h g u x.addr highs t.others away_u.1 ax.0 sx.1,
            )
            d lows t s a z,
      )

  -- The loop leaves the node on the levels that it has not reached.
  pub unlink-AllStored :
      (n : ℕ) (h : Heap) (i : ℕ)
      → AllStored h (d ∷ lows ++ at_lo x i ∷ highs)
      → Distinct (d ∷ lows ++ at_lo x i ∷ highs)
      → i ≤ x.hi
      → i + n ≤ level
      → Returns
          (unlink x.addr update n i h)
          (λ g. AllStored g (d ∷ lows ++ at_lo x (left_at x (i + n)) ∷ highs))
  unfolding unlink
  unlink-AllStored zero h i s a le e =
      let q : i ≡ left_at x (i + 0) = ground arith in
      (h, refl, subst (λ j. AllStored h (d ∷ lows ++ at_lo x j ∷ highs)) q s)
  unlink-AllStored (suc n) h i s a le e = elim (Bool-cases (ltb i x.hi)) [
    | inl y ↦
        let lt : i < x.hi = ground arith in
        let (h', l, l', w, t) = unlink-step h i s a lt in
        let e' : i + 1 ≡ suc i = omega arith in
        let (g, run, p) =
          unlink-AllStored n h' (suc i) t
            (Distinct-replace (d ∷ lows) (at_lo x i) (at_lo x (suc i)) highs refl a) (omega arith)
            (omega arith) in
        let e'' : suc i + n ≡ i + suc n = omega arith in
        (
          g,
          rw (preds i (omega arith), ◌>>=◌, l, ◌>>=◌, ==_self x.addr, l', ◌>>=◌, w, ◌>>=◌, e') run,
          subst (λ j. AllStored g (d ∷ lows ++ at_lo x (left_at x j) ∷ highs)) e'' p,
        )
    | inr m ↦
        let q₀ : i ≡ x.hi = ground arith in
        let far : ltb (i + suc n) x.hi ≡ false = ground arith in
        let q : i ≡ left_at x (i + suc n) = rw far q₀ in
        let l =
          forward-pred_at h i (at_lo x i ∷ highs) d lows s (omega arith)
          ∙ ap some (past i (omega arith)) in
        let n_x = (Distinct-right (d ∷ lows) (at_lo x i ∷ highs) a).0 in
        (
          h,
          rw (preds i (omega arith), ◌>>=◌, l, ◌>>=◌, points_to-NotAt i x.addr highs n_x),
          subst (λ j. AllStored h (d ∷ lows ++ at_lo x j ∷ highs)) q s,
        )
  ]

  Keeps-dropped :
      (h : Heap) (xs : List Entry) → All (λ e. Keeps h h (at_lo x x.hi ∷ highs) highs e) xs
  Keeps-dropped h [] = tt
  Keeps-dropped h (e ∷ xs) = (
    (record { key = refl; pid = refl; level = refl; forward = λ j. refl }, λ j lt. ground arith),
    Keeps-dropped h xs,
  )

  -- From the node on all its levels to the list without it.
  pub unlink-dropped :
      (h : Heap)
      → x.lo ≡ 0
      → AllStored h (d ∷ lows ++ x ∷ highs)
      → Distinct (d ∷ lows ++ x ∷ highs)
      → Returns
          (unlink x.addr update level 0 h)
          (λ g. AllStored g (d ∷ lows ++ highs) × (load_key g x.addr ≡ some x.key))
  unlink-dropped h lo s a =
      let (g, run, t') =
        unlink-AllStored level h 0 (subst (λ j. AllStored h (d ∷ lows ++ at_lo x j ∷ highs)) lo s)
          (subst (λ j. Distinct (d ∷ lows ++ at_lo x j ∷ highs)) lo a) (omega arith)
          (omega arith) in
      let all : left_at x (0 + level) ≡ x.hi = ground arith in
      let t = subst (λ j. AllStored g (d ∷ lows ++ at_lo x j ∷ highs)) all t' in
      let tail = AllStored-right g (d ∷ lows) (at_lo x x.hi ∷ highs) t in
      (
        g,
        run,
        (
          exchange g g (at_lo x x.hi ∷ highs) highs (d ∷ lows) (Keeps-dropped g (d ∷ lows)) t
              tail.1,
          tail.0.key,
        ),
      )
