-- ===== src/Skiplist/Link.antt =====
-- The loop of `pid_skiplist_insert` that links the new node, level by level from the lowest.
use linux_kernel_code_projec.Base.{
  ℕ, zero, suc, ◌+◌, ◌≤◌, ◌<◌, ◌≡◌, ◌≢◌, refl, sym, ◌∙◌, ap, inl, inr, Option, none, some, List,
  ◌∷◌, ◌++◌, arith, Bool-cases, true, ◌==◌, get_elem?, is_some, ==_eq, ==_ne, ==_self,
}
use linux_kernel_code_projec.Base.Run.{◌>>=◌, Returns}
use linux_kernel_code_projec.Store.{Addr, Heap, load_forward, set_forward}
use linux_kernel_code_projec.Store.Laws.{Links, set_forward-Links}
use linux_kernel_code_projec.Skiplist.{link}
use linux_kernel_code_projec.Skiplist.Chain.{
  Entry, next_at, pred_at, Stored, AllStored, AllStored-right, Distinct, Bottomed, Distinct-right,
  Distinct-replace,
}
use linux_kernel_code_projec.Skiplist.Rewire.{Turned, turn}
use linux_kernel_code_projec.Skiplist.Pred.{forward-pred_at, NotAt-pred_at, AllStored-NotAt}

pub is_some-cases {ℓ} : {A : Type ℓ} (o : Option A) → is_some o ≡ true → (a : A) × (o ≡ some a)
is_some-cases none e = ground arith
is_some-cases (some a) e = (a, refl)

-- Two writes, `x->forward[i] = v` and `u->forward[i] = x`.
Turned-link :
    (h h₁ h₂ : Heap) (u x : Addr) (i : ℕ) (v : Option Addr)
    → u ≢ x
    → Links h x i v h₁
    → Links h₁ u i (some x) h₂
    → Turned h h₂ u x i (some x)
Turned-link h h₁ h₂ u x i v ne a b = record {
  others = λ c nu nx. record {
    key = rw (b.key, a.key);
    pid = rw (b.pid, a.pid);
    level = rw (b.level, a.level);
    forward = λ j. rw (b.forward, a.forward, ==_ne c u nu, ==_ne c x nx);
  };
  key = rw (b.key, a.key);
  pid = rw (b.pid, a.pid);
  level = rw (b.level, a.level);
  forward_self = rw (b.forward, ==_self u, ==_self i);
  forward_ne = λ j nj. rw (b.forward, a.forward, ==_ne u x ne, ==_self u, ==_ne j i nj);
}

abbrev pub at_hi : Entry → ℕ → Entry
at_hi x i = record x { hi = i }

module _ (d x : Entry) (lows highs : List Entry) (update : List Addr) (low : x.lo ≡ 0)
    (z : Bottomed lows)
    (preds : (j : ℕ) → j < x.slots → get_elem? update j ≡ some (pred_at j d.addr lows))
    (top : x.slots ≤ d.hi) where
  Stored-linked :
      (h h₁ h₂ : Heap) (i : ℕ) (u : Addr)
      → u ≢ x.addr
      → Links h x.addr i (next_at i highs) h₁
      → Links h₁ u i (some x.addr) h₂
      → Stored h (at_hi x i) highs
      → Stored h₂ (at_hi x (suc i)) highs
  Stored-linked h h₁ h₂ i u ne a b s = record {
    key = rw (b.key, a.key) s.key;
    pid = rw (b.pid, a.pid) s.pid;
    level = rw (b.level, a.level) s.level;
    forward = λ j lt. elim (Bool-cases (j == i)) [
      | inl y ↦ rw (
        ==_eq j i y,
        b.forward,
        a.forward,
        ==_ne x.addr u (λ p. ne (sym p)),
        ==_self x.addr,
        ==_self i,
      )
      | inr n ↦
          rw (b.forward, a.forward, ==_ne x.addr u (λ p. ne (sym p)), ==_self x.addr, n)
            (s.forward j (ground arith))
    ];
    room = λ j lt. elim (Bool-cases (j == i)) [
      | inl y ↦ rw (
        ==_eq j i y,
        b.forward,
        a.forward,
        ==_ne x.addr u (λ p. ne (sym p)),
        ==_self x.addr,
        ==_self i,
      )
      | inr n ↦
          rw (b.forward, a.forward, ==_ne x.addr u (λ p. ne (sym p)), ==_self x.addr, n)
            (s.room j lt)
    ];
  }

  elsewhere :
      (i j : ℕ) → j ≢ i → next_at j (at_hi x i ∷ highs) ≡ next_at j (at_hi x (suc i) ∷ highs)
  elsewhere i j ne = ground arith

  here : (i : ℕ) → next_at i (at_hi x (suc i) ∷ highs) ≡ some x.addr
  here i = ground arith

  away : (i : ℕ) → next_at i (at_hi x i ∷ highs) ≡ next_at i highs
  away i = ground arith

  -- One round.
  link-step :
      (h : Heap) (i : ℕ)
      → AllStored h (d ∷ lows ++ at_hi x i ∷ highs)
      → Distinct (d ∷ lows ++ at_hi x i ∷ highs)
      → i < x.slots
      → (h₁ h₂ : Heap) × (load_forward h (pred_at i d.addr lows) i ≡ some (next_at i highs))
        × (set_forward h x.addr i (next_at i highs) ≡ some h₁)
        × (set_forward h₁ (pred_at i d.addr lows) i (some x.addr) ≡ some h₂)
        × AllStored h₂ (d ∷ lows ++ at_hi x (suc i) ∷ highs)
  link-step h i s a lt =
      let u = pred_at i d.addr lows in
      let l = forward-pred_at h i (at_hi x i ∷ highs) d lows s (omega arith) ∙ ap some (away i) in
      let away_u = NotAt-pred_at i d lows (at_hi x i ∷ highs) a in
      let ne : u ≢ x.addr = λ p. away_u.0 (sym p) in
      let sx = AllStored-right h (d ∷ lows) (at_hi x i ∷ highs) s in
      let ax = Distinct-right (d ∷ lows) (at_hi x i ∷ highs) a in
      let (o, slot) = is_some-cases (load_forward h x.addr i) (sx.0.room i lt) in
      let (h₁, w₁, k₁) = set_forward-Links h x.addr i (next_at i highs) slot in
      let l₁ : load_forward h₁ u i ≡ some (next_at i highs) =
        rw (k₁.forward, ==_ne u x.addr ne) l in
      let (h₂, w₂, k₂) = set_forward-Links h₁ u i (some x.addr) l₁ in
      let t = Turned-link h h₁ h₂ u x.addr i (next_at i highs) ne k₁ k₂ in
      (
        h₁,
        h₂,
        l,
        w₁,
        w₂,
        turn h h₂ i (at_hi x i) (at_hi x (suc i)) highs (some x.addr) (elsewhere i) (here i)
            (
              Stored-linked h h₁ h₂ i u ne k₁ k₂ sx.0,
              AllStored-NotAt h h₂ u x.addr highs t.others away_u.1 ax.0 sx.1,
            )
            d lows t s a z,
      )

  -- After any number of rounds the list stands for the nodes with `x` linked so far.
  pub link-AllStored :
      (n : ℕ) (h : Heap) (i : ℕ)
      → AllStored h (d ∷ lows ++ at_hi x i ∷ highs)
      → Distinct (d ∷ lows ++ at_hi x i ∷ highs)
      → i + n ≤ x.slots
      → Returns (link x.addr update n i h) (λ g. AllStored g (d ∷ lows ++ at_hi x (i + n) ∷ highs))
  unfolding link
  link-AllStored zero h i s a le = let e : i + 0 ≡ i = omega arith in (h, refl, rw e s)
  link-AllStored (suc n) h i s a le =
      let (h₁, h₂, l, w₁, w₂, t) = link-step h i s a (omega arith) in
      let e : i + suc n ≡ suc i + n = omega arith in
      let e' : i + 1 ≡ suc i = omega arith in
      let (g, run, p) =
        link-AllStored n h₂ (suc i) t
          (Distinct-replace (d ∷ lows) (at_hi x i) (at_hi x (suc i)) highs refl a) (omega arith) in
      (g, rw (preds i (omega arith), ◌>>=◌, l, ◌>>=◌, w₁, ◌>>=◌, w₂, ◌>>=◌, e') run, rw e p)
