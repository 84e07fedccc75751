-- ===== src/Skiplist/Search.antt =====
-- The search of skiplist/pid_skiplist.c: where the walk along a level and the descent end.
use linux_kernel_code_projec.Base.{
  ℕ, zero, suc, ◌≤◌, ◌<◌, ◌≡◌, refl, ap, ◌∙◌, inl, inr, true, some, List, [], ◌∷◌, ◌++◌,
  append_assoc, arith, Bool-cases, length, length-append, le→ltb, lt→ltb,
}
use linux_kernel_code_projec.Base.Run.{◌>>=◌, Returns}
use linux_kernel_code_projec.Store.{Addr, Heap, load_forward}
use linux_kernel_code_projec.Skiplist.{walk, descend}
use linux_kernel_code_projec.Skiplist.Chain.{
  pred_at-Unlinked, Entry, linked, next_at, pred_at, AllStored, Below, Above, Unlinked, Bottomed,
  All-right, AllStored-right, next_at-Unlinked, pred_at-append, Last, stay, at, Last-cases,
}

module _ (h : Heap) (key : ℕ) where
  walk-stop :
      (f i : ℕ) (x : Addr) (r : List Entry)
      → AllStored h r
      → Above key r
      → load_forward h x i ≡ some (next_at i r)
      → walk (suc f) h i key x ≡ some x
  unfolding walk
  walk-stop f i x [] s b l = rw l
  walk-stop f i x (e ∷ r) s b l = elim (Bool-cases (linked e i)) [
    | inl y ↦ rw (l, y, s.0.key, ◌>>=◌, le→ltb e.key key b.0)
    | inr n ↦ walk-stop f i x r s.1 b.1 (rw n at l)
  ]

  -- The walk ends at the last node of the level with a smaller key, and does not run out of fuel.
  pub walk-pred_at :
      (f i : ℕ) (x : Addr) (lows highs : List Entry)
      → AllStored h (lows ++ highs)
      → Below key lows
      → Above key highs
      → load_forward h x i ≡ some (next_at i (lows ++ highs))
      → length lows < f
      → walk f h i key x ≡ some (pred_at i x lows)
  unfolding walk
  walk-pred_at zero i x [] highs s b a l fuel = absurd (omega arith)
  walk-pred_at (suc f) i x [] highs s b a l fuel = walk-stop f i x highs s a l
  walk-pred_at zero i x (e ∷ lows) highs s b a l fuel = absurd (omega arith)
  walk-pred_at (suc f) i x (e ∷ lows) highs s b a l fuel = elim (Bool-cases (linked e i)) [
    | inl y ↦
        rw (l, y, s.0.key, ◌>>=◌, lt→ltb e.key key b.0)
          (walk-pred_at f i e.addr lows highs s.1 b.1 a (s.0.forward i (ground arith))
            (omega arith))
    | inr n ↦ rw n (walk-pred_at (suc f) i x lows highs s.1 b.1 a (rw n at l) (omega arith))
  ]

-- The entries of `update` for the levels below `n`, in front of `acc`.
abbrev pub preds : ℕ → Addr → List Entry → List Addr → List Addr
preds zero d lows acc = acc
preds (suc i) d lows acc = preds i d lows (pred_at i d lows ∷ acc)

preds-cong :
    (n : ℕ) (d d' : Addr) (xs ys : List Entry) (acc : List Addr)
    → ((j : ℕ) → j < n → pred_at j d xs ≡ pred_at j d' ys)
    → preds n d xs acc ≡ preds n d' ys acc
preds-cong zero d d' xs ys acc e = refl
preds-cong (suc n) d d' xs ys acc e =
    rw (e n (omega arith)) (preds-cong n d d' xs ys _ (λ j lt. e j (omega arith)))

module _ (h : Heap) (key : ℕ) (highs : List Entry) where
  -- `x` stands before the nodes `lows` and `highs`, and its pointers below `n` are right.
  pub record Before (n : ℕ) (x : Addr) (lows : List Entry) : Type 0 where
    pub forward : (j : ℕ) → j < n → load_forward h x j ≡ some (next_at j (lows ++ highs))
    pub stored : AllStored h (lows ++ highs)
    pub below : Below key lows

  -- Where a walk along level `i` ends.
  record Ends (i : ℕ) (x : Addr) (lows : List Entry) (bs : List Entry) : Type 0 where
    before : Before (suc i) (pred_at i x lows) bs
    shorter : length bs ≤ length lows
    passed : next_at i (bs ++ highs) ≡ next_at i highs
    bottomed : Bottomed lows → Bottomed bs
    same : Bottomed lows → (j : ℕ) → j < suc i → pred_at j x lows ≡ pred_at j (pred_at i x lows) bs

  Ends-stay :
      (i : ℕ) (x : Addr) (lows : List Entry)
      → Before (suc i) x lows
      → Unlinked i lows
      → Ends i x lows lows
  Ends-stay i x lows b u =
      let e = pred_at-Unlinked i x lows u in
      record {
        before = rw e b;
        shorter = omega arith;
        passed = next_at-Unlinked i lows highs u;
        bottomed = λ z. z;
        same = λ z j lt. rw e;
      }

  Ends-at :
      (i : ℕ) (x : Addr) (ls : List Entry) (e : Entry) (bs : List Entry)
      → Before (suc i) x (ls ++ e ∷ bs)
      → linked e i ≡ true
      → pred_at i x (ls ++ e ∷ bs) ≡ e.addr
      → Unlinked i bs
      → Ends i x (ls ++ e ∷ bs) bs
  Ends-at i x ls e bs b l p u =
      let s =
        AllStored-right h ls (e ∷ bs ++ highs) (rw (append_assoc ls (e ∷ bs) highs) at b.stored) in
      record {
        before = rw p (record {
          forward = λ j lt. s.0.forward j (ground arith);
          stored = s.1;
          below = (All-right (λ e. e.key < key) ls (e ∷ bs) b.below).1;
        });
        shorter = omega (arith, length-append ls (e ∷ bs));
        passed = next_at-Unlinked i bs highs u;
        bottomed = λ z. (All-right (λ e. e.lo ≡ 0) ls (e ∷ bs) z).1;
        same = λ z j lt.
            let low = (All-right (λ e. e.lo ≡ 0) ls (e ∷ bs) z).0 in
            let on : linked e j ≡ true = ground arith in rw (p, pred_at-append j x ls (e ∷ bs), on);
      }

  Ends-Last :
      (i : ℕ) (x : Addr) (lows : List Entry)
      → Before (suc i) x lows
      → Last i x lows
      → (bs : List Entry) × Ends i x lows bs
  Ends-Last i x lows b (stay u) = (lows, Ends-stay i x lows b u)
  Ends-Last i x lows b (at ls e bs q l p u) =
      (bs, rw q (Ends-at i x ls e bs (rw q at b) l (rw q at p) u))

  weaken : (n m : ℕ) (x : Addr) (lows : List Entry) → m ≤ n → Before n x lows → Before m x lows
  weaken n m x lows le b = record {
    forward = λ j lt. b.forward j (omega arith);
    stored = b.stored;
    below = b.below;
  }

  module _ (above : Above key highs) (f : ℕ) where
    -- The descent ends before the first node that is not below the key, for readers too that run
    -- while a node is linked or unlinked.
    pub descend-next_at :
        (n : ℕ) (x : Addr) (lows : List Entry) (acc : List Addr)
        → Before (suc n) x lows
        → length lows < f
        → Returns
            (descend f h key (suc n) x acc)
            (λ r. load_forward h r.0 0 ≡ some (next_at 0 highs))
    unfolding descend
    descend-next_at zero x lows acc b fuel =
        let (bs, e) = Ends-Last 0 x lows b (Last-cases 0 x lows) in
        (
          (pred_at 0 x lows, pred_at 0 x lows ∷ acc),
          rw (
              walk-pred_at h key f 0 x lows highs b.stored b.below above (b.forward 0 (omega arith))
                fuel),
          e.before.forward 0 (omega arith) ∙ ap some e.passed,
        )
    descend-next_at (suc n) x lows acc b fuel =
        let (bs, e) = Ends-Last (suc n) x lows b (Last-cases (suc n) x lows) in
        let y = pred_at (suc n) x lows in
        let (r, run, p) =
          descend-next_at n y bs (y ∷ acc) (weaken _ _ y bs (omega arith) e.before)
            (omega (arith, e.shorter)) in
        (
          r,
          rw
              (walk-pred_at h key f (suc n) x lows highs b.stored b.below above
                (b.forward (suc n) (omega arith)) fuel)
              run,
          p,
        )

    -- In a list that no writer is changing it also finds the predecessor on each level.
    pub descend-preds :
        (n : ℕ) (x : Addr) (lows : List Entry) (acc : List Addr)
        → Before (suc n) x lows
        → Bottomed lows
        → length lows < f
        → descend f h key (suc n) x acc ≡ some (pred_at 0 x lows, preds (suc n) x lows acc)
    unfolding descend
    descend-preds zero x lows acc b z fuel = rw (
        walk-pred_at h key f 0 x lows highs b.stored b.below above (b.forward 0 (omega arith)) fuel)
    descend-preds (suc n) x lows acc b z fuel =
        let (bs, e) = Ends-Last (suc n) x lows b (Last-cases (suc n) x lows) in
        let y = pred_at (suc n) x lows in
        let ih =
          descend-preds n y bs (y ∷ acc) (weaken _ _ y bs (omega arith) e.before) (e.bottomed z)
            (omega (arith, e.shorter)) in
        rw (
          walk-pred_at h key f (suc n) x lows highs b.stored b.below above
              (b.forward (suc n) (omega arith)) fuel,
          ◌>>=◌,
          ih,
          e.same z 0 (omega arith),
          preds-cong (suc n) x y lows bs (y ∷ acc) (λ j lt. e.same z j (omega arith)),
        )
