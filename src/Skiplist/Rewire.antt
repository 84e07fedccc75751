-- ===== src/Skiplist/Rewire.antt =====
-- One step of the writer: a pointer of one level is turned, and the list stands for the same nodes
-- with one node linked on a level more, or on a level less.
use linux_kernel_code_projec.Base.{
  ℕ, ◌<◌, ◌≡◌, ◌≢◌, refl, inl, inr, true, Option, some, List, [], ◌∷◌, ◌++◌, arith, ◌==◌,
  Bool-cases, append_assoc, ==_eq,
}
use linux_kernel_code_projec.Store.{Addr, Heap, load_key, load_pid, load_level, load_forward}
use linux_kernel_code_projec.Skiplist.Chain.{
  Entry, linked, next_at, pred_at, Stored, AllStored, All, Unlinked, Bottomed, NotAt, Distinct,
  All-left, All-right, AllStored-right, next_at-Unlinked, next_at-cong, Last, stay, at, Last-cases,
  Distinct-right, Distinct-NotAt, pred_at-Unlinked,
}

-- What is stored at an address is the same in both heaps.
pub record SameAt (h g : Heap) (b : Addr) : Type 0 where
  pub key : load_key g b ≡ load_key h b
  pub pid : load_pid g b ≡ load_pid h b
  pub level : load_level g b ≡ load_level h b
  pub forward : (j : ℕ) → load_forward g b j ≡ load_forward h b j

-- `g` is `h` with the pointer `i` of `u` turned to `w`, but for what is stored at `x`.
pub record Turned (h g : Heap) (u x : Addr) (i : ℕ) (w : Option Addr) : Type 0 where
  pub others : (b : Addr) → b ≢ u → b ≢ x → SameAt h g b
  pub key : load_key g u ≡ load_key h u
  pub pid : load_pid g u ≡ load_pid h u
  pub level : load_level g u ≡ load_level h u
  pub forward_self : load_forward g u i ≡ some w
  pub forward_ne : (j : ℕ) → j ≢ i → load_forward g u j ≡ load_forward h u j

-- The nodes before a part of the list that is exchanged.
pub Stored-SameAt :
    (h g : Heap) (e : Entry) (r t : List Entry)
    → SameAt h g e.addr
    → ((j : ℕ) → j < e.hi → next_at j r ≡ next_at j t)
    → Stored h e r
    → Stored g e t
Stored-SameAt h g e r t same n s = record {
  key = rw same.key s.key;
  pid = rw same.pid s.pid;
  level = rw same.level s.level;
  forward = λ j lt. rw (same.forward j, s.forward j lt, n j lt);
  room = λ j lt. rw (same.forward j) (s.room j lt);
}

pub AllStored-SameAt :
    (h g : Heap) (xs : List Entry) → ((b : Addr) → SameAt h g b) → AllStored h xs → AllStored g xs
AllStored-SameAt h g [] same s = tt
AllStored-SameAt h g (x ∷ xs) same s =
    (Stored-SameAt h g x xs xs (same x.addr) (λ j lt. refl) s.0, AllStored-SameAt h g xs same s.1)

module _ (h g : Heap) (old new : List Entry) where
  abbrev pub Keeps : Entry → Type 0
  Keeps e = SameAt h g e.addr × ((j : ℕ) → j < e.hi → next_at j old ≡ next_at j new)

  pub exchange :
      (xs : List Entry)
      → All (λ e. Keeps e) xs
      → AllStored h (xs ++ old)
      → AllStored g new
      → AllStored g (xs ++ new)
  exchange [] k s t = t
  exchange (x ∷ xs) k s t = (
    Stored-SameAt h g x (xs ++ old) (xs ++ new) k.0.0
        (λ j lt. next_at-cong j xs old new (k.0.1 j lt)) s.0,
    exchange xs k.1 s.1 t,
  )

module _ (h g : Heap) (i : ℕ) (x x' : Entry) (highs : List Entry) (w : Option Addr)
    (elsewhere : (j : ℕ) → j ≢ i → next_at j (x ∷ highs) ≡ next_at j (x' ∷ highs))
    (here : next_at i (x' ∷ highs) ≡ w) (tail : AllStored g (x' ∷ highs)) where
  Keeps-Unlinked :
      (u : Addr) (bs : List Entry)
      → Turned h g u x.addr i w
      → Unlinked i bs
      → Bottomed bs
      → NotAt u bs
      → NotAt x.addr bs
      → All (λ e. Keeps h g (x ∷ highs) (x' ∷ highs) e) bs
  Keeps-Unlinked u [] t un z nu nx = tt
  Keeps-Unlinked u (b ∷ bs) t un z nu nx = (
    (t.others b.addr nu.0 nx.0, λ j lt. elsewhere j (ground arith)),
    Keeps-Unlinked u bs t un.1 z.1 nu.1 nx.1,
  )

  -- The pointer that is turned belongs to the last node on the level.
  turn-last :
      (e : Entry) (bs : List Entry)
      → Turned h g e.addr x.addr i w
      → AllStored h (e ∷ bs ++ x ∷ highs)
      → Unlinked i bs
      → Bottomed bs
      → NotAt e.addr bs
      → NotAt x.addr bs
      → AllStored g (e ∷ bs ++ x' ∷ highs)
  turn-last e bs t s un z nu nx = (
    record {
      key = rw t.key s.0.key;
      pid = rw t.pid s.0.pid;
      level = rw t.level s.0.level;
      forward = λ j lt. elim (Bool-cases (j == i)) [
        | inl y ↦ rw (==_eq j i y, t.forward_self, next_at-Unlinked i bs (x' ∷ highs) un, here)
        | inr n ↦
            let ne : j ≢ i = ground arith in
            rw (
              t.forward_ne j ne,
              s.0.forward j lt,
              next_at-cong j bs (x ∷ highs) (x' ∷ highs) (elsewhere j ne),
            )
      ];
      room = λ j lt. elim (Bool-cases (j == i)) [
        | inl y ↦ rw (==_eq j i y, t.forward_self)
        | inr n ↦ rw (t.forward_ne j (ground arith)) (s.0.room j lt)
      ];
    },
    exchange h g (x ∷ highs) (x' ∷ highs) bs (Keeps-Unlinked e.addr bs t un z nu nx) s.1 tail,
  )

  Keeps-linked :
      (e : Entry) (bs ls : List Entry)
      → Turned h g e.addr x.addr i w
      → linked e i ≡ true
      → NotAt e.addr ls
      → NotAt x.addr ls
      → All (λ l. Keeps h g (e ∷ bs ++ x ∷ highs) (e ∷ bs ++ x' ∷ highs) l) ls
  Keeps-linked e bs [] t on ne nx = tt
  Keeps-linked e bs (l ∷ ls) t on ne nx = (
    (
      t.others l.addr ne.0 nx.0,
      λ j lt. elim (Bool-cases (j == i)) [
        | inl y ↦ rw (==_eq j i y, on)
        | inr n ↦ next_at-cong j (e ∷ bs) (x ∷ highs) (x' ∷ highs) (elsewhere j (ground arith))
      ],
    ),
    Keeps-linked e bs ls t on ne.1 nx.1,
  )

  turn-at :
      (d : Entry) (ls : List Entry) (e : Entry) (bs : List Entry)
      → Turned h g e.addr x.addr i w
      → AllStored h (d ∷ (ls ++ e ∷ bs) ++ x ∷ highs)
      → Distinct (d ∷ (ls ++ e ∷ bs) ++ x ∷ highs)
      → Bottomed (ls ++ e ∷ bs)
      → linked e i ≡ true
      → Unlinked i bs
      → AllStored g (d ∷ (ls ++ e ∷ bs) ++ x' ∷ highs)
  turn-at d ls e bs t s a z on un =
      let s' = rw (append_assoc ls (e ∷ bs) (x ∷ highs)) at s in
      let a' = rw (append_assoc ls (e ∷ bs) (x ∷ highs)) at a in
      let r = Distinct-right (d ∷ ls) (e ∷ bs ++ x ∷ highs) a' in
      let before = Distinct-NotAt (d ∷ ls ++ e ∷ bs) x highs a in
      let bz = (All-right (λ e. e.lo ≡ 0) ls (e ∷ bs) z).1 in
      let nx_right = All-right (λ f. f.addr ≢ x.addr) ls (e ∷ bs) before.1 in
      let nx_left = All-left (λ f. f.addr ≢ x.addr) ls (e ∷ bs) before.1 in
      rw (append_assoc ls (e ∷ bs) (x' ∷ highs)) (
        exchange h g (e ∷ bs ++ x ∷ highs) (e ∷ bs ++ x' ∷ highs) (d ∷ ls)
          (Keeps-linked e bs (d ∷ ls) t on (Distinct-NotAt (d ∷ ls) e (bs ++ x ∷ highs) a')
            (before.0, nx_left))
          s'
          (turn-last e bs t (AllStored-right h (d ∷ ls) (e ∷ bs ++ x ∷ highs) s') un bz
            (All-left (λ f. f.addr ≢ e.addr) bs (x ∷ highs) r.0) nx_right.1))

  turn-Last :
      (d : Entry) (lows : List Entry)
      → Last i d.addr lows
      → Turned h g (pred_at i d.addr lows) x.addr i w
      → AllStored h (d ∷ lows ++ x ∷ highs)
      → Distinct (d ∷ lows ++ x ∷ highs)
      → Bottomed lows
      → AllStored g (d ∷ lows ++ x' ∷ highs)
  turn-Last d lows (stay un) t s a z =
      turn-last d lows (rw (pred_at-Unlinked i d.addr lows un) at t) s un z
        (All-left (λ f. f.addr ≢ d.addr) lows (x ∷ highs) a.0)
        (Distinct-NotAt (d ∷ lows) x highs a).1
  turn-Last d lows (at ls e bs q on p un) t s a z =
      rw q (turn-at d ls e bs (rw p at t) (rw q at s) (rw q at a) (rw q at z) on un)

  -- Turning the pointer `i` of the predecessor of `x` past or towards `x`.
  pub turn :
      (d : Entry) (lows : List Entry)
      → Turned h g (pred_at i d.addr lows) x.addr i w
      → AllStored h (d ∷ lows ++ x ∷ highs)
      → Distinct (d ∷ lows ++ x ∷ highs)
      → Bottomed lows
      → AllStored g (d ∷ lows ++ x' ∷ highs)
  turn d lows = turn-Last d lows (Last-cases i d.addr lows)
