-- ===== src/Skiplist/Pred.antt =====
-- The predecessor of a key on one level.
use linux_kernel_code_projec.Base.{
  ℕ, ◌<◌, ◌≡◌, ◌≢◌, inl, inr, some, List, [], ◌∷◌, ◌++◌, append_assoc, arith, Bool-cases,
}
use linux_kernel_code_projec.Store.{Addr, Heap, load_forward}
use linux_kernel_code_projec.Skiplist.Chain.{
  Entry, linked, next_at, pred_at, AllStored, NotAt, Distinct, AllStored-right, next_at-Unlinked,
  Last, stay, at, Last-cases, pred_at-Unlinked,
}
use linux_kernel_code_projec.Skiplist.Rewire.{SameAt, Stored-SameAt}
use linux_kernel_code_projec.Base.{refl}

module _ (h : Heap) (i : ℕ) (r : List Entry) where
  forward-at :
      (d : Entry) (ls : List Entry) (e : Entry) (bs : List Entry)
      → AllStored h (d ∷ (ls ++ e ∷ bs) ++ r)
      → i < e.hi
      → load_forward h e.addr i ≡ some (next_at i (bs ++ r))
  forward-at d ls e bs s lt =
      (AllStored-right h (d ∷ ls) (e ∷ bs ++ r) (rw (append_assoc ls (e ∷ bs) r) at s)).0.forward i
        lt

  forward-Last :
      (d : Entry) (lows : List Entry)
      → Last i d.addr lows
      → AllStored h (d ∷ lows ++ r)
      → i < d.hi
      → load_forward h (pred_at i d.addr lows) i ≡ some (next_at i r)
  forward-Last d lows (stay un) s lt =
      rw (pred_at-Unlinked i d.addr lows un, s.0.forward i lt, next_at-Unlinked i lows r un)
  forward-Last d lows (at ls e bs q on p un) s lt =
      rw (p, forward-at d ls e bs (rw q at s) (ground arith), next_at-Unlinked i bs r un)

  -- It points at the first node behind the split.
  pub forward-pred_at :
      (d : Entry) (lows : List Entry)
      → AllStored h (d ∷ lows ++ r)
      → i < d.hi
      → load_forward h (pred_at i d.addr lows) i ≡ some (next_at i r)
  forward-pred_at d lows = forward-Last d lows (Last-cases i d.addr lows)

-- It is none of the nodes behind the split.
pub NotAt-pred_at :
    (i : ℕ) (d : Entry) (lows r : List Entry)
    → Distinct (d ∷ lows ++ r)
    → NotAt (pred_at i d.addr lows) r
NotAt-pred_at i d [] r a = a.0
NotAt-pred_at i d (e ∷ lows) r a = elim (Bool-cases (linked e i)) [
  | inl y ↦ rw y (NotAt-pred_at i e lows r a.1)
  | inr n ↦ rw n (NotAt-pred_at i d lows r (a.0.1, a.1.1))
]

pub AllStored-NotAt :
    (h g : Heap) (u x : Addr) (xs : List Entry)
    → ((b : Addr) → b ≢ u → b ≢ x → SameAt h g b)
    → NotAt u xs
    → NotAt x xs
    → AllStored h xs
    → AllStored g xs
AllStored-NotAt h g u x [] same nu nx s = tt
AllStored-NotAt h g u x (e ∷ xs) same nu nx s = (
  Stored-SameAt h g e xs xs (same e.addr nu.0 nx.0) (λ j lt. refl) s.0,
  AllStored-NotAt h g u x xs same nu.1 nx.1 s.1,
)
