-- ===== src/RbSkiplist/TopTree.antt =====
-- The search in the tree of top-level nodes.
use linux_kernel_code_projec.Base.{
  ℕ, ◌≤◌, ◌<◌, ◌≡◌, refl, ◌⊎◌, inl, inr, true, false, some, arith, leb,
}
use linux_kernel_code_projec.Base.Run.{◌>>=◌}
use linux_kernel_code_projec.Store.{Addr, Heap, load_key}
use linux_kernel_code_projec.RbSkiplist.{Tree, leaf, node, rb_find_le}

-- Every node of the tree is in memory, with a key that satisfies `P`.
abbrev pub Keys : (ℕ → Type 0) → Heap → Tree → Type 0
Keys P h leaf = Unit {0}
Keys P h (node l x r) = ((k : ℕ) × (load_key h x ≡ some k) × P k) × Keys P h l × Keys P h r

-- The keys are in order.
abbrev pub IsSearchTree : Heap → Tree → Type 0
IsSearchTree h leaf = Unit {0}
IsSearchTree h (node l x r) =
    ((k : ℕ) × (load_key h x ≡ some k) × Keys (λ j. j < k) h l × Keys (λ j. k < j) h r)
    × IsSearchTree h l
    × IsSearchTree h r

abbrev pub IsIn : Addr → Tree → Type 0
IsIn a leaf = ⊥
IsIn a (node l x r) = (x ≡ a) ⊎ (IsIn a l ⊎ IsIn a r)

key_unique : (h : Heap) (a : Addr) (j k : ℕ) → load_key h a ≡ some j → load_key h a ≡ some k → j ≡ k
key_unique h a j k p q = cc

module _ (h : Heap) (key : ℕ) where
  -- Among greater keys nothing is found.
  find_le-Keys :
      (k : ℕ) (t : Tree) (d : Addr)
      → key ≤ k
      → Keys (λ j. k < j) h t
      → rb_find_le h key t d ≡ some d
  unfolding rb_find_le
  find_le-Keys k leaf d le a = refl
  find_le-Keys k (node l x r) d le a =
      let (j, e, lt) = a.0 in
      let above : leb j key ≡ false = ground arith in
      rw (e, ◌>>=◌, above) (find_le-Keys k l d le a.1)

  key_of_Keys :
      (P : ℕ → Type 0) (a : Addr) (t : Tree)
      → Keys P h t
      → IsIn a t
      → (k : ℕ) × (load_key h a ≡ some k) × P k
  key_of_Keys P a leaf ks i = elim i [ ]
  key_of_Keys P a (node l x r) ks (inl e) = rw (← e) ks.0
  key_of_Keys P a (node l x r) ks (inr (inl i)) = key_of_Keys P a l ks.1 i
  key_of_Keys P a (node l x r) ks (inr (inr i)) = key_of_Keys P a r ks.2 i

  -- In a search tree in memory, the search for the key of one of its nodes ends at that node.
  pub find_le-here :
      (t : Tree) (a d : Addr)
      → IsSearchTree h t
      → IsIn a t
      → load_key h a ≡ some key
      → rb_find_le h key t d ≡ some a
  unfolding rb_find_le
  find_le-here leaf a d s i e = elim i [ ]
  find_le-here (node l x r) a d s (inl p) e =
      let (j, ej, less, more) = s.0 in
      let q : j ≡ key = key_unique h x j key ej (rw p e) in
      let under : leb j key ≡ true = ground arith in
      rw (ej, ◌>>=◌, under) (rw p (find_le-Keys j r a (omega arith) more))
  find_le-here (node l x r) a d s (inr (inl i)) e =
      let (j, ej, less, more) = s.0 in
      let (k, ek, lt) = key_of_Keys (λ m. m < j) a l less i in
      let q : k ≡ key = key_unique h a k key ek e in
      let above : leb j key ≡ false = ground arith in
      rw (ej, ◌>>=◌, above) (find_le-here l a d s.1 i e)
  find_le-here (node l x r) a d s (inr (inr i)) e =
      let (j, ej, less, more) = s.0 in
      let (k, ek, lt) = key_of_Keys (λ m. j < m) a r more i in
      let q : k ≡ key = key_unique h a k key ek e in
      let under : leb j key ≡ true = ground arith in
      rw (ej, ◌>>=◌, under) (find_le-here r a x s.2 i e)
