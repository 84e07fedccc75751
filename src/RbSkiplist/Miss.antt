-- ===== src/RbSkiplist/Miss.antt =====
-- A number whose node stands in the tree: the search starts at that node, behind which it looks.
use linux_kernel_code_projec.Base.{
  ℕ, zero, suc, ◌≤◌, ◌<◌, ◌≡◌, refl, ◌∙◌, ap, inl, inr, false, none, some, List, [], ◌∷◌, ◌++◌,
  arith, Bool-cases, length, ◌==◌,
}
use linux_kernel_code_projec.Base.Run.{◌>>=◌, Returns}
use linux_kernel_code_projec.Store.{Addr, Heap, load_forward}
use linux_kernel_code_projec.PidMap.{visible, find-KeysAbove}
use linux_kernel_code_projec.Skiplist.{descend, has_key}
use linux_kernel_code_projec.Skiplist.Chain.{
  Entry, linked, next_at, Stored, AllStored, All, Above, IsSorted, All-mono, AllStored-right,
  IsSorted-right,
}
use linux_kernel_code_projec.Skiplist.View.{header_entry, contents, IsList, KeysAbove-contents}
use linux_kernel_code_projec.Skiplist.Search.{descend-next_at}
use linux_kernel_code_projec.Skiplist.Read.{lookup-next}
use linux_kernel_code_projec.RbSkiplist.{
  RbSkiplist, Rbtree, rb_find_le, lookup, remove, remove_from,
}
use linux_kernel_code_projec.RbSkiplist.Plain.{plain}
use linux_kernel_code_projec.RbSkiplist.TopTree.{IsSearchTree, IsIn, find_le-here}

-- A list whose node `e`, on the highest level, is in the tree.
pub record AtTop (h : Heap) (sl : RbSkiplist) (hdr : Addr) (ls : List Entry) (e : Entry)
    (hs : List Entry) : Type 0 where
  pub list : IsList h (plain sl) hdr (ls ++ e ∷ hs)
  pub tree : IsSearchTree h sl.top
  pub here : IsIn e.addr sl.top
  pub high : sl.level ≤ e.hi

pub has_key-Above :
    (h : Heap) (key : ℕ) (r : List Entry)
    → AllStored h r
    → All (λ x. key < x.key) r
    → has_key h key (next_at 0 r) ≡ some false
unfolding has_key
has_key-Above h key [] s a = refl
has_key-Above h key (x ∷ r) s a = elim (Bool-cases (linked x 0)) [
  | inl y ↦ let ne : x.key == key ≡ false = ground arith in rw (y, s.0.key, ◌>>=◌, ne)
  | inr n ↦ rw n (has_key-Above h key r s.1 a.1)
]

module _ {h : Heap} {sl : RbSkiplist} {hdr : Addr} {ls : List Entry} {e : Entry} {hs : List Entry}
    (t : AtTop h sl hdr ls e hs) (f : ℕ) (fuel : length (ls ++ e ∷ hs) < f) where
  own : Stored h e hs × AllStored h hs
  own = AllStored-right h (header_entry hdr ∷ ls) (e ∷ hs) t.list.readable.stored

  sorted : All (λ x. e.key < x.key) hs × IsSorted hs
  sorted = IsSorted-right ls (e ∷ hs) t.list.readable.sorted

  above : Above e.key hs
  above = All-mono (λ x. e.key < x.key) (λ x. e.key ≤ x.key) hs (λ x lt. omega arith) sorted.0

  found : rb_find_le h e.key sl.top hdr ≡ some e.addr
  found = find_le-here h e.key sl.top e.addr hdr t.tree t.here own.0.key

  search :
      (n : ℕ)
      → sl.level ≡ suc n
      → Returns
          (descend f h e.key (suc n) e.addr [])
          (λ r. load_forward h r.0 0 ≡ some (next_at 0 hs))
  search n q =
      descend-next_at h e.key hs above f n e.addr [] []
        (record {
          forward = λ j lt. own.0.forward j (omega (arith, t.high));
          stored = own.1;
          below = tt;
        })
        (omega arith)

  search_level :
      Returns
        (descend f h e.key sl.level e.addr [])
        (λ r. load_forward h r.0 0 ≡ some (next_at 0 hs))
  search_level = go sl.level refl
    where
      go :
          (n : ℕ)
          → sl.level ≡ n
          → Returns
              (descend f h e.key n e.addr [])
              (λ r. load_forward h r.0 0 ≡ some (next_at 0 hs))
      go zero q = absurd (omega (arith, t.list.readable.level_pos))
      go (suc n) q = search n q

  -- If a node on the highest level of a well-formed list stands in the tree, which is a search
  -- tree, then with more fuel than nodes a lookup of its key returns NULL, whatever pid the node
  -- has.
  pub lookup-AtTop : lookup f e.key h sl ≡ some none
  unfolding lookup
  lookup-AtTop =
      let (r, run, l) = search_level in
      let absent =
        find-KeysAbove e.key e.key (contents hs) (omega arith)
          (KeysAbove-contents e.key hs sorted.0) in
      rw (t.list.readable.header, found, ◌>>=◌, run, ◌>>=◌, l, ◌>>=◌)
        (lookup-next h e.key hs own.1 above sorted.1 ∙ ap (λ p. some (visible p)) absent)

  -- If a node on the highest level of a well-formed list stands in the tree, which is a search
  -- tree, then with more fuel than nodes a removal of its key changes nothing and frees no node.
  pub remove-AtTop : (rb : Rbtree) → remove rb f e.key h sl ≡ some (none, h, sl)
  unfolding remove remove_from
  remove-AtTop rb =
      let (r, run, l) = search_level in
      ap (λ o. elim o [ none ↦ some (none, h, sl) | some a ↦ remove_from rb f e.key a h sl ])
        t.list.readable.header
      ∙ (rw (found, ◌>>=◌, run, ◌>>=◌, l, ◌>>=◌, has_key-Above h e.key hs own.1 sorted.0))
