-- ===== src/RbSkiplist/Raised.antt =====
-- A node that is inserted on the highest level, into a list without nodes in its tree.
use linux_kernel_code_projec.Base.{
  Option, ℤ, ℕ, ◌+◌, ◌-◌, ◌≤◌, ◌<◌, ◌≡◌, refl, sym, ap, ◌∙◌, inl, inr, false, true, none, some,
  List, [], ◌∷◌, ◌++◌, arith, Bool-cases, length, length-append, ltb, ◌==◌, if◌then◌else◌, pos,
  replicate, get_elem?,
}
use linux_kernel_code_projec.Base.Run.{◌>>=◌, Returns, >>=-some}
use linux_kernel_code_projec.Store.{Addr, PidRef, Heap, Alloc, load_level, node_alloc}
use linux_kernel_code_projec.PidMap
use linux_kernel_code_projec.PidMap.{find}
use linux_kernel_code_projec.Skiplist.{max_level, random_level}
use linux_kernel_code_projec.Skiplist.Chain.{
  Entry, pred_at, All, Above, IsSorted, All-left, All-right, All-mono, AllStored-right,
}
use linux_kernel_code_projec.Skiplist.View.{
  header_entry, contents, IsList, Whole, Whole-linked, lows, highs, lows-append-highs, lows-Below,
  highs-Above, IsSorted-highs, find-Below,
}
use linux_kernel_code_projec.Skiplist.Search.{preds}
use linux_kernel_code_projec.Skiplist.Splice.{contents-splice}
use linux_kernel_code_projec.Skiplist.Level.{update_raised, get_elem?-preds}
use linux_kernel_code_projec.Skiplist.WriterSearch.{search_preds}
use linux_kernel_code_projec.Skiplist.Insert.Node.{allocated-Linked}
use linux_kernel_code_projec.RbSkiplist.{
  Tree, leaf, node, inorder, Rbtree, RbSkiplist, mark, rb_find_le, rb_place, rb_insert_node,
  insert_node, insert_new, insert, lookup,
}
use linux_kernel_code_projec.RbSkiplist.Plain.{plain, IsPlain}
use linux_kernel_code_projec.RbSkiplist.Miss.{AtTop, lookup-AtTop, has_key-Above}

inorder-pos : (l : Tree) (x : Addr) (r : Tree) → 0 < length (inorder (node l x r))
inorder-pos l x r = omega (arith, length-append (inorder l) (x ∷ inorder r))

-- A tree with one node
inorder-single : (t : Tree) (x : Addr) → inorder t ≡ x ∷ [] → t ≡ node leaf x leaf
inorder-single leaf x e = cc
inorder-single (node leaf y leaf) x e = let same : y ≡ x = cc in rw same
inorder-single (node leaf y (node l z r)) x e =
    let long = inorder-pos l z r in let n = ap length e in absurd (omega arith)
inorder-single (node (node l z r) y q) x e =
    let long = inorder-pos l z r in
    let sum = length-append (inorder (node l z r)) (y ∷ inorder q) in
    let n = ap length e in absurd (omega arith)

-- Where the key is not in the list, all keys behind its place are greater.
strictly_Above :
    (level key : ℕ) (r : List Entry)
    → Above key r
    → IsSorted r
    → All (Whole level) r
    → find key (contents r) ≡ none
    → All (λ e. key < e.key) r
unfolding find contents
strictly_Above level key [] a s w absent = tt
strictly_Above level key (e ∷ r) a s w absent = elim (Bool-cases (e.key == key)) [
  | inl y ↦ let there = rw (Whole-linked level e w.0, y) at absent in cc
  | inr n ↦
      let lt : key < e.key = ground (arith, a.0) in
      (lt, All-mono (λ x. e.key < x.key) (λ x. key < x.key) r (λ x l. omega arith) s.0)
]

module _ (rb : Rbtree) (sl : RbSkiplist) (p : IsPlain sl) (key : ℕ) (pid : Option PidRef)
    (random : ℕ) (m : Alloc) (h : Heap) (hdr : Addr) (xs : List Entry)
    (v : IsList h (plain sl) hdr xs) (top : random_level random ≡ max_level)
    (absent : find key (contents xs) ≡ none) (x : Addr) (memory : m.node ≡ some x)
    (array : m.array ≡ true) (fresh : h x ≡ none) where
  abbrev ls : List Entry
  ls = lows key xs

  abbrev hs : List Entry
  hs = highs key xs

  split : IsList h (plain sl) hdr (ls ++ hs)
  split = rw (lows-append-highs key xs) v

  above : All (λ e. key < e.key) hs
  above =
      let gone : find key (contents (ls ++ hs)) ≡ none = rw (lows-append-highs key xs) absent in
      strictly_Above sl.level key hs (highs-Above key xs v.readable.sorted)
        (IsSorted-highs key xs v.readable.sorted) (All-right (Whole sl.level) ls hs split.whole)
        (sym (find-Below key ls hs (lows-Below key xs)) ∙ gone)

  abbrev entry : Entry
  entry = record { addr = x; key = key; pid = pid; slots = max_level; lo = 0; hi = max_level }

  abbrev Inserted : ℤ × Heap × RbSkiplist → Type 0
  Inserted r = (r.0 ≡ pos 0) × AtTop r.1 r.2 hdr ls entry hs

  -- With the array `update` for all levels
  insert_node-Inserted :
      (update : List Addr)
      → ((j : ℕ) → j < max_level → get_elem? update j ≡ some (pred_at j hdr ls))
      → Returns
          (insert_node rb key pid max_level hdr update
            (record sl { level = max_level })
            (node_alloc max_level m h))
          Inserted
  unfolding insert_node rb_insert_node rb_place
  insert_node-Inserted update before =
      let l =
        allocated-Linked ls hs split key pid (lows-Below key xs) above max_level max_level update
          (omega arith) (omega arith) v.readable.level_max (omega arith) before m x memory array
          fresh in
      let stored = l.list.readable.stored in
      let own = (AllStored-right l.result (header_entry hdr ∷ ls) (entry ∷ hs) stored).0 in
      let tree =
        inorder-single (rb.rb_insert_color (node leaf x leaf)) x
          (rb.inorder-rb_insert_color (node leaf x leaf)) in
      (
        (
          pos 0,
          l.result,
          record sl {
            level = max_level;
            top = rb.rb_insert_color (node leaf x leaf);
            in_rb_tree = mark (mark sl.in_rb_tree x false) x true;
          },
        ),
        rw (
          l.allocates, l.sets_key, ◌>>=◌, l.sets_pid, ◌>>=◌, l.links, ◌>>=◌, stored.0.level, ◌>>=◌,
          own.key, ◌>>=◌, p.top,
        ),
        (
          refl,
          record {
            list = l.list;
            tree = rw tree ((key, own.key, tt, tt), tt, tt);
            here = rw tree (inl refl);
            high = omega arith;
          },
        ),
      )

  insert_new-Inserted :
      Returns (insert_new rb key pid random m hdr (preds sl.level hdr ls []) h sl) Inserted
  unfolding insert_new
  insert_new-Inserted =
      let low : All (λ e. e.hi ≤ sl.level) ls =
        All-mono (Whole sl.level) (λ e. e.hi ≤ sl.level) ls (λ e w. w.2)
          (All-left (Whole sl.level) ls hs split.whole) in
      elim (Bool-cases (ltb sl.level max_level)) [
        | inl y ↦
            rw (top, y)
              (insert_node-Inserted
                (preds sl.level hdr ls [] ++ replicate (max_level - sl.level) hdr)
                (update_raised sl.level max_level hdr ls low))
        | inr n ↦
            let level : sl.level ≡ max_level = ground (arith, v.readable.level_max) in
            let same : record sl { level = max_level } ≡ sl =
              ap (λ l. record sl { level = l }) (sym level) in
            rw (top, n, ← same)
              (insert_node-Inserted (preds max_level hdr ls [])
                (get_elem?-preds max_level hdr ls []))
      ]

  insert-Inserted : (f : ℕ) → length xs < f → Returns (insert rb f key pid random m h sl) Inserted
  unfolding insert rb_find_le
  insert-Inserted f fuel =
      let level : load_level h hdr ≡ some max_level = v.readable.stored.0.level in
      let start : (if sl.level == max_level then rb_find_le h key sl.top hdr else some hdr)
          ≡ some hdr =
        rw p.top (ground arith) in
      let (run, next) = search_preds v key f fuel in
      let missing =
        has_key-Above h key hs (AllStored-right h (header_entry hdr ∷ ls) hs split.readable.stored)
          above in
      rw
        (>>=-some _ v.readable.header, level, ◌>>=◌, start, ◌>>=◌, run, ◌>>=◌, next, ◌>>=◌, missing)
        insert_new-Inserted

  -- If no node is in the tree of a well-formed list, the key is not in its map, the random level
  -- is 16 and the allocator hands out unused memory, then with more fuel than nodes an insertion
  -- returns 0 and leaves a well-formed list that stands for the map with the pid at the key, but a
  -- lookup of that key, with fuel for the new node too, returns NULL.
  pub insert-lookup :
      (f g : ℕ)
      → length xs < f
      → length xs + 1 < g
      → Returns (insert rb f key pid random m h sl) λ r.
        (r.0 ≡ pos 0)
        × ((nodes : List Entry) × IsList r.1 (plain r.2) hdr nodes
            × (contents nodes ≡ PidMap.insert key pid (contents xs)))
        × (lookup g key r.1 r.2 ≡ some none)
  insert-lookup f g fuel fuel' =
      let (r, run, (code, at)) = insert-Inserted f fuel in
      let sum = length-append ls hs in
      let sum' = length-append ls (entry ∷ hs) in
      let all = ap length (lows-append-highs key xs) in
      (
        r,
        run,
        (
          code,
          (
            ls ++ entry ∷ hs,
            at.list,
            contents-splice entry ls hs refl (lows-Below key xs) above
                ∙ ap (λ ys. PidMap.insert key pid (contents ys)) (lows-append-highs key xs),
          ),
          lookup-AtTop at g (omega arith),
        ),
      )
