-- ===== src/Skiplist/Insert.antt =====
-- `pid_skiplist_insert` on every branch: the pid of a known key is exchanged, a new key gets a
-- node, and without memory the map stays as it is.
pub mod Node
pub mod Replace
use linux_kernel_code_projec.Base.{
  ℕ, zero, suc, ◌+◌, ◌-◌, ◌≤◌, ◌<◌, ◌≡◌, ◌≢◌, refl, sym, ◌∙◌, ap, subst, inl, inr, Option, none,
  some, List, [], ◌∷◌, ◌++◌, arith, Bool, Bool-cases, true, false, ◌&&◌, ◌||◌, ltb, leb, ◌==◌,
  if◌then◌else◌, ℤ, pos, negsuc, get_elem?, is_some, ==_self, ==_ne, ==_eq, Option-cases, length,
  replicate,
}
use linux_kernel_code_projec.Base.Run.{◌>>=◌, Returns, >>=-some}
use linux_kernel_code_projec.Store.{
  Addr, PidRef, Heap, Alloc, load_key, load_pid, load_level, load_forward, set_pid,
}
use linux_kernel_code_projec.Store.Laws.{SetsPid, set_pid-SetsPid}
use linux_kernel_code_projec.PidMap
use linux_kernel_code_projec.PidMap.{find, find-KeysAbove}
use linux_kernel_code_projec.Skiplist.{
  Skiplist, max_level, minus_enomem, insert, insert_new, has_key, descend, random_level,
}
use linux_kernel_code_projec.Skiplist.Chain.{
  Entry, linked, next_at, pred_at, Stored, AllStored, All, Below, Above, NotAt, Distinct, IsSorted,
  Bottomed, All-left, All-right, AllStored-right, Distinct-replace, Distinct-NotAt, Distinct-right,
  IsSorted-right, All-replace, All-mono,
}
use linux_kernel_code_projec.Skiplist.View.{
  header_entry, contents, Readable, IsList, Whole, Whole-Bottomed, Whole-linked, lows, highs,
  lows-append-highs, lows-Below, highs-Above, IsSorted-highs, length-lows, find-Below,
  KeysAbove-contents,
}
use linux_kernel_code_projec.Skiplist.Search.{Before, preds, descend-preds}
use linux_kernel_code_projec.Skiplist.Read.{start}
use linux_kernel_code_projec.Skiplist.Rewire.{SameAt, Stored-SameAt, Keeps, exchange}
use linux_kernel_code_projec.Skiplist.Pred.{forward-pred_at, AllStored-NotAt}
use linux_kernel_code_projec.Skiplist.Splice.{contents-replace}
use linux_kernel_code_projec.Skiplist.Level.{random_level_bounds, update_raised, get_elem?-preds}
use linux_kernel_code_projec.Skiplist.WriterSearch.{search_preds}
use linux_kernel_code_projec.Skiplist.Insert.Replace.{replace}
use linux_kernel_code_projec.Skiplist.Insert.Node.{IsFresh, alloc_ok, Outcome, insert_node-Outcome}

module _ (h : Heap) (sl : Skiplist) (hdr : Addr) (key : ℕ) (pid : Option PidRef) (random : ℕ)
    (m : Alloc) where
  insert_new-Outcome :
      IsFresh m h
      → (ls hs : List Entry) → IsList h sl hdr (ls ++ hs)
      → Below key ls
      → All (λ e. key < e.key) hs
      → Returns
          (insert_new key pid random m hdr (preds sl.level hdr ls []) h sl)
          (Outcome (alloc_ok m) h key pid hdr (ls ++ hs))
  unfolding insert_new
  insert_new-Outcome fresh ls hs v b a =
      let lvl = random_level random in
      let (lvl_pos, lvl_top) = random_level_bounds random in
      let low =
        All-mono (Whole sl.level) (λ e. e.hi ≤ sl.level) ls (λ e w. w.2)
          (All-left (Whole sl.level) ls hs v.whole) in
      elim (Bool-cases (ltb sl.level lvl)) [
        | inl y ↦ rw y (
            insert_node-Outcome ls hs v key pid b a lvl lvl
              (preds sl.level hdr ls [] ++ replicate (lvl - sl.level) hdr) lvl_pos (omega arith)
              (ground arith) lvl_top (update_raised sl.level lvl hdr ls low) m fresh)
        | inr n ↦
            let le : lvl ≤ sl.level = ground arith in
            rw n (
              insert_node-Outcome ls hs v key pid b a lvl sl.level (preds sl.level hdr ls [])
                lvl_pos le (omega arith) v.readable.level_max
                (λ j lt. get_elem?-preds sl.level hdr ls [] j (omega arith)) m fresh)
      ]

  module _ (f : ℕ) (ls : List Entry) (b : Below key ls) where
    abbrev Goal : List Entry → Type 0
    Goal hs =
        IsList h sl hdr (ls ++ hs)
        → Above key hs
        → (is_some (find key (contents (ls ++ hs))) ≡ false → IsFresh m h)
        → (descend f h key sl.level hdr [] ≡ some (pred_at 0 hdr ls, preds sl.level hdr ls []))
          × (load_forward h (pred_at 0 hdr ls) 0 ≡ some (next_at 0 hs))
        → Returns (insert f key pid random m h sl) (
            Outcome (is_some (find key (contents (ls ++ hs))) || alloc_ok m) h key pid hdr
              (ls ++ hs))

    insert-end : Goal []
    unfolding insert has_key find contents
    insert-end v a fresh run =
        rw (>>=-some _ v.readable.header, run.0, ◌>>=◌, run.1, ◌>>=◌, find-Below key ls [] b)
          (insert_new-Outcome (fresh (rw (find-Below key ls [] b))) ls [] v b tt)

    find_here :
        (e : Entry) (r : List Entry)
        → linked e 0 ≡ true
        → e.key == key ≡ true
        → find key (contents (e ∷ r)) ≡ some e.pid
    unfolding find contents
    find_here e r on y = rw (on, y)

    Above-strict :
        (e : Entry) (r : List Entry)
        → key < e.key
        → Above key (e ∷ r)
        → IsList h sl hdr (ls ++ e ∷ r)
        → All (λ x. key < x.key) (e ∷ r)
    Above-strict e r lt a v = (
      lt,
      All-mono (λ x. e.key < x.key) (λ x. key < x.key) r (λ x l. omega arith)
          (IsSorted-right ls (e ∷ r) v.readable.sorted).0,
    )

    insert-before : (e : Entry) (r : List Entry) → Goal (e ∷ r)
    unfolding insert has_key
    insert-before e r v a fresh run =
        let d = header_entry hdr in
        let t = AllStored-right h (d ∷ ls) (e ∷ r) v.readable.stored in
        let w = (All-right (Whole sl.level) ls (e ∷ r) v.whole).0 in
        let on = Whole-linked sl.level e w in
        elim (Bool-cases (e.key == key)) [
          | inl y ↦
              let q = ==_eq e.key key y in
              let (g, wrote, o) = replace ls e r v pid (rw q b) in
              (
                (pos 0, g, sl),
                rw (
                  >>=-some _ v.readable.header,
                  run.0,
                  ◌>>=◌,
                  run.1,
                  on,
                  t.0.key,
                  ◌>>=◌,
                  y,
                  wrote,
                ),
                rw (find-Below key ls (e ∷ r) b, find_here e r on y)
                    (subst (λ k. Outcome true h k pid hdr (ls ++ e ∷ r) (pos 0, g, sl)) q o),
              )
          | inr n ↦
              let above = Above-strict e r (ground arith) a v in
              let gone =
                find-KeysAbove key key (contents (e ∷ r)) (omega arith)
                  (KeysAbove-contents key (e ∷ r) above) in
              let absent : is_some (find key (contents (ls ++ e ∷ r))) ≡ false =
                rw (find-Below key ls (e ∷ r) b, gone) in
              rw
                (
                  >>=-some _ v.readable.header,
                  run.0,
                  ◌>>=◌,
                  run.1,
                  on,
                  t.0.key,
                  ◌>>=◌,
                  n,
                  find-Below key ls (e ∷ r) b,
                  gone,
                )
                (insert_new-Outcome (fresh absent) ls (e ∷ r) v b above)
        ]

    insert_split : (hs : List Entry) → Goal hs
    insert_split [] = insert-end
    insert_split (e ∷ r) = insert-before e r

  -- With more fuel than nodes and an allocator that hands out unused memory where the key is not
  -- in the map, an insertion into a well-formed list returns and leaves it well formed. It gives 0
  -- and stores the pid at the key if the key is in the map or memory is there for a node, and
  -- otherwise gives -ENOMEM and leaves the map as it is.
  pub insert-Outcome :
      {xs : List Entry}
      → IsList h sl hdr xs
      → (is_some (find key (contents xs)) ≡ false → IsFresh m h)
      → (f : ℕ) → length xs < f
      → Returns
          (insert f key pid random m h sl)
          (Outcome (is_some (find key (contents xs)) || alloc_ok m) h key pid hdr xs)
  insert-Outcome {xs} v fresh f fuel =
      let e = lows-append-highs key xs in
      subst
        (λ zs.
          Returns (insert f key pid random m h sl)
            (Outcome (is_some (find key (contents zs)) || alloc_ok m) h key pid hdr zs))
        e
        (insert_split f (lows key xs) (lows-Below key xs) (highs key xs) (rw e v)
          (highs-Above key xs v.readable.sorted) (rw e fresh) (search_preds v key f fuel))
