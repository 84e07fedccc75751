-- ===== src/Skiplist/Remove.antt =====
-- `pid_skiplist_remove`: the key is taken out of the map, and its node handed to `call_rcu`.
pub mod Unlink
use linux_kernel_code_projec.Base.{
  ℕ, zero, suc, ◌+◌, ◌-◌, ◌≤◌, ◌<◌, ◌≡◌, ◌≢◌, refl, sym, ◌∙◌, ap, subst, inl, inr, Option, none,
  some, List, [], ◌∷◌, ◌++◌, arith, Bool, Bool-cases, true, false, ◌&&◌, ◌||◌, ltb, leb, ◌==◌,
  if◌then◌else◌, is_some, ==_self, ==_ne, ==_eq, Option-cases, length, length-append,
}
use linux_kernel_code_projec.Base.Run.{◌>>=◌, Returns, >>=-some}
use linux_kernel_code_projec.Store.{Addr, PidRef, Heap, load_key, load_forward}
use linux_kernel_code_projec.PidMap
use linux_kernel_code_projec.PidMap.{find, find-KeysAbove, erase-absent}
use linux_kernel_code_projec.Skiplist.{
  Skiplist, max_level, remove, remove_from, remove_node, shrink, has_key, descend,
}
use linux_kernel_code_projec.Skiplist.Chain.{
  Entry, linked, next_at, pred_at, Stored, AllStored, All, Below, Above, NotAt, Distinct, IsSorted,
  All-left, All-right, AllStored-right, Distinct-NotAt, Distinct-right, IsSorted-right, All-mono,
  All-append,
}
use linux_kernel_code_projec.Skiplist.View.{
  header_entry, contents, Readable, IsList, Whole, Whole-Bottomed, Whole-linked, lows, highs,
  lows-append-highs, lows-Below, highs-Above, find-Below, KeysAbove-contents,
}
use linux_kernel_code_projec.Skiplist.Search.{preds}
use linux_kernel_code_projec.Skiplist.Splice.{All-drop, Distinct-drop, contents-erase}
use linux_kernel_code_projec.Skiplist.Level.{get_elem?-preds}
use linux_kernel_code_projec.Skiplist.WriterSearch.{search_preds}
use linux_kernel_code_projec.Skiplist.Remove.Unlink.{unlink-dropped}

-- A level at which the header points to nothing has no nodes.
empty_level :
    (level j : ℕ) (xs : List Entry)
    → All (Whole level) xs
    → All (λ e. e.hi ≤ suc j) xs
    → next_at j xs ≡ none
    → All (λ e. e.hi ≤ j) xs
empty_level level j [] w a n = tt
empty_level level j (e ∷ xs) w a n = ground (arith, empty_level level j xs)

Whole-lower :
    (level l : ℕ) (xs : List Entry)
    → All (Whole level) xs
    → All (λ e. e.hi ≤ l) xs
    → All (Whole l) xs
Whole-lower level l [] w a = tt
Whole-lower level l (e ∷ xs) w a = (ground arith, Whole-lower level l xs w.1 a.1)

-- The new level bounds the nodes that are left, and was not raised.
shrink-bounds :
    (h : Heap) (hdr : Addr) (xs : List Entry) (level n : ℕ)
    → AllStored h (header_entry hdr ∷ xs)
    → All (Whole level) xs
    → 0 < n
    → n ≤ max_level
    → All (λ e. e.hi ≤ n) xs
    → Returns (shrink h hdr n) (λ l. (0 < l) × (l ≤ n) × All (λ e. e.hi ≤ l) xs)
unfolding shrink
shrink-bounds h hdr xs level zero s w lo top a = absurd (omega arith)
shrink-bounds h hdr xs level (suc zero) s w lo top a = (1, refl, (omega arith, omega arith, a))
shrink-bounds h hdr xs level (suc (suc n)) s w lo top a = elim (Option-cases (next_at (suc n) xs)) [
  | inr (y, e) ↦
      (suc (suc n), rw (s.0.forward (suc n) (omega arith), e), (omega arith, omega arith, a))
  | inl e ↦
      let (l, run, (p, le, b)) =
        shrink-bounds h hdr xs level (suc n) s w (omega arith) (omega arith)
          (empty_level level (suc n) xs w a e) in
      (l, rw (s.0.forward (suc n) (omega arith), e) run, (p, omega arith, b))
]

-- What a removal returns, and what the list holds then. A node that is handed to `call_rcu` is
-- still allocated, and no node of the list.
pub record Removed (key : ℕ) (hdr : Addr) (xs : List Entry) (r : Option Addr × Heap × Skiplist)
    : Type 0 where
  pub nodes : List Entry
  pub list : IsList r.1 r.2 hdr nodes
  pub holds : contents nodes ≡ PidMap.erase key (contents xs)
  pub found : is_some r.0 ≡ is_some (find key (contents xs))
  pub apart :
      (x : Addr) → r.0 ≡ some x → NotAt x (header_entry hdr ∷ nodes) × (load_key r.1 x ≡ some key)
  pub shrinks : length nodes ≤ length xs

IsSorted-drop :
    (xs : List Entry) (x : Entry) (ys : List Entry) → IsSorted (xs ++ x ∷ ys) → IsSorted (xs ++ ys)
IsSorted-drop [] x ys s = s.1
IsSorted-drop (w ∷ xs) x ys s =
    (All-drop (λ f. w.key < f.key) xs x ys s.0, IsSorted-drop xs x ys s.1)

find_head :
    (e : Entry) (r : List Entry) → linked e 0 ≡ true → find e.key (contents (e ∷ r)) ≡ some e.pid
unfolding find contents
find_head e r on = rw (on, ==_self e.key)

remove-header :
    (h : Heap) (sl : Skiplist) (hdr : Addr) (key f : ℕ)
    → sl.header ≡ some hdr
    → remove f key h sl ≡ remove_from f key hdr h sl
unfolding remove
remove-header h sl hdr key f e =
    ap (λ o. elim o [ none ↦ some (none, h, sl) | some a ↦ remove_from f key a h sl ]) e

module _ (h : Heap) (sl : Skiplist) (hdr : Addr) where
  remove_node-Removed :
      (ls : List Entry) (e : Entry) (hs : List Entry)
      → IsList h sl hdr (ls ++ e ∷ hs)
      → Below e.key ls
      → Returns
          (remove_node hdr e.addr (preds sl.level hdr ls []) h sl)
          (Removed e.key hdr (ls ++ e ∷ hs))
  unfolding remove_node
  remove_node-Removed ls e hs v b =
      let d = header_entry hdr in
      let w = (All-right (Whole sl.level) ls (e ∷ hs) v.whole).0 in
      let on = Whole-linked sl.level e w in
      let whole = All-drop (Whole sl.level) ls e hs v.whole in
      let (g, run, (s, k)) =
        unlink-dropped d e ls hs (preds sl.level hdr ls []) sl.level
          (Whole-Bottomed sl.level ls (All-left (Whole sl.level) ls (e ∷ hs) v.whole))
          (λ j lt. get_elem?-preds sl.level hdr ls [] j lt) v.readable.level_max w.2 h w.0
          v.readable.stored v.distinct in
      let n =
        All-append (λ f. f.addr ≢ e.addr) (d ∷ ls) hs (Distinct-NotAt (d ∷ ls) e hs v.distinct)
          (Distinct-right (d ∷ ls) (e ∷ hs) v.distinct).0 in
      let (l, shrunk, (l_pos, l-le, low)) =
        shrink-bounds g hdr (ls ++ hs) sl.level sl.level s whole v.readable.level_pos
          v.readable.level_max
          (All-mono (Whole sl.level) (λ x. x.hi ≤ sl.level) (ls ++ hs) (λ x p. p.2) whole) in
      (
        (some e.addr, g, record sl { level = l }),
        rw (run, ◌>>=◌, shrunk),
        record {
          nodes = ls ++ hs;
          list = record {
            readable = record {
              header = v.readable.header;
              stored = s;
              sorted = IsSorted-drop ls e hs v.readable.sorted;
              level_pos = l_pos;
              level_max = omega (arith, v.readable.level_max);
            };
            distinct = Distinct-drop (d ∷ ls) e hs v.distinct;
            whole = Whole-lower sl.level l (ls ++ hs) whole low;
          };
          holds = contents-erase e ls hs on b;
          found = rw (find-Below e.key ls (e ∷ hs) b, find_head e hs on);
          apart = λ x q.
              let p : e.addr ≡ x = cc in
              subst (λ y. NotAt y (d ∷ ls ++ hs) × (load_key g y ≡ some e.key)) p (n, k);
          shrinks = omega (arith, length-append ls hs, length-append ls (e ∷ hs));
        },
      )

  -- Without the key nothing changes.
  absent-Removed :
      (key : ℕ) (xs : List Entry)
      → IsList h sl hdr xs
      → find key (contents xs) ≡ none
      → Removed key hdr xs (none, h, sl)
  absent-Removed key xs v e = record {
    nodes = xs;
    list = v;
    holds = erase-absent key (contents xs) e;
    found = rw e;
    apart = λ x q. cc;
    shrinks = omega arith;
  }

  module _ (key f : ℕ) (ls : List Entry) (b : Below key ls) where
    abbrev Goal : List Entry → Type 0
    Goal hs =
        IsList h sl hdr (ls ++ hs)
        → Above key hs
        → (descend f h key sl.level hdr [] ≡ some (pred_at 0 hdr ls, preds sl.level hdr ls []))
          × (load_forward h (pred_at 0 hdr ls) 0 ≡ some (next_at 0 hs))
        → Returns (remove_from f key hdr h sl) (Removed key hdr (ls ++ hs))

    remove-end : Goal []
    unfolding remove_from has_key find contents
    remove-end v a run = (
      (none, h, sl),
      rw (run.0, ◌>>=◌, run.1),
      absent-Removed key (ls ++ []) v (find-Below key ls [] b),
    )

    remove-before : (e : Entry) (r : List Entry) → Goal (e ∷ r)
    unfolding remove_from has_key
    remove-before e r v a run =
        let t = AllStored-right h (header_entry hdr ∷ ls) (e ∷ r) v.readable.stored in
        let w = (All-right (Whole sl.level) ls (e ∷ r) v.whole).0 in
        let on = Whole-linked sl.level e w in
        elim (Bool-cases (e.key == key)) [
          | inl y ↦
              let q = ==_eq e.key key y in
              let (s, removed, o) = remove_node-Removed ls e r v (rw q b) in
              (
                s,
                rw (run.0, ◌>>=◌, run.1, on, t.0.key, ◌>>=◌, y, removed),
                subst (λ k. Removed k hdr (ls ++ e ∷ r) s) q o,
              )
          | inr n ↦
              let lt : key < e.key = ground arith in
              let above =
                All-mono (λ x. e.key < x.key) (λ x. key < x.key) r (λ x l. omega arith)
                  (IsSorted-right ls (e ∷ r) v.readable.sorted).0 in
              (
                (none, h, sl),
                rw (run.0, ◌>>=◌, run.1, on, t.0.key, ◌>>=◌, n),
                absent-Removed key (ls ++ e ∷ r) v (
                    find-Below key ls (e ∷ r) b
                    ∙ find-KeysAbove key key (contents (e ∷ r)) (omega arith)
                        (KeysAbove-contents key (e ∷ r) (lt, above))),
              )
        ]

    remove_split : (hs : List Entry) → Goal hs
    remove_split [] = remove-end
    remove_split (e ∷ r) = remove-before e r

  -- With more fuel than nodes a removal from a well-formed list returns and leaves it well formed.
  -- It takes the key out of the map, and hands a node to the free callback exactly if the key was
  -- there; that node has the key and is none of the list's any more.
  pub remove-Removed :
      {xs : List Entry}
      → IsList h sl hdr xs
      → (key f : ℕ) → length xs < f
      → Returns (remove f key h sl) (Removed key hdr xs)
  remove-Removed {xs} v key f fuel =
      let e = lows-append-highs key xs in
      rw (remove-header h sl hdr key f v.readable.header) (
        subst (λ zs. Returns (remove_from f key hdr h sl) (Removed key hdr zs)) e
          (remove_split key f (lows key xs) (lows-Below key xs) (highs key xs) (rw e v)
            (highs-Above key xs v.readable.sorted) (search_preds v key f fuel)))
