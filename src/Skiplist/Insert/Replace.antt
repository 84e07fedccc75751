-- ===== src/Skiplist/Insert/Replace.antt =====
-- `pid_skiplist_insert` where the key is in the list: the pid is exchanged.
use linux_kernel_code_projec.Base.{
  suc, ◌<◌, ◌≡◌, refl, ap, Option, List, [], ◌∷◌, ◌++◌, arith, true, pos, ==_self, ==_ne, length,
}
use linux_kernel_code_projec.Base.Run.{Returns}
use linux_kernel_code_projec.Store.{Addr, PidRef, Heap, set_pid}
use linux_kernel_code_projec.Store.Laws.{SetsPid, set_pid-SetsPid}
use linux_kernel_code_projec.Skiplist.{Skiplist}
use linux_kernel_code_projec.Skiplist.Chain.{
  Entry, AllStored, All, Below, NotAt, IsSorted, All-right, AllStored-right, Distinct-replace,
  Distinct-NotAt, Distinct-right, All-replace,
}
use linux_kernel_code_projec.Skiplist.View.{header_entry, IsList, Whole, Whole-linked}
use linux_kernel_code_projec.Skiplist.Rewire.{Keeps, exchange}
use linux_kernel_code_projec.Skiplist.Pred.{AllStored-NotAt}
use linux_kernel_code_projec.Skiplist.Splice.{contents-replace}
use linux_kernel_code_projec.Skiplist.Insert.Node.{Outcome}

-- Another pid in a node.
module _ {h : Heap} {sl : Skiplist} {hdr : Addr} (ls : List Entry) (e : Entry) (r : List Entry)
    (v : IsList h sl hdr (ls ++ e ∷ r)) (pid : Option PidRef) (b : Below e.key ls) where
  abbrev changed : Entry
  changed = record e { pid = pid }

  Keeps-pid :
      (g : Heap) (xs : List Entry)
      → SetsPid h e.addr pid g
      → NotAt e.addr xs
      → All (λ x. Keeps h g (e ∷ r) (changed ∷ r) x) xs
  Keeps-pid g [] s n = tt
  Keeps-pid g (x ∷ xs) s n = (
    (
      record {
        key = s.key x.addr;
        pid = rw (s.pid, ==_ne x.addr e.addr n.0);
        level = s.level x.addr;
        forward = s.forward x.addr;
      },
      λ j lt. refl,
    ),
    Keeps-pid g xs s n.1,
  )

  replace-stored :
      (g : Heap) → SetsPid h e.addr pid g → AllStored g (header_entry hdr ∷ ls ++ changed ∷ r)
  replace-stored g s =
      let d = header_entry hdr in
      let t = AllStored-right h (d ∷ ls) (e ∷ r) v.readable.stored in
      let n = (Distinct-right (d ∷ ls) (e ∷ r) v.distinct).0 in
      exchange h g (e ∷ r) (changed ∷ r) (d ∷ ls)
        (Keeps-pid g (d ∷ ls) s (Distinct-NotAt (d ∷ ls) e r v.distinct)) v.readable.stored
        (
          record {
            key = rw s.key t.0.key;
            pid = rw (s.pid, ==_self e.addr);
            level = rw s.level t.0.level;
            forward = λ j lt. rw s.forward (t.0.forward j lt);
            room = λ j lt. rw s.forward (t.0.room j lt);
          },
          AllStored-NotAt h g e.addr e.addr r
              (λ c nu nx. record {
                key = s.key c;
                pid = rw (s.pid, ==_ne c e.addr nu);
                level = s.level c;
                forward = s.forward c;
              })
              n n t.1,
        )

  IsSorted-changed : (xs : List Entry) → IsSorted (xs ++ e ∷ r) → IsSorted (xs ++ changed ∷ r)
  IsSorted-changed [] s = s
  IsSorted-changed (x ∷ xs) s =
      (All-replace (λ f. x.key < f.key) xs e changed r (λ lt. lt) s.0, IsSorted-changed xs s.1)

  length-changed : (xs : List Entry) → length (xs ++ changed ∷ r) ≡ length (xs ++ e ∷ r)
  length-changed [] = refl
  length-changed (x ∷ xs) = ap suc (length-changed xs)

  pub replace :
      Returns
        (set_pid h e.addr pid)
        (λ g. Outcome true h e.key pid hdr (ls ++ e ∷ r) (pos 0, g, sl))
  replace =
      let d = header_entry hdr in
      let t = AllStored-right h (d ∷ ls) (e ∷ r) v.readable.stored in
      let w = (All-right (Whole sl.level) ls (e ∷ r) v.whole).0 in
      let (g, run, s) = set_pid-SetsPid h e.addr t.0.key pid in
      (
        g,
        run,
        record {
          nodes = ls ++ changed ∷ r;
          list = record {
            readable = record {
              header = v.readable.header;
              stored = replace-stored g s;
              sorted = IsSorted-changed ls v.readable.sorted;
              level_pos = v.readable.level_pos;
              level_max = v.readable.level_max;
            };
            distinct = Distinct-replace (d ∷ ls) e changed r refl v.distinct;
            whole = All-replace (Whole sl.level) ls e changed r (λ p. p) v.whole;
          };
          code = refl;
          holds =
              contents-replace e changed ls r (Whole-linked sl.level e w)
                (Whole-linked sl.level changed w) refl b;
          grows = omega (arith, length-changed ls);
          unused = λ no_ok. cc;
        },
      )
