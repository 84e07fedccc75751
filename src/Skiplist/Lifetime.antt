-- ===== src/Skiplist/Lifetime.antt =====
-- `pid_skiplist_init`, `pid_skiplist_destroy` and the callback that frees a removed node.
use linux_kernel_code_projec.Base.{
  ℕ, zero, suc, ◌<◌, ◌≡◌, ◌≢◌, refl, sym, none, some, List, [], ◌∷◌, arith, true, ==_self, ==_ne,
  length,
}
use linux_kernel_code_projec.Base.Run.{◌>>=◌, Returns, >>=-some}
use linux_kernel_code_projec.Store.{
  Addr, Heap, write, Alloc, int_min, load_key, free_node, node_alloc,
}
use linux_kernel_code_projec.Store.Laws.{
  set_key-SetsKey, set_pid-SetsPid, node_alloc-Zeroed, free_node-ok,
}
use linux_kernel_code_projec.Skiplist.{Skiplist, max_level, init, destroy, destroy_loop}
use linux_kernel_code_projec.Skiplist.Chain.{
  Entry, linked, next_at, AllStored, All, NotAt, Distinct,
}
use linux_kernel_code_projec.Skiplist.View.{header_entry, IsList, Whole}
use linux_kernel_code_projec.Skiplist.Rewire.{SameAt}
use linux_kernel_code_projec.Skiplist.Pred.{AllStored-NotAt}
use linux_kernel_code_projec.Skiplist.Insert.Node.{SameAt-cell}

-- With memory for the header `init` returns a well-formed list without nodes.
pub init-IsList :
    (m : Alloc) (h : Heap) (hdr : Addr)
    → m.node ≡ some hdr
    → m.array ≡ true
    → Returns (init m h) (λ r. IsList r.0 r.1 hdr [])
unfolding init
init-IsList m h hdr en ea =
    let (h₁, r₁, z) = node_alloc-Zeroed max_level m h hdr en ea in
    let (h₂, r₂, k) = set_key-SetsKey h₁ hdr z.key_self int_min in
    let key : load_key h₂ hdr ≡ some int_min = rw (k.key, ==_self hdr) in
    let (h₃, r₃, p) = set_pid-SetsPid h₂ hdr key none in
    (
      (h₃, record { level = 1; header = some hdr }),
      rw (r₁, r₂, ◌>>=◌, r₃),
      record {
        readable = record {
          header = refl;
          stored = (
            record {
              key = rw p.key key;
              pid = rw (p.pid, ==_self hdr);
              level = rw (p.level, k.level) z.level_self;
              forward = λ i lt. rw (p.forward, k.forward) (z.forward_self i lt);
              room = λ i lt. rw (p.forward, k.forward, z.forward_self i lt);
            },
            tt,
          );
          sorted = tt;
          level_pos = omega arith;
          level_max = omega arith;
        };
        distinct = (tt, tt);
        whole = tt;
      },
    )

-- Without memory `BUG_ON` fires.
pub init_no_memory : (m : Alloc) (h : Heap) → m.node ≡ none → init m h ≡ none
unfolding init node_alloc
init_no_memory m h e = rw e

-- The nodes of `r` are freed, and nothing else is touched.
pub record Freed (r : List Entry) (h g : Heap) : Type 0 where
  pub freed : All (λ e. g e.addr ≡ none) r
  pub same : (b : Addr) → NotAt b r → g b ≡ h b

SameAt-free : (h : Heap) (x b : Addr) → b ≢ x → SameAt h (write h x none) b
unfolding write
SameAt-free h x b ne = SameAt-cell h (write h x none) b (rw (==_ne b x ne))

freed_write :
    (g : Heap) (x : Addr) (r : List Entry)
    → All (λ e. g e.addr ≡ none) r
    → All (λ e. write g x none e.addr ≡ none) r
unfolding write
freed_write g x [] a = tt
freed_write g x (e ∷ r) a = (ground arith, freed_write g x r a.1)

destroy_loop-Freed :
    (level f : ℕ) (h : Heap) (r : List Entry)
    → AllStored h r
    → All (Whole level) r
    → Distinct r
    → length r < f
    → Returns (destroy_loop f (next_at 0 r) h) (Freed r h)
unfolding destroy_loop write
destroy_loop-Freed level zero h r s w d fuel = absurd (omega arith)
destroy_loop-Freed level (suc f) h [] s w d fuel =
    (h, refl, record { freed = tt; same = λ b n. refl })
destroy_loop-Freed level (suc f) h (e ∷ r) s w d fuel =
    let on : linked e 0 ≡ true = ground arith in
    let g = write h e.addr none in
    let t = AllStored-NotAt h g e.addr e.addr r (λ b ne _. SameAt-free h e.addr b ne) d.0 d.0 s.1 in
    let (g', run, p) = destroy_loop-Freed level f g r t w.1 d.1 (omega arith) in
    (
      g',
      rw (on, s.0.forward 0 (ground arith), ◌>>=◌, free_node-ok h e.addr s.0.key, ◌>>=◌) run,
      record {
        freed = (rw (p.same e.addr d.0, ==_self e.addr), p.freed);
        same = λ b n. rw (p.same b n.1, ==_ne b e.addr (λ q. n.0 (sym q)));
      },
    )

module _ (h : Heap) (sl : Skiplist) (hdr : Addr) (xs : List Entry) (v : IsList h sl hdr xs) where
  -- With more fuel than nodes `destroy` on a well-formed list returns. Afterwards the header and
  -- every node are freed, and all other memory is as before.
  pub destroy-Freed :
      (f : ℕ) → length xs < f → Returns (destroy f h sl) (Freed (header_entry hdr ∷ xs) h)
  unfolding destroy write
  destroy-Freed f fuel =
      let (g, run, p) =
        destroy_loop-Freed sl.level f h xs v.readable.stored.1 v.whole v.distinct.1 fuel in
      let kept : load_key g hdr ≡ some int_min =
        rw (SameAt.key (SameAt-cell h g hdr (p.same hdr v.distinct.0))) v.readable.stored.0.key in
      (
        write g hdr none,
        rw (
          >>=-some _ v.readable.header,
          v.readable.stored.0.forward 0 (omega arith),
          ◌>>=◌,
          run,
          ◌>>=◌,
          free_node-ok g hdr kept,
        ),
        record {
          freed = (rw (==_self hdr), freed_write g hdr xs p.freed);
          same = λ b n. rw (==_ne b hdr (λ q. n.0 (sym q))) (p.same b n.1);
        },
      )

  -- Freeing an allocated node that is none of a well-formed list's returns, and leaves the list
  -- well formed with the same nodes.
  pub free_node-IsList :
      (x : Addr) {k : ℕ}
      → load_key h x ≡ some k
      → NotAt x (header_entry hdr ∷ xs)
      → Returns (free_node h x) (λ g. IsList g sl hdr xs)
  free_node-IsList x l n = (
    write h x none,
    free_node-ok h x l,
    record {
      readable = record {
        header = v.readable.header;
        stored =
            AllStored-NotAt h (write h x none) x x (header_entry hdr ∷ xs)
              (λ b ne _. SameAt-free h x b ne) n n v.readable.stored;
        sorted = v.readable.sorted;
        level_pos = v.readable.level_pos;
        level_max = v.readable.level_max;
      };
      distinct = v.distinct;
      whole = v.whole;
    },
  )
