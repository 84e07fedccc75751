-- ===== src/Skiplist/Insert/Node.antt =====
-- `pid_skiplist_insert` where the key is not in the list: the new node.
use linux_kernel_code_projec.Base.{
  ℕ, ◌+◌, ◌≤◌, ◌<◌, ◌≡◌, ◌≢◌, refl, ap, inl, inr, Option, none, some, List, [], ◌∷◌, ◌++◌, arith,
  Bool, Bool-cases, true, false, ◌&&◌, if◌then◌else◌, ℤ, pos, get_elem?, is_some, ==_self, ==_ne,
  Option-cases, length, length-append,
}
use linux_kernel_code_projec.Base.Run.{◌>>=◌, Returns}
use linux_kernel_code_projec.Store.{
  Addr, PidRef, Heap, write, Alloc, load_key, load_pid, load_level, load_forward, node_alloc,
  set_key, set_pid,
}
use linux_kernel_code_projec.Store.Laws.{
  SetsKey, SetsPid, Zeroed, set_key-SetsKey, set_pid-SetsPid, node_alloc-Zeroed,
}
use linux_kernel_code_projec.PidMap
use linux_kernel_code_projec.Skiplist.{Skiplist, max_level, minus_enomem, link, insert_node}
use linux_kernel_code_projec.Skiplist.Chain.{
  Entry, pred_at, Stored, AllStored, All, Below, NotAt, All-left, All-right, AllStored-right,
}
use linux_kernel_code_projec.Skiplist.View.{
  header_entry, contents, IsList, Whole, Whole-Bottomed, Whole-raise,
}
use linux_kernel_code_projec.Skiplist.Rewire.{SameAt, AllStored-SameAt, Keeps, exchange}
use linux_kernel_code_projec.Skiplist.Splice.{
  All-splice, Distinct-splice, IsSorted-splice, contents-splice,
}
use linux_kernel_code_projec.Skiplist.Pred.{AllStored-NotAt}
use linux_kernel_code_projec.Skiplist.Link.{link-AllStored, at_hi}

-- The allocator hands out memory that is not in use.
abbrev pub IsFresh : Alloc → Heap → Type 0
IsFresh m h = (x : Addr) → m.node ≡ some x → h x ≡ none

pub NotAt-fresh : (h : Heap) (x : Addr) (xs : List Entry) → h x ≡ none → AllStored h xs → NotAt x xs
unfolding load_key
NotAt-fresh h x [] fresh s = tt
NotAt-fresh h x (e ∷ xs) fresh s =
    (λ p. let lost : load_key h e.addr ≡ none = rw (p, fresh) in cc, NotAt-fresh h x xs fresh s.1)

pub SameAt-cell : (h g : Heap) (b : Addr) → g b ≡ h b → SameAt h g b
unfolding load_key load_pid load_level load_forward
SameAt-cell h g b e = record { key = rw e; pid = rw e; level = rw e; forward = λ j. rw e }

-- The new node before it is linked anywhere.
abbrev pub unlinked : Addr → ℕ → Option PidRef → ℕ → Entry
unlinked x key pid lvl = record { addr = x; key = key; pid = pid; slots = lvl; lo = 0; hi = 0 }

module _ {h h₀ h₁ h₂ : Heap} {x : Addr} {key lvl : ℕ} {pid : Option PidRef} (z : Zeroed h x lvl h₀)
    (k : SetsKey h₀ x key h₁) (p : SetsPid h₁ x pid h₂) (small : lvl ≤ max_level) where
  filled_other : (b : Addr) → b ≢ x → SameAt h h₂ b
  filled_other b ne =
      let s = SameAt-cell h h₀ b (z.same b ne) in
      record {
        key = rw (p.key, k.key, ==_ne b x ne) s.key;
        pid = rw (p.pid, ==_ne b x ne, k.pid) s.pid;
        level = rw (p.level, k.level) s.level;
        forward = λ j. rw (p.forward, k.forward) (s.forward j);
      }

  filled_new : (r : List Entry) → Stored h₂ (unlinked x key pid lvl) r
  filled_new r = record {
    key = rw (p.key, k.key, ==_self x);
    pid = rw (p.pid, ==_self x);
    level = rw (p.level, k.level, z.level_self) (ap some (omega arith));
    forward = λ j lt. absurd (omega arith);
    room = λ j lt. rw (p.forward, k.forward, z.forward_self j lt);
  }

  Keeps-filled :
      (r xs : List Entry) → NotAt x xs → All (λ e. Keeps h h₂ r (unlinked x key pid lvl ∷ r) e) xs
  Keeps-filled r [] n = tt
  Keeps-filled r (e ∷ xs) n =
      ((filled_other e.addr n.0, λ j lt. ground arith), Keeps-filled r xs n.1)

  -- The list with the new node in its place, on no level.
  pub filled :
      (xs r : List Entry)
      → NotAt x xs
      → NotAt x r
      → AllStored h (xs ++ r)
      → AllStored h r
      → AllStored h₂ (xs ++ unlinked x key pid lvl ∷ r)
  filled xs r n n' s t =
      exchange h h₂ r (unlinked x key pid lvl ∷ r) xs (Keeps-filled r xs n) s
        (filled_new r, AllStored-NotAt h h₂ x x r (λ b ne _. filled_other b ne) n' n' t)

abbrev pub alloc_ok : Alloc → Bool
alloc_ok m = is_some m.node && m.array

-- What an insertion returns, and what the list holds then.
pub record Outcome (ok : Bool) (h : Heap) (key : ℕ) (pid : Option PidRef) (hdr : Addr)
    (xs : List Entry) (r : ℤ × Heap × Skiplist) : Type 0 where
  pub nodes : List Entry
  pub list : IsList r.1 r.2 hdr nodes
  pub code : r.0 ≡ (if ok then pos 0 else minus_enomem)
  pub holds : contents nodes ≡ (if ok then PidMap.insert key pid (contents xs) else contents xs)
  pub grows : length nodes ≤ length xs + 1
  pub unused : ok ≡ false → (x : Addr) → h x ≡ none → r.1 x ≡ none

-- A list at another level, in a heap with the same nodes.
pub IsList-SameAt :
    {h : Heap} {sl : Skiplist} {hdr : Addr} {xs : List Entry} (g : Heap) (level : ℕ)
    → IsList h sl hdr xs
    → ((b : Addr) → SameAt h g b)
    → sl.level ≤ level
    → level ≤ max_level
    → IsList g (record sl { level = level }) hdr xs
IsList-SameAt {h} {sl} {hdr} {xs} g level v same le top = record {
  readable = record {
    header = v.readable.header;
    stored = AllStored-SameAt h g (header_entry hdr ∷ xs) same v.readable.stored;
    sorted = v.readable.sorted;
    level_pos = omega (arith, v.readable.level_pos);
    level_max = top;
  };
  distinct = v.distinct;
  whole = Whole-raise sl.level level xs le v.whole;
}

module _ {h : Heap} {sl : Skiplist} {hdr : Addr} (lows highs : List Entry)
    (v : IsList h sl hdr (lows ++ highs)) (key : ℕ) (pid : Option PidRef) (b : Below key lows)
    (a : All (λ e. key < e.key) highs) (lvl level : ℕ) (update : List Addr) (lvl_pos : 0 < lvl)
    (lvl-le : lvl ≤ level) (level-le : sl.level ≤ level) (top : level ≤ max_level)
    (preds : (j : ℕ) → j < lvl → get_elem? update j ≡ some (pred_at j hdr lows)) where
  abbrev pub raised : Skiplist
  raised = record sl { level = level }

  abbrev pub new : Addr → ℕ → Entry
  new x n = at_hi (unlinked x key pid lvl) n

  linked-IsList :
      (g : Heap) (x : Addr)
      → NotAt x (header_entry hdr ∷ lows ++ highs)
      → AllStored g (header_entry hdr ∷ lows ++ new x lvl ∷ highs)
      → IsList g raised hdr (lows ++ new x lvl ∷ highs)
  linked-IsList g x n s = record {
    readable = record {
      header = v.readable.header;
      stored = s;
      sorted = IsSorted-splice (new x lvl) lows highs v.readable.sorted b a;
      level_pos = omega arith;
      level_max = top;
    };
    distinct = Distinct-splice (header_entry hdr ∷ lows) (new x lvl) highs v.distinct n;
    whole =
        All-splice (Whole level) lows (new x lvl) highs (omega arith)
          (Whole-raise sl.level level (lows ++ highs) level-le v.whole);
  }

  -- The steps of an insertion with memory, and the list after them.
  pub record Linked (m : Alloc) (x : Addr) : Type 0 where
    pub zeroed : Heap
    pub keyed : Heap
    pub filled_heap : Heap
    pub result : Heap
    pub allocates : node_alloc lvl m h ≡ (some x, zeroed)
    pub sets_key : set_key zeroed x key ≡ some keyed
    pub sets_pid : set_pid keyed x pid ≡ some filled_heap
    pub links : link x update lvl 0 filled_heap ≡ some result
    pub list : IsList result raised hdr (lows ++ new x lvl ∷ highs)

  pub allocated-Linked :
      (m : Alloc) (x : Addr) → m.node ≡ some x → m.array ≡ true → h x ≡ none → Linked m x
  allocated-Linked m x en ea fresh =
      let d = header_entry hdr in
      let n = NotAt-fresh h x (d ∷ lows ++ highs) fresh v.readable.stored in
      let (h₀, r₀, z) = node_alloc-Zeroed lvl m h x en ea in
      let (h₁, r₁, k) = set_key-SetsKey h₀ x z.key_self key in
      let key₁ : load_key h₁ x ≡ some key = rw (k.key, ==_self x) in
      let (h₂, r₂, p) = set_pid-SetsPid h₁ x key₁ pid in
      let s =
        filled z k p (omega arith) (d ∷ lows) highs (All-left (λ f. f.addr ≢ x) (d ∷ lows) highs n)
          (All-right (λ f. f.addr ≢ x) (d ∷ lows) highs n) v.readable.stored
          (AllStored-right h (d ∷ lows) highs v.readable.stored) in
      let (g, run, t) =
        link-AllStored d (new x 0) lows highs update refl
          (All-left (λ e. e.lo ≡ 0) lows highs (Whole-Bottomed sl.level (lows ++ highs) v.whole))
          preds (omega arith) lvl h₂ 0 s (Distinct-splice (d ∷ lows) (new x 0) highs v.distinct n)
          (omega arith) in
      let e : 0 + lvl ≡ lvl = omega arith in
      record {
        zeroed = h₀;
        keyed = h₁;
        filled_heap = h₂;
        result = g;
        allocates = r₀;
        sets_key = r₁;
        sets_pid = r₂;
        links = run;
        list = linked-IsList g x n (rw e at t);
      }

  allocated :
      (m : Alloc) (x : Addr)
      → m.node ≡ some x
      → m.array ≡ true
      → h x ≡ none
      → Returns
          (insert_node key pid lvl update raised (node_alloc lvl m h))
          (Outcome true h key pid hdr (lows ++ highs))
  unfolding insert_node
  allocated m x en ea fresh =
      let l = allocated-Linked m x en ea fresh in
      (
        (pos 0, l.result, raised),
        rw (l.allocates, l.sets_key, ◌>>=◌, l.sets_pid, ◌>>=◌, l.links),
        record {
          nodes = lows ++ new x lvl ∷ highs;
          list = l.list;
          code = refl;
          holds = contents-splice (new x lvl) lows highs (ground arith) b a;
          grows = omega (arith, length-append lows highs, length-append lows (new x lvl ∷ highs));
          unused = λ no_ok. cc;
        },
      )

  failed :
      (g : Heap)
      → ((x : Addr) → SameAt h g x)
      → ((x : Addr) → h x ≡ none → g x ≡ none)
      → Outcome false h key pid hdr (lows ++ highs) (minus_enomem, g, raised)
  failed g same still = record {
    nodes = lows ++ highs;
    list = IsList-SameAt g level v same level-le top;
    code = refl;
    holds = refl;
    grows = omega arith;
    unused = λ _. still;
  }

  -- The node is linked in its place, or memory runs out and only the level may have risen.
  pub insert_node-Outcome :
      (m : Alloc)
      → IsFresh m h
      → Returns
          (insert_node key pid lvl update raised (node_alloc lvl m h))
          (Outcome (alloc_ok m) h key pid hdr (lows ++ highs))
  unfolding insert_node node_alloc write
  insert_node-Outcome m fresh = elim (Option-cases m.node) [
    | inl en ↦
        rw en ((minus_enomem, h, raised), refl, failed h (λ x. SameAt-cell h h x refl) (λ x e. e))
    | inr (x, en) ↦ elim (Bool-cases m.array) [
      | inl ea ↦ let (r, run, o) = allocated m x en ea (fresh x en) in (r, run, rw (en, ea) o)
      | inr ea ↦
          rw (en, ea)
            (
              (minus_enomem, write h x none, raised),
              refl,
              failed (write h x none)
                  (λ c. SameAt-cell h (write h x none) c (ground (arith, fresh x en)))
                  (λ c e. ground arith),
            )
    ]
  ]
