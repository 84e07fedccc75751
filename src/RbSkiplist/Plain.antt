-- ===== src/RbSkiplist/Plain.antt =====
-- The list whose tree is empty, next to that of skiplist/pid_skiplist.c.
use linux_kernel_code_projec.Base.{
  ℕ, zero, suc, ◌+◌, ◌-◌, ◌<◌, ◌≡◌, refl, sym, ap, ◌∙◌, fun_ext, inl, inr, Bool, true, false,
  Option, none, some, List, [], ◌++◌, arith, ltb, ◌==◌, if◌then◌else◌, Bool-cases, Option-cases, ℤ,
  pos, replicate, get_elem?,
}
use linux_kernel_code_projec.Base.Run.{◌>>=◌, >>=-some, >>=-cong, >>=-eq-some}
use linux_kernel_code_projec.Store.{
  Addr, PidRef, Heap, Alloc, write, load_level, load_forward, set_forward, set_key, set_pid,
  node_alloc,
}
use linux_kernel_code_projec.Store.Laws.{set_forward-level, set_key-level, set_pid-level}
use linux_kernel_code_projec.Skiplist
use linux_kernel_code_projec.Skiplist.{
  Skiplist, max_level, random_level, descend, has_key, link, unlink, shrink,
}
use linux_kernel_code_projec.Skiplist.Insert.Node.{IsFresh}
use linux_kernel_code_projec.RbSkiplist.{
  leaf, Rbtree, RbSkiplist, mark, rb_find_le, insert_node, insert_new, insert, remove_node,
  remove_from, remove, lookup, iter_next, find_ge,
}

-- The list without its tree.
abbrev pub plain : RbSkiplist → Skiplist
plain sl = record { level = sl.level; header = sl.header }

-- No node is in the tree.
pub record IsPlain (sl : RbSkiplist) : Type 0 where
  pub top : sl.top ≡ leaf
  pub marks : (x : Addr) → sl.in_rb_tree x ≡ false

module _ (f key : ℕ) (h : Heap) (sl : RbSkiplist) (p : IsPlain sl) where
  -- If no node is in the tree, a lookup answers as the lookup of the plain list does.
  pub lookup-plain : lookup f key h sl ≡ Skiplist.lookup f key h (plain sl)
  unfolding lookup Skiplist.lookup rb_find_le
  lookup-plain = rw p.top

  pub find_ge-plain :
      {hdr : Addr} → sl.header ≡ some hdr → find_ge f key h sl ≡ Skiplist.find_ge f key h (plain sl)
  unfolding find_ge Skiplist.find_ge rb_find_le
  find_ge-plain e = rw (p.top, e)

  pub iter_next-plain :
      (cursor : Option Addr)
      → iter_next f key cursor h sl ≡ Skiplist.iter_next f key cursor h (plain sl)
  unfolding iter_next Skiplist.iter_next rb_find_le
  iter_next-plain cursor = rw p.top

-- The list with the level and header that a plain operation left.
abbrev pub with_plain : RbSkiplist → Skiplist → RbSkiplist
with_plain sl l = record sl { level = l.level; header = l.header }

-- A run of the plain list, as a run of the list with the tree of `sl`.
abbrev pub lifted :
    {A : Type 0} → RbSkiplist → Option (A × Heap × Skiplist) → Option (A × Heap × RbSkiplist)
lifted sl m = m >>= λ r. some (r.0, r.1, with_plain sl r.2)

link-level :
    (x : Addr) (update : List Addr) (n i : ℕ) (h g : Heap) (b : Addr)
    → link x update n i h ≡ some g
    → load_level g b ≡ load_level h b
unfolding link
link-level x update zero i h g b e = let q : h ≡ g = cc in rw q
link-level x update (suc n) i h g b e =
    let (u, eu, e₁) = >>=-eq-some (get_elem? update i) _ e in
    let (v, ev, e₂) = >>=-eq-some (load_forward h u i) _ e₁ in
    let (h₁, w₁, e₃) = >>=-eq-some (set_forward h x i v) _ e₂ in
    let (h₂, w₂, e₄) = >>=-eq-some (set_forward h₁ u i (some x)) _ e₃ in
    link-level x update n (i + 1) h₂ g b e₄
    ∙ set_forward-level h₁ u i (some x) h₂ b w₂
    ∙ set_forward-level h x i v h₁ b w₁

-- A cleared mark is cleared again.
mark_cleared :
    (marks : Addr → Bool) → ((y : Addr) → marks y ≡ false) → (x : Addr) → mark marks x false ≡ marks
mark_cleared marks clear x = fun_ext λ y. ground (arith, clear y)

module _ (rb : Rbtree) (sl : RbSkiplist) (key : ℕ) (pid : Option PidRef) (lvl : ℕ) (hdr : Addr)
    (update : List Addr) (low : lvl < max_level)
    (clear : (y : Addr) → sl.in_rb_tree y ≡ false) where
  abbrev back : ℤ × Heap × Skiplist → Option (ℤ × Heap × RbSkiplist)
  back r = some (r.0, r.1, with_plain sl r.2)

  -- A node below the highest level is linked as in the plain list.
  insert_node-plain :
      (o : Option Addr) (h : Heap)
      → load_level h hdr ≡ some max_level
      → insert_node rb key pid lvl hdr update sl (o, h)
        ≡ (Skiplist.insert_node key pid lvl update (plain sl) (o, h) >>= back)
  unfolding insert_node Skiplist.insert_node
  insert_node-plain none h l = refl
  insert_node-plain (some x) h l = elim (Option-cases (set_key h x key)) [
    | inl n ↦ rw n
    | inr (h₁, e₁) ↦ elim (Option-cases (set_pid h₁ x pid)) [
      | inl n ↦ rw (e₁, n)
      | inr (h₂, e₂) ↦ elim (Option-cases (link x update lvl 0 h₂)) [
        | inl n ↦ rw (e₁, e₂, n)
        | inr (h₃, e₃) ↦
            let top : load_level h₃ hdr ≡ some max_level =
              link-level x update lvl 0 h₂ h₃ hdr e₃
              ∙ set_pid-level h₁ x pid h₂ hdr e₂
              ∙ set_key-level h x key h₁ hdr e₁
              ∙ l in
            let differs : lvl == max_level ≡ false = ground arith in
            rw
              (
                e₁,
                ◌>>=◌,
                e₂,
                ◌>>=◌,
                e₃,
                ◌>>=◌,
                top,
                ◌>>=◌,
                differs,
                mark_cleared sl.in_rb_tree clear x,
              )
              (ground arith)
      ]
    ]
  ]

node_alloc-level :
    (lvl : ℕ) (m : Alloc) (h : Heap) (hdr : Addr) (l : ℕ)
    → IsFresh m h
    → load_level h hdr ≡ some l
    → load_level (node_alloc lvl m h).1 hdr ≡ some l
unfolding node_alloc write load_level
node_alloc-level lvl m h hdr l fresh e = elim (Option-cases m.node) [
  | inl n ↦ rw n e
  | inr (x, y) ↦ ground (arith, fresh x y)
]

module _ (rb : Rbtree) (sl : RbSkiplist) (p : IsPlain sl) (key : ℕ) (pid : Option PidRef)
    (random : ℕ) (m : Alloc) (h : Heap) (fresh : IsFresh m h) (hdr : Addr)
    (header : sl.header ≡ some hdr) (top : load_level h hdr ≡ some max_level)
    (low : random_level random < max_level) where
  insert_new-plain :
      (update : List Addr)
      → insert_new rb key pid random m hdr update h sl ≡ (
          Skiplist.insert_new key pid random m hdr update h (plain sl) >>= λ r.
          some (r.0, r.1, with_plain sl r.2))
  unfolding insert_new Skiplist.insert_new
  insert_new-plain update =
      let lvl = random_level random in
      let t = node_alloc-level lvl m h hdr max_level fresh top in
      elim (Bool-cases (ltb sl.level lvl)) [
        | inl y ↦ rw y (
            insert_node-plain rb (record sl { level = lvl }) key pid lvl hdr
              (update ++ replicate (lvl - sl.level) hdr) low p.marks (node_alloc lvl m h).0
              (node_alloc lvl m h).1 t)
        | inr n ↦ rw n (
            insert_node-plain rb sl key pid lvl hdr update low p.marks (node_alloc lvl m h).0
              (node_alloc lvl m h).1 t)
      ]

  insert_found :
      (c : Bool) (next : Option Addr) (update : List Addr)
      → (if c
          then (next >>= λ y. set_pid h y pid >>= λ h'. some (pos 0, h', sl))
          else insert_new rb key pid random m hdr update h sl)
        ≡ ((if c
              then (next >>= λ y. set_pid h y pid >>= λ h'. some (pos 0, h', plain sl))
              else Skiplist.insert_new key pid random m hdr update h (plain sl))
            >>= λ r. some (r.0, r.1, with_plain sl r.2))
  insert_found true none update = refl
  insert_found true (some y) update = elim (Option-cases (set_pid h y pid)) [
    | inl n ↦ rw n
    | inr (g, e) ↦ rw e
  ]
  insert_found false next update = insert_new-plain update

  -- If no node is in the tree, the allocator hands out unused memory, the header has 16 levels and
  -- the random level is below 16, then an insertion does what the insertion of the plain list
  -- does, and the tree and the marks stay as they are.
  pub insert-plain :
      (f : ℕ)
      → insert rb f key pid random m h sl
        ≡ lifted sl (Skiplist.insert f key pid random m h (plain sl))
  unfolding insert Skiplist.insert rb_find_le
  insert-plain f =
      let start : (if sl.level == max_level then rb_find_le h key sl.top hdr else some hdr)
          ≡ some hdr =
        rw p.top (ground arith) in
      >>=-some _ header
      ∙ (rw (top, ◌>>=◌, start)
          (>>=-cong (descend f h key sl.level hdr []) _ _ _ λ r.
            >>=-cong (load_forward h r.0 0) _ _ _
              λ next. >>=-cong (has_key h key next) _ _ _ λ c. insert_found c next r.1))
      ∙ sym (ap (λ o. o >>= λ r. some (r.0, r.1, with_plain sl r.2)) (>>=-some _ header))

module _ (rb : Rbtree) (sl : RbSkiplist) (p : IsPlain sl) (f key : ℕ) (h : Heap) where
  remove_node-plain :
      (hdr x : Addr) (update : List Addr)
      → remove_node rb hdr x update h sl ≡ (
          Skiplist.remove_node hdr x update h (plain sl) >>= λ r.
          some (r.0, r.1, with_plain sl r.2))
  unfolding remove_node Skiplist.remove_node
  remove_node-plain hdr x update = rw (p.marks x) (
      >>=-cong (unlink x update sl.level 0 h) _ _ _
        λ g. >>=-cong (shrink g hdr sl.level) _ _ _ λ l. refl)

  remove_found :
      (c : Bool) (next : Option Addr) (hdr : Addr) (update : List Addr)
      → (if c then (next >>= λ x. remove_node rb hdr x update h sl) else some (none, h, sl)) ≡ (
          (if c
            then (next >>= λ x. Skiplist.remove_node hdr x update h (plain sl))
            else some (none, h, plain sl))
          >>= λ r. some (r.0, r.1, with_plain sl r.2))
  remove_found true none hdr update = refl
  remove_found true (some x) hdr update = remove_node-plain hdr x update
  remove_found false next hdr update = refl

  remove_at :
      (o : Option Addr)
      → elim o as (λ _. Option (Option Addr × Heap × RbSkiplist)) [
        | none ↦ some (none, h, sl)
        | some hdr ↦ remove_from rb f key hdr h sl
      ]
        ≡ lifted sl (elim o as (λ _. Option (Option Addr × Heap × Skiplist)) [
          | none ↦ some (none, h, plain sl)
          | some hdr ↦ Skiplist.remove_from f key hdr h (plain sl)
        ])
  unfolding remove_from Skiplist.remove_from rb_find_le
  remove_at none = refl
  remove_at (some hdr) =
      let start : rb_find_le h key sl.top hdr ≡ some hdr = rw p.top in
      >>=-some _ start
      ∙ (>>=-cong (descend f h key sl.level hdr []) _ _ _ λ r.
          >>=-cong (load_forward h r.0 0) _ _ _
            λ next. >>=-cong (has_key h key next) _ _ _ λ c. remove_found c next hdr r.1)

  -- If no node is in the tree, a removal does what the removal of the plain list does, and the
  -- tree and the marks stay as they are.
  pub remove-plain : remove rb f key h sl ≡ lifted sl (Skiplist.remove f key h (plain sl))
  unfolding remove Skiplist.remove
  remove-plain = remove_at sl.header
