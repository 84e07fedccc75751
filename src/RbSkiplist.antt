-- ===== src/RbSkiplist.antt =====
-- The skip list of rb-skiplist/pid_rb_skiplist.c: the nodes on the highest level also stand in a
-- red-black tree, and a search starts at a node that the tree gives. Nodes, levels, the walk along
-- a level, the links and the cursor are as in skiplist/pid_skiplist.c and are taken from there.
-- The tree's links `rb_node` and the mark `in_rb_tree`, fields of a node in C, stand apart: a tree
-- of addresses, and a function.
pub mod TopTree
pub mod Plain
pub mod Miss
pub mod Raised
pub mod AsOps
use linux_kernel_code_projec.Base.{
  ℕ, zero, suc, ◌+◌, ◌-◌, ◌≡◌, Bool, true, false, ◌&&◌, Option, none, some, List, [], ◌∷◌, ◌++◌,
  ltb, leb, ◌==◌, if◌then◌else◌, ℤ, pos, replicate,
}
use linux_kernel_code_projec.Base.Run.{◌>>=◌}
use linux_kernel_code_projec.Store.{
  Addr, PidRef, int_min, Heap, load_key, load_pid, load_level, load_forward, set_pid, set_key,
  free_node, Alloc, node_alloc,
}
use linux_kernel_code_projec.Skiplist.{
  max_level, minus_enomem, random_level, descend, has_key, link, unlink, shrink, visit, at_least,
}

pub data Tree : Type 0 where
  leaf : Tree
  node : Tree → Addr → Tree → Tree

-- The addresses in order.
abbrev pub inorder : Tree → List Addr
inorder leaf = []
inorder (node l x r) = inorder l ++ x ∷ inorder r

abbrev pub without : Addr → List Addr → List Addr
without x [] = []
without x (y ∷ ys) = if y == x then ys else y ∷ without x ys

-- The functions of lib/rbtree.c that the code calls: both keep the order of the nodes.
pub record Rbtree : Type 0 where
  pub rb_insert_color : Tree → Tree
  pub rb_erase : Addr → Tree → Tree
  pub inorder-rb_insert_color : (t : Tree) → inorder (rb_insert_color t) ≡ inorder t
  pub inorder-rb_erase : (x : Addr) (t : Tree) → inorder (rb_erase x t) ≡ without x (inorder t)

pub record RbSkiplist : Type 0 where
  pub level : ℕ
  pub header : Option Addr
  pub top : Tree
  pub in_rb_tree : Addr → Bool

abbrev pub mark : (Addr → Bool) → Addr → Bool → Addr → Bool
mark f x b y = if y == x then b else f y

-- `rb_find_le`: the last node of the tree whose key is at most `key`, or `result`.
unfoldable pub rb_find_le : Heap → ℕ → Tree → Addr → Option Addr
rb_find_le h key leaf result = some result
rb_find_le h key (node l x r) result = load_key h x >>= λ k. elim (leb k key) [
  | true ↦ rb_find_le h key r x
  | false ↦ rb_find_le h key l result
]

-- The descent of `rb_insert_node` to the place of a key, and whether the node was put there.
unfoldable pub rb_place : Heap → ℕ → Addr → Tree → Option (Tree × Bool)
rb_place h key x leaf = some (node leaf x leaf, true)
rb_place h key x (node l y r) = load_key h y >>= λ k. elim (ltb key k) [
  | true ↦ do (t, new) ← rb_place h key x l; some (node t y r, new)
  | false ↦ elim (ltb k key) [
    | true ↦ do (t, new) ← rb_place h key x r; some (node l y t, new)
    | false ↦ some (node l y r, false)
  ]
]

module _ (rb : Rbtree) where
  open rb use {rb_insert_color, rb_erase}

  -- `rb_insert_node`
  unfoldable pub rb_insert_node : Heap → Addr → RbSkiplist → Option RbSkiplist
  rb_insert_node h x sl = do
    key ← load_key h x
    (t, new) ← rb_place h key x sl.top
    some (
        if new
        then record sl { top = rb_insert_color t; in_rb_tree = mark sl.in_rb_tree x true }
        else sl)

  -- `pid_rb_skiplist_insert` after the allocation, which leaves the mark of a node cleared
  unfoldable pub insert_node :
      ℕ
      → Option PidRef
      → ℕ
      → Addr
      → List Addr
      → RbSkiplist
      → Option Addr × Heap
      → Option (ℤ × Heap × RbSkiplist)
  insert_node key pid lvl hdr update sl (none, h) = some (minus_enomem, h, sl)
  insert_node key pid lvl hdr update sl (some x, h) =
      let sl₁ = record sl { in_rb_tree = mark sl.in_rb_tree x false } in
      do
        h₁ ← set_key h x key
        h₂ ← set_pid h₁ x pid
        h₃ ← link x update lvl 0 h₂
        top ← load_level h₃ hdr
        if lvl == sl.level && lvl == top
            then (do sl' ← rb_insert_node h₃ x sl₁; some (pos 0, h₃, sl'))
            else some (pos 0, h₃, sl₁)

  unfoldable pub insert_new :
      ℕ
      → Option PidRef
      → ℕ
      → Alloc
      → Addr
      → List Addr
      → Heap
      → RbSkiplist
      → Option (ℤ × Heap × RbSkiplist)
  insert_new key pid random m hdr update h sl =
      let lvl = random_level random in
      if ltb sl.level lvl
      then insert_node key pid lvl hdr (update ++ replicate (lvl - sl.level) hdr)
          (record sl { level = lvl }) (node_alloc lvl m h)
      else insert_node key pid lvl hdr update sl (node_alloc lvl m h)

  -- `pid_rb_skiplist_insert`: the tree is asked where the list has its highest level.
  unfoldable pub insert :
      ℕ → ℕ → Option PidRef → ℕ → Alloc → Heap → RbSkiplist → Option (ℤ × Heap × RbSkiplist)
  insert f key pid random m h sl = do
    hdr ← sl.header
    top ← load_level h hdr
    s ← (if sl.level == top then rb_find_le h key sl.top hdr else some hdr)
    (x, update) ← descend f h key sl.level s []
    next ← load_forward h x 0
    found ← has_key h key next
    if found
        then (do y ← next; h' ← set_pid h y pid; some (pos 0, h', sl))
        else insert_new key pid random m hdr update h sl

  -- `pid_rb_skiplist_remove` once the node is found
  unfoldable pub remove_node :
      Addr → Addr → List Addr → Heap → RbSkiplist → Option (Option Addr × Heap × RbSkiplist)
  remove_node hdr x update h sl =
      let sl₁ =
        if sl.in_rb_tree x
        then record sl { top = rb_erase x sl.top; in_rb_tree = mark sl.in_rb_tree x false }
        else sl in
      do
        h' ← unlink x update sl.level 0 h
        level ← shrink h' hdr sl.level
        some (some x, h', record sl₁ { level = level })

  unfoldable pub remove_from :
      ℕ → ℕ → Addr → Heap → RbSkiplist → Option (Option Addr × Heap × RbSkiplist)
  remove_from f key hdr h sl = do
    s ← rb_find_le h key sl.top hdr
    (y, update) ← descend f h key sl.level s []
    next ← load_forward h y 0
    found ← has_key h key next
    if found then (do x ← next; remove_node hdr x update h sl) else some (none, h, sl)

  -- `pid_rb_skiplist_remove`
  unfoldable pub remove : ℕ → ℕ → Heap → RbSkiplist → Option (Option Addr × Heap × RbSkiplist)
  remove f key h sl = elim sl.header [
    | none ↦ some (none, h, sl)
    | some hdr ↦ remove_from f key hdr h sl
  ]

  -- The loop of `pid_rb_skiplist_destroy`.
  unfoldable pub destroy_loop : ℕ → Option Addr → Heap → RbSkiplist → Option (Heap × RbSkiplist)
  destroy_loop zero cur h sl = none
  destroy_loop (suc f) cur h sl = elim cur [
    | none ↦ some (h, sl)
    | some x ↦ do
      next ← load_forward h x 0
      h' ← free_node h x
      destroy_loop f next h' (if sl.in_rb_tree x then record sl { top = rb_erase x sl.top } else sl)
  ]

  -- `pid_rb_skiplist_destroy`
  unfoldable pub destroy : ℕ → Heap → RbSkiplist → Option Heap
  destroy f h sl = do
    hdr ← sl.header
    first ← load_forward h hdr 0
    (h', _) ← destroy_loop f first h sl
    free_node h' hdr

-- `pid_rb_skiplist_lookup_rcu`
unfoldable pub lookup : ℕ → ℕ → Heap → RbSkiplist → Option (Option PidRef)
lookup f key h sl = elim sl.header [
  | none ↦ some none
  | some hdr ↦ do
    s ← rb_find_le h key sl.top hdr
    (x, _) ← descend f h key sl.level s []
    next ← load_forward h x 0
    found ← has_key h key next
    if found then next >>= load_pid h else some none
]

-- `pid_rb_skiplist_iter_next_rcu`
unfoldable pub iter_next :
    ℕ → ℕ → Option Addr → Heap → RbSkiplist → Option (Option PidRef × Option Addr)
iter_next f start_key cursor h sl = elim sl.header [
  | none ↦ some (none, cursor)
  | some hdr ↦ elim cursor [
    | none ↦ do
      s ← rb_find_le h start_key sl.top hdr
      (x, _) ← descend f h start_key sl.level s []
      next ← load_forward h x 0
      found ← at_least h start_key next
      visit h found none
    | some c ↦ do next ← load_forward h c 0; visit h next (some c)
  ]
]

-- `pid_rb_skiplist_find_ge_rcu`
unfoldable pub find_ge : ℕ → ℕ → Heap → RbSkiplist → Option (Option PidRef)
find_ge f key h sl = elim sl.header [
  | none ↦ some none
  | some hdr ↦ do
    s ← rb_find_le h key sl.top hdr
    (x, _) ← descend f h key sl.level s []
    next ← load_forward h x 0
    elim next [ none ↦ some none | some y ↦ load_pid h y ]
]

-- `pid_rb_skiplist_init`
unfoldable pub init : Alloc → Heap → Option (Heap × RbSkiplist)
init m h =
    let (header, h₁) = node_alloc max_level m h in
    do
      hdr ← header
      h₂ ← set_key h₁ hdr int_min
      h₃ ← set_pid h₂ hdr none
      some (h₃, record { level = 1; header = some hdr; top = leaf; in_rb_tree = λ _. false })
