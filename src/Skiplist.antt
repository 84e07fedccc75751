-- ===== src/Skiplist.antt =====
-- The skip list of skiplist/pid_skiplist.c. Each function takes the memory and the list, and
-- returns what it has written. The walk along one level takes fuel, one unit for each node.
pub mod Chain
pub mod Search
pub mod View
pub mod Read
pub mod Iterate
pub mod Rewire
pub mod Pred
pub mod Link
pub mod Level
pub mod Shares
pub mod Splice
pub mod WriterSearch
pub mod Insert
pub mod Remove
pub mod Lifetime
pub mod Between
pub mod AsTable
use linux_kernel_code_projec.Base.{
  ℕ, zero, suc, ◌+◌, ◌-◌, ◌/◌, ◌%◌, ◌^◌, Bool, true, false, Option, none, some, List, [], ◌∷◌, ◌++◌,
  ltb, ◌==◌, if◌then◌else◌, ℤ, pos, negsuc, get_elem?, replicate,
}
use linux_kernel_code_projec.Base.Run.{◌>>=◌}
use linux_kernel_code_projec.Store.{
  Addr, PidRef, int_min, Heap, load_key, load_pid, load_forward, set_forward, set_pid, set_key,
  free_node, Alloc, node_alloc,
}

abbrev pub max_level : ℕ
max_level = 16

-- -ENOMEM
abbrev pub minus_enomem : ℤ
minus_enomem = negsuc 11

pub record Skiplist : Type 0 where
  pub level : ℕ
  pub header : Option Addr

-- The loop of `pid_sl_random_level`, with the rounds left until `level` is PID_SL_MAX_LEVEL. The
-- test reads the low four bits, and the shift drops them.
unfoldable pub random_level_loop : ℕ → ℕ → ℕ → ℕ
random_level_loop zero level random = level
random_level_loop (suc n) level random =
    let rest = random_level_loop n (level + 1) (random / 2 ^ 4) in
    if random % 2 ^ 4 == 0 then rest else level

-- `random` is what `prandom_u32` returns.
unfoldable pub random_level : ℕ → ℕ
random_level random = random_level_loop (max_level - 1) 1 random

-- `while (x->forward[i] && x->forward[i]->key < key) x = x->forward[i];`
unfoldable pub walk : ℕ → Heap → ℕ → ℕ → Addr → Option Addr
walk zero h i key x = none
walk (suc f) h i key x = load_forward h x i >>= λ next. elim next [
  | none ↦ some x
  | some y ↦ load_key h y >>= λ k. elim (ltb k key) [ true ↦ walk f h i key y | false ↦ some x ]
]

-- The loop over the levels below `n`, downwards from `x`. It returns where it ends and `update`,
-- whose entries for the levels above are in `acc`.
unfoldable pub descend : ℕ → Heap → ℕ → ℕ → Addr → List Addr → Option (Addr × List Addr)
descend f h key zero x acc = some (x, acc)
descend f h key (suc i) x acc = walk f h i key x >>= λ y. descend f h key i y (y ∷ acc)

-- `x && x->key == key`
unfoldable pub has_key : Heap → ℕ → Option Addr → Option Bool
has_key h key none = some false
has_key h key (some x) = do k ← load_key h x; some (k == key)

-- The loop that links `x` on `n` levels from `i` on.
unfoldable pub link : Addr → List Addr → ℕ → ℕ → Heap → Option Heap
link x update zero i h = some h
link x update (suc n) i h = do
  u ← get_elem? update i
  v ← load_forward h u i
  h₁ ← set_forward h x i v
  h₂ ← set_forward h₁ u i (some x)
  link x update n (i + 1) h₂

-- What follows the allocation in `pid_skiplist_insert`.
unfoldable pub insert_node :
    ℕ → Option PidRef → ℕ → List Addr → Skiplist → Option Addr × Heap → Option (ℤ × Heap × Skiplist)
insert_node key pid lvl update sl (none, h) = some (minus_enomem, h, sl)
insert_node key pid lvl update sl (some x, h) = do
  h₁ ← set_key h x key
  h₂ ← set_pid h₁ x pid
  h₃ ← link x update lvl 0 h₂
  some (pos 0, h₃, sl)

-- The new node: its level, and `update` and the list's level where it is the highest.
unfoldable pub insert_new :
    ℕ
    → Option PidRef
    → ℕ
    → Alloc
    → Addr
    → List Addr
    → Heap
    → Skiplist
    → Option (ℤ × Heap × Skiplist)
insert_new key pid random m hdr update h sl =
    let lvl = random_level random in
    if ltb sl.level lvl
    then insert_node key pid lvl (update ++ replicate (lvl - sl.level) hdr)
        (record sl { level = lvl }) (node_alloc lvl m h)
    else insert_node key pid lvl update sl (node_alloc lvl m h)

-- `pid_skiplist_insert`. A header of NULL is dereferenced, which is a fault.
unfoldable pub insert :
    ℕ → ℕ → Option PidRef → ℕ → Alloc → Heap → Skiplist → Option (ℤ × Heap × Skiplist)
insert f key pid random m h sl = do
  hdr ← sl.header
  (x, update) ← descend f h key sl.level hdr []
  next ← load_forward h x 0
  found ← has_key h key next
  if found
      then (do y ← next; h' ← set_pid h y pid; some (pos 0, h', sl))
      else insert_new key pid random m hdr update h sl

-- `pid_skiplist_lookup_rcu`
unfoldable pub lookup : ℕ → ℕ → Heap → Skiplist → Option (Option PidRef)
lookup f key h sl = elim sl.header [
  | none ↦ some none
  | some hdr ↦ do
    (x, _) ← descend f h key sl.level hdr []
    next ← load_forward h x 0
    found ← has_key h key next
    if found then next >>= load_pid h else some none
]

-- `v == x`, of pointers
abbrev pub points_to : Option Addr → Addr → Bool
points_to none x = false
points_to (some y) x = y == x

-- The loop that unlinks `x` on `n` levels from `i` on: it stops where `x` is not linked.
unfoldable pub unlink : Addr → List Addr → ℕ → ℕ → Heap → Option Heap
unlink x update zero i h = some h
unlink x update (suc n) i h = get_elem? update i >>= λ u. load_forward h u i >>= λ v.
    elim (points_to v x) [
      | false ↦ some h
      | true ↦ do w ← load_forward h x i; h' ← set_forward h u i w; unlink x update n (i + 1) h'
    ]

-- `while (new_level > 1 && !sl->header->forward[new_level - 1]) new_level--;`
unfoldable pub shrink : Heap → Addr → ℕ → Option ℕ
shrink h hdr zero = some zero
shrink h hdr (suc zero) = some 1
shrink h hdr (suc (suc n)) = load_forward h hdr (suc n) >>= λ v. elim v [
  | none ↦ shrink h hdr (suc n)
  | some _ ↦ some (suc (suc n))
]

-- What follows the search in `pid_skiplist_remove`. The node that it returns is handed to
-- `call_rcu`, which frees it by `free_node` after a grace period.
unfoldable pub remove_node :
    Addr → Addr → List Addr → Heap → Skiplist → Option (Option Addr × Heap × Skiplist)
remove_node hdr x update h sl = do
  h' ← unlink x update sl.level 0 h
  level ← shrink h' hdr sl.level
  some (some x, h', record sl { level = level })

-- `pid_skiplist_remove`, below its guard
unfoldable pub remove_from : ℕ → ℕ → Addr → Heap → Skiplist → Option (Option Addr × Heap × Skiplist)
remove_from f key hdr h sl = do
  (y, update) ← descend f h key sl.level hdr []
  next ← load_forward h y 0
  found ← has_key h key next
  if found then (do x ← next; remove_node hdr x update h sl) else some (none, h, sl)

-- `pid_skiplist_remove`
unfoldable pub remove : ℕ → ℕ → Heap → Skiplist → Option (Option Addr × Heap × Skiplist)
remove f key h sl = elim sl.header [
  | none ↦ some (none, h, sl)
  | some hdr ↦ remove_from f key hdr h sl
]

-- The pid of the node to which the cursor moves, and the cursor.
unfoldable pub visit : Heap → Option Addr → Option Addr → Option (Option PidRef × Option Addr)
visit h none cursor = some (none, cursor)
visit h (some x) cursor = do p ← load_pid h x; some (p, some x)

-- `!node || node->key < start_key`, with the node where it is neither
unfoldable pub at_least : Heap → ℕ → Option Addr → Option (Option Addr)
at_least h key none = some none
at_least h key (some x) = do k ← load_key h x; some (if ltb k key then none else some x)

-- `pid_skiplist_iter_next_rcu`: the pid that it returns, and `*cursor` afterwards.
unfoldable pub iter_next :
    ℕ → ℕ → Option Addr → Heap → Skiplist → Option (Option PidRef × Option Addr)
iter_next f start_key cursor h sl = elim sl.header [
  | none ↦ some (none, cursor)
  | some hdr ↦ elim cursor [
    | none ↦ do
      (x, _) ← descend f h start_key sl.level hdr []
      next ← load_forward h x 0
      node ← at_least h start_key next
      visit h node none
    | some c ↦ do next ← load_forward h c 0; visit h next (some c)
  ]
]

-- `pid_skiplist_find_ge_rcu`. A header of NULL is dereferenced.
unfoldable pub find_ge : ℕ → ℕ → Heap → Skiplist → Option (Option PidRef)
find_ge f key h sl = do
  hdr ← sl.header
  (x, _) ← descend f h key sl.level hdr []
  next ← load_forward h x 0
  elim next [ none ↦ some none | some y ↦ load_pid h y ]

-- `pid_skiplist_init`: the header has every level, the key INT_MIN and no pid.
unfoldable pub init : Alloc → Heap → Option (Heap × Skiplist)
init m h =
    let (header, h₁) = node_alloc max_level m h in
    do
      hdr ← header
      h₂ ← set_key h₁ hdr int_min
      h₃ ← set_pid h₂ hdr none
      some (h₃, record { level = 1; header = some hdr })

-- The loop of `pid_skiplist_destroy`: it frees the nodes from `node` on.
unfoldable pub destroy_loop : ℕ → Option Addr → Heap → Option Heap
destroy_loop zero cur h = none
destroy_loop (suc f) cur h = elim cur [
  | none ↦ some h
  | some x ↦ do next ← load_forward h x 0; h' ← free_node h x; destroy_loop f next h'
]

-- `pid_skiplist_destroy`
unfoldable pub destroy : ℕ → Heap → Skiplist → Option Heap
destroy f h sl = do
  hdr ← sl.header
  first ← load_forward h hdr 0
  h' ← destroy_loop f first h
  free_node h' hdr

-- The loop `while ((pid = pid_skiplist_iter_next_rcu(…, &cursor, nr)) != NULL)` of
-- `zap_pid_ns_processes` in skiplist/pid_namespace.c: the pids that its body sees. `n` bounds its
-- rounds.
unfoldable pub iterate : ℕ → ℕ → ℕ → Option Addr → Heap → Skiplist → Option (List PidRef)
iterate zero f nr cursor h sl = none
iterate (suc n) f nr cursor h sl = iter_next f nr cursor h sl >>= λ r. elim r.0 [
  | none ↦ some []
  | some p ↦ do ps ← iterate n f nr r.1 h sl; some (p ∷ ps)
]
