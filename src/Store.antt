-- ===== src/Store.antt =====
-- The nodes of a skip list in memory: `struct pid_sl_node` of skiplist/pid_skiplist.h and
-- rb-skiplist/pid_rb_skiplist.h, and reads and writes through pointers to them.
-- An address that holds `none` is not allocated. A node and its `forward` array are allocated and
-- freed together, so the array lies in the node's cell.
-- A C `int` that serves as a key is given by its distance from INT_MIN, which keeps the order:
-- `int_of n` is the non-negative number n.
pub mod Laws
use linux_kernel_code_projec.Base.{
  ℕ, ◌+◌, ◌%◌, ◌^◌, Bool, true, false, Option, none, some, List, ◌==◌, if◌then◌else◌, get_elem?,
  set, replicate,
}
use linux_kernel_code_projec.Base.Run.{◌>>=◌}

abbrev pub Addr : Type 0
Addr = ℕ

-- A pointer to a `struct pid`.
abbrev pub PidRef : Type 0
PidRef = ℕ

abbrev pub int_min : ℕ
int_min = 0

abbrev pub int_of : ℕ → ℕ
int_of n = n + 2 ^ 31

pub record Node : Type 0 where
  pub key : ℕ
  pub pid : Option PidRef
  pub forward : List (Option Addr)
  pub level : ℕ

abbrev pub Heap : Type 0
Heap = Addr → Option Node

unfoldable pub write : Heap → Addr → Option Node → Heap
write h a c b = if b == a then c else h b

-- `x->key`, `x->pid`, `x->level`
unfoldable pub load_key : Heap → Addr → Option ℕ
load_key h x = do n ← h x; some n.key

unfoldable pub load_pid : Heap → Addr → Option (Option PidRef)
load_pid h x = do n ← h x; some n.pid

unfoldable pub load_level : Heap → Addr → Option ℕ
load_level h x = do n ← h x; some n.level

-- `x->forward[i]`
unfoldable pub load_forward : Heap → Addr → ℕ → Option (Option Addr)
load_forward h x i = do n ← h x; get_elem? n.forward i

-- `x->forward[i] = v`
unfoldable pub set_forward : Heap → Addr → ℕ → Option Addr → Option Heap
set_forward h x i v = do
  n ← h x
  _ ← get_elem? n.forward i
  some (write h x (some (record n { forward = set n.forward i v })))

-- `x->pid = p`
unfoldable pub set_pid : Heap → Addr → Option PidRef → Option Heap
set_pid h x p = do n ← h x; some (write h x (some (record n { pid = p })))

-- `x->key = k`
unfoldable pub set_key : Heap → Addr → ℕ → Option Heap
set_key h x k = do n ← h x; some (write h x (some (record n { key = k })))

-- `kfree(x->forward); kfree(x)`
unfoldable pub free_node : Heap → Addr → Option Heap
free_node h x = do _ ← h x; some (write h x none)

-- What the allocator answers to the two requests of `pid_sl_node_alloc`: the address of `kzalloc`,
-- and whether `kcalloc` succeeds.
pub record Alloc : Type 0 where
  pub node : Option Addr
  pub array : Bool

-- `pid_sl_node_alloc`. The node is zeroed; without an array it is freed again.
unfoldable pub node_alloc : ℕ → Alloc → Heap → Option Addr × Heap
node_alloc level m h = elim m.node [
  | none ↦ (none, h)
  | some x ↦
      if m.array
      then (
        some x,
        write h x (
            some (record {
              key = int_of 0;
              pid = none;
              forward = replicate level none;
              level = level % 2 ^ 8;
            })),
      )
      else (none, write h x none)
]
