-- ===== src/PidTable.antt =====
-- What kernel/pid.c relies on: the table of the pids of one namespace, `ns->pid_sl`, with the map
-- that it holds. Keys are C ints. The memory that an insertion may need is an argument of it.
use linux_kernel_code_projec.Base.{
  ℕ, ◌≡◌, Bool, true, false, ◌||◌, Option, some, List, [], is_some, if◌then◌else◌, ℤ, pos,
}
use linux_kernel_code_projec.Base.Run.{Returns}
use linux_kernel_code_projec.Store.{PidRef}
use linux_kernel_code_projec.PidMap
use linux_kernel_code_projec.PidMap.{
  PidMap, find, visible, from, first_pid, until_reserved, IsOrdered,
}
use linux_kernel_code_projec.Skiplist.{minus_enomem}

pub record TableOps : Type 1 where
  pub State : Type 0
  pub Memory : Type 0
  -- whether `pid_sl.header` is not NULL
  pub has_header : State → Bool
  pub lookup : State → ℕ → Option (Option PidRef)
  pub find_ge : State → ℕ → Option (Option PidRef)
  pub iterate : State → ℕ → Option (List PidRef)
  pub insert : Memory → State → ℕ → Option PidRef → Option (ℤ × State)
  pub remove : State → ℕ → Option State
  pub destroy : State → Option (Unit {0})
  -- a table for a new namespace
  pub init : Memory → Option State

pub record PidTable : Type 1 where
  pub ops : TableOps
  -- whether the memory is enough for a node, and unused in a state
  pub enough : ops.Memory → Bool
  pub Unused : ops.Memory → ops.State → Type 0
  pub Holds : ops.State → PidMap → Type 0
  pub Holds-IsOrdered : (s : ops.State) (m : PidMap) → Holds s m → IsOrdered m
  pub has_header_lem : (s : ops.State) (m : PidMap) → Holds s m → ops.has_header s ≡ true
  pub lookup_lem :
      (s : ops.State) (m : PidMap) (k : ℕ) → Holds s m → ops.lookup s k ≡ some (visible (find k m))
  pub find_ge_lem :
      (s : ops.State) (m : PidMap) (k : ℕ)
      → Holds s m
      → ops.find_ge s k ≡ some (first_pid (from k m))
  pub iterate_lem :
      (s : ops.State) (m : PidMap) (k : ℕ)
      → Holds s m
      → ops.iterate s k ≡ some (until_reserved (from k m))
  pub insert_lem :
      (a : ops.Memory) (s : ops.State) (m : PidMap) (k : ℕ) (p : Option PidRef)
      → Holds s m
      → (is_some (find k m) ≡ false → Unused a s)
      → Returns (ops.insert a s k p) λ r.
        (r.0 ≡ (if is_some (find k m) || enough a then pos 0 else minus_enomem))
        × Holds r.1 (if is_some (find k m) || enough a then PidMap.insert k p m else m)
        × ((is_some (find k m) || enough a) ≡ false → (b : ops.Memory) → Unused b s → Unused b r.1)
  pub remove_lem :
      (s : ops.State) (m : PidMap) (k : ℕ)
      → Holds s m
      → Returns (ops.remove s k) (λ s'. Holds s' (PidMap.erase k m))
  pub destroy_lem : (s : ops.State) (m : PidMap) → Holds s m → ops.destroy s ≡ some tt
  pub init_lem : (a : ops.Memory) → enough a ≡ true → Returns (ops.init a) (λ s. Holds s [])
