-- ===== src/Pid.antt =====
-- Numbers for processes: skiplist/pid.c, whose text rb-skiplist/pid.c repeats with the other table.
-- `T` is the table of a namespace.
pub mod Scan
pub mod Number
pub mod Choice
pub mod Find
pub mod Alloc
pub mod Maps
pub mod Spaces
pub mod Nested
pub mod Published
pub mod Referenced
pub mod EveryLevel
pub mod RoundTrip
pub mod InitSpace
pub mod Free
pub mod Tasks
pub mod Handles
use linux_kernel_code_projec.Base.{
  ℕ, zero, suc, ◌+◌, ◌-◌, Bool, true, false, ◌||◌, Option, none, some, List, [], ◌∷◌, ltb, leb,
  ◌==◌, if◌then◌else◌, ℤ, pos, negsuc,
}
use linux_kernel_code_projec.Base.Run.{◌>>=◌}
use linux_kernel_code_projec.Store.{PidRef, int_of}
use linux_kernel_code_projec.PidTable.{TableOps}

abbrev pub NsId : Type 0
NsId = ℕ

-- `struct pid_namespace`, the part of it that pid.c uses
pub record Namespace (T : TableOps) : Type 0 where
  pub table : T.State
  pub last_pid : ℕ
  pub pid_allocated : ℕ
  pub level : ℕ
  pub parent : Option NsId
  pub kref : ℕ

abbrev pub is_zero : ℤ → Bool
is_zero (pos n) = n == 0
is_zero (negsuc n) = false

-- `last_pid + 1`, or `pid_min` where that is out of range
unfoldable pub start_pid : ℕ → ℕ → ℕ
start_pid pid_max last_pid =
    let next = last_pid + 1 in if ltb next 1 || leb pid_max next then 1 else next

module _ (T : TableOps) where
  open T use {State, Memory, lookup, insert, remove}

  -- The loop that looks for a number, from `i` on for `n` rounds: a number at which the lookup gives
  -- NULL is inserted with NULL; where that fails the loop goes on. `mem i` is the memory for the
  -- attempt at `i`. It returns the number and `retval`.
  unfoldable pub scan : (ℕ → Memory) → ℕ → ℕ → State → ℤ → Option (Option ℕ × State × ℤ)
  scan mem zero i s ret = some (none, s, ret)
  scan mem (suc n) i s ret = lookup s (int_of i) >>= λ existing. elim existing [
    | some p ↦ scan mem n (i + 1) s ret
    | none ↦ insert (mem i) s (int_of i) none >>= λ r. elim (is_zero r.0) [
      | true ↦ some (some i, r.1, r.0)
      | false ↦ scan mem n (i + 1) r.1 r.0
    ]
  ]

  -- The number of one level in `alloc_pid`: the two loops, and `last_pid`. `mem` is for the first
  -- loop and `mem'` for the second.
  unfoldable pub alloc_nr :
      ℕ → (ℕ → Memory) → (ℕ → Memory) → Namespace T → ℤ → Option (Option ℕ × Namespace T × ℤ)
  alloc_nr pid_max mem mem' ns ret =
      let start = start_pid pid_max ns.last_pid in
      scan mem (pid_max - start) start ns.table ret >>= λ r. elim r.0 [
        | some nr ↦ some (some nr, record ns { table = r.1; last_pid = nr }, r.2)
        | none ↦ scan mem' (start - 1) 1 r.1 r.2 >>= λ r'. elim r'.0 [
          | some nr ↦ some (some nr, record ns { table = r'.1; last_pid = nr }, r'.2)
          | none ↦ some (none, record ns { table = r'.1 }, r'.2)
        ]
      ]
