-- ===== src/Pid/Handles.antt =====
-- Counted references to pids, `pidfd_open`, the cursor of a namespace and `pid_idr_init`.
pub mod Counted
use linux_kernel_code_projec.Base.{
  ℕ, ◌+◌, ◌*◌, Bool, true, false, not, Option, none, some, List, ltb, ◌==◌, if◌then◌else◌,
  get_elem?, ℤ, pos, negsuc,
}
use linux_kernel_code_projec.Base.Run.{◌>>=◌}
use linux_kernel_code_projec.Store.{PidRef}
use linux_kernel_code_projec.PidTable.{TableOps}
use linux_kernel_code_projec.Pid.{NsId, Namespace}
use linux_kernel_code_projec.Pid.Find.{PidStruct, find_pid_ns}
use linux_kernel_code_projec.Pid.Alloc.{System, set_space, set_struct, minus_einval, init_pid_ns}
use linux_kernel_code_projec.Pid.Free.{put_pid}

-- -ESRCH
abbrev pub minus_esrch : ℤ
minus_esrch = negsuc 2

abbrev pub is_negative : ℤ → Bool
is_negative (pos n) = false
is_negative (negsuc n) = true

abbrev pub max : ℕ → ℕ → ℕ
max m n = if ltb m n then n else m

abbrev pub min : ℕ → ℕ → ℕ
min m n = if ltb m n then m else n

-- `ns_of_pid`
unfoldable pub ns_of_pid : Option PidStruct → Option (Option NsId)
ns_of_pid none = some none
ns_of_pid (some p) = do u ← get_elem? p.numbers p.level; some (some u.ns)

-- `pid_nr`
unfoldable pub pid_nr : Option PidStruct → Option ℕ
pid_nr none = some 0
pid_nr (some p) = do u ← get_elem? p.numbers 0; some u.nr

module _ (T : TableOps) where
  open T use {Memory, init}

  -- `pid_ns_get_cursor`
  unfoldable pub pid_ns_get_cursor : Namespace T → ℕ
  pid_ns_get_cursor ns = ns.last_pid

  -- `pid_ns_set_cursor`
  unfoldable pub pid_ns_set_cursor : Namespace T → ℕ → Namespace T
  pid_ns_set_cursor ns cursor = record ns { last_pid = cursor }

  -- `get_pid`
  unfoldable pub get_pid : Option PidRef → System T → Option (System T)
  get_pid none w = some w
  get_pid (some p) w = do
    s ← w.pids p
    some (set_struct T p (some (record s { count = s.count + 1 })) w)

  -- `find_get_pid`; `active` is the namespace of the running task.
  unfoldable pub find_get_pid : ℕ → NsId → System T → Option (Option PidRef × System T)
  find_get_pid nr active w = do
    ns ← w.spaces active
    p ← find_pid_ns T nr ns
    w₁ ← get_pid p w
    some (p, w₁)

  -- `pidfd_create`; `fd` is what `anon_inode_getfd` returns.
  unfoldable pub pidfd_create : ℤ → PidRef → System T → Option (ℤ × System T)
  pidfd_create fd p w = do
    w₁ ← get_pid (some p) w
    w₂ ← (if is_negative fd then put_pid T (some p) w₁ else some w₁)
    some (fd, w₂)

  -- `pidfd_open` with the pid that it looked up; `tgid` says whether a pid leads a thread group.
  unfoldable pub open_found : ℤ → (PidRef → Bool) → Option PidRef × System T → Option (ℤ × System T)
  open_found fd tgid (none, w) = some (minus_esrch, w)
  open_found fd tgid (some p, w) = do
    (r, w₁) ← (if tgid p then pidfd_create fd p w else some (minus_einval, w))
    w₂ ← put_pid T (some p) w₁
    some (r, w₂)

  -- `pidfd_open`
  unfoldable pub pidfd_open : ℤ → (PidRef → Bool) → NsId → ℤ → ℕ → System T → Option (ℤ × System T)
  pidfd_open fd tgid active (negsuc n) flags w = some (minus_einval, w)
  pidfd_open fd tgid active (pos n) flags w =
      if not (flags == 0)
      then some (minus_einval, w)
      else if n == 0
      then some (minus_einval, w)
      else (do found ← find_get_pid n active w; open_found fd tgid found)

  -- `pid_idr_init`: `pid_max` and `pid_max_min`, and the initial namespace. The counts for each CPU
  -- are constants of the kernel.
  unfoldable pub pid_idr_init :
      ℕ → ℕ → ℕ → ℕ → ℕ → ℕ → Memory → System T → Option (ℕ × ℕ × System T)
  pid_idr_init per_cpu_default per_cpu_min cpus pid_max pid_max_min pid_max_max header w = do
    ns ← w.spaces init_pid_ns
    t ← init header
    some (
      min pid_max_max (max pid_max (per_cpu_default * cpus)),
      max pid_max_min (per_cpu_min * cpus),
      set_space T init_pid_ns (some (record ns { table = t; last_pid = 0 })) w,
    )
