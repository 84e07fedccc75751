-- ===== src/Pid/Free.antt =====
-- `free_pid`, `put_pid` and `disable_pid_allocation`.
pub mod Released
use linux_kernel_code_projec.Base.{
  ℕ, ◌+◌, ◌-◌, ◌%◌, ◌^◌, Bool, true, false, ◌||◌, Option, none, some, List, [], ◌∷◌, ◌++◌, ◌==◌,
  if◌then◌else◌, get_elem?,
}
use linux_kernel_code_projec.Base.Run.{◌>>=◌}
use linux_kernel_code_projec.Store.{PidRef, int_of}
use linux_kernel_code_projec.PidTable.{TableOps}
use linux_kernel_code_projec.Pid.{NsId, Namespace}
use linux_kernel_code_projec.Pid.Find.{Upid, PidStruct}
use linux_kernel_code_projec.Pid.Alloc.{System, set_space, set_struct, pidns_adding, put_pid_ns}

-- What `free_pid` asks for: that the reaper of a namespace wakes up, or that its /proc is cleaned up.
pub data Effect : Type 0 where
  wake_up_process : NsId → Effect
  schedule_work : NsId → Effect

-- The `switch` over what `--pid_allocated` gives: `pid_allocated` and the effects.
unfoldable pub settle : NsId → ℕ → ℕ × List Effect
settle id count =
    if count == 2 || count == 1
    then (count, wake_up_process id ∷ [])
    else if count == pidns_adding || count == 0
    then (0, schedule_work id ∷ [])
    else (count, [])

-- `--count` of an unsigned int
abbrev pub decrement : ℕ → ℕ
decrement count = (count + (2 ^ 32 - 1)) % 2 ^ 32

module _ (T : TableOps) where
  open T use {remove}

  -- The loop over the numbers of the pid, from the lowest level on.
  unfoldable pub free_levels : List Upid → System T → Option (System T × List Effect)
  free_levels [] w = some (w, [])
  free_levels (u ∷ us) w = w.spaces u.ns >>= λ ns. remove ns.table (int_of u.nr) >>= λ t.
      free_levels us (
        set_space T u.ns
          (some
            (record ns { table = t; pid_allocated = (settle u.ns (decrement ns.pid_allocated)).0 }))
          w)
      >>= λ r. some (r.0, (settle u.ns (decrement ns.pid_allocated)).1 ++ r.1)

  -- `free_pid`, which hands the pid to `put_pid` after a grace period
  unfoldable pub free_pid : PidRef → System T → Option (System T × List Effect)
  free_pid p w = do s ← w.pids p; free_levels s.numbers w

  -- `put_pid`
  unfoldable pub put_pid : Option PidRef → System T → Option (System T)
  put_pid none w = some w
  put_pid (some p) w = do
    s ← w.pids p
    u ← get_elem? s.numbers s.level
    if s.count == 1
        then put_pid_ns T (s.level + 1) u.ns (set_struct T p none w)
        else some (set_struct T p (some (record s { count = s.count - 1 })) w)

  -- `disable_pid_allocation`
  unfoldable pub disable_pid_allocation : NsId → System T → Option (System T)
  disable_pid_allocation id w = do
    ns ← w.spaces id
    some (set_space T id (some (record ns { pid_allocated = ns.pid_allocated % 2 ^ 31 })) w)
