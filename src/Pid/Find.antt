-- ===== src/Pid/Find.antt =====
-- Finding a pid by its number: `find_pid_ns`, `find_ge_pid` and `pid_nr_ns`.
use linux_kernel_code_projec.Base.{
  ℕ, ◌≡◌, sym, ap, ◌∙◌, not, Option, none, some, List, [], ◌∷◌, arith, leb, ◌==◌, get_elem?,
  if◌then◌else◌,
}
use linux_kernel_code_projec.Base.Run.{◌>>=◌}
use linux_kernel_code_projec.Store.{PidRef, int_of}
use linux_kernel_code_projec.PidMap.{
  PidMap, find, visible, from, first_pid, IsOrdered, find-KeysAbove,
}
use linux_kernel_code_projec.PidTable.{TableOps, PidTable}
use linux_kernel_code_projec.Pid.{NsId, Namespace}

-- `struct upid`: a number, and the namespace where it counts
pub record Upid : Type 0 where
  pub nr : ℕ
  pub ns : NsId

-- `struct pid`, without the tasks that use it
pub record PidStruct : Type 0 where
  pub count : ℕ
  pub level : ℕ
  pub numbers : List Upid

-- `pid_nr_ns`: the number of a pid as the namespace `id` of level `ns_level` sees it, or 0. With
-- `none` the code reads past `numbers`.
unfoldable pub pid_nr_ns : Option PidStruct → NsId → ℕ → Option ℕ
pid_nr_ns none id ns_level = some 0
pid_nr_ns (some p) id ns_level =
    if leb ns_level p.level
    then (do u ← get_elem? p.numbers ns_level; some (if u.ns == id then u.nr else 0))
    else some 0

module _ (T : TableOps) where
  open T use {lookup, find_ge, has_header}

  -- `find_pid_ns`
  unfoldable pub find_pid_ns : ℕ → Namespace T → Option (Option PidRef)
  find_pid_ns nr ns = lookup ns.table (int_of nr)

  -- `find_ge_pid`
  unfoldable pub find_ge_pid : ℕ → Option (Namespace T) → Option (Option PidRef)
  find_ge_pid nr none = some none
  find_ge_pid nr (some ns) =
      if not (has_header ns.table) then some none else find_ge ns.table (int_of nr)

module _ (T : PidTable) where
  open T use {lookup_lem, find_ge_lem, has_header_lem, Holds-IsOrdered}

  first_pid-here :
      (k : ℕ) (p : PidRef) (m : PidMap)
      → IsOrdered m
      → find k m ≡ some (some p)
      → first_pid (from k m) ≡ some p
  unfolding find from first_pid
  first_pid-here k p [] o e = cc
  first_pid-here k p ((j, q) ∷ m) o e = ground (arith, first_pid-here k p m, find-KeysAbove k j m)

  visible_at :
      (nr : ℕ) (ns : Namespace T.ops) (m : PidMap) (p : PidRef)
      → T.Holds ns.table m
      → T.ops.lookup ns.table (int_of nr) ≡ some (some p)
      → visible (find (int_of nr) m) ≡ some p
  visible_at nr ns m p v e = let l = lookup_lem ns.table m (int_of nr) v in cc

  -- If the table of a namespace holds a map and `find_pid_ns` finds a pid at a number, then
  -- `find_ge_pid` gives the same for that number.
  pub find_ge_pid-find_pid_ns :
      (nr : ℕ) (ns : Namespace T.ops) (m : PidMap) (p : PidRef)
      → T.Holds ns.table m
      → find_pid_ns T.ops nr ns ≡ some (some p)
      → find_ge_pid T.ops nr (some ns) ≡ find_pid_ns T.ops nr ns
  unfolding find_pid_ns find_ge_pid
  find_ge_pid-find_pid_ns nr ns m p v e =
      let seen : visible (find (int_of nr) m) ≡ some p = visible_at nr ns m p v e in
      let stored : find (int_of nr) m ≡ some (some p) = ground arith in
      rw (has_header_lem ns.table m v) (
        find_ge_lem ns.table m (int_of nr) v
        ∙ ap some (first_pid-here (int_of nr) p m (Holds-IsOrdered ns.table m v) stored)
        ∙ sym e)
