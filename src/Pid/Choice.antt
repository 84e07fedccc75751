-- ===== src/Pid/Choice.antt =====
-- What the search of `alloc_pid` for a number guarantees, and what it does not.
use linux_kernel_code_projec.Base.{ℕ, ◌+◌, ◌<◌, ◌≡◌, sym, ◌∙◌, true, false, none, some, ℤ}
use linux_kernel_code_projec.Base.Run.{Returns}
use linux_kernel_code_projec.Store.{int_of}
use linux_kernel_code_projec.PidMap.{PidMap, find}
use linux_kernel_code_projec.PidTable.{PidTable}
use linux_kernel_code_projec.Pid.{Namespace, alloc_nr}
use linux_kernel_code_projec.Pid.Scan.{invisible}
use linux_kernel_code_projec.Pid.Number.{
  alloc_nr-Numbered, cyclic_fit-bounds, cyclic_fit-none, cyclic_fit-reserved,
}

module _ (T : PidTable) (pid_max : ℕ) (mem mem' : ℕ → T.ops.Memory) (m : PidMap)
    (ns : Namespace T.ops) (ret : ℤ) (v : T.Holds ns.table m)
    (u : (j : ℕ) → T.Unused (mem j) ns.table) (u' : (j : ℕ) → T.Unused (mem' j) ns.table) where
  -- If `pid_max` is above 1, the table holds a map and memory is unused, then the search returns,
  -- and a number that it takes is above 0 and below `pid_max`, and shows no pid in the map.
  pub alloc_nr-bounds :
      1 < pid_max
      → Returns
          (alloc_nr T.ops pid_max mem mem' ns ret)
          λ r. (j : ℕ) → r.0 ≡ some j → (0 < j) × (j < pid_max) × (invisible m j ≡ true)
  alloc_nr-bounds lt =
      let (r, run, t) = alloc_nr-Numbered T pid_max mem mem' m ns ret v u u' in
      (r, run, λ j e. cyclic_fit-bounds T pid_max mem mem' ns.last_pid m j lt (sym t.nr ∙ e))

  -- If `pid_max` is above 1, the table holds a map and the allocator has unused memory for every
  -- attempt, then the search returns, and if it finds no number, every number from 1 to below
  -- `pid_max` shows a pid in the map.
  pub alloc_nr-full :
      ((i : ℕ) → (T.enough (mem i) ≡ true) × (T.enough (mem' i) ≡ true))
      → 1 < pid_max
      → Returns
          (alloc_nr T.ops pid_max mem mem' ns ret)
          λ r. r.0 ≡ none → (j : ℕ) → 0 < j → j < pid_max → invisible m j ≡ false
  alloc_nr-full memory lt =
      let (r, run, t) = alloc_nr-Numbered T pid_max mem mem' m ns ret v u u' in
      (
        r,
        run,
        λ e j lo hi.
            cyclic_fit-none T pid_max mem mem' ns.last_pid m j memory lt (sym t.nr ∙ e) lo hi,
      )

  -- If the table holds a map, memory is unused, and the number after `last_pid` is below `pid_max`
  -- and reserved in the map, without a pid, then the search returns that number again.
  pub alloc_nr-reserved :
      ns.last_pid + 1 < pid_max
      → find (int_of (ns.last_pid + 1)) m ≡ some none
      → Returns (alloc_nr T.ops pid_max mem mem' ns ret) (λ r. r.0 ≡ some (ns.last_pid + 1))
  alloc_nr-reserved lt e =
      let (r, run, t) = alloc_nr-Numbered T pid_max mem mem' m ns ret v u u' in
      (r, run, t.nr ∙ cyclic_fit-reserved T pid_max mem mem' ns.last_pid m lt e)
