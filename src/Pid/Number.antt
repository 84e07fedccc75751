-- ===== src/Pid/Number.antt =====
-- The number that `alloc_pid` takes in one namespace.
use linux_kernel_code_projec.Base.{
  ℕ, zero, suc, ◌+◌, ◌-◌, ◌≤◌, ◌<◌, ◌≡◌, refl, sym, ◌∙◌, inl, inr, Bool, true, false, Option, none,
  some, arith, Bool-cases, Option-cases, ◌⊎◌, is_some, ltb, ℤ, pos,
}
use linux_kernel_code_projec.Base.Run.{◌>>=◌, Returns}
use linux_kernel_code_projec.Store.{int_of}
use linux_kernel_code_projec.PidMap.{PidMap, find}
use linux_kernel_code_projec.PidTable.{PidTable}
use linux_kernel_code_projec.Pid.{Namespace, start_pid, alloc_nr}
use linux_kernel_code_projec.Pid.Scan.{
  first_fit, reserve, invisible, fits, scan-Scanned, first_fit-holds, first_fit-bounds,
  first_fit-none,
}

pub start_pid_bounds :
    (pid_max last : ℕ)
    → 1 < pid_max
    → (0 < start_pid pid_max last) × (start_pid pid_max last < pid_max)
unfolding start_pid
start_pid_bounds pid_max last lt = ground arith

start_pid-next : (pid_max last : ℕ) → last + 1 < pid_max → start_pid pid_max last ≡ last + 1
unfolding start_pid
start_pid-next pid_max last lt = ground arith

first_fit-here : (f : ℕ → Bool) (n i : ℕ) → 0 < n → f i ≡ true → first_fit f n i ≡ some i
unfolding first_fit
first_fit-here f zero i lt e = absurd (omega arith)
first_fit-here f (suc n) i lt e = rw e

module _ (T : PidTable) (pid_max : ℕ) (mem mem' : ℕ → T.ops.Memory) where
  -- The first number that fits, from the start to the end and then from 1 to the start.
  unfoldable pub cyclic_fit : ℕ → PidMap → Option ℕ
  cyclic_fit start m = elim (first_fit (fits T mem m) (pid_max - start) start) [
    | some j ↦ some j
    | none ↦ first_fit (fits T mem' m) (start - 1) 1
  ]

  pub record Numbered (m : PidMap) (ns : Namespace T.ops) (r : Option ℕ × Namespace T.ops × ℤ)
      : Type 0 where
    pub nr : r.0 ≡ cyclic_fit (start_pid pid_max ns.last_pid) m
    pub holds : T.Holds r.1.table (reserve r.0 m)
    pub last_pid : r.1.last_pid ≡ (elim r.0 [ some j ↦ j | none ↦ ns.last_pid ])
    pub retval : is_some r.0 ≡ true → r.2 ≡ pos 0
    pub pid_allocated : r.1.pid_allocated ≡ ns.pid_allocated
    pub kref : r.1.kref ≡ ns.kref
    pub level : r.1.level ≡ ns.level
    pub parent : r.1.parent ≡ ns.parent

  -- On a table that holds a map, with memory that is unused, the search for a number returns. It
  -- takes the first number that fits from `start_pid` on, and then from 1 to `start_pid`, reserves
  -- it in the map and makes it `last_pid`, with `retval` 0; without one the map and `last_pid`
  -- stay as they are. Nothing else of the namespace changes.
  pub alloc_nr-Numbered :
      (m : PidMap) (ns : Namespace T.ops) (ret : ℤ)
      → T.Holds ns.table m
      → ((j : ℕ) → T.Unused (mem j) ns.table)
      → ((j : ℕ) → T.Unused (mem' j) ns.table)
      → Returns (alloc_nr T.ops pid_max mem mem' ns ret) (Numbered m ns)
  unfolding alloc_nr cyclic_fit
  alloc_nr-Numbered m ns ret v u u' =
      let start = start_pid pid_max ns.last_pid in
      let (r, run, t) = scan-Scanned T mem m (pid_max - start) start ns.table ret v u in
      elim (Option-cases r.0) [
        | inr (j, e) ↦
            let hit : first_fit (fits T mem m) (pid_max - start) start ≡ some j = sym t.nr ∙ e in
            (
              (some j, record ns { table = r.1; last_pid = j }, r.2),
              rw (run, ◌>>=◌, e),
              record {
                nr = rw (hit, cyclic_fit);
                holds = rw e at t.holds;
                last_pid = refl;
                retval = λ _. t.retval (rw e);
                pid_allocated = refl;
                level = refl;
                kref = refl;
                parent = refl;
              },
            )
        | inl e ↦
            let miss : first_fit (fits T mem m) (pid_max - start) start ≡ none = sym t.nr ∙ e in
            let held : T.Holds r.1 m = rw e at t.holds in
            let (r', run', t') =
              scan-Scanned T mem' m (start - 1) 1 r.1 r.2 held (λ j. t.unused e (mem' j) (u' j)) in
            elim (Option-cases r'.0) [
              | inr (j, e') ↦ (
                (some j, record ns { table = r'.1; last_pid = j }, r'.2),
                rw (run, ◌>>=◌, e, run', ◌>>=◌, e'),
                record {
                  nr = rw (miss, cyclic_fit) (sym e' ∙ t'.nr);
                  holds = rw e' at t'.holds;
                  last_pid = refl;
                  retval = λ _. t'.retval (rw e');
                  pid_allocated = refl;
                  level = refl;
                  kref = refl;
                  parent = refl;
                },
              )
              | inl e' ↦ (
                (none, record ns { table = r'.1 }, r'.2),
                rw (run, ◌>>=◌, e, run', ◌>>=◌, e'),
                record {
                  nr = rw (miss, cyclic_fit) (sym e' ∙ t'.nr);
                  holds = rw e' at t'.holds;
                  last_pid = refl;
                  retval = λ no_nr. cc;
                  pid_allocated = refl;
                  level = refl;
                  kref = refl;
                  parent = refl;
                },
              )
            ]
      ]

  cyclic_fit-cases :
      (start : ℕ) (m : PidMap) (j : ℕ)
      → cyclic_fit start m ≡ some j
      → (first_fit (fits T mem m) (pid_max - start) start ≡ some j)
        ⊎ (first_fit (fits T mem' m) (start - 1) 1 ≡ some j)
  unfolding cyclic_fit
  cyclic_fit-cases start m j e =
      elim (Option-cases (first_fit (fits T mem m) (pid_max - start) start)) [
        | inr (i, q) ↦ let e' = rw (q, cyclic_fit) at e in inl (q ∙ e')
        | inl q ↦ inr (rw (q, cyclic_fit) at e)
      ]

  fits-invisible :
      (mem₀ : ℕ → T.ops.Memory) (m : PidMap) (j : ℕ) → fits T mem₀ m j ≡ true → invisible m j ≡ true
  fits-invisible mem₀ m j e = ground arith

  -- If `pid_max` is above 1, a number that the search takes is above 0 and below `pid_max`, and
  -- showed no pid.
  pub cyclic_fit-bounds :
      (last : ℕ) (m : PidMap) (j : ℕ)
      → 1 < pid_max
      → cyclic_fit (start_pid pid_max last) m ≡ some j
      → (0 < j) × (j < pid_max) × (invisible m j ≡ true)
  cyclic_fit-bounds last m j lt e =
      let start = start_pid pid_max last in
      let (lo, hi) = start_pid_bounds pid_max last lt in
      elim (cyclic_fit-cases start m j e) [
        | inl q ↦
            let (a, b) = first_fit-bounds (fits T mem m) (pid_max - start) start j q in
            (
              omega arith,
              omega arith,
              fits-invisible mem m j (first_fit-holds (fits T mem m) (pid_max - start) start j q),
            )
        | inr q ↦
            let (a, b) = first_fit-bounds (fits T mem' m) (start - 1) 1 j q in
            (
              omega arith,
              omega arith,
              fits-invisible mem' m j (first_fit-holds (fits T mem' m) (start - 1) 1 j q),
            )
      ]

  -- If `pid_max` is above 1 and memory is there for every attempt, but no number fits, then every
  -- number from 1 to below `pid_max` shows a pid.
  pub cyclic_fit-none :
      (last : ℕ) (m : PidMap) (j : ℕ)
      → ((i : ℕ) → (T.enough (mem i) ≡ true) × (T.enough (mem' i) ≡ true))
      → 1 < pid_max
      → cyclic_fit (start_pid pid_max last) m ≡ none
      → 0 < j
      → j < pid_max
      → invisible m j ≡ false
  unfolding cyclic_fit
  cyclic_fit-none last m j memory lt e lo hi =
      let start = start_pid pid_max last in
      let bounds = start_pid_bounds pid_max last lt in
      elim (Option-cases (first_fit (fits T mem m) (pid_max - start) start)) [
        | inr (i, q) ↦ let e' = rw (q, cyclic_fit) at e in cc
        | inl q ↦
            let q' = rw (q, cyclic_fit) at e in
            elim (Bool-cases (ltb j start)) [
              | inl y ↦
                  let below : j < start = ground arith in
                  let no_fit = first_fit-none (fits T mem' m) (start - 1) 1 j q' lo (omega arith) in
                  ground (arith, memory j)
              | inr n ↦
                  let from_start : start ≤ j = ground arith in
                  let no_fit =
                    first_fit-none (fits T mem m) (pid_max - start) start j q from_start
                      (omega arith) in
                  ground (arith, memory j)
            ]
      ]

  -- If the number after `last_pid` is below `pid_max` and fits, then the search takes it.
  pub cyclic_fit-next :
      (last : ℕ) (m : PidMap)
      → last + 1 < pid_max
      → fits T mem m (last + 1) ≡ true
      → cyclic_fit (start_pid pid_max last) m ≡ some (last + 1)
  unfolding cyclic_fit
  cyclic_fit-next last m lt fit =
      let start : start_pid pid_max last ≡ last + 1 = start_pid-next pid_max last lt in
      let hit : first_fit (fits T mem m) (pid_max - (last + 1)) (last + 1) ≡ some (last + 1) =
        first_fit-here (fits T mem m) (pid_max - (last + 1)) (last + 1) (omega arith) fit in
      rw (start, cyclic_fit, hit)

  -- If the number after `last_pid` is below `pid_max` and is reserved, without a pid, then the
  -- search takes it again.
  pub cyclic_fit-reserved :
      (last : ℕ) (m : PidMap)
      → last + 1 < pid_max
      → find (int_of (last + 1)) m ≡ some none
      → cyclic_fit (start_pid pid_max last) m ≡ some (last + 1)
  cyclic_fit-reserved last m lt e = cyclic_fit-next last m lt (ground arith)
