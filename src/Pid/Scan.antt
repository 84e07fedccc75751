-- ===== src/Pid/Scan.antt =====
-- The loop of `alloc_pid` that looks for a number.
use linux_kernel_code_projec.Base.{
  ℕ, zero, suc, ◌+◌, ◌≤◌, ◌<◌, ◌≡◌, refl, inl, inr, Bool, true, false, ◌&&◌, ◌||◌, not, Option,
  none, some, arith, Bool-cases, Option-cases, is_some, if◌then◌else◌, ℤ, pos, ◌==◌,
}
use linux_kernel_code_projec.Base.Run.{◌>>=◌, Returns}
use linux_kernel_code_projec.Store.{int_of}
use linux_kernel_code_projec.PidMap
use linux_kernel_code_projec.PidMap.{PidMap, find, visible}
use linux_kernel_code_projec.PidTable.{PidTable}
use linux_kernel_code_projec.Pid.{scan, is_zero}

-- The first of `n` numbers from `i` on that satisfies a test.
unfoldable pub first_fit : (ℕ → Bool) → ℕ → ℕ → Option ℕ
first_fit p zero i = none
first_fit p (suc n) i = if p i then some i else first_fit p n (i + 1)

-- The number, if there is one, is reserved.
abbrev pub reserve : Option ℕ → PidMap → PidMap
reserve none m = m
reserve (some j) m = PidMap.insert (int_of j) none m

-- No pid is seen at the number.
abbrev pub invisible : PidMap → ℕ → Bool
invisible m j = not (is_some (visible (find (int_of j) m)))

pub first_fit-holds : (p : ℕ → Bool) (n i j : ℕ) → first_fit p n i ≡ some j → p j ≡ true
unfolding first_fit
first_fit-holds p zero i j e = cc
first_fit-holds p (suc n) i j e = elim (Bool-cases (p i)) [
  | inl y ↦ let e' = rw y at e in let q : i ≡ j = cc in rw (← q) y
  | inr q ↦ first_fit-holds p n (i + 1) j (rw q at e)
]

pub first_fit-bounds : (p : ℕ → Bool) (n i j : ℕ) → first_fit p n i ≡ some j → (i ≤ j) × (j < i + n)
unfolding first_fit
first_fit-bounds p zero i j e = cc
first_fit-bounds p (suc n) i j e = elim (Bool-cases (p i)) [
  | inl y ↦ let e' = rw y at e in let q : i ≡ j = cc in (omega arith, omega arith)
  | inr q ↦ omega (arith, first_fit-bounds p n (i + 1) j (rw q at e))
]

-- None is found only if none satisfies the test.
pub first_fit-none :
    (p : ℕ → Bool) (n i j : ℕ) → first_fit p n i ≡ none → i ≤ j → j < i + n → p j ≡ false
unfolding first_fit
first_fit-none p zero i j e lo hi = absurd (omega arith)
first_fit-none p (suc n) i j e lo hi = elim (Bool-cases (p i)) [
  | inl y ↦ let e' = rw y at e in cc
  | inr q ↦ elim (Bool-cases (j == i)) [
    | inl s ↦ let same : j ≡ i = ground arith in rw same q
    | inr d ↦ first_fit-none p n (i + 1) j (rw q at e) (ground arith) (omega arith)
  ]
]

module _ (T : PidTable) where
  open T use {enough, Unused, Holds, lookup_lem, insert_lem}
  open T.ops use {State, Memory}

  -- A number that the loop takes: no pid is seen there, and it is reserved already or there is
  -- memory for a node.
  abbrev pub fits : (ℕ → Memory) → PidMap → ℕ → Bool
  fits mem m j = invisible m j && (is_some (find (int_of j) m) || enough (mem j))

  pub record Scanned (mem : ℕ → Memory) (m : PidMap) (n i : ℕ) (s : State)
      (r : Option ℕ × State × ℤ) : Type 0 where
    pub nr : r.0 ≡ first_fit (fits mem m) n i
    pub holds : Holds r.1 (reserve r.0 m)
    pub retval : is_some r.0 ≡ true → r.2 ≡ pos 0
    pub unused : r.0 ≡ none → (b : Memory) → Unused b s → Unused b r.1

  -- The loop returns; it takes the first number that fits and reserves it, and otherwise the table
  -- holds what it held.
  pub scan-Scanned :
      (mem : ℕ → Memory) (m : PidMap) (n i : ℕ) (s : State) (ret : ℤ)
      → Holds s m
      → ((j : ℕ) → Unused (mem j) s)
      → Returns (scan T.ops mem n i s ret) (Scanned mem m n i s)
  unfolding scan first_fit
  scan-Scanned mem m zero i s ret v u =
      ((none, s, ret), refl, record { nr = refl; holds = v; retval = λ e. cc; unused = λ _ b w. w })
  scan-Scanned mem m (suc n) i s ret v u = elim (Option-cases (visible (find (int_of i) m))) [
    | inr (p, e) ↦
        let (r, run, t) = scan-Scanned mem m n (i + 1) s ret v u in
        (
          r,
          rw (lookup_lem s m (int_of i) v, e) run,
          record { nr = rw e t.nr; holds = t.holds; retval = t.retval; unused = t.unused },
        )
    | inl e ↦
        let (r₁, run₁, (code, held, still)) = insert_lem (mem i) s m (int_of i) none v (λ _. u i) in
        elim (Bool-cases (is_some (find (int_of i) m) || enough (mem i))) [
          | inl y ↦
              let done : is_zero r₁.0 ≡ true = rw (code, y) in
              (
                (some i, r₁.1, r₁.0),
                rw (lookup_lem s m (int_of i) v, e, ◌>>=◌, run₁, ◌>>=◌, done),
                record {
                  nr = rw (e, y);
                  holds = rw y at held;
                  retval = λ _. rw y at code;
                  unused = λ no_nr. cc;
                },
              )
          | inr q ↦
              let more : is_zero r₁.0 ≡ false = rw (code, q) in
              let (r, run, t) =
                scan-Scanned mem m n (i + 1) r₁.1 r₁.0 (rw q at held)
                  (λ j. still q (mem j) (u j)) in
              (
                r,
                rw (lookup_lem s m (int_of i) v, e, ◌>>=◌, run₁, ◌>>=◌, more) run,
                record {
                  nr = rw (e, q) t.nr;
                  holds = t.holds;
                  retval = t.retval;
                  unused = λ no_nr b w. t.unused no_nr b (still q b w);
                },
              )
        ]
  ]
