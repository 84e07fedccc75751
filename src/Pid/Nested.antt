-- ===== src/Pid/Nested.antt =====
-- `alloc_pid` in nested namespaces: the loop over the levels.
pub mod Ranks
use linux_kernel_code_projec.Base.{
  ℕ, zero, suc, ◌+◌, ◌≤◌, ◌<◌, ◌≡◌, refl, sym, ◌∙◌, ap, subst, ◌⊎◌, inl, inr, Bool, true, false,
  Option, none, some, List, [], ◌∷◌, ◌++◌, append_assoc, ◌==◌, arith, Bool-cases, Option-cases,
  ==_eq, ℤ, pos, negsuc, length, length-append, get_elem?,
}
use mathlib.Core.List.{map, map-append}
use linux_kernel_code_projec.Base.Run.{◌>>=◌, Returns}
use linux_kernel_code_projec.Store.{int_of}
use linux_kernel_code_projec.PidMap
use linux_kernel_code_projec.PidMap.{PidMap, find, visible, IsOrdered, find-insert}
use linux_kernel_code_projec.PidTable.{PidTable}
use linux_kernel_code_projec.Pid.{NsId, Namespace, start_pid}
use linux_kernel_code_projec.Pid.Scan.{invisible}
use linux_kernel_code_projec.Pid.Number.{alloc_nr-Numbered, cyclic_fit, cyclic_fit-bounds}
use linux_kernel_code_projec.Pid.Find.{Upid}
use linux_kernel_code_projec.Pid.Alloc.{System, Requests, set_space, alloc_levels}
use linux_kernel_code_projec.Pid.Maps.{
  insert_all, insert_all-append, HoldsAll, HoldsAll-set_space, HoldsAll-same, AllExist,
  AllExist-append, Kept, Kept-set_space, Kept-trans,
}
use linux_kernel_code_projec.Pid.Spaces.{spaces_from, spaces_from-some, spaces_from-set_space}

-- A number that shows no pid beside a reservation showed none before it.
invisible-insert :
    (k j : ℕ) (m : PidMap)
    → invisible m k ≡ true
    → invisible (PidMap.insert (int_of k) none m) j ≡ true
    → invisible m j ≡ true
invisible-insert k j m a b =
    let f = find-insert (int_of j) (int_of k) none m in
    elim (Bool-cases (int_of k == int_of j)) [
      | inl y ↦ let q : k ≡ j = omega (arith, ==_eq (int_of k) (int_of j) y) in rw (← q) a
      | inr n ↦ rw (f, n) at b
    ]

module _ (T : PidTable) (pid_max : ℕ) (rq : Requests T.ops) where
  -- The namespaces on the levels below `n`, from `tmp` up through the parents, and unused memory for
  -- each of them.
  abbrev pub Chain : System T.ops → ℕ → Option NsId → Type 0
  Chain w zero tmp = Unit {0}
  Chain w (suc n) tmp =
      (id : NsId) × (ns : Namespace T.ops) × (tmp ≡ some id)
      × (w.spaces id ≡ some ns)
      × (ns.level ≡ n)
      × ((j : ℕ) → T.Unused (rq.first n j) ns.table)
      × ((j : ℕ) → T.Unused (rq.second n j) ns.table)
      × Chain w n ns.parent

  -- A change of a namespace on a higher level leaves those below as they are.
  Chain-set_space :
      (n : ℕ) (w : System T.ops) (tmp : Option NsId) (id : NsId) (old new : Namespace T.ops)
      → w.spaces id ≡ some old
      → n ≤ old.level
      → Chain w n tmp
      → Chain (set_space T.ops id (some new) w) n tmp
  Chain-set_space zero w tmp id old new at le c = tt
  Chain-set_space (suc n) w tmp id old new at le (i, ns, e, here, lv, u, u', c) =
      elim (Bool-cases (i == id)) [
        | inl y ↦
            let q = ==_eq i id y in
            let here' : w.spaces id ≡ some ns = rw q at here in
            let same : ns ≡ old = cc in
            let lv' : old.level ≡ n = subst (λ (s : Namespace T.ops). s.level ≡ n) same lv in
            absurd (omega arith)
        | inr q ↦ (
          i,
          ns,
          e,
          rw q here,
          lv,
          u,
          u',
          Chain-set_space n w ns.parent id old new at (omega arith) c,
        )
      ]

  -- The numbers are in range, and showed no pid.
  abbrev pub Taken : List Upid → (NsId → PidMap) → Type 0
  Taken [] maps = Unit {0}
  Taken (u ∷ us) maps =
      ((0 < u.nr) × (u.nr < pid_max) × (invisible (maps u.ns) u.nr ≡ true)) × Taken us maps

  Taken-append :
      (us vs : List Upid) (maps : NsId → PidMap)
      → Taken us maps
      → Taken vs maps
      → Taken (us ++ vs) maps
  Taken-append [] vs maps a b = b
  Taken-append (u ∷ us) vs maps a b = (a.0, Taken-append us vs maps a.1 b)

  Taken-insert :
      (us : List Upid) (maps : NsId → PidMap) (u : Upid)
      → invisible (maps u.ns) u.nr ≡ true
      → Taken us (insert_all none (u ∷ []) maps)
      → Taken us maps
  Taken-insert [] maps u i t = tt
  Taken-insert (v ∷ us) maps u i (t, ts) = (
    (
      t.0,
      t.1,
      elim (Bool-cases (v.ns == u.ns)) [
        | inl y ↦
            let q = ==_eq v.ns u.ns y in
            let after : invisible (PidMap.insert (int_of u.nr) none (maps u.ns)) v.nr ≡ true =
              rw y at t.2 in
            rw q (invisible-insert u.nr v.nr (maps u.ns) i after)
        | inr n ↦ rw n at t.2
      ],
    ),
    Taken-insert us maps u i ts,
  )

  -- In a namespace no number fits, beside those that were taken before.
  abbrev pub IsFull : (NsId → PidMap) → Type 0
  IsFull maps =
      (id : NsId) × (i : ℕ) × (last : ℕ) × (us : List Upid) × Taken us maps
      × (cyclic_fit T pid_max (rq.first i) (rq.second i) (start_pid pid_max last)
            (insert_all none us maps id)
          ≡ none)

  -- What the loop returns: `news` are the numbers that it took.
  pub record Numbers (w : System T.ops) (n : ℕ) (tmp : Option NsId) (ret : ℤ) (maps : NsId → PidMap)
      (acc : List Upid) (r : Bool × List Upid × ℤ × System T.ops) : Type 0 where
    pub news : List Upid
    pub all : r.1 ≡ news ++ acc
    pub holds : HoldsAll T (insert_all none news maps) r.3
    pub exist : AllExist T news r.3
    pub taken : Taken news maps
    pub kept : Kept T w r.3
    pub complete : r.0 ≡ true → length news ≡ n
    pub spaces : r.0 ≡ true → map (λ u. u.ns) news ≡ spaces_from T w n tmp
    pub full : r.0 ≡ false → IsFull maps
    pub retval : r.0 ≡ false → r.2 ≡ negsuc 0
    pub zero_ret : r.0 ≡ true → (0 < n) ⊎ (ret ≡ pos 0) → r.2 ≡ pos 0

  pub alloc_levels-Numbers :
      1 < pid_max
      → (n : ℕ) (w : System T.ops) (tmp : Option NsId) (ret : ℤ) (acc : List Upid)
        (maps : NsId → PidMap)
      → Chain w n tmp
      → HoldsAll T maps w
      → Returns (alloc_levels T.ops pid_max rq n tmp w ret acc) (Numbers w n tmp ret maps acc)
  unfolding alloc_levels spaces_from
  alloc_levels-Numbers lt zero w tmp ret acc maps c held = (
    (true, acc, ret, w),
    refl,
    record {
      news = [];
      all = refl;
      holds = held;
      exist = tt;
      taken = tt;
      kept = λ id ns e. (ns, e, refl, refl, refl);
      complete = λ _. refl;
      spaces = λ _. refl;
      full = λ e. cc;
      retval = λ e. cc;
      zero_ret = λ _ o. elim o [ inl lt₀ ↦ absurd (omega arith) | inr z ↦ z ];
    },
  )
  alloc_levels-Numbers lt (suc n) w tmp ret acc maps (id, ns, e, at, lv, u, u', c) held =
      let (r, run, t) =
        alloc_nr-Numbered T pid_max (rq.first n) (rq.second n) (maps id) ns ret (held id ns at) u
          u' in
      let w₁ = set_space T.ops id (some r.1) w in
      elim (Option-cases r.0) [
        | inl miss ↦
            let held₁ : HoldsAll T maps w₁ =
              HoldsAll-same T maps w id r.1 held (rw miss at t.holds) in
            (
              (false, acc, negsuc 0, w₁),
              rw (e, ◌>>=◌, at, ◌>>=◌, run, ◌>>=◌, miss),
              record {
                news = [];
                all = refl;
                holds = held₁;
                exist = tt;
                taken = tt;
                kept = Kept-set_space T w id ns r.1 at t.pid_allocated t.level t.kref;
                complete = λ y. cc;
                spaces = λ y. cc;
                full = λ _. (id, n, ns.last_pid, [], tt, sym t.nr ∙ miss);
                retval = λ _. refl;
                zero_ret = λ y. cc;
              },
            )
        | inr (k, hit) ↦
            let u : Upid = record { nr = k; ns = id } in
            let maps₁ = insert_all none (u ∷ []) maps in
            let held₁ : HoldsAll T maps₁ w₁ =
              HoldsAll-set_space T maps w id r.1 (PidMap.insert (int_of k) none (maps id)) held
                (rw hit at t.holds) in
            let chain : Chain w₁ n r.1.parent =
              Chain-set_space n w r.1.parent id ns r.1 at (omega arith) (rw t.parent c) in
            let kept₁ : Kept T w w₁ =
              Kept-set_space T w id ns r.1 at t.pid_allocated t.level t.kref in
            let (r', run', t') =
              alloc_levels-Numbers lt n w₁ r.1.parent r.2 (u ∷ acc) maps₁ chain held₁ in
            let (lo, hi, shown) =
              cyclic_fit-bounds T pid_max (rq.first n) (rq.second n) ns.last_pid (maps id) k lt
                (sym t.nr ∙ hit) in
            (
              r',
              rw (e, ◌>>=◌, at, ◌>>=◌, run, ◌>>=◌, hit) run',
              record {
                news = t'.news ++ (u ∷ []);
                all = t'.all ∙ sym (append_assoc t'.news (u ∷ []) acc);
                holds =
                    subst (λ f. HoldsAll T f r'.3)
                      (sym (insert_all-append none t'.news (u ∷ []) maps)) t'.holds;
                exist =
                    AllExist-append T t'.news (u ∷ []) r'.3 t'.exist
                      (let (ns', e', _, _, _) = t'.kept id r.1 (ground arith) in (rw e', tt));
                taken =
                    Taken-append t'.news (u ∷ []) maps (Taken-insert t'.news maps u shown t'.taken)
                      ((lo, hi, shown), tt);
                kept = Kept-trans T w w₁ r'.3 kept₁ t'.kept;
                complete = λ y.
                    length-append t'.news (u ∷ []) ∙ ap (λ i. i + 1) (t'.complete y) ∙ omega arith;
                spaces = λ y.
                    map-append (λ (v : Upid). v.ns) t'.news (u ∷ [])
                    ∙ ap (λ l. l ++ (id ∷ []))
                        (t'.spaces y
                          ∙ spaces_from-set_space T w n r.1.parent id ns r.1 at t.parent
                          ∙ ap (λ o. spaces_from T w n o) t.parent)
                    ∙ sym (ap (λ o. spaces_from T w (suc n) o) e ∙ spaces_from-some T w n id ns at);
                full = λ f.
                    let (j, i, last, us, before, none_fits) = t'.full f in
                    (
                      j,
                      i,
                      last,
                      us ++ (u ∷ []),
                      Taken-append us (u ∷ []) maps (Taken-insert us maps u shown before)
                          ((lo, hi, shown), tt),
                      rw (insert_all-append none us (u ∷ []) maps) none_fits,
                    );
                retval = t'.retval;
                zero_ret = λ y o. t'.zero_ret y (inr (t.retval (rw hit)));
              },
            )
      ]
