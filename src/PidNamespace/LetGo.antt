-- ===== src/PidNamespace/LetGo.antt =====
-- `put_pid_ns` along the parents of a namespace.
use linux_kernel_code_projec.Base.{
  ℕ, zero, suc, ◌+◌, ◌-◌, ◌<◌, ◌≡◌, refl, ◌∙◌, ◌⊎◌, inl, inr, true, false, none, some, ◌==◌, arith,
  Bool-cases, ==_eq, ==_self, ==_ne, is_some,
}
use linux_kernel_code_projec.Base.Run.{◌>>=◌, Returns}
use linux_kernel_code_projec.PidMap.{PidMap}
use linux_kernel_code_projec.PidTable.{TableOps, PidTable}
use linux_kernel_code_projec.Pid.{NsId, Namespace}
use linux_kernel_code_projec.Pid.Alloc.{System, set_space, init_pid_ns, put_pid_ns}
use linux_kernel_code_projec.Pid.Maps.{HoldsAll}
use linux_kernel_code_projec.PidNamespace.Ancestry.{
  Ancestry, Ancestry-level, Ancestry-set_space, IsUnder, IsUnder-Ancestry, IsUnder-trans,
  IsUnder-Within, Within,
}

module _ (T : TableOps) where
  -- What letting a reference to a namespace go leaves of it and its parents: the namespace has a
  -- reference less, or it is gone and its parent is let go.
  abbrev pub LetGo : System T → System T → ℕ → NsId → Type 0
  LetGo w w' zero id = (ns : Namespace T) × (w.spaces id ≡ some ns) × (w'.spaces id ≡ some ns)
  LetGo w w' (suc n) id =
      (ns : Namespace T) × (w.spaces id ≡ some ns)
      × (((1 < ns.kref) × (w'.spaces id ≡ some (record ns { kref = ns.kref - 1 })))
          ⊎ ((ns.kref ≡ 1)
              × (w'.spaces id ≡ none)
              × (parent : NsId) × (ns.parent ≡ some parent)
              × LetGo w w' n parent))

  LetGo-Within :
      (n : ℕ) (w₁ w w' : System T) (id : NsId) → Within T w₁ w → LetGo w₁ w' n id → LetGo w w' n id
  LetGo-Within zero w₁ w w' id sub (ns, e, e') = (ns, sub id ns e, e')
  LetGo-Within (suc n) w₁ w w' id sub (ns, e, inl l) = (ns, sub id ns e, inl l)
  LetGo-Within (suc n) w₁ w w' id sub (ns, e, inr (k, gone, parent, p, l)) =
      (ns, sub id ns e, inr (k, gone, parent, p, LetGo-Within n w₁ w w' parent sub l))

  pub record LetsGo (w : System T) (n : ℕ) (id : NsId) (w' : System T) : Type 0 where
    pub let_go : LetGo w w' n id
    pub others : (j : NsId) → ¬ IsUnder T w id j → w'.spaces j ≡ w.spaces j
    pub stay :
        (j : NsId) (ns : Namespace T)
        → w.spaces j ≡ some ns
        → 1 < ns.kref
        → is_some (w'.spaces j) ≡ true
    pub pids : w'.pids ≡ w.pids

module _ (T : PidTable) where
  -- For a namespace with all its parents, up to `init_pid_ns`, where every table holds a map,
  -- `put_pid_ns` ends within one round more than the level. A namespace with one reference is gone
  -- and its parent is let go in the same way; one with more has a reference less; `init_pid_ns`
  -- stays. No namespace but this one and its parents changes, and none with more than one
  -- reference goes.
  pub put_pid_ns-LetsGo :
      (n : ℕ) (id : NsId) (w : System T.ops) (maps : NsId → PidMap)
      → Ancestry T.ops w n id
      → HoldsAll T maps w
      → Returns (put_pid_ns T.ops (n + 1) id w) (LetsGo T.ops w n id)
  unfolding put_pid_ns
  put_pid_ns-LetsGo zero id w maps (ns, e, lv, p, i) held = (
    w,
    rw i,
    record {
      let_go = (ns, e, e);
      others = λ j apart. refl;
      stay = λ j s at lt. rw at;
      pids = refl;
    },
  )
  put_pid_ns-LetsGo (suc n) id w maps (ns, e, lv, i, k, parent, p, c) held =
      let one : suc n + 1 ≡ suc (n + 1) = omega arith in
      let below : (id == init_pid_ns) ≡ false = ==_ne id init_pid_ns i in
      elim (Bool-cases (ns.kref == 1)) [
        | inr m ↦
            let ns₁ = record ns { kref = ns.kref - 1 } in
            (
              set_space T.ops id (some ns₁) w,
              rw (one, put_pid_ns, below, e, ◌>>=◌, m),
              record {
                let_go = (ns, e, inl (ground arith, rw (==_self id)));
                others = λ j apart. rw (==_ne j id (λ q. apart (rw q IsUnder.here)));
                stay = λ j s at lt. ground arith;
                pids = refl;
              },
            )
        | inl last ↦
            let w₁ = set_space T.ops id none w in
            let sub : Within T.ops w₁ w = λ j s at. elim (Bool-cases (j == id)) [
              | inl y ↦ let gone = rw y at at in cc
              | inr q ↦ rw q at at
            ] in
            let c₁ : Ancestry T.ops w₁ n parent =
              Ancestry-set_space T.ops n w parent id ns none e (omega arith) c in
            let apart : ¬ IsUnder T.ops w₁ parent id = λ r.
              let (m, le, a) = IsUnder-Ancestry T.ops w₁ n parent id c₁ r in
              let (s, at, _) = Ancestry-level T.ops w₁ m id a in
              let gone : w₁.spaces id ≡ none = rw (==_self id) in cc in
            let (w', run, t) =
              put_pid_ns-LetsGo n parent w₁ maps c₁ (λ j s at. held j s (sub j s at)) in
            (
              w',
              rw
                  (
                    one,
                    put_pid_ns,
                    below,
                    e,
                    ◌>>=◌,
                    last,
                    T.destroy_lem ns.table (maps id) (held id ns e),
                    p,
                    ◌>>=◌,
                  )
                  run,
              record {
                let_go = (
                  ns,
                  e,
                  inr (
                    ground arith,
                    (t.others id apart ∙ rw (==_self id)),
                    parent,
                    p,
                    LetGo-Within T.ops n w₁ w w' parent sub t.let_go,
                  ),
                );
                others = λ j off.
                    t.others j (λ r. off (
                      IsUnder-trans T.ops w id parent j (IsUnder.up ns IsUnder.here e p)
                        (IsUnder-Within T.ops w₁ w parent j sub r)))
                    ∙ rw (==_ne j id (λ q. off (rw q IsUnder.here)));
                stay = λ j s at lt. elim (Bool-cases (j == id)) [
                  | inr q ↦ t.stay j s (rw q at) lt
                  | inl y ↦
                      let at' : w.spaces id ≡ some s = rw (==_eq j id y) at at in
                      let same : ns ≡ s = cc in
                      let lt' : 1 < ns.kref = rw same lt in absurd (ground arith)
                ];
                pids = t.pids;
              },
            )
      ]
