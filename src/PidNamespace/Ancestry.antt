-- ===== src/PidNamespace/Ancestry.antt =====
-- The parents of a namespace.
use linux_kernel_code_projec.Base.{
  ℕ, zero, suc, ◌≤◌, ◌<◌, ◌≡◌, ◌≢◌, refl, sym, ◌∙◌, ap, subst, ◌⊎◌, inl, inr, false, Option, none,
  some, ◌==◌, arith, Bool-cases, ==_eq,
}
use linux_kernel_code_projec.PidTable.{TableOps}
use linux_kernel_code_projec.Pid.{NsId, Namespace}
use linux_kernel_code_projec.Pid.Alloc.{System, set_space, init_pid_ns}

module _ (T : TableOps) where
  -- A namespace of this level, below `init_pid_ns`, with all its parents.
  abbrev pub Ancestry : System T → ℕ → NsId → Type 0
  Ancestry w zero id =
      (ns : Namespace T) × (w.spaces id ≡ some ns)
      × (ns.level ≡ 0)
      × (ns.parent ≡ none)
      × (id ≡ init_pid_ns)
  Ancestry w (suc n) id =
      (ns : Namespace T) × (w.spaces id ≡ some ns)
      × (ns.level ≡ suc n)
      × (id ≢ init_pid_ns)
      × (0 < ns.kref)
      × (parent : NsId) × (ns.parent ≡ some parent)
      × Ancestry w n parent

  -- The namespace has this level.
  pub Ancestry-level :
      (w : System T) (n : ℕ) (id : NsId)
      → Ancestry w n id
      → (ns : Namespace T) × (w.spaces id ≡ some ns) × (ns.level ≡ n)
  Ancestry-level w zero id (ns, e, lv, _, _) = (ns, e, lv)
  Ancestry-level w (suc n) id (ns, e, lv, _, _, _, _, _) = (ns, e, lv)

  -- Namespaces of different levels are apart.
  levels_apart :
      (w : System T) (id j : NsId) (ns old : Namespace T)
      → w.spaces id ≡ some ns
      → w.spaces j ≡ some old
      → ns.level < old.level
      → (id == j) ≡ false
  levels_apart w id j ns old e at lt = elim (Bool-cases (id == j)) [
    | inr n ↦ n
    | inl y ↦
        let e' : w.spaces j ≡ some ns = rw (← ==_eq id j y) e in
        let same : ns ≡ old = cc in
        let lt' : old.level < old.level =
          subst (λ (s : Namespace T). s.level < old.level) same lt in
        absurd (omega arith)
  ]

  -- A change of a namespace on a higher level leaves the parents as they are.
  pub Ancestry-set_space :
      (n : ℕ) (w : System T) (id j : NsId) (old : Namespace T) (new : Option (Namespace T))
      → w.spaces j ≡ some old
      → n < old.level
      → Ancestry w n id
      → Ancestry (set_space T j new w) n id
  Ancestry-set_space zero w id j old new at lt (ns, e, lv, p, i) =
      let apart = levels_apart w id j ns old e at (omega arith) in (ns, rw apart e, lv, p, i)
  Ancestry-set_space (suc n) w id j old new at lt (ns, e, lv, i, k, parent, p, c) =
      let apart = levels_apart w id j ns old e at (omega arith) in
      (
        ns,
        rw apart e,
        lv,
        i,
        k,
        parent,
        p,
        Ancestry-set_space n w parent j old new at (omega arith) c,
      )

  -- `old` is `id` or one of its parents.
  pub data IsUnder (w : System T) (id : NsId) : NsId → Type 0 where
    here : IsUnder w id id
    up :
        {j k : NsId} (ns : Namespace T)
        → IsUnder w id j
        → w.spaces j ≡ some ns
        → ns.parent ≡ some k
        → IsUnder w id k

  -- Every namespace of one state is in the other, as it is.
  abbrev pub Within : System T → System T → Type 0
  Within w w' = (id : NsId) (ns : Namespace T) → w.spaces id ≡ some ns → w'.spaces id ≡ some ns

  pub IsUnder-Within :
      (w w' : System T) (id j : NsId) → Within w w' → IsUnder w id j → IsUnder w' id j
  IsUnder-Within w w' id j sub here = here
  IsUnder-Within w w' id j sub (up {j = i} ns r e p) =
      up ns (IsUnder-Within w w' id i sub r) (sub i ns e) p

  -- The first step from a namespace to one of its parents.
  pub IsUnder-first :
      (w : System T) (id j : NsId) (ns : Namespace T)
      → w.spaces id ≡ some ns
      → IsUnder w id j
      → (id ≡ j) ⊎ ((k : NsId) × (ns.parent ≡ some k) × IsUnder w k j)
  IsUnder-first w id j ns e here = inl refl
  IsUnder-first w id k ns e (up {j = i} s r at p) = elim (IsUnder-first w id i ns e r) [
    | inr (l, q, b) ↦ inr (l, q, up s b at p)
    | inl q ↦
        let at' : w.spaces id ≡ some s = rw q at in
        let same : s ≡ ns = cc in inr (k, rw (← same) p, here)
  ]

  pub IsUnder-trans :
      (w : System T) (id j k : NsId) → IsUnder w id j → IsUnder w j k → IsUnder w id k
  IsUnder-trans w id j k r here = r
  IsUnder-trans w id j k r (up {j = i} ns s e p) = up ns (IsUnder-trans w id j i r s) e p

  Ancestry-parent :
      (w : System T) (m : ℕ) (j k : NsId) (ns : Namespace T)
      → Ancestry w m j
      → w.spaces j ≡ some ns
      → ns.parent ≡ some k
      → (l : ℕ) × (m ≡ suc l) × Ancestry w l k
  Ancestry-parent w zero j k ns (s, at, _, none_above, _) e p =
      let same : s ≡ ns = cc in let has : s.parent ≡ some k = rw same p in cc
  Ancestry-parent w (suc l) j k ns (s, at, _, _, _, parent, q, a) e p =
      let same : s ≡ ns = cc in
      let has : s.parent ≡ some k = rw same p in
      let next : parent ≡ k = cc in (l, refl, subst (λ x. Ancestry w l x) next a)

  -- The parents of a namespace have parents up to `init_pid_ns`, too.
  pub IsUnder-Ancestry :
      (w : System T) (n : ℕ) (id j : NsId)
      → Ancestry w n id
      → IsUnder w id j
      → (m : ℕ) × (m ≤ n) × Ancestry w m j
  IsUnder-Ancestry w n id j a here = (n, omega arith, a)
  IsUnder-Ancestry w n id k a (up {j = i} ns r e p) =
      let (m, le, b) = IsUnder-Ancestry w n id i a r in
      let (l, less, c) = Ancestry-parent w m i k ns b e p in (l, omega arith, c)

  -- A namespace has one level.
  pub Ancestry-unique :
      (w : System T) (m n : ℕ) (id : NsId) → Ancestry w m id → Ancestry w n id → m ≡ n
  Ancestry-unique w m n id a b =
      let (s, e, l) = Ancestry-level w m id a in
      let (s', e', l') = Ancestry-level w n id b in
      let same : s ≡ s' = cc in sym l ∙ ap (λ (x : Namespace T). x.level) same ∙ l'

  level_below :
      (w : System T) (n : ℕ) (id b k : NsId) (ns : Namespace T)
      → Ancestry w n id
      → w.spaces id ≡ some ns
      → ns.parent ≡ some k
      → IsUnder w k b
      → ¬ Ancestry w n b
  level_below w n id b k ns c e q u y =
      let (l, less, above) = Ancestry-parent w n id k ns c e q in
      let (m, le, z) = IsUnder-Ancestry w l k b above u in
      let same = Ancestry-unique w m n b z y in omega arith

  same_level :
      (w : System T) (n level : ℕ) (id a b : NsId)
      → Ancestry w n id
      → IsUnder w id a
      → IsUnder w id b
      → Ancestry w level a
      → Ancestry w level b
      → ((l : ℕ) (j : NsId) → n ≡ suc l → Ancestry w l j → IsUnder w j a → IsUnder w j b → a ≡ b)
      → a ≡ b
  same_level w n level id a b c r s x y above_both =
      let (ns, e, lv) = Ancestry-level w n id c in
      elim (IsUnder-first w id a ns e r) [
        | inl p ↦
            let same = Ancestry-unique w n level a (rw (← p) c) x in
            elim (IsUnder-first w id b ns e s) [
              | inl q ↦ sym p ∙ q
              | inr (k, q, u) ↦ absurd (level_below w n id b k ns c e q u (rw same y))
            ]
        | inr (j, p, t) ↦ elim (IsUnder-first w id b ns e s) [
          | inl q ↦
              let same = Ancestry-unique w n level b (rw (← q) c) y in
              absurd (level_below w n id a j ns c e p t (rw same x))
          | inr (k, q, u) ↦
              let (l, less, above) = Ancestry-parent w n id j ns c e p in
              let same : k ≡ j = cc in above_both l j less above t (rw (← same) u)
        ]
      ]

  -- Among a namespace and its parents, each level occurs once.
  pub IsUnder-unique :
      (w : System T) (n level : ℕ) (id a b : NsId)
      → Ancestry w n id
      → IsUnder w id a
      → IsUnder w id b
      → Ancestry w level a
      → Ancestry w level b
      → a ≡ b
  IsUnder-unique w zero level id a b c r s x y =
      same_level w zero level id a b c r s x y (λ l j e above t u. absurd (omega arith))
  IsUnder-unique w (suc n) level id a b c r s x y =
      same_level w (suc n) level id a b c r s x y (λ l j e above t u.
        let same : l ≡ n = omega arith in
        IsUnder-unique w n level j a b (rw (← same) above) t u x y)
