-- ===== src/PidNamespace/Install.antt =====
-- skiplist/pid_namespace.c: the operations of /proc/<pid>/ns, `pidns_operations` and
-- `pidns_for_children_operations`. `active` is the namespace of the running task.
use linux_kernel_code_projec.Base.{
  ℕ, zero, suc, ◌+◌, ◌≤◌, ◌≡◌, refl, ◌⊎◌, inl, inr, Bool, true, false, ◌||◌, not, Option, none,
  some, ◌==◌, arith, if◌then◌else◌, Bool-cases, ==_eq, ==_self, ltb, ℤ, pos, negsuc,
}
use linux_kernel_code_projec.Base.Run.{◌>>=◌, Returns}
use linux_kernel_code_projec.PidTable.{TableOps}
use linux_kernel_code_projec.Pid.{NsId, Namespace}
use linux_kernel_code_projec.Pid.Alloc.{System, get_pid_ns, put_pid_ns, minus_einval}
use linux_kernel_code_projec.PidNamespace.Ancestry.{Ancestry, IsUnder, IsUnder-first, IsUnder-trans}

-- -EPERM
abbrev pub minus_eperm : ℤ
minus_eperm = negsuc 0

module _ (T : TableOps) where
  -- `pidns_get`; `none` is a task without a pid, for which it returns NULL.
  unfoldable pub pidns_get : Option NsId → System T → Option (Option NsId × System T)
  pidns_get none w = some (none, w)
  pidns_get (some id) w = do w₁ ← get_pid_ns T id w; some (some id, w₁)

  -- `pidns_put`
  unfoldable pub pidns_put : NsId → System T → Option (System T)
  pidns_put id w = do ns ← w.spaces id; put_pid_ns T (ns.level + 1) id w

  -- `pidns_for_children_get`: `children` is `nsproxy->pid_ns_for_children` of the task, if it has an
  -- nsproxy, and `has_reaper` whether `child_reaper` of that namespace is set.
  unfoldable pub pidns_for_children_get :
      Option NsId → Bool → System T → Option (Option NsId × System T)
  pidns_for_children_get none has_reaper w = some (none, w)
  pidns_for_children_get (some id) has_reaper w = do
    w₁ ← get_pid_ns T id w
    if not has_reaper then (do w₂ ← pidns_put id w₁; some (none, w₂)) else some (some id, w₁)

  -- The loop of `pidns_install`: from `id` up to the first namespace that is not below the level.
  unfoldable pub ancestor_at : ℕ → ℕ → NsId → System T → Option NsId
  ancestor_at zero level id w = none
  ancestor_at (suc n) level id w = w.spaces id >>= λ ns. elim (ltb level ns.level) [
    | true ↦ do parent ← ns.parent; ancestor_at n level parent w
    | false ↦ some id
  ]

  -- `pidns_install`: what it returns, and `nsproxy->pid_ns_for_children` afterwards.
  unfoldable pub pidns_install :
      Bool → Bool → NsId → NsId → NsId → System T → Option (ℤ × NsId × System T)
  pidns_install capable_new capable_user active children new w =
      if not capable_new || not capable_user then some (minus_eperm, children, w) else (do
        n ← w.spaces new
        a ← w.spaces active
        if ltb n.level a.level then some (minus_einval, children, w) else (do
          ancestor ← ancestor_at (n.level + 1) a.level new w
          if not (ancestor == active)
              then some (minus_einval, children, w)
              else (do w₁ ← pidns_put children w; w₂ ← get_pid_ns T new w₁; some (pos 0, new, w₂))))

  -- The loop of `pidns_get_parent`: whether `active` is `p` or one of its parents.
  unfoldable pub reaches : ℕ → NsId → Option NsId → System T → Option Bool
  reaches n active none w = some false
  reaches zero active (some p) w = none
  reaches (suc n) active (some p) w = elim (p == active) [
    | true ↦ some true
    | false ↦ do ns ← w.spaces p; reaches n active ns.parent w
  ]

  -- `pidns_get_parent`: the parent with a reference, or `ERR_PTR`.
  unfoldable pub pidns_get_parent : NsId → NsId → System T → Option ((ℤ ⊎ NsId) × System T)
  pidns_get_parent active id w = do
    ns ← w.spaces id
    inside ← reaches ns.level active ns.parent w
    if not inside
        then some (inl minus_eperm, w)
        else (do parent ← ns.parent; w₁ ← get_pid_ns T parent w; some (inr parent, w₁))

  not-IsUnder :
      (w : System T) (id j : NsId) (ns : Namespace T)
      → (id == j) ≡ false
      → w.spaces id ≡ some ns
      → ((k : NsId) → ns.parent ≡ some k → ¬ IsUnder T w k j)
      → ¬ IsUnder T w id j
  not-IsUnder w id j ns apart e above r = elim (IsUnder-first T w id j ns e r) [
    | inl q ↦ let y : (id == j) ≡ true = rw (q, ==_self j) in cc
    | inr (k, q, u) ↦ above k q u
  ]

  pub reaches-none : (active : NsId) (w : System T) → reaches 0 active none w ≡ some false
  unfolding reaches
  reaches-none active w = refl

  -- The loop of `pidns_get_parent` ends, and tells whether `active` is among the parents.
  pub reaches-IsUnder :
      (n : ℕ) (active id : NsId) (w : System T)
      → Ancestry T w n id
      → Returns
          (reaches (n + 1) active (some id) w)
          λ b. ((b ≡ true) × IsUnder T w id active) ⊎ ((b ≡ false) × ¬ IsUnder T w id active)
  unfolding reaches
  reaches-IsUnder zero active id w (ns, e, lv, p, i) = elim (Bool-cases (id == active)) [
    | inl y ↦ (true, rw (reaches, y), inl (refl, rw (← ==_eq id active y) IsUnder.here))
    | inr n ↦ (
      false,
      rw (reaches, n, e, ◌>>=◌, p),
      inr (refl, not-IsUnder w id active ns n e (λ k q u. cc)),
    )
  ]
  reaches-IsUnder (suc n) active id w (ns, e, lv, i, k, parent, p, c) =
      let one : suc n + 1 ≡ suc (n + 1) = omega arith in
      elim (Bool-cases (id == active)) [
        | inl y ↦ (true, rw (one, reaches, y), inl (refl, rw (← ==_eq id active y) IsUnder.here))
        | inr m ↦
            let (b, run, t) = reaches-IsUnder n active parent w c in
            (
              b,
              rw (one, reaches, m, e, ◌>>=◌, p) run,
              elim t [
                | inl (y, r) ↦
                    inl (y, IsUnder-trans T w id parent active (IsUnder.up ns IsUnder.here e p) r)
                | inr (y, r) ↦ inr (
                  y,
                  not-IsUnder w id active ns m e
                      (λ k q u. let same : parent ≡ k = cc in r (rw same u)),
                )
              ],
            )
      ]

  -- The loop of `pidns_install` ends at the one of the namespace and its parents with the level.
  pub ancestor_at-IsUnder :
      (n level : ℕ) (id : NsId) (w : System T)
      → Ancestry T w n id
      → level ≤ n
      → Returns (ancestor_at (n + 1) level id w) λ a. IsUnder T w id a × Ancestry T w level a
  unfolding ancestor_at
  ancestor_at-IsUnder zero level id w (ns, e, lv, p, i) le =
      let top : level ≡ 0 = omega arith in
      let there : (ltb level ns.level) ≡ false = ground arith in
      (id, rw (ancestor_at, e, ◌>>=◌, there), (IsUnder.here, rw top (ns, e, lv, p, i)))
  ancestor_at-IsUnder (suc n) level id w (ns, e, lv, i, k, parent, p, c) le =
      let one : suc n + 1 ≡ suc (n + 1) = omega arith in
      elim (Bool-cases (ltb level ns.level)) [
        | inl y ↦
            let (a, run, (r, top)) = ancestor_at-IsUnder n level parent w c (ground arith) in
            (
              a,
              rw (one, ancestor_at, e, ◌>>=◌, y, p, ◌>>=◌) run,
              (IsUnder-trans T w id parent a (IsUnder.up ns IsUnder.here e p) r, top),
            )
        | inr m ↦
            let here_level : level ≡ suc n = ground arith in
            (
              id,
              rw (one, ancestor_at, e, ◌>>=◌, m),
              (IsUnder.here, rw here_level (ns, e, lv, i, k, parent, p, c)),
            )
      ]
