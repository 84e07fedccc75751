-- ===== src/PidNamespace/Entered.antt =====
-- Which namespaces a task may enter, and which parents it may see.
use linux_kernel_code_projec.Base.{
  ℕ, zero, suc, ◌+◌, ◌<◌, ◌≡◌, refl, ◌⊎◌, inl, inr, Bool, true, false, ◌&&◌, ◌||◌, not, some, ◌==◌,
  arith, is_some, Bool-cases, Option-cases, ==_eq, ==_self, ltb, ℤ, pos,
}
use linux_kernel_code_projec.Base.Run.{◌>>=◌, Returns}
use linux_kernel_code_projec.PidMap.{PidMap}
use linux_kernel_code_projec.PidTable.{PidTable}
use linux_kernel_code_projec.Pid.{NsId, Namespace}
use linux_kernel_code_projec.Pid.Alloc.{System, set_space, init_pid_ns, get_pid_ns, minus_einval}
use linux_kernel_code_projec.Pid.Maps.{HoldsAll}
use linux_kernel_code_projec.PidNamespace.Ancestry.{
  Ancestry, Ancestry-level, Ancestry-unique, IsUnder, IsUnder-Ancestry, IsUnder-unique,
}
use linux_kernel_code_projec.PidNamespace.LetGo.{LetsGo, put_pid_ns-LetsGo}
use linux_kernel_code_projec.PidNamespace.Install.{
  minus_eperm, pidns_put, pidns_install, pidns_get_parent, ancestor_at-IsUnder, reaches-none,
  reaches-IsUnder,
}

module _ (T : PidTable) where
  get_pid_ns-Returns :
      (id : NsId) (w : System T.ops)
      → is_some (w.spaces id) ≡ true
      → Returns (get_pid_ns T.ops id w) (λ w'. get_pid_ns T.ops id w ≡ some w')
  unfolding get_pid_ns
  get_pid_ns-Returns id w e = elim (Bool-cases (id == init_pid_ns)) [
    | inl y ↦ (w, rw y, rw y)
    | inr n ↦ elim (Option-cases (w.spaces id)) [
      | inl gone ↦ let there = rw gone at e in cc
      | inr (ns, at) ↦
          let w' = set_space T.ops id (some (record ns { kref = ns.kref + 1 })) w in
          (w', rw (n, at), rw (n, at))
    ]
  ]

  pub pidns_put-LetsGo :
      (n : ℕ) (id : NsId) (w : System T.ops) (maps : NsId → PidMap)
      → Ancestry T.ops w n id
      → HoldsAll T maps w
      → Returns (pidns_put T.ops id w) (LetsGo T.ops w n id)
  unfolding pidns_put
  pidns_put-LetsGo n id w maps c held =
      let (ns, e, lv) = Ancestry-level T.ops w n id c in
      let (w', run, t) = put_pid_ns-LetsGo T n id w maps c held in (w', rw (e, ◌>>=◌, lv) run, t)

  -- What `pidns_install` returns and leaves.
  abbrev pub Installed :
      Bool → Bool → NsId → ℕ → NsId → NsId → System T.ops → ℤ × NsId × System T.ops → Type 0
  Installed capable_new capable_user active l children new w r =
      (((capable_new && capable_user) ≡ true)
        × IsUnder T.ops w new active
        × (r.0 ≡ pos 0)
        × (r.1 ≡ new)
        × (between : System T.ops) × LetsGo T.ops w l children between
        × (get_pid_ns T.ops new between ≡ some r.2))
      ⊎ (((capable_new && capable_user) ≡ false) × (r ≡ (minus_eperm, children, w)))
      ⊎ (((capable_new && capable_user) ≡ true)
          × (¬ IsUnder T.ops w new active)
          × (r ≡ (minus_einval, children, w)))

  -- If the namespaces of the running task and of its children and the new one have all their
  -- parents, up to `init_pid_ns`, every table holds a map, and more than one reference to the new
  -- namespace is held, then `pidns_install` returns. Without both capabilities it gives -EPERM and
  -- changes nothing. Otherwise, if the namespace of the running task is the new one or one of its
  -- parents, it gives 0, makes the new one that of the children, lets the reference to the old one
  -- go and takes one to the new one; if not, it gives -EINVAL and changes nothing.
  pub pidns_install-Installed :
      (capable_new capable_user : Bool) (active children new : NsId) (w : System T.ops)
      (maps : NsId → PidMap) (m l n : ℕ)
      → Ancestry T.ops w m active
      → Ancestry T.ops w l children
      → Ancestry T.ops w n new
      → ((ns : Namespace T.ops) → w.spaces new ≡ some ns → 1 < ns.kref)
      → HoldsAll T maps w
      → Returns
          (pidns_install T.ops capable_new capable_user active children new w)
          (Installed capable_new capable_user active l children new w)
  unfolding pidns_install
  pidns_install-Installed capable_new capable_user active children new w maps m l n ca cc₁ cn
        held_new held =
      let (a, ea, la) = Ancestry-level T.ops w m active ca in
      let (s, es, ls) = Ancestry-level T.ops w n new cn in
      elim (Bool-cases (capable_new && capable_user)) [
        | inr off ↦
            let denied : (not capable_new || not capable_user) ≡ true = ground arith in
            ((minus_eperm, children, w), rw denied, inr (inl (off, refl)))
        | inl on ↦
            let allowed : (not capable_new || not capable_user) ≡ false = ground arith in
            elim (Bool-cases (ltb s.level a.level)) [
              | inl deep ↦
                  let apart : ¬ IsUnder T.ops w new active = λ r.
                    let (k, le, z) = IsUnder-Ancestry T.ops w n new active cn r in
                    let same = Ancestry-unique T.ops w k m active z ca in ground arith in
                  (
                    (minus_einval, children, w),
                    rw (allowed, es, ◌>>=◌, ea, ◌>>=◌, deep),
                    inr (inr (on, apart, refl)),
                  )
              | inr enough ↦
                  let (top, run, (under, ct)) =
                    ancestor_at-IsUnder T.ops n m new w cn (ground arith) in
                  elim (Bool-cases (top == active)) [
                    | inr other ↦
                        let apart : ¬ IsUnder T.ops w new active = λ r.
                          let same = IsUnder-unique T.ops w n m new top active cn under r ct ca in
                          let y : (top == active) ≡ true = rw (same, ==_self active) in cc in
                        (
                          (minus_einval, children, w),
                          rw (allowed, es, ◌>>=◌, ea, ◌>>=◌, enough, ls, la, run, ◌>>=◌, other),
                          inr (inr (on, apart, refl)),
                        )
                    | inl y ↦
                        let inside : IsUnder T.ops w new active = rw (← ==_eq top active y) under in
                        let (w₁, put, t) = pidns_put-LetsGo l children w maps cc₁ held in
                        let (w₂, get, again) =
                          get_pid_ns-Returns new w₁ (t.stay new s es (held_new s es)) in
                        (
                          (pos 0, new, w₂),
                          rw (
                            allowed, es, ◌>>=◌, ea, ◌>>=◌, enough, ls, la, run, ◌>>=◌, y, put,
                            ◌>>=◌, get,
                          ),
                          inl (on, inside, refl, refl, w₁, t, get),
                        )
                  ]
            ]
      ]

  -- For a namespace with all its parents, up to `init_pid_ns`, `pidns_get_parent` returns. If it
  -- has a parent, and the namespace of the running task is this parent or one of the parents of
  -- it, it returns the parent with a reference; otherwise it gives -EPERM and changes nothing.
  pub pidns_get_parent-IsUnder :
      (active id : NsId) (w : System T.ops) (n : ℕ)
      → Ancestry T.ops w n id
      → Returns (pidns_get_parent T.ops active id w) λ r.
        ((parent : NsId) × (r.0 ≡ inr parent)
          × IsUnder T.ops w parent active
          × ((ns : Namespace T.ops) → w.spaces id ≡ some ns → ns.parent ≡ some parent)
          × (get_pid_ns T.ops parent w ≡ some r.1))
        ⊎ ((r ≡ (inl minus_eperm, w))
            × ((ns : Namespace T.ops) (parent : NsId)
                → w.spaces id ≡ some ns
                → ns.parent ≡ some parent
                → ¬ IsUnder T.ops w parent active))
  unfolding pidns_get_parent
  pidns_get_parent-IsUnder active id w zero (ns, e, lv, p, i) = (
    (inl minus_eperm, w),
    rw (e, ◌>>=◌, lv, p, reaches-none T.ops active w),
    inr (
      refl,
      λ s parent at q. let same : ns ≡ s = cc in let q' : ns.parent ≡ some parent = rw same q in cc,
    ),
  )
  pidns_get_parent-IsUnder active id w (suc n) (ns, e, lv, i, k, parent, p, c) =
      let (b, run, t) = reaches-IsUnder T.ops n active parent w c in
      let one : suc n ≡ n + 1 = omega arith in
      elim t [
        | inr (out, apart) ↦ (
          (inl minus_eperm, w),
          rw (e, ◌>>=◌, lv, p, one, run, ◌>>=◌, out),
          inr (
            refl,
            λ s other at q u.
                let same : ns ≡ s = cc in
                let q' : ns.parent ≡ some other = rw same q in
                let same' : parent ≡ other = cc in apart (rw same' u),
          ),
        )
        | inl (inside, under) ↦
            let (s, at, _) = Ancestry-level T.ops w n parent c in
            let (w', get, again) = get_pid_ns-Returns parent w (rw at) in
            (
              (inr parent, w'),
              rw (e, ◌>>=◌, lv, p, one, run, ◌>>=◌, inside, ◌>>=◌, get),
              inl (parent, refl, under, (λ s at'. let same : ns ≡ s = cc in rw (← same) p), get),
            )
      ]
