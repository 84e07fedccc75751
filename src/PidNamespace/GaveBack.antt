-- ===== src/PidNamespace/GaveBack.antt =====
-- What `create_pid_namespace` gives back where it fails.
use linux_kernel_code_projec.Base.{
  ◌+◌, ◌-◌, ◌⊎◌, ◌∙◌, ap, ==_eq, Option-cases, true, ◌≡◌, refl, sym, inl, inr, false, some, [],
  arith, ltb, ◌==◌, ℤ, Bool-cases, ==_self,
}
use linux_kernel_code_projec.Base.Run.{◌>>=◌, Returns}
use linux_kernel_code_projec.Skiplist.{minus_enomem}
use linux_kernel_code_projec.PidTable.{PidTable}
use linux_kernel_code_projec.Pid.{NsId, Namespace, is_zero}
use linux_kernel_code_projec.Pid.Alloc.{System, set_space, minus_einval, pidns_adding}
use linux_kernel_code_projec.PidNamespace.{
  NsPtr, ns_ptr, ns_err, SpaceUse, set_cell, out_dec, out_free_idr, Answers, minus_enospc,
  max_pid_ns_level, fill_namespace, create_pid_namespace,
}
use linux_kernel_code_projec.PidNamespace.Created.{get_pid_ns-held}

module _ (T : PidTable) where
  module _ (a : Answers T.ops) (parent_id : NsId) (parent : Namespace T.ops) (w : System T.ops)
      (at : w.spaces parent_id ≡ some parent) (memory : T.enough a.header ≡ true)
      (k : SpaceUse) where
    -- An error: all that was taken is given back.
    abbrev pub GaveBack : NsPtr × SpaceUse × System T.ops → Type 0
    GaveBack r =
        (err : ℤ) × (r.0 ≡ ns_err err)
        × (is_zero err ≡ false)
        × (r.2 ≡ w)
        × (r.1.ucounts ≡ k.ucounts)
        × ((j : NsId) → r.1.in_use j ≡ k.in_use j)

    out_free_idr-GaveBack :
        (t : T.ops.State) (id : NsId) (err : ℤ)
        → T.Holds t []
        → k.in_use id ≡ false
        → is_zero err ≡ false
        → Returns
            (out_free_idr T.ops t id err
              (set_cell id true (record k { ucounts = k.ucounts + 1 }))
              w)
            GaveBack
    unfolding out_free_idr out_dec
    out_free_idr-GaveBack t id err held free real =
        let taken = set_cell id true (record k { ucounts = k.ucounts + 1 }) in
        (
          (ns_err err, record (set_cell id false taken) { ucounts = k.ucounts + 1 - 1 }, w),
          rw (out_free_idr, T.destroy_lem t [] held) refl,
          (
            err,
            refl,
            real,
            refl,
            omega arith,
            λ j. elim (Bool-cases (j == id)) [
              | inl y ↦ rw y (sym (ap k.in_use (==_eq j id y) ∙ free))
              | inr n ↦ rw n refl
            ],
          ),
        )

    fill_namespace-GaveBack :
        (id : NsId)
        → a.cell ≡ some id
        → k.in_use id ≡ false
        → Returns
            (fill_namespace T.ops a id parent_id parent
              (set_cell id true (record k { ucounts = k.ucounts + 1 }))
              w)
            λ r.
              ((i : NsId) × (a.cell ≡ some i)
                × (r.0 ≡ ns_ptr i)
                × (r.1.ucounts ≡ k.ucounts + 1)
                × (r.1.in_use i ≡ true))
              ⊎ GaveBack r
    unfolding fill_namespace
    fill_namespace-GaveBack id cell free =
        let (t, init, held) = T.init_lem a.header memory in
        let taken = set_cell id true (record k { ucounts = k.ucounts + 1 }) in
        let filled = fill_namespace T.ops a id parent_id parent taken w in
        elim (Bool-cases a.cachep) [
          | inr n ↦
              let (r, run, back) = out_free_idr-GaveBack t id minus_enomem held free refl in
              let step : filled ≡ out_free_idr T.ops t id minus_enomem taken w =
                rw (fill_namespace, init, ◌>>=◌, n) refl in
              (r, step ∙ run, inr back)
          | inl cache ↦ elim (Bool-cases (is_zero a.inum)) [
            | inr n ↦
                let (r, run, back) = out_free_idr-GaveBack t id a.inum held free n in
                let step : filled ≡ out_free_idr T.ops t id a.inum taken w =
                  rw (fill_namespace, init, ◌>>=◌, cache, n) refl in
                (r, step ∙ run, inr back)
            | inl numbered ↦
                let (w₁, got, kept) = get_pid_ns-held T parent_id parent w at in
                let space : Namespace T.ops = record {
                  table = t;
                  last_pid = 0;
                  pid_allocated = pidns_adding;
                  level = parent.level + 1;
                  parent = some parent_id;
                  kref = 1;
                } in
                (
                  (
                    ns_ptr id,
                    set_cell id true (record k { ucounts = k.ucounts + 1 }),
                    set_space T.ops id (some space) w₁,
                  ),
                  rw (init, ◌>>=◌, cache, numbered, got) refl,
                  inl (id, cell, refl, refl, rw (==_self id)),
                )
          ]
        ]

    -- With an existing parent, memory for the header, and a new `struct pid_namespace`, if there
    -- is one, whose memory is not in use, `create_pid_namespace` returns. Either it returns that
    -- namespace, the count of namespaces in `ucounts` is one more and the memory of the namespace
    -- is in use. Or it returns an error that is not 0, and the count, the memory in use and all
    -- namespaces and pids are as before.
    pub create_pid_namespace-GaveBack :
        ((id : NsId) → a.cell ≡ some id → k.in_use id ≡ false)
        → Returns (create_pid_namespace T.ops a parent_id k w) λ r.
          ((id : NsId) × (a.cell ≡ some id)
            × (r.0 ≡ ns_ptr id)
            × (r.1.ucounts ≡ k.ucounts + 1)
            × (r.1.in_use id ≡ true))
          ⊎ GaveBack r
    unfolding create_pid_namespace fill_namespace out_dec
    create_pid_namespace-GaveBack free = elim (Bool-cases a.in_userns) [
      | inr n ↦ (
        (ns_err minus_einval, k, w),
        rw (at, ◌>>=◌, n) refl,
        inr (minus_einval, refl, refl, refl, refl, λ j. refl),
      )
      | inl user ↦ elim (Bool-cases (ltb max_pid_ns_level (parent.level + 1))) [
        | inl y ↦ (
          (ns_err minus_enospc, k, w),
          rw (at, ◌>>=◌, user, y) refl,
          inr (minus_enospc, refl, refl, refl, refl, λ j. refl),
        )
        | inr low ↦ elim (Bool-cases a.ucounts) [
          | inr n ↦ (
            (ns_err minus_enospc, k, w),
            rw (at, ◌>>=◌, user, low, n) refl,
            inr (minus_enospc, refl, refl, refl, refl, λ j. refl),
          )
          | inl counts ↦ elim (Option-cases a.cell) [
            | inl none_left ↦ (
              (ns_err minus_enomem, record k { ucounts = k.ucounts + 1 - 1 }, w),
              rw (at, ◌>>=◌, user, low, counts, none_left) refl,
              inr (minus_enomem, refl, refl, refl, omega arith, λ j. refl),
            )
            | inr (id, cell) ↦
                let (r, run, filled) = fill_namespace-GaveBack id cell (free id cell) in
                let taken = set_cell id true (record k { ucounts = k.ucounts + 1 }) in
                let step : create_pid_namespace T.ops a parent_id k w
                    ≡ fill_namespace T.ops a id parent_id parent taken w =
                  rw (create_pid_namespace, at, ◌>>=◌, user, low, counts, cell) refl in
                (r, step ∙ run, filled)
          ]
        ]
      ]
    ]
