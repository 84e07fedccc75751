-- ===== src/Spu/Affinity/Got.antt =====
-- What `spu_get_idle` does for a context in a gang.
use linux_kernel_code_projec.Base.{
  ℕ, ◌+◌, ◌<◌, ◌≡◌, ◌⊎◌, refl, ap, subst, sym, inl, inr, Bool, true, false, Option, none, some,
  ◌==◌, ==_self, Bool-cases, Option-cases, is_some,
}
use linux_kernel_code_projec.Base.Run.{◌>>=◌, Returns}
use linux_kernel_code_projec.Spu.{Context}
use linux_kernel_code_projec.Spu.Queue.{occ}
use linux_kernel_code_projec.Spu.Schedule.{SpuId, Spus, set_at}
use linux_kernel_code_projec.Spu.Activate.{over_nodes, first_free, spu_get_idle}
use linux_kernel_code_projec.Spu.Activate.Nodes.{over_nodes-some}
use linux_kernel_code_projec.Spu.Activate.Choice.{first_free-some}
use linux_kernel_code_projec.Spu.Affinity.{ctx_location}
use linux_kernel_code_projec.Spu.Affinity.Located.{
  HasRing, ctx_location-Returns, aff_ref_location-listed,
}
use linux_kernel_code_projec.Spu.Affinity.Gangs.{
  Gangs, is_apart, aff_set_ref_point_location, place_gang, has_affinity, get_idle_at,
  spu_get_idle_of,
}

module _ (hz jiffies : ℕ) (allowed : Context → ℕ → Bool) (max_numnodes here : ℕ) where
  -- The SPU that `ctx_location` gives for the context of the gang `id` in the state `gs`
  abbrev pub IsPlace : ℕ → Context → SpuId → Gangs → Spus → Type 0
  IsPlace id c p gs s =
      (ref : SpuId) × (gs.aff_ref_spu id ≡ some ref)
      × (ctx_location ref ((gs.affinity id).aff_offset c) (s.node ref) (gs.ring (s.node ref)) s
          ≡ some p)

  -- Without affinity nothing is counted; with it, the gang counts one more just if the SPU at the
  -- place of the context is free, and no other SPU is given.
  abbrev pub Counted : Context → Gangs → Spus → Option SpuId × Gangs × Spus → Type 0
  Counted c gs s r =
      (((id : ℕ)
          → gs.gang c ≡ some id
          → (has_affinity hz jiffies allowed max_numnodes here id c gs s).0 ≡ false)
        × (r.1.aff_sched_count ≡ gs.aff_sched_count))
      ⊎ ((id : ℕ) × (p : SpuId) × (gs.gang c ≡ some id)
          × ((has_affinity hz jiffies allowed max_numnodes here id c gs s).0 ≡ true)
          × IsPlace id c p r.1 s
          × (((s.used p ≡ true) × (r.0 ≡ none) × (r.1.aff_sched_count ≡ gs.aff_sched_count))
              ⊎ ((s.used p ≡ false)
                  × (r.0 ≡ some p)
                  × (r.1.aff_sched_count
                      ≡ set_at id (gs.aff_sched_count id + 1) gs.aff_sched_count))))

  -- Without an SPU nothing is used; with one, it was free and is used.
  abbrev pub Got : Context → Gangs → Spus → Option SpuId × Gangs × Spus → Type 0
  Got c gs s r =
      (elim r.0 [
        | none ↦ r.2 ≡ s
        | some p ↦ (s.used p ≡ false) × (r.2 ≡ record s { used = set_at p true s.used })
      ])
      × Counted c gs s r

  anywhere-Got :
      (c : Context) (gs gs' : Gangs) (s : Spus)
      → ((id : ℕ)
          → gs.gang c ≡ some id
          → (has_affinity hz jiffies allowed max_numnodes here id c gs s).0 ≡ false)
      → gs'.aff_sched_count ≡ gs.aff_sched_count
      → Got c gs s
          (let r = spu_get_idle hz jiffies allowed max_numnodes here c s in (r.0, gs', r.1))
  unfolding spu_get_idle
  anywhere-Got c gs gs' s far same =
      let f : ℕ → Option SpuId = λ n. first_free s.used (s.spus n) in
      elim (Option-cases (over_nodes max_numnodes (allowed c) f max_numnodes here)) [
        | inl e ↦
            let run : spu_get_idle hz jiffies allowed max_numnodes here c s ≡ (none, s) =
              rw (spu_get_idle, e) refl in
            subst (Got c gs s) (ap (λ (x : Option SpuId × Spus). (x.0, gs', x.1)) (sym run))
              (refl, inl (far, same))
        | inr ((n, q), e) ↦
            let (_, found) = over_nodes-some max_numnodes (allowed c) f max_numnodes here n q e in
            let (free, _) = first_free-some s.used (s.spus n) q found in
            let run : spu_get_idle hz jiffies allowed max_numnodes here c s
                ≡ (some q, record s { used = set_at q true s.used }) =
              rw (spu_get_idle, e) refl in
            subst (Got c gs s) (ap (λ (x : Option SpuId × Spus). (x.0, gs', x.1)) (sym run))
              ((free, refl), inl (far, same))
      ]

  -- What `has_affinity` keeps
  abbrev Kept : ℕ → Gangs → Gangs → Spus → Type 0
  Kept id gs gs' s =
      (gs'.aff_sched_count ≡ gs.aff_sched_count) × (gs'.ring ≡ gs.ring) × HasRing id gs' s

  place_gang-Kept :
      (id : ℕ) (gs : Gangs) (s : Spus)
      → ((n : ℕ) (q : SpuId) → 0 < occ q (s.spus n) → 0 < occ q (gs.ring (s.node q)))
      → Kept id gs (place_gang hz jiffies allowed max_numnodes here id gs s) s
  unfolding place_gang aff_set_ref_point_location
  place_gang-Kept id gs s listed = (
    refl,
    refl,
    λ p e.
        let e' = rw (place_gang, aff_set_ref_point_location, ==_self id) at e in
        let (n, l) = aff_ref_location-listed hz jiffies allowed max_numnodes here id _ _ _ s p e' in
        listed n p l,
  )

  has_affinity-Kept :
      (id : ℕ) (c : Context) (gs : Gangs) (s : Spus)
      → ((n : ℕ) (q : SpuId) → 0 < occ q (s.spus n) → 0 < occ q (gs.ring (s.node q)))
      → HasRing id gs s
      → Kept id gs (has_affinity hz jiffies allowed max_numnodes here id c gs s).1 s
  unfolding has_affinity
  has_affinity-Kept id c gs s listed old =
      let gs₀ = record gs { aff_ref_spu = set_at id none gs.aff_ref_spu } in
      elim (Bool-cases (is_apart c (gs.affinity id).aff_list_head)) [
        | inl y ↦ rw (has_affinity, y) (refl, refl, old)
        | inr n ↦ elim (Bool-cases (gs.aff_sched_count id == 0)) [
          | inl z ↦ rw (has_affinity, n, z, ==_self id) (place_gang-Kept id gs₀ s listed)
          | inr p ↦ elim (Bool-cases (is_some (gs.aff_ref_spu id))) [
            | inl m ↦ rw (has_affinity, n, p, m) (refl, refl, old)
            | inr m ↦ rw (has_affinity, n, p, m) (place_gang-Kept id gs s listed)
          ]
        ]
      ]

  has_affinity-near :
      (id : ℕ) (c : Context) (gs : Gangs) (s : Spus)
      → (has_affinity hz jiffies allowed max_numnodes here id c gs s).0 ≡ true
      → is_some ((has_affinity hz jiffies allowed max_numnodes here id c gs s).1.aff_ref_spu id)
        ≡ true
  unfolding has_affinity
  has_affinity-near id c gs s y = elim (Bool-cases (is_apart c (gs.affinity id).aff_list_head)) [
    | inl a ↦ let y' = rw (has_affinity, a) at y in cc
    | inr n ↦ rw (has_affinity, n) (rw (has_affinity, n) at y)
  ]

  get_idle_at-Got :
      (id : ℕ) (c : Context) (ref : SpuId) (gs gs' : Gangs) (s : Spus)
      → gs.gang c ≡ some id
      → (has_affinity hz jiffies allowed max_numnodes here id c gs s).0 ≡ true
      → gs'.aff_sched_count ≡ gs.aff_sched_count
      → gs'.aff_ref_spu id ≡ some ref
      → 0 < occ ref (gs'.ring (s.node ref))
      → ((q : SpuId) → 0 < occ q (gs'.ring (s.node ref)) → s.node q ≡ s.node ref)
      → Returns (get_idle_at hz jiffies allowed max_numnodes here id c ref gs' s) (Got c gs s)
  unfolding get_idle_at
  get_idle_at-Got id c ref gs gs' s own near same at there home =
      let offset = (gs'.affinity id).aff_offset c in
      let node = s.node ref in
      let some_spu = ctx_location-Returns ref offset node (gs'.ring node) s there home in
      elim (Option-cases (ctx_location ref offset node (gs'.ring node) s)) [
        | inl e ↦ let gone = rw e at some_spu in cc
        | inr (p, e) ↦ elim (Bool-cases (s.used p)) [
          | inl y ↦ (
            (none, gs', s),
            rw (get_idle_at, e, ◌>>=◌, y) refl,
            (refl, inr (id, p, own, near, (ref, at, e), inl (y, refl, same))),
          )
          | inr n ↦
              let counts = set_at id (gs'.aff_sched_count id + 1) gs'.aff_sched_count in
              let counted : counts ≡ set_at id (gs.aff_sched_count id + 1) gs.aff_sched_count =
                ap (λ (f : ℕ → ℕ). set_at id (f id + 1) f) same in
              (
                (
                  some p,
                  record gs' { aff_sched_count = counts },
                  record s { used = set_at p true s.used },
                ),
                rw (get_idle_at, e, ◌>>=◌, n) refl,
                ((n, refl), inr (id, p, own, near, (ref, at, e), inr (n, refl, counted))),
              )
        ]
      ]

  -- If every SPU in the list of a node is in the ring of its own node, the SPUs of a ring are on
  -- its node, and the reference SPU of every gang is in the ring of its node, then `spu_get_idle`
  -- returns. An SPU that it gives was SPU_FREE and is SPU_USED, and nothing else of the SPUs and
  -- contexts changes; without one nothing of them changes. If the context is in no gang or
  -- `has_affinity` of it is false, the counts `aff_sched_count` of all gangs stay as they are.
  -- Otherwise only the SPU that `ctx_location` gives for the context from the reference SPU of its
  -- gang is given: if that SPU is free, it is given, the count of the gang is one more and all
  -- other counts stay; if it is in use, no SPU is given and all counts stay.
  pub spu_get_idle_of-Got :
      (c : Context) (gs : Gangs) (s : Spus)
      → ((n : ℕ) (q : SpuId) → 0 < occ q (s.spus n) → 0 < occ q (gs.ring (s.node q)))
      → ((n : ℕ) (q : SpuId) → 0 < occ q (gs.ring n) → s.node q ≡ n)
      → ((id : ℕ) → HasRing id gs s)
      → Returns (spu_get_idle_of hz jiffies allowed max_numnodes here c gs s) (Got c gs s)
  unfolding spu_get_idle_of
  spu_get_idle_of-Got c gs s listed homes old =
      let idle = spu_get_idle hz jiffies allowed max_numnodes here c s in
      elim (Option-cases (gs.gang c)) [
        | inl e ↦ (
          (idle.0, gs, idle.1),
          rw (spu_get_idle_of, e) refl,
          anywhere-Got c gs gs s (λ id own. cc) refl,
        )
        | inr (id, e) ↦
            let r = has_affinity hz jiffies allowed max_numnodes here id c gs s in
            let (same, rings, ref_ring) = has_affinity-Kept id c gs s listed (old id) in
            elim (Bool-cases r.0) [
              | inr n ↦ (
                (idle.0, r.1, idle.1),
                rw (spu_get_idle_of, e, n) refl,
                anywhere-Got c gs r.1 s (λ id' own. let q : id ≡ id' = cc in rw (← q) n) same,
              )
              | inl y ↦ elim (Option-cases (r.1.aff_ref_spu id)) [
                | inl m ↦ let near = has_affinity-near id c gs s y in let gone = rw m at near in cc
                | inr (ref, m) ↦
                    let (a, run, got) =
                      get_idle_at-Got id c ref gs r.1 s e y same m (ref_ring ref m)
                        (λ q l. homes (s.node ref) q (rw rings at l)) in
                    (a, rw (spu_get_idle_of, e, y, m) run, got)
              ]
            ]
      ]
