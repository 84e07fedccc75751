-- ===== src/Spu/Affinity/Gangs.antt =====
-- skiplist/sched.c: `has_affinity`, and `spu_get_idle` of a context in a gang.
use linux_kernel_code_projec.Base.{
  ℕ, ◌<◌, ◌≡◌, refl, arith, ==_self, ◌+◌, Bool, true, false, ◌&&◌, ◌||◌, not, Option, none, some,
  List, [], ◌∷◌, ◌==◌, ltb, ℤ, pos, negsuc, is_some, length, if◌then◌else◌,
}
use linux_kernel_code_projec.Base.Run.{◌>>=◌}
use linux_kernel_code_projec.Spu.{Context}
use linux_kernel_code_projec.Spu.Queue.{occ}
use linux_kernel_code_projec.Spu.Schedule.{SpuId, Spus, set_at}
use linux_kernel_code_projec.Spu.Activate.{over_nodes, spu_get_idle}
use linux_kernel_code_projec.Spu.Affinity.{Gang, aff_set_offsets, sched_spu, ctx_location}

-- The gangs: the field `gang` of the contexts, the other fields of `struct spu_gang` (whether
-- AFF_MERGED is in `aff_flags`), whether SPU_CREATE_AFFINITY_MEM is in the flags of a context,
-- `has_mem_affinity` of an SPU, and the ring of the `aff_list` of the SPUs of each node.
pub record Gangs : Type 0 where
  pub gang : Context → Option ℕ
  pub affinity : ℕ → Gang
  pub aff_merged : ℕ → Bool
  pub contexts : ℕ → ℕ
  pub aff_ref_spu : ℕ → Option SpuId
  pub aff_sched_count : ℕ → ℕ
  pub affinity_mem : Context → Bool
  pub has_mem_affinity : SpuId → Bool
  pub ring : ℕ → List SpuId

-- `list_empty(&ctx->aff_list)`: the context is not on the list of its gang
abbrev pub is_apart : Context → List Context → Bool
is_apart c cs = occ c cs == 0

-- The loop of `aff_merge_remaining_ctxs`
unfoldable pub merge_contexts : List Context → List Context → List Context
merge_contexts [] list = list
merge_contexts (c ∷ cs) list =
    let list' = if is_apart c list then c ∷ list else list in merge_contexts cs list'

-- `aff_merge_remaining_ctxs`, without the flag
unfoldable pub aff_merge_remaining_ctxs : Gang → Gang
aff_merge_remaining_ctxs g = record g {
  aff_list_head = merge_contexts g.aff_list_head g.aff_list_head;
}

merge_contexts-same :
    (cs list : List Context)
    → ((c : Context) → 0 < occ c cs → 0 < occ c list)
    → merge_contexts cs list ≡ list
unfolding merge_contexts
merge_contexts-same [] list on = refl
merge_contexts-same (c ∷ cs) list on =
    let l = on c (rw (==_self c) (omega arith)) in
    let there : is_apart c list ≡ false = ground arith in
    rw there (merge_contexts-same cs list (λ d k. on d (omega arith)))

-- The loop only goes over contexts that are on the list, and puts none on it.
aff_merge_remaining_ctxs_lem : (g : Gang) → aff_merge_remaining_ctxs g ≡ g
unfolding aff_merge_remaining_ctxs
aff_merge_remaining_ctxs_lem g =
    rw (merge_contexts-same g.aff_list_head g.aff_list_head (λ c l. l)) refl

abbrev pub is_zero : ℤ → Bool
is_zero (pos n) = n == 0
is_zero (negsuc n) = false

-- What a loop of `aff_ref_location` takes off `available_spus`
unfoldable pub promised : Gangs → Spus → List SpuId → ℕ
promised gs s [] = 0
promised gs s (p ∷ ps) = promised gs s ps + (elim (s.ctx p) [
  | none ↦ 0
  | some c ↦ elim (gs.gang c) [
    | none ↦ 0
    | some id ↦
        if is_zero ((gs.affinity id).aff_offset c) && is_some (gs.aff_ref_spu id)
        then gs.contexts id
        else 0
  ]
])

-- The SPU that the other loop of `aff_ref_location` finds on a node
unfoldable pub first_suitable : Bool → Gangs → Spus → List SpuId → Option SpuId
first_suitable mem_aff gs s [] = none
first_suitable mem_aff gs s (p ∷ ps) =
    let rest = first_suitable mem_aff gs s ps in
    if (not mem_aff || gs.has_mem_affinity p) && sched_spu p s then some p else rest

module _ (hz jiffies : ℕ) (allowed : Context → ℕ → Bool) (max_numnodes here : ℕ) where
  -- `aff_ref_location` of a context of the gang `id`
  unfoldable pub aff_ref_location : ℕ → Context → Bool → Gangs → Spus → Option SpuId
  aff_ref_location id c mem_aff gs s =
      let on_node : ℕ → Option SpuId = λ n.
        if ltb (length (s.spus n)) (promised gs s (s.spus n) + gs.contexts id)
        then none
        else first_suitable mem_aff gs s (s.spus n) in
      elim (over_nodes max_numnodes (allowed c) on_node max_numnodes here) [
        | none ↦ none
        | some r ↦ some r.1
      ]

  -- `aff_set_ref_point_location`
  unfoldable pub aff_set_ref_point_location : ℕ → Gangs → Spus → Gangs
  aff_set_ref_point_location id gs s =
      let ref = (gs.affinity id).aff_ref_ctx in
      let found = aff_ref_location id ref (gs.affinity_mem ref) gs s in
      record gs { aff_ref_spu = set_at id found gs.aff_ref_spu }

  -- What `has_affinity` does for a gang without a reference SPU
  unfoldable pub place_gang : ℕ → Gangs → Spus → Gangs
  place_gang id gs s =
      let g = gs.affinity id in
      let merged = if gs.aff_merged id then g else aff_merge_remaining_ctxs g in
      let numbered = if merged.aff_offsets_set then merged else aff_set_offsets merged in
      let gs₁ = record gs {
        affinity = set_at id numbered gs.affinity;
        aff_merged = set_at id true gs.aff_merged;
      } in
      aff_set_ref_point_location id gs₁ s

  -- `has_affinity` of a context of the gang `id`
  unfoldable pub has_affinity : ℕ → Context → Gangs → Spus → Bool × Gangs
  has_affinity id c gs s =
      if is_apart c (gs.affinity id).aff_list_head
      then (false, gs)
      else (let gs₁ =
            if gs.aff_sched_count id == 0
            then record gs { aff_ref_spu = set_at id none gs.aff_ref_spu }
            else gs in
          let gs₂ = if is_some (gs₁.aff_ref_spu id) then gs₁ else place_gang id gs₁ s in
          (is_some (gs₂.aff_ref_spu id), gs₂))

  -- `spu_get_idle` of a context of the gang `id`, at the reference SPU `ref`
  unfoldable pub get_idle_at :
      ℕ → Context → SpuId → Gangs → Spus → Option (Option SpuId × Gangs × Spus)
  get_idle_at id c ref gs s = do
    let offset = (gs.affinity id).aff_offset c
    p ← ctx_location ref offset (s.node ref) (gs.ring (s.node ref)) s
    if s.used p
        then some (none, gs, s)
        else some (
          some p,
          record gs { aff_sched_count = set_at id (gs.aff_sched_count id + 1) gs.aff_sched_count },
          record s { used = set_at p true s.used },
        )

  -- `spu_get_idle`
  unfoldable pub spu_get_idle_of : Context → Gangs → Spus → Option (Option SpuId × Gangs × Spus)
  spu_get_idle_of c gs s =
      let anywhere : Gangs → Option (Option SpuId × Gangs × Spus) = λ gs'.
        let r = spu_get_idle hz jiffies allowed max_numnodes here c s in some (r.0, gs', r.1) in
      elim (gs.gang c) [
        | none ↦ anywhere gs
        | some id ↦
            let (near, gs₁) = has_affinity id c gs s in
            if near
            then (elim (gs₁.aff_ref_spu id) [
              | none ↦ anywhere gs₁
              | some ref ↦ get_idle_at id c ref gs₁ s
            ])
            else anywhere gs₁
      ]
