-- ===== src/Tests/AffinityRuns.antt =====
-- A gang of three contexts, on a node with four SPUs.
use linux_kernel_code_projec.Base.{
  ◌≡◌, refl, List, [], ◌∷◌, arith, true, false, none, some, pos, ◌==◌, if◌then◌else◌,
}
use mathlib.Core.List.{map}
use linux_kernel_code_projec.Base.Run.{◌>>=◌, Returns}
use linux_kernel_code_projec.Spu.{SpuPrioArray}
use linux_kernel_code_projec.Spu.Schedule.{SpuId, Spus}
use linux_kernel_code_projec.Spu.Affinity.{
  Gang, list_from, list_before, set_offsets, aff_set_offsets, sched_spu, pass_spus, ctx_location,
}
use linux_kernel_code_projec.Spu.Activate.{over_nodes}
use linux_kernel_code_projec.Spu.Affinity.Gangs.{
  Gangs, aff_merge_remaining_ctxs, merge_contexts, promised, first_suitable, aff_ref_location,
  aff_set_ref_point_location, place_gang, has_affinity, get_idle_at, spu_get_idle_of,
}
use linux_kernel_code_projec.Spu.Affinity.Got.{Got, spu_get_idle_of-Got}
use linux_kernel_code_projec.Spu.Affinity.Placed.{place, ctx_location-aff_set_offsets}

abbrev idle_queue : SpuPrioArray
idle_queue = record {
  bitmap = λ p. false;
  runq = λ p. [];
  nr_waiting = 0;
  prio = λ c. 120;
  rq = λ c. none;
  timer = none;
}

-- The SPUs 10 to 13, without a context
abbrev idle_spus : Spus
idle_spus = record {
  queue = idle_queue;
  ctx = λ p. none;
  used = λ p. false;
  node = λ p. 0;
  spu = λ c. none;
  runnable = λ c. false;
  nosched = λ c. false;
  spu_run = λ c. true;
  fifo = λ c. false;
  time_slice = λ c. 1;
  spus = λ n. if n == 0 then 10 ∷ 11 ∷ 12 ∷ 13 ∷ [] else [];
  nr_active = λ n. 0;
}

abbrev three_contexts : Gang
three_contexts = record {
  aff_list_head = 1 ∷ 2 ∷ 3 ∷ [];
  aff_ref_ctx = 2;
  aff_offset = λ c. pos 0;
  aff_offsets_set = false;
}

abbrev four_spus : List SpuId
four_spus = 10 ∷ 11 ∷ 12 ∷ 13 ∷ []

place-three_contexts :
    map (place three_contexts idle_spus 10 0 four_spus) (1 ∷ 2 ∷ 3 ∷ [])
    ≡ some 13 ∷ some 10 ∷ some 11 ∷ []
unfolding aff_set_offsets ctx_location set_offsets list_from list_before pass_spus sched_spu
place-three_contexts = refl

-- The SPU behind one with a NOSCHED context, which is passed over
abbrev held_spus : Spus
held_spus = record idle_spus { ctx = λ p. if p == 11 then some 7 else none; nosched = λ c. true }

ctx_location-held_spus :
    map (λ o. ctx_location 10 (pos o) 0 four_spus held_spus) (0 ∷ 1 ∷ 2 ∷ 3 ∷ [])
    ≡ some 10 ∷ some 11 ∷ some 13 ∷ some 13 ∷ []
unfolding ctx_location list_from list_before pass_spus sched_spu
ctx_location-held_spus = refl

sched_spu-idle_spus : (q : SpuId) → sched_spu q idle_spus ≡ true
unfolding sched_spu
sched_spu-idle_spus q = refl

ctx_location-aff_set_offsets_example :
    (map (place three_contexts idle_spus 10 0 four_spus) (2 ∷ 3 ∷ []) ≡ some 10 ∷ some 11 ∷ [])
    × (map (place three_contexts idle_spus 10 0 four_spus) (1 ∷ []) ≡ some 13 ∷ [])
ctx_location-aff_set_offsets_example =
    ctx_location-aff_set_offsets three_contexts (1 ∷ []) (3 ∷ []) (λ c. ground arith) refl idle_spus
      10 0 four_spus sched_spu-idle_spus [] (11 ∷ 12 ∷ 13 ∷ []) (13 ∷ []) (11 ∷ []) (12 ∷ []) refl
      (λ q. ground arith) (λ q l. refl) refl refl refl

abbrev one_gang : Gangs
one_gang = record {
  gang = λ c. some 0;
  affinity = λ id. three_contexts;
  aff_merged = λ id. false;
  contexts = λ id. 3;
  aff_ref_spu = λ id. none;
  aff_sched_count = λ id. 0;
  affinity_mem = λ c. false;
  has_mem_affinity = λ p. false;
  ring = λ n. if n == 0 then four_spus else [];
}

spu_get_idle_of-one_gang :
    (spu_get_idle_of 100 2000 (λ c n. true) 1 0 1 one_gang idle_spus >>= λ r. r.0) ≡ some 13
unfolding spu_get_idle_of has_affinity place_gang aff_set_ref_point_location aff_ref_location
    promised first_suitable aff_merge_remaining_ctxs merge_contexts get_idle_at over_nodes
    aff_set_offsets ctx_location set_offsets list_from list_before pass_spus sched_spu
spu_get_idle_of-one_gang = refl

spu_get_idle_of-Got_example :
    Returns
      (spu_get_idle_of 100 2000 (λ c n. true) 1 0 1 one_gang idle_spus)
      (Got 100 2000 (λ c n. true) 1 0 1 one_gang idle_spus)
spu_get_idle_of-Got_example =
    spu_get_idle_of-Got 100 2000 (λ c n. true) 1 0 1 one_gang idle_spus (λ n q l. ground arith)
      (λ n q l. ground arith) (λ id p e. cc)
