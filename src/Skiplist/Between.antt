-- ===== src/Skiplist/Between.antt =====
-- A reader between two rounds of the writer's loops. `x` is the node that the writer links or
-- unlinks, between the nodes below and above its key.
use linux_kernel_code_projec.Base.{
  ℕ, ◌+◌, ◌≤◌, ◌<◌, ◌≡◌, refl, ◌∙◌, ap, subst, inl, inr, some, List, ◌∷◌, ◌++◌, arith, Bool-cases,
  true, false, ◌==◌, if◌then◌else◌, get_elem?, length, length-append,
}
use linux_kernel_code_projec.Base.Run.{Returns}
use linux_kernel_code_projec.Store.{Addr, Heap}
use linux_kernel_code_projec.PidMap
use linux_kernel_code_projec.PidMap.{find, visible}
use linux_kernel_code_projec.Skiplist.{Skiplist, max_level, link, unlink, lookup}
use linux_kernel_code_projec.Skiplist.Chain.{
  Entry, linked, pred_at, AllStored, All, Below, Bottomed, Distinct, IsSorted,
}
use linux_kernel_code_projec.Skiplist.View.{header_entry, contents}
use linux_kernel_code_projec.Skiplist.Splice.{
  IsSorted-splice, contents-splice, contents-unlinked, contents-erase,
}
use linux_kernel_code_projec.Skiplist.Link.{at_hi, link-AllStored}
use linux_kernel_code_projec.Skiplist.Remove.Unlink.{at_lo, left_at, unlink-AllStored}
use linux_kernel_code_projec.Skiplist.Read.{lookup-find}

-- The list, the node and the writer's array, with the list's level at least that of the node.
pub record Writing (sl : Skiplist) (hdr : Addr) (lows : List Entry) (x : Entry) (highs : List Entry)
    (update : List Addr) (n : ℕ) : Type 0 where
  pub header : sl.header ≡ some hdr
  pub level_pos : 0 < sl.level
  pub level_max : sl.level ≤ max_level
  pub bottomed : Bottomed lows
  pub sorted : IsSorted (lows ++ highs)
  pub below : Below x.key lows
  pub above : All (λ e. x.key < e.key) highs
  pub preds : (j : ℕ) → j < n → get_elem? update j ≡ some (pred_at j hdr lows)

module _ (h : Heap) (sl : Skiplist) (hdr : Addr) (lows : List Entry) (x : Entry)
    (highs : List Entry) (update : List Addr) (key f : ℕ)
    (fuel : length (lows ++ x ∷ highs) < f) where
  reads :
      (n : ℕ) (g : Heap) (y : Entry)
      → Writing sl hdr lows x highs update n
      → y.key ≡ x.key
      → AllStored g (header_entry hdr ∷ lows ++ y ∷ highs)
      → lookup f key g sl ≡ some (visible (find key (contents (lows ++ y ∷ highs))))
  reads n g y v e s =
      lookup-find
        (record {
          header = v.header;
          stored = s;
          sorted = IsSorted-splice y lows highs v.sorted (rw e v.below) (rw e v.above);
          level_pos = v.level_pos;
          level_max = v.level_max;
        })
        key f (omega (arith, fuel, length-append lows (x ∷ highs), length-append lows (y ∷ highs)))

  -- If a new node is filled in memory between the nodes of a well-formed list with smaller and
  -- with greater keys, and the array `update` has the predecessor on each of its levels, then
  -- after any number of rounds of the loop that links it, from level 0 up, a lookup with more fuel
  -- than nodes returns: after no round what the map has at its key, and after the first one what
  -- the map with the pid stored at the new key has.
  pub link-lookup :
      (n : ℕ)
      → Writing sl hdr lows x highs update x.slots
      → AllStored h (header_entry hdr ∷ lows ++ at_hi x 0 ∷ highs)
      → Distinct (header_entry hdr ∷ lows ++ at_hi x 0 ∷ highs)
      → x.lo ≡ 0
      → x.slots ≤ max_level
      → n ≤ x.slots
      → Returns (link x.addr update n 0 h) λ g.
        lookup f key g sl
        ≡ some (
            visible (
              find key (
                if n == 0
                then contents (lows ++ highs)
                else PidMap.insert x.key x.pid (contents (lows ++ highs)))))
  link-lookup n v s a lo top le =
      let (g, run, t) =
        link-AllStored (header_entry hdr) x lows highs update lo v.bottomed v.preds top n h 0 s a
          (omega arith) in
      let e : 0 + n ≡ n = omega arith in
      let y = at_hi x n in
      let seen = reads x.slots g y v refl (rw e at t) in
      elim (Bool-cases (n == 0)) [
        | inl z ↦
            let off : linked y 0 ≡ false = ground arith in
            (
              g,
              run,
              rw z (
                  seen
                  ∙ ap (λ m. some (visible (find key m))) (contents-unlinked y lows highs off)),
            )
        | inr q ↦
            let on : linked y 0 ≡ true = ground arith in
            (
              g,
              run,
              rw q (
                  seen
                  ∙ ap (λ m. some (visible (find key m)))
                      (contents-splice y lows highs on v.below v.above)),
            )
      ]

  -- If a node stands between the nodes of a well-formed list with smaller and with greater keys,
  -- and the array `update` has the predecessor on each level of the list, then after any number of
  -- rounds of the loop that takes it out, from level 0 up, a lookup with more fuel than nodes
  -- returns: after no round what the map has at its key, and after the first one what the map
  -- without the removed key has.
  pub unlink-lookup :
      (n : ℕ)
      → Writing sl hdr lows x highs update sl.level
      → AllStored h (header_entry hdr ∷ lows ++ x ∷ highs)
      → Distinct (header_entry hdr ∷ lows ++ x ∷ highs)
      → x.lo ≡ 0
      → 0 < x.hi
      → x.hi ≤ sl.level
      → n ≤ sl.level
      → Returns (unlink x.addr update n 0 h) λ g.
        lookup f key g sl
        ≡ some (
            visible (
              find key (
                if n == 0
                then contents (lows ++ x ∷ highs)
                else PidMap.erase x.key (contents (lows ++ x ∷ highs)))))
  unlink-lookup n v s a lo pos_hi top le =
      let d = header_entry hdr in
      let (g, run, t) =
        unlink-AllStored d x lows highs update sl.level v.bottomed v.preds v.level_max top n h 0
          (subst (λ j. AllStored h (d ∷ lows ++ at_lo x j ∷ highs)) lo s)
          (subst (λ j. Distinct (d ∷ lows ++ at_lo x j ∷ highs)) lo a) (omega arith)
          (omega arith) in
      let e : 0 + n ≡ n = omega arith in
      let y = at_lo x (left_at x n) in
      let seen = reads sl.level g y v refl (rw e at t) in
      let whole : linked x 0 ≡ true = ground arith in
      elim (Bool-cases (n == 0)) [
        | inl z ↦
            let same : left_at x n ≡ x.lo = ground arith in
            (
              g,
              run,
              rw z (
                  seen
                  ∙ ap (λ j. some (visible (find key (contents (lows ++ at_lo x j ∷ highs)))))
                      same),
            )
        | inr q ↦
            let off : linked y 0 ≡ false = ground arith in
            (
              g,
              run,
              rw q (
                  seen
                  ∙ ap (λ m. some (visible (find key m)))
                      (contents-unlinked y lows highs off
                        ∙ contents-erase x lows highs whole v.below)),
            )
      ]
