-- ===== src/Pid/RoundTrip.antt =====
-- `alloc_pid` and then `find_pid_ns` or `free_pid`.
use linux_kernel_code_projec.Base.{
  ℕ, ◌+◌, ◌<◌, ◌≡◌, ◌≢◌, ◌∙◌, ◌⊎◌, refl, sym, Option, inl, inr, Bool, true, false, ◌&&◌, none, some,
  List, [], ◌∷◌, ◌==◌, arith, Bool-cases, Option-cases, ==_eq, ==_self, length,
}
use mathlib.Core.List.{map}
use linux_kernel_code_projec.Base.Run.{Returns}
use linux_kernel_code_projec.Store.{PidRef, int_of}
use linux_kernel_code_projec.PidMap.{PidMap, find, visible, IsOrdered}
use linux_kernel_code_projec.PidTable.{PidTable}
use linux_kernel_code_projec.Pid.{NsId, Namespace}
use linux_kernel_code_projec.Pid.Find.{Upid, find_pid_ns}
use linux_kernel_code_projec.Pid.Alloc.{pid_ptr, System, Requests, alloc_pid}
use linux_kernel_code_projec.Pid.Maps.{erase_all, insert_all, HoldsAll, AllExist, Ranked}
use linux_kernel_code_projec.Pid.Maps.Listed.{
  listed, find-insert_all, insert_all-IsOrdered, find-erase_all,
}
use linux_kernel_code_projec.Pid.Nested.{Chain, Taken}
use linux_kernel_code_projec.Pid.Spaces.{spaces_from}
use linux_kernel_code_projec.Pid.EveryLevel.{alloc_pid-AtEveryLevel}
use linux_kernel_code_projec.Pid.Free.{free_pid}
use linux_kernel_code_projec.Pid.Free.Released.{free_pid-HoldsAll}

module _ (T : PidTable) where
  -- `find_pid_ns` finds the pid at each of these numbers.
  abbrev pub AllFound : PidRef → List Upid → System T.ops → Type 0
  AllFound p [] w = Unit {0}
  AllFound p (u ∷ us) w =
      ((ns : Namespace T.ops) × (w.spaces u.ns ≡ some ns)
        × (find_pid_ns T.ops u.nr ns ≡ some (some p)))
      × AllFound p us w

  AllFound-listed :
      (p : PidRef) (us vs : List Upid) (maps : NsId → PidMap) (w : System T.ops)
      → HoldsAll T (insert_all (some p) us maps) w
      → AllExist T vs w
      → ((id : NsId) (k : ℕ) → listed vs id k ≡ true → listed us id k ≡ true)
      → AllFound p vs w
  unfolding find_pid_ns
  AllFound-listed p us [] maps w held a l = tt
  AllFound-listed p us (v ∷ vs) maps w held a l = (
    elim (Option-cases (w.spaces v.ns)) [
      | inl n ↦ let gone = rw n at a.0 in cc
      | inr (ns, e) ↦
          let k = int_of v.nr in
          let there : listed us v.ns k ≡ true = l v.ns k (rw (==_self v.ns, ==_self k)) in
          let f = find-insert_all (some p) us maps v.ns k in
          (
            ns,
            e,
            T.lookup_lem ns.table (insert_all (some p) us maps v.ns) k (held v.ns ns e)
                ∙ rw (f, there),
          )
    ],
    AllFound-listed p us vs maps w held a.1 (λ id k e. l id k (ground arith)),
  )

  -- A lookup sees the same in both states, in every namespace that both have.
  abbrev pub SameFound : System T.ops → System T.ops → Type 0
  SameFound w w' =
      (id : NsId) (ns ns' : Namespace T.ops) (nr : ℕ)
      → w.spaces id ≡ some ns
      → w'.spaces id ≡ some ns'
      → find_pid_ns T.ops nr ns' ≡ find_pid_ns T.ops nr ns

  -- The tables hold the maps as before, but that a reserved number may be gone.
  abbrev pub Unreserved : (NsId → PidMap) → System T.ops → System T.ops → Type 0
  Unreserved maps w w' =
      (maps' : NsId → PidMap) × HoldsAll T maps' w'
      × ((id : NsId) (ns : Namespace T.ops) (k : ℕ)
          → w.spaces id ≡ some ns
          → (find k (maps' id) ≡ find k (maps id))
            ⊎ ((find k (maps id) ≡ some none) × (find k (maps' id) ≡ none)))

  module _ (pid_max : ℕ) (rq : Requests T.ops) where
    Taken-listed :
        (us : List Upid) (maps : NsId → PidMap) (id : NsId) (k : ℕ)
        → Taken T pid_max rq us maps
        → listed us id k ≡ true
        → visible (find k (maps id)) ≡ none
    Taken-listed [] maps id k t l = cc
    Taken-listed (u ∷ us) maps id k (t, ts) l = elim (Bool-cases (id == u.ns && int_of u.nr == k)) [
      | inr n ↦ Taken-listed us maps id k ts (rw n at l)
      | inl y ↦
          let q : id ≡ u.ns = ==_eq id u.ns (ground arith) in
          let e : int_of u.nr ≡ k = ==_eq (int_of u.nr) k (ground arith) in
          let unseen : visible (find (int_of u.nr) (maps u.ns)) ≡ none = ground arith in
          rw (q, ← e) unseen
    ]

    -- Taking numbers that showed no pid out of the maps again.
    SameFound-erase_all :
        (us : List Upid) (maps maps' : NsId → PidMap) (w w' : System T.ops)
        → Taken T pid_max rq us maps
        → HoldsAll T maps w
        → HoldsAll T (erase_all us maps') w'
        → ((id : NsId) → IsOrdered (maps id) → IsOrdered (maps' id))
        → ((id : NsId) (k : ℕ) → listed us id k ≡ false → find k (maps' id) ≡ find k (maps id))
        → SameFound w w'
    unfolding find_pid_ns
    SameFound-erase_all us maps maps' w w' t held held' ord same id ns ns' nr e e' =
        let k = int_of nr in
        let o = ord id (T.Holds-IsOrdered ns.table (maps id) (held id ns e)) in
        let before = T.lookup_lem ns.table (maps id) k (held id ns e) in
        let after = T.lookup_lem ns'.table (erase_all us maps' id) k (held' id ns' e') in
        let f = find-erase_all us maps' id k o in
        elim (Bool-cases (listed us id k)) [
          | inl y ↦ let unseen = Taken-listed us maps id k t y in rw (after, before, f, y, unseen)
          | inr n ↦ rw (after, before, f, n, same id k n)
        ]

    unseen_cases : (o : Option (Option PidRef)) → visible o ≡ none → (o ≡ none) ⊎ (o ≡ some none)
    unfolding visible
    unseen_cases none e = inl refl
    unseen_cases (some none) e = inr refl
    unseen_cases (some (some q)) e = cc

    -- Taking numbers out of the maps again that were free or reserved.
    Unreserved-erase_all :
        (us : List Upid) (maps : NsId → PidMap) (w w' : System T.ops)
        → Taken T pid_max rq us maps
        → HoldsAll T maps w
        → HoldsAll T (erase_all us (insert_all none us maps)) w'
        → Unreserved maps w w'
    Unreserved-erase_all us maps w w' t held held' = (
      erase_all us (insert_all none us maps),
      held',
      λ id ns k e.
          let o =
            insert_all-IsOrdered none us maps id
              (T.Holds-IsOrdered ns.table (maps id) (held id ns e)) in
          let f = find-erase_all us (insert_all none us maps) id k o in
          let g = find-insert_all none us maps id k in
          elim (Bool-cases (listed us id k)) [
            | inr n ↦ inl (f ∙ rw n (g ∙ rw n refl))
            | inl y ↦
                let gone : find k (erase_all us (insert_all none us maps) id) ≡ none =
                  f ∙ rw y refl in
                elim (unseen_cases (find k (maps id)) (Taken-listed us maps id k t y)) [
                  | inl free ↦ inl (gone ∙ sym free)
                  | inr reserved ↦ inr (reserved, gone)
                ]
          ],
    )

    module _ (p : PidRef) (prepare : Bool) where
      -- If `pid_max` is above 1, the namespace has a reference, the table of every namespace holds
      -- a map, and the namespace and its parents exist, on levels that go down to 0, with unused
      -- memory for each, then `alloc_pid` with a new `struct pid` returns; and if it returns the
      -- pid, then the pid has one number for each level, and `find_pid_ns` finds it at every one
      -- of them in the namespace of that number.
      pub alloc_pid-find_pid_ns :
          (id : NsId) (ns : Namespace T.ops) (maps : NsId → PidMap) (w : System T.ops)
          → 1 < pid_max
          → 0 < ns.kref
          → w.spaces id ≡ some ns
          → Chain T pid_max rq w (ns.level + 1) (some id)
          → HoldsAll T maps w
          → Returns (alloc_pid T.ops pid_max rq (some p) prepare id w) λ r.
            r.0 ≡ pid_ptr p
            → (nums : List Upid) × (r.1.pids p
                ≡ some (record { count = 1; level = ns.level; numbers = nums }))
              × (length nums ≡ ns.level + 1)
              × AllFound p nums r.1
              × (map (λ u. u.ns) nums ≡ spaces_from T w (ns.level + 1) (some id))
              × Ranked T w r.1
      alloc_pid-find_pid_ns id ns maps w lt ref at c held =
          let (r, run, t) =
            alloc_pid-AtEveryLevel T pid_max rq p prepare id ns maps w lt ref at c held in
          (
            r,
            run,
            λ ptr. elim t.outcome [
              | inr (inl (e, _), _, _) ↦ cc
              | inr (inr (e, _), _, _) ↦ cc
              | inl (_, _, len, stored, exist, s, _, names, ranks) ↦ (
                t.nums,
                s,
                len,
                AllFound-listed p t.nums t.nums (insert_all none t.nums maps) r.1 stored exist
                    (λ i k l. l),
                names,
                ranks,
              )
            ],
          )

      -- If `pid_max` is above 1, the namespace has a reference, the table of every namespace holds
      -- a map, and the namespace and its parents exist, on levels that go down to 0, with unused
      -- memory for each, then `alloc_pid` with a new `struct pid` returns; and if it returns the
      -- pid, then `free_pid` of it returns, and every `find_pid_ns`, in every namespace that is
      -- there before and after, gives what it gave before the allocation.
      pub alloc_pid-free_pid :
          (id : NsId) (ns : Namespace T.ops) (maps : NsId → PidMap) (w : System T.ops)
          → 1 < pid_max
          → 0 < ns.kref
          → w.spaces id ≡ some ns
          → Chain T pid_max rq w (ns.level + 1) (some id)
          → HoldsAll T maps w
          → Returns
              (alloc_pid T.ops pid_max rq (some p) prepare id w)
              λ r. r.0 ≡ pid_ptr p → Returns (free_pid T.ops p r.1) (λ f. SameFound w f.0)
      alloc_pid-free_pid id ns maps w lt ref at c held =
          let (r, run, t) =
            alloc_pid-AtEveryLevel T pid_max rq p prepare id ns maps w lt ref at c held in
          (
            r,
            run,
            λ ptr. elim t.outcome [
              | inr (inl (e, _), _, _) ↦ cc
              | inr (inr (e, _), _, _) ↦ cc
              | inl (_, _, _, stored, exist, s, _, _, _) ↦
                  let reserved = insert_all none t.nums maps in
                  let (f, end, freed) =
                    free_pid-HoldsAll T p _ r.1 (insert_all (some p) t.nums reserved) s stored
                      exist in
                  (
                    f,
                    end,
                    SameFound-erase_all t.nums maps (insert_all (some p) t.nums reserved) w f.0
                        t.taken held freed
                        (λ i o.
                          insert_all-IsOrdered (some p) t.nums reserved i
                            (insert_all-IsOrdered none t.nums maps i o))
                        (λ i k l.
                          find-insert_all (some p) t.nums reserved i k
                          ∙ rw (l, find-insert_all none t.nums maps i k, l)),
                  )
            ],
          )

      -- If `pid_max` is above 1, the namespace has a reference, the table of every namespace holds
      -- a map, and the namespace and its parents exist, on levels that go down to 0, with unused
      -- memory for each, then `alloc_pid` with a new `struct pid` returns; and if it does not
      -- return the pid, the `struct pid` is freed, every `find_pid_ns`, in every namespace that is
      -- there before and after, gives what it gave before, and the tables hold maps that have at
      -- every number of a namespace what they had before, but that a number that was reserved may
      -- be free: no number stays reserved by the failed call.
      pub alloc_pid-SameFound :
          (id : NsId) (ns : Namespace T.ops) (maps : NsId → PidMap) (w : System T.ops)
          → 1 < pid_max
          → 0 < ns.kref
          → w.spaces id ≡ some ns
          → Chain T pid_max rq w (ns.level + 1) (some id)
          → HoldsAll T maps w
          → Returns
              (alloc_pid T.ops pid_max rq (some p) prepare id w)
              λ r. r.0 ≢ pid_ptr p → (r.1.pids p ≡ none) × SameFound w r.1 × Unreserved maps w r.1
      alloc_pid-SameFound id ns maps w lt ref at c held =
          let (r, run, t) =
            alloc_pid-AtEveryLevel T pid_max rq p prepare id ns maps w lt ref at c held in
          (
            r,
            run,
            λ other. elim t.outcome [
              | inl (ptr, _, _, _, _, _, _, _, _) ↦ absurd (other ptr)
              | inr (_, back, freed) ↦ (
                freed,
                SameFound-erase_all t.nums maps (insert_all none t.nums maps) w r.1 t.taken held
                    back (λ i o. insert_all-IsOrdered none t.nums maps i o)
                    (λ i k l. rw (find-insert_all none t.nums maps i k, l)),
                Unreserved-erase_all t.nums maps w r.1 t.taken held back,
              )
            ],
          )
