-- ===== src/Pid/EveryLevel.antt =====
-- `alloc_pid` in a nested namespace: the whole function.
use linux_kernel_code_projec.Base.{
  ℕ, zero, suc, ◌+◌, ◌<◌, ◌≡◌, refl, ◌∙◌, ap, ◌⊎◌, inl, inr, Bool, true, false, ◌&&◌, none, some,
  List, [], ◌∷◌, append-nil, ◌==◌, arith, is_some, Bool-cases, Option-cases, ==_self, ℤ, pos,
  negsuc, length, get_elem?,
}
use mathlib.Core.List.{map}
use linux_kernel_code_projec.Base.Run.{◌>>=◌, Returns}
use linux_kernel_code_projec.Store.{PidRef}
use linux_kernel_code_projec.PidMap.{PidMap}
use linux_kernel_code_projec.Skiplist.{minus_enomem}
use linux_kernel_code_projec.PidTable.{PidTable}
use linux_kernel_code_projec.Pid.{NsId, Namespace}
use linux_kernel_code_projec.Pid.Find.{Upid, PidStruct}
use linux_kernel_code_projec.Pid.Alloc.{
  PidPtr, pid_ptr, err_ptr, is_adding, System, Requests, set_struct, publish_pid, alloc_pid,
}
use linux_kernel_code_projec.Pid.Maps.{
  erase_all, insert_all, HoldsAll, AllExist, AllExist-set_struct, AllExist-stay, Ranked,
  Ranked-trans, Kept-Ranked,
}
use linux_kernel_code_projec.Pid.Nested.{Chain, Taken, IsFull, alloc_levels-Numbers}
use linux_kernel_code_projec.Pid.Spaces.{spaces_from}
use linux_kernel_code_projec.Pid.Published.{Stored-insert_all, publish-Stores}
use linux_kernel_code_projec.Pid.Referenced.{
  out_free-HoldsAll, get_pid_ns-Ranked, get_pid_ns-Referenced, put_pid_ns-Referenced,
}

pub get_elem?-last :
    (nums : List Upid) (n : ℕ) → length nums ≡ n + 1 → is_some (get_elem? nums n) ≡ true
get_elem?-last [] n e = absurd (omega arith)
get_elem?-last (u ∷ us) zero e = refl
get_elem?-last (u ∷ us) (suc n) e = get_elem?-last us n (omega arith)

module _ (T : PidTable) (pid_max : ℕ) (rq : Requests T.ops) (p : PidRef) (prepare : Bool) where
  -- The preparation of /proc is asked for, and fails.
  abbrev pub is_failing : Namespace T.ops → List Upid → Bool
  is_failing ns nums = elim (get_elem? nums ns.level) [
    | none ↦ false
    | some u ↦ u.nr == 1 && prepare
  ]

  -- The pid is at all its numbers, one for each of the namespace and its parents, from level 0 on.
  abbrev pub Published :
      NsId
      → System T.ops
      → Namespace T.ops
      → List Upid
      → (NsId → PidMap)
      → PidPtr × System T.ops
      → Type 0
  Published id w ns nums maps r =
      (r.0 ≡ pid_ptr p)
      × (is_adding ns.pid_allocated ≡ true)
      × (length nums ≡ ns.level + 1)
      × HoldsAll T (insert_all (some p) nums (insert_all none nums maps)) r.1
      × AllExist T nums r.1
      × (r.1.pids p ≡ some (record { count = 1; level = ns.level; numbers = nums }))
      × (is_failing ns nums ≡ false)
      × (map (λ u. u.ns) nums ≡ spaces_from T w (ns.level + 1) (some id))
      × Ranked T w r.1

  -- The numbers are given back: ERR_PTR(-1) where a level has none, and otherwise ERR_PTR(0).
  abbrev pub Refused :
      Namespace T.ops → List Upid → (NsId → PidMap) → PidPtr × System T.ops → Type 0
  Refused ns nums maps r =
      (((r.0 ≡ err_ptr (negsuc 0)) × IsFull T pid_max rq maps)
        ⊎ ((r.0 ≡ err_ptr (pos 0))
            × ((is_failing ns nums ≡ true) ⊎ (is_adding ns.pid_allocated ≡ false))))
      × HoldsAll T (erase_all nums (insert_all none nums maps)) r.1
      × (r.1.pids p ≡ none)

  pub record AtEveryLevel (id : NsId) (w : System T.ops) (ns : Namespace T.ops)
      (maps : NsId → PidMap) (r : PidPtr × System T.ops) : Type 0 where
    pub nums : List Upid
    pub taken : Taken T pid_max rq nums maps
    pub outcome : Published id w ns nums maps r ⊎ Refused ns nums maps r

  publish_pid-outcome :
      (id : NsId) (ns : Namespace T.ops) (nums : List Upid) (ret : ℤ) (maps : NsId → PidMap)
      (w₀ w : System T.ops) (space : Namespace T.ops)
      → 0 < ns.kref
      → w.spaces id ≡ some space
      → space.pid_allocated ≡ ns.pid_allocated
      → space.kref ≡ ns.kref
      → HoldsAll T (insert_all none nums maps) w
      → AllExist T nums w
      → length nums ≡ ns.level + 1
      → ret ≡ pos 0
      → is_failing ns nums ≡ false
      → map (λ u. u.ns) nums ≡ spaces_from T w₀ (ns.level + 1) (some id)
      → Ranked T w₀ w
      → Returns
          (publish_pid T.ops rq id p ns.level nums ret w)
          λ r. Published id w₀ ns nums maps r ⊎ Refused ns nums maps r
  unfolding publish_pid
  publish_pid-outcome id ns nums ret maps w₀ w space lt at same same_kref held a len zero_ret fine
        names ranks =
      let maps₁ = insert_all none nums maps in
      let (w₁, run, t) = get_pid_ns-Referenced T id space nums maps₁ w at held a in
      elim (Bool-cases (is_adding ns.pid_allocated)) [
        | inl y ↦
            let on : is_adding t.space.pid_allocated ≡ true = rw (t.pid_allocated, same) y in
            let s : PidStruct = record { count = 1; level = ns.level; numbers = nums } in
            let (w₂, store, st) =
              publish-Stores T rq.last p nums (set_struct T.ops p (some s) w₁) maps₁ t.holds
                (AllExist-set_struct T nums w₁ p (some s) t.exist)
                (Stored-insert_all none nums maps) in
            (
              (pid_ptr p, w₂),
              rw (run, ◌>>=◌, t.here, ◌>>=◌, on, store),
              inl (
                refl,
                y,
                len,
                st.holds,
                AllExist-stay T nums (set_struct T.ops p (some s) w₁) w₂ st.stay
                    (AllExist-set_struct T nums w₁ p (some s) t.exist),
                rw (st.pids, ==_self p),
                fine,
                names,
                Ranked-trans T w₀ w w₂ ranks
                    (Ranked-trans T w w₁ w₂ (get_pid_ns-Ranked T id space w w₁ at run) st.ranks),
              ),
            )
        | inr n ↦
            let off : is_adding t.space.pid_allocated ≡ false = rw (t.pid_allocated, same) n in
            let (w₂, put, (here, held₂, a₂)) =
              put_pid_ns-Referenced T ns.level id space nums maps₁ w₁ (rw same_kref lt) t in
            elim (Option-cases (w₂.spaces id)) [
              | inl gone ↦ let there = rw gone at here in cc
              | inr (ns₂, e) ↦
                  let (r, end, (ptr, back, freed)) =
                    out_free-HoldsAll T id p nums ret w₂ maps₁ ns₂ e held₂ a₂ in
                  (
                    r,
                    rw (run, ◌>>=◌, t.here, ◌>>=◌, off, put, ◌>>=◌) end,
                    inr (inr (ptr ∙ ap err_ptr zero_ret, inr n), back, freed),
                  )
            ]
      ]

  -- If `pid_max` is above 1, the namespace has a reference, the table of every namespace holds a
  -- map, and the namespace and its parents exist, on levels that go down to 0, with unused memory
  -- for each, then `alloc_pid` with a new `struct pid` returns. It took numbers above 0 and below
  -- `pid_max` that showed no pid. Either it returns the pid: then PIDNS_ADDING is set, the number
  -- on the level of the namespace is not 1 or the preparation of /proc did not fail, the numbers
  -- are in the namespace and its parents, in this order from level 0 up to the namespace itself,
  -- the maps have the pid at all of them, the `struct pid` has one reference and these numbers,
  -- and all namespaces are there on their levels. Or it returns ERR_PTR(-1), where in a namespace
  -- the search from some `last_pid` on finds no number that fits, in its map with numbers that the
  -- call took before, or ERR_PTR(0), where that number is 1 and the preparation of /proc fails, or
  -- PIDNS_ADDING is clear: then the numbers are out of the maps and the `struct pid` is freed.
  pub alloc_pid-AtEveryLevel :
      (id : NsId) (ns : Namespace T.ops) (maps : NsId → PidMap) (w : System T.ops)
      → 1 < pid_max
      → 0 < ns.kref
      → w.spaces id ≡ some ns
      → Chain T pid_max rq w (ns.level + 1) (some id)
      → HoldsAll T maps w
      → Returns (alloc_pid T.ops pid_max rq (some p) prepare id w) (AtEveryLevel id w ns maps)
  unfolding alloc_pid
  alloc_pid-AtEveryLevel id ns maps w lt ref at c held =
      let header = T.has_header_lem ns.table (maps id) (held id ns at) in
      let (r, run, t) =
        alloc_levels-Numbers T pid_max rq lt (ns.level + 1) w (some id) minus_enomem [] maps c
          held in
      let all : r.1 ≡ t.news = t.all ∙ append-nil t.news in
      let (space, e, count, lv, kref) = t.kept id ns at in
      let maps₁ = insert_all none t.news maps in
      elim (Bool-cases r.0) [
        | inr n ↦
            let (r', end, (ptr, back, freed)) =
              out_free-HoldsAll T id p t.news r.2 r.3 maps₁ space e t.holds t.exist in
            (
              r',
              rw (at, ◌>>=◌, header, run, ◌>>=◌, n, all) end,
              record {
                nums = t.news;
                taken = t.taken;
                outcome = inr (inl (ptr ∙ ap err_ptr (t.retval n), t.full n), back, freed);
              },
            )
        | inl y ↦
            let len = t.complete y in
            let zero_ret : r.2 ≡ pos 0 = t.zero_ret y (inl (omega arith)) in
            elim (Option-cases (get_elem? t.news ns.level)) [
              | inl gone ↦ let there = rw gone at (get_elem?-last t.news ns.level len) in cc
              | inr (top, here) ↦ elim (Bool-cases (top.nr == 1 && prepare)) [
                | inl failed ↦
                    let (r', end, (ptr, back, freed)) =
                      out_free-HoldsAll T id p t.news r.2 r.3 maps₁ space e t.holds t.exist in
                    (
                      r',
                      rw (at, ◌>>=◌, header, run, ◌>>=◌, y, all, here, ◌>>=◌, failed) end,
                      record {
                        nums = t.news;
                        taken = t.taken;
                        outcome = inr (
                          inr (ptr ∙ ap err_ptr zero_ret, inl (rw (is_failing, here, failed) refl)),
                          back,
                          freed,
                        );
                      },
                    )
                | inr fine ↦
                    let (r', end, o) =
                      publish_pid-outcome id ns t.news r.2 maps w r.3 space ref e count kref t.holds
                        t.exist len zero_ret (rw (is_failing, here, fine) refl) (t.spaces y)
                        (Kept-Ranked T w r.3 t.kept) in
                    (
                      r',
                      rw (at, ◌>>=◌, header, run, ◌>>=◌, y, all, here, ◌>>=◌, fine) end,
                      record { nums = t.news; taken = t.taken; outcome = o },
                    )
              ]
            ]
      ]
