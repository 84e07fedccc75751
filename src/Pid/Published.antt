-- ===== src/Pid/Published.antt =====
-- The loops of `alloc_pid` that store the pid at its numbers and that give the numbers back.
use linux_kernel_code_projec.Base.{
  ℕ, ◌+◌, ◌%◌, ◌^◌, ◌≡◌, refl, inl, inr, true, Option, some, List, [], ◌∷◌, ◌==◌, arith,
  if◌then◌else◌, is_some, Bool-cases, Option-cases, ==_eq, ==_self,
}
use linux_kernel_code_projec.Base.Run.{◌>>=◌, Returns}
use linux_kernel_code_projec.Store.{PidRef, int_of}
use linux_kernel_code_projec.PidMap
use linux_kernel_code_projec.PidMap.{PidMap, find, found-insert, found-inserted}
use linux_kernel_code_projec.PidTable.{PidTable}
use linux_kernel_code_projec.Pid.{NsId}
use linux_kernel_code_projec.Pid.Find.{Upid}
use linux_kernel_code_projec.Pid.Alloc.{System, set_space, release_numbers, publish}
use linux_kernel_code_projec.Pid.Maps.{
  erase_all, insert_all, HoldsAll, HoldsAll-set_space, AllExist, AllExist-set_space, Kept,
  Kept-set_space, Kept-trans, Ranked, Ranked-set_space, Ranked-trans,
}

-- Every one of these numbers is in its map.
abbrev pub Stored : List Upid → (NsId → PidMap) → Type 0
Stored [] maps = Unit {0}
Stored (u ∷ us) maps = (is_some (find (int_of u.nr) (maps u.ns)) ≡ true) × Stored us maps

-- `insert_all` loses no number, and stores every one of its own.
found-insert_all :
    (p : Option PidRef) (us : List Upid) (maps : NsId → PidMap) (id : NsId) (k : ℕ)
    → is_some (find k (maps id)) ≡ true
    → is_some (find k (insert_all p us maps id)) ≡ true
found-insert_all p [] maps id k e = e
found-insert_all p (u ∷ us) maps id k e = elim (Bool-cases (id == u.ns)) [
  | inl y ↦
      let q = ==_eq id u.ns y in
      let e' = found-insert_all p us maps id k e in
      rw y (found-insert k (int_of u.nr) p (insert_all p us maps u.ns) (rw q at e'))
  | inr n ↦ rw n (found-insert_all p us maps id k e)
]

Stored-cons :
    (us : List Upid) (u : Upid) (p : Option PidRef) (maps : NsId → PidMap)
    → Stored us maps
    → Stored us (insert_all p (u ∷ []) maps)
Stored-cons [] u p maps t = tt
Stored-cons (v ∷ us) u p maps t =
    (found-insert_all p (u ∷ []) maps v.ns (int_of v.nr) t.0, Stored-cons us u p maps t.1)

pub Stored-insert_all :
    (p : Option PidRef) (us : List Upid) (maps : NsId → PidMap) → Stored us (insert_all p us maps)
Stored-insert_all p [] maps = tt
Stored-insert_all p (u ∷ us) maps = (
  rw (==_self u.ns) (found-inserted (int_of u.nr) p (insert_all p us maps u.ns)),
  Stored-cons us u p (insert_all p us maps) (Stored-insert_all p us maps),
)

module _ (T : PidTable) where
  pub record Stores (p : Option PidRef) (us : List Upid) (maps : NsId → PidMap)
      (w w' : System T.ops) : Type 0 where
    pub holds : HoldsAll T (insert_all p us maps) w'
    pub stay : (id : NsId) → is_some (w.spaces id) ≡ true → is_some (w'.spaces id) ≡ true
    pub pids : w'.pids ≡ w.pids
    pub ranks : Ranked T w w'

  -- Where the numbers are reserved, the loop stores the pid at each of them, whatever memory is there.
  pub publish-Stores :
      (mem : ℕ → T.ops.Memory) (p : PidRef) (us : List Upid) (w : System T.ops)
      (maps : NsId → PidMap)
      → HoldsAll T maps w
      → AllExist T us w
      → Stored us maps
      → Returns (publish T.ops mem p us w) (Stores (some p) us maps w)
  unfolding publish
  publish-Stores mem p [] w maps held a s = (
    w,
    refl,
    record { holds = held; stay = λ id e. e; pids = refl; ranks = λ id ns e. (ns, e, refl) },
  )
  publish-Stores mem p (u ∷ us) w maps held a s =
      let (w₁, run, t) = publish-Stores mem p us w maps held a.1 s.1 in
      let maps₁ = insert_all (some p) us maps in
      elim (Option-cases (w₁.spaces u.ns)) [
        | inl n ↦ let there = t.stay u.ns a.0 in let gone = rw n at there in cc
        | inr (ns, e) ↦
            let there : is_some (find (int_of u.nr) (maps₁ u.ns)) ≡ true =
              found-insert_all (some p) us maps u.ns (int_of u.nr) s.0 in
            let (r, ins, (code, kept, still)) =
              T.insert_lem (mem u.ns) ns.table (maps₁ u.ns) (int_of u.nr) (some p)
                (t.holds u.ns ns e) (λ absent. cc) in
            let ns₁ = record ns { table = r.1; pid_allocated = (ns.pid_allocated + 1) % 2 ^ 32 } in
            (
              set_space T.ops u.ns (some ns₁) w₁,
              rw (run, ◌>>=◌, e, ◌>>=◌, ins),
              record {
                holds =
                    HoldsAll-set_space T maps₁ w₁ u.ns ns₁
                      (PidMap.insert (int_of u.nr) (some p) (maps₁ u.ns)) t.holds
                      (rw there at kept);
                stay = λ id here. let there₁ = t.stay id here in ground arith;
                pids = t.pids;
                ranks =
                    Ranked-trans T w w₁ (set_space T.ops u.ns (some ns₁) w₁) t.ranks
                      (Ranked-set_space T w₁ u.ns ns ns₁ e refl);
              },
            )
      ]

  pub record GivenBack (us : List Upid) (maps : NsId → PidMap) (w w' : System T.ops) : Type 0 where
    pub holds : HoldsAll T (erase_all us maps) w'
    pub kept : Kept T w w'
    pub pids : w'.pids ≡ w.pids

  pub release_numbers-GivenBack :
      (us : List Upid) (w : System T.ops) (maps : NsId → PidMap)
      → HoldsAll T maps w
      → AllExist T us w
      → Returns (release_numbers T.ops us w) (GivenBack us maps w)
  unfolding release_numbers
  release_numbers-GivenBack [] w maps held a =
      (w, refl, record { holds = held; kept = λ id ns e. (ns, e, refl, refl, refl); pids = refl })
  release_numbers-GivenBack (u ∷ us) w maps held a = elim (Option-cases (w.spaces u.ns)) [
    | inl n ↦ let gone = rw n at a.0 in cc
    | inr (ns, e) ↦
        let (t, run, erased) = T.remove_lem ns.table (maps u.ns) (int_of u.nr) (held u.ns ns e) in
        let ns₁ = record ns { table = t } in
        let w₁ = set_space T.ops u.ns (some ns₁) w in
        let (r, rest, all) =
          release_numbers-GivenBack us w₁
            (λ id. if id == u.ns then PidMap.erase (int_of u.nr) (maps u.ns) else maps id)
            (HoldsAll-set_space T maps w u.ns ns₁ (PidMap.erase (int_of u.nr) (maps u.ns)) held
              erased)
            (AllExist-set_space T us w u.ns ns₁ a.1) in
        (
          r,
          rw (e, ◌>>=◌, run, ◌>>=◌, rest),
          record {
            holds = all.holds;
            kept = Kept-trans T w w₁ r (Kept-set_space T w u.ns ns ns₁ e refl refl refl) all.kept;
            pids = all.pids;
          },
        )
  ]
