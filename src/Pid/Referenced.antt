-- ===== src/Pid/Referenced.antt =====
-- The reference that `alloc_pid` takes to a namespace, and its way out from `out_free` on.
use linux_kernel_code_projec.Base.{
  ℕ, suc, ◌+◌, ◌-◌, ◌<◌, ◌≡◌, refl, subst, inl, inr, true, false, none, some, List, ◌==◌, arith,
  is_some, Bool-cases, ==_self, ℤ,
}
use linux_kernel_code_projec.Base.Run.{◌>>=◌, Returns}
use linux_kernel_code_projec.Store.{PidRef}
use linux_kernel_code_projec.PidMap.{PidMap}
use linux_kernel_code_projec.PidTable.{PidTable}
use linux_kernel_code_projec.Pid.{NsId, Namespace}
use linux_kernel_code_projec.Pid.Find.{Upid}
use linux_kernel_code_projec.Pid.Alloc.{
  err_ptr, pidns_adding, init_pid_ns, System, set_space, set_struct, get_pid_ns, put_pid_ns,
  out_free,
}
use linux_kernel_code_projec.Pid.Maps.{
  erase_all, HoldsAll, HoldsAll-same, AllExist, AllExist-set_space, Ranked, Ranked-set_space,
}
use linux_kernel_code_projec.Pid.Published.{release_numbers-GivenBack}

module _ (T : PidTable) where
  -- From `out_free` on, the numbers are out of the maps and the `struct pid` is freed.
  pub out_free-HoldsAll :
      (id : NsId) (p : PidRef) (nums : List Upid) (ret : ℤ) (w : System T.ops)
      (maps : NsId → PidMap) (ns : Namespace T.ops)
      → w.spaces id ≡ some ns
      → HoldsAll T maps w
      → AllExist T nums w
      → Returns
          (out_free T.ops id p nums ret w)
          λ r. (r.0 ≡ err_ptr ret) × HoldsAll T (erase_all nums maps) r.1 × (r.1.pids p ≡ none)
  unfolding out_free
  out_free-HoldsAll id p nums ret w maps ns at held a =
      let (w₁, run, t) = release_numbers-GivenBack T nums w maps held a in
      let (ns₁, e, _, _, _) = t.kept id ns at in
      elim (Bool-cases (ns₁.pid_allocated == pidns_adding)) [
        | inl y ↦
            let ns₂ = record ns₁ { last_pid = 0 } in
            let held₂ : HoldsAll T (erase_all nums maps) (set_space T.ops id (some ns₂) w₁) =
              HoldsAll-same T (erase_all nums maps) w₁ id ns₂ t.holds (t.holds id ns₁ e) in
            (
              (err_ptr ret, set_struct T.ops p none (set_space T.ops id (some ns₂) w₁)),
              rw (run, ◌>>=◌, e, ◌>>=◌, y),
              (refl, held₂, rw (==_self p)),
            )
        | inr n ↦ (
          (err_ptr ret, set_struct T.ops p none w₁),
          rw (run, ◌>>=◌, e, ◌>>=◌, n),
          (refl, t.holds, rw (==_self p)),
        )
      ]

  -- What taking a reference leaves.
  pub record Referenced (id : NsId) (ns : Namespace T.ops) (us : List Upid) (maps : NsId → PidMap)
      (w : System T.ops) : Type 0 where
    pub space : Namespace T.ops
    pub here : w.spaces id ≡ some space
    pub pid_allocated : space.pid_allocated ≡ ns.pid_allocated
    pub kref : (id == init_pid_ns) ≡ false → space.kref ≡ ns.kref + 1
    pub holds : HoldsAll T maps w
    pub exist : AllExist T us w

  pub get_pid_ns-Referenced :
      (id : NsId) (ns : Namespace T.ops) (us : List Upid) (maps : NsId → PidMap) (w : System T.ops)
      → w.spaces id ≡ some ns
      → HoldsAll T maps w
      → AllExist T us w
      → Returns (get_pid_ns T.ops id w) (Referenced id ns us maps)
  unfolding get_pid_ns
  get_pid_ns-Referenced id ns us maps w at held a = elim (Bool-cases (id == init_pid_ns)) [
    | inl y ↦ (
      w,
      rw y,
      record {
        space = ns;
        here = at;
        pid_allocated = refl;
        kref = λ n. cc;
        holds = held;
        exist = a;
      },
    )
    | inr n ↦
        let ns₁ = record ns { kref = ns.kref + 1 } in
        (
          set_space T.ops id (some ns₁) w,
          rw (n, at),
          record {
            space = ns₁;
            here = rw (==_self id);
            pid_allocated = refl;
            kref = λ _. refl;
            holds = HoldsAll-same T maps w id ns₁ held (held id ns at);
            exist = AllExist-set_space T us w id ns₁ a;
          },
        )
  ]

  pub get_pid_ns-Ranked :
      (id : NsId) (ns : Namespace T.ops) (w w' : System T.ops)
      → w.spaces id ≡ some ns
      → get_pid_ns T.ops id w ≡ some w'
      → Ranked T w w'
  unfolding get_pid_ns
  get_pid_ns-Ranked id ns w w' at run = elim (Bool-cases (id == init_pid_ns)) [
    | inl y ↦
        let run' : some w ≡ some w' = rw y at run in
        let same : w ≡ w' = cc in subst (Ranked T w) same (λ j s e. (s, e, refl))
    | inr n ↦
        let ns₁ = record ns { kref = ns.kref + 1 } in
        let run' : some (set_space T.ops id (some ns₁) w) ≡ some w' = rw (n, at) at run in
        let same : set_space T.ops id (some ns₁) w ≡ w' = cc in
        subst (Ranked T w) same (Ranked-set_space T w id ns ns₁ at refl)
  ]

  -- Letting that reference go destroys nothing.
  pub put_pid_ns-Referenced :
      (n : ℕ) (id : NsId) (ns : Namespace T.ops) (us : List Upid) (maps : NsId → PidMap)
      (w : System T.ops)
      → 0 < ns.kref
      → Referenced id ns us maps w
      → Returns
          (put_pid_ns T.ops (n + 1) id w)
          λ w'. (is_some (w'.spaces id) ≡ true) × HoldsAll T maps w' × AllExist T us w'
  unfolding put_pid_ns
  put_pid_ns-Referenced n id ns us maps w lt t =
      let one : n + 1 ≡ suc n = omega arith in
      elim (Bool-cases (id == init_pid_ns)) [
        | inl y ↦ (w, rw (one, put_pid_ns, y), (rw t.here, t.holds, t.exist))
        | inr q ↦
            let more = t.kref q in
            let shared : (t.space.kref == 1) ≡ false = ground arith in
            let ns₁ = record t.space { kref = t.space.kref - 1 } in
            (
              set_space T.ops id (some ns₁) w,
              rw (one, put_pid_ns, q, t.here, ◌>>=◌, shared),
              (
                rw (==_self id),
                HoldsAll-same T maps w id ns₁ t.holds (t.holds id t.space t.here),
                AllExist-set_space T us w id ns₁ t.exist,
              ),
            )
      ]
