-- ===== src/PidNamespace/Created.antt =====
-- What `create_pid_namespace` leaves.
use linux_kernel_code_projec.Base.{
  ℕ, ◌+◌, true, ◌≡◌, ◌≢◌, refl, sym, ==_ne, inl, inr, false, not, Option, none, some, [], arith,
  ltb, ◌==◌, if◌then◌else◌, ℤ, Bool-cases, is_some, ==_self,
}
use linux_kernel_code_projec.Base.Run.{◌>>=◌, Returns}
use linux_kernel_code_projec.Skiplist.{minus_enomem}
use linux_kernel_code_projec.PidTable.{PidTable}
use linux_kernel_code_projec.Pid.{NsId, Namespace, is_zero}
use linux_kernel_code_projec.Pid.Alloc.{
  System, set_space, get_pid_ns, init_pid_ns, minus_einval, pidns_adding,
}
use linux_kernel_code_projec.PidNamespace.{
  ns_ptr, SpaceUse, set_cell, Answers, minus_enospc, max_pid_ns_level, fill_namespace,
  create_pid_namespace,
}

module _ (T : PidTable) where
  abbrev fill_error : Answers T.ops → Option ℤ
  fill_error a =
      if not a.cachep then some minus_enomem else if not (is_zero a.inum) then some a.inum else none

  -- The error that the answers of the kernel lead to at this level, if there is one.
  abbrev pub error_of : Answers T.ops → ℕ → Option ℤ
  error_of a level =
      if not a.in_userns
      then some minus_einval
      else if ltb max_pid_ns_level level
      then some minus_enospc
      else if not a.ucounts
      then some minus_enospc
      else if not (is_some a.cell)
      then some minus_enomem
      else fill_error a

  -- The new namespace, with an empty table, as a child of its parent.
  pub record Child (parent_id id : NsId) (parent : Namespace T.ops) (w : System T.ops)
      : Type 0 where
    pub space : Namespace T.ops
    pub here : w.spaces id ≡ some space
    pub holds : T.Holds space.table []
    pub last_pid : space.last_pid ≡ 0
    pub pid_allocated : space.pid_allocated ≡ pidns_adding
    pub level : space.level ≡ parent.level + 1
    pub up : space.parent ≡ some parent_id

  -- The initial namespace is not counted.
  abbrev pub held_parent : NsId → Namespace T.ops → Namespace T.ops
  held_parent id ns = if id == init_pid_ns then ns else record ns { kref = ns.kref + 1 }

  pub get_pid_ns-held :
      (id : NsId) (ns : Namespace T.ops) (w : System T.ops)
      → w.spaces id ≡ some ns
      → Returns (get_pid_ns T.ops id w) (λ w₁. w₁.spaces id ≡ some (held_parent id ns))
  unfolding get_pid_ns
  get_pid_ns-held id ns w at = elim (Bool-cases (id == init_pid_ns)) [
    | inl y ↦ (w, rw y, rw y at)
    | inr q ↦ (
      set_space T.ops id (some (record ns { kref = ns.kref + 1 })) w,
      rw (q, at),
      rw (q, ==_self id),
    )
  ]

  module _ (a : Answers T.ops) (parent_id : NsId) (parent : Namespace T.ops) (w : System T.ops)
      (at : w.spaces parent_id ≡ some parent) (memory : T.enough a.header ≡ true)
      (k : SpaceUse) where
    -- With an existing parent, memory for the header and a new namespace apart from its parent,
    -- where no answer of the kernel leads to an error, `create_pid_namespace` returns the new
    -- namespace: a child of the parent, one level deeper, with an empty table, `last_pid` 0 and
    -- PIDNS_ADDING set. The parent has one reference more, if it is not the initial namespace, and
    -- is otherwise as before, the count of namespaces in `ucounts` is one more, and the memory of
    -- the new namespace is in use.
    pub create_pid_namespace-Child :
        (id : NsId)
        → id ≢ parent_id
        → error_of a (parent.level + 1) ≡ none
        → a.cell ≡ some id
        → Returns (create_pid_namespace T.ops a parent_id k w) λ r.
          (r.0 ≡ ns_ptr id)
          × Child parent_id id parent r.2
          × (r.2.spaces parent_id ≡ some (held_parent parent_id parent))
          × (r.1 ≡ set_cell id true (record k { ucounts = k.ucounts + 1 }))
    unfolding create_pid_namespace fill_namespace
    create_pid_namespace-Child id apart e c =
        let (t, run, held) = T.init_lem a.header memory in
        let ok : (a.in_userns ≡ true)
            × (ltb max_pid_ns_level (parent.level + 1) ≡ false)
            × (a.ucounts ≡ true)
            × (a.cachep ≡ true)
            × (is_zero a.inum ≡ true) =
          (ground arith, ground arith, ground arith, ground arith, ground arith) in
        let (w₁, got, kept) = get_pid_ns-held parent_id parent w at in
        let other : parent_id == id ≡ false = ==_ne parent_id id (λ q. apart (sym q)) in
        let space : Namespace T.ops = record {
          table = t;
          last_pid = 0;
          pid_allocated = pidns_adding;
          level = parent.level + 1;
          parent = some parent_id;
          kref = 1;
        } in
        (
          (
            ns_ptr id,
            set_cell id true (record k { ucounts = k.ucounts + 1 }),
            set_space T.ops id (some space) w₁,
          ),
          rw (at, ◌>>=◌, ok.0, ok.1, ok.2, c, run, ◌>>=◌, ok.3, ok.4, got),
          (
            refl,
            record {
              space = space;
              here = rw (==_self id);
              holds = held;
              last_pid = refl;
              pid_allocated = refl;
              level = refl;
              up = refl;
            },
            rw other kept,
            refl,
          ),
        )
