-- ===== src/Pid/Free/Released.antt =====
-- What `free_pid` leaves, and what `alloc_pid` does once the allocation is disabled.
use linux_kernel_code_projec.Base.{
  ℕ, ◌/◌, ◌%◌, ◌^◌, ◌≡◌, ◌≢◌, refl, sym, ◌∙◌, inl, inr, Bool, false, Option, none, some, List, [],
  ◌∷◌, ◌++◌, ◌==◌, arith, if◌then◌else◌, Option-cases,
}
use linux_kernel_code_projec.Base.Run.{◌>>=◌, Returns}
use linux_kernel_code_projec.Store.{PidRef, int_of}
use linux_kernel_code_projec.PidMap
use linux_kernel_code_projec.PidMap.{PidMap}
use linux_kernel_code_projec.PidTable.{PidTable}
use linux_kernel_code_projec.Pid.{NsId, Namespace, start_pid}
use linux_kernel_code_projec.Pid.Maps.{
  erase_all, HoldsAll, AllExist, AllExist-set_space, HoldsAll-set_space,
}
use linux_kernel_code_projec.Pid.Number.{cyclic_fit}
use linux_kernel_code_projec.Pid.Find.{Upid, PidStruct}
use linux_kernel_code_projec.Pid.Alloc.{
  pid_ptr, is_adding, init_pid_ns, System, Requests, set_space, alloc_pid,
}
use linux_kernel_code_projec.Pid.InitSpace.{done, ptr_of, alloc_pid-Allocated}
use linux_kernel_code_projec.Pid.Free.{
  settle, decrement, free_levels, free_pid, disable_pid_allocation,
}

-- The flag is gone.
off : (count : ℕ) → is_adding (count % 2 ^ 31) ≡ false
off count = let low : count % 2 ^ 31 / 2 ^ 31 ≡ 0 = omega arith in ground arith

module _ (T : PidTable) where
  pub free_levels-HoldsAll :
      (us : List Upid) (w : System T.ops) (maps : NsId → PidMap)
      → HoldsAll T maps w
      → AllExist T us w
      → Returns (free_levels T.ops us w) (λ r. HoldsAll T (erase_all us maps) r.0)
  unfolding free_levels
  free_levels-HoldsAll [] w maps held a = (_, refl, held)
  free_levels-HoldsAll (u ∷ us) w maps held a = elim (Option-cases (w.spaces u.ns)) [
    | inl n ↦ let no_space = rw n at a.0 in cc
    | inr (ns, e) ↦
        let (t, run, erased) = T.remove_lem ns.table (maps u.ns) (int_of u.nr) (held u.ns ns e) in
        let ns₁ = record ns {
          table = t;
          pid_allocated = (settle u.ns (decrement ns.pid_allocated)).0;
        } in
        let (r, rest, all) =
          free_levels-HoldsAll us (set_space T.ops u.ns (some ns₁) w)
            (λ id. if id == u.ns then PidMap.erase (int_of u.nr) (maps u.ns) else maps id)
            (HoldsAll-set_space T maps w u.ns ns₁ (PidMap.erase (int_of u.nr) (maps u.ns)) held
              erased)
            (AllExist-set_space T us w u.ns ns₁ a.1) in
        (
          (r.0, (settle u.ns (decrement ns.pid_allocated)).1 ++ r.1),
          rw (e, ◌>>=◌, run, ◌>>=◌, rest),
          all,
        )
  ]

  -- If the table of every namespace holds a map and the namespaces of the numbers of an allocated
  -- pid exist, then `free_pid` returns, and the tables hold the maps without these numbers; the
  -- maps of all other namespaces stay as they are.
  pub free_pid-HoldsAll :
      (p : PidRef) (s : PidStruct) (w : System T.ops) (maps : NsId → PidMap)
      → w.pids p ≡ some s
      → HoldsAll T maps w
      → AllExist T s.numbers w
      → Returns (free_pid T.ops p w) (λ r. HoldsAll T (erase_all s.numbers maps) r.0)
  unfolding free_pid
  free_pid-HoldsAll p s w maps e held a = rw e (free_levels-HoldsAll s.numbers w maps held a)

  module _ (pid_max : ℕ) (rq : Requests T.ops) (p : PidRef) (prepare : Bool) where
    ptr_of-disabled :
        (count : ℕ) (fit : Option ℕ) (q : PidRef)
        → is_adding count ≡ false
        → ptr_of T pid_max rq p prepare count fit ≢ pid_ptr q
    ptr_of-disabled count none q disabled e = cc
    ptr_of-disabled count (some j) q disabled e =
        let failed : done T pid_max rq p prepare count j ≡ false = ground arith in
        let e' = rw failed at e in cc

    -- In the initial namespace, on a table that holds a map, with memory that is unused, an
    -- `alloc_pid` that follows `disable_pid_allocation` returns, but never a pid.
    pub disable-alloc_pid :
        (w : System T.ops) (ns : Namespace T.ops) (m : PidMap)
        → w.spaces init_pid_ns ≡ some ns
        → ns.level ≡ 0
        → T.Holds ns.table m
        → ((j : ℕ) → T.Unused (rq.first 0 j) ns.table)
        → ((j : ℕ) → T.Unused (rq.second 0 j) ns.table)
        → Returns
            (disable_pid_allocation T.ops init_pid_ns w
              >>= alloc_pid T.ops pid_max rq (some p) prepare init_pid_ns)
            (λ r. (q : PidRef) → r.0 ≢ pid_ptr q)
    unfolding disable_pid_allocation
    disable-alloc_pid w ns m at level v u u' =
        let ns₁ = record ns { pid_allocated = ns.pid_allocated % 2 ^ 31 } in
        let (r, run, a) =
          alloc_pid-Allocated T pid_max rq p prepare (set_space T.ops init_pid_ns (some ns₁) w) ns₁
            m refl level v u u' in
        (
          r,
          rw (at, ◌>>=◌) run,
          λ q e.
              ptr_of-disabled (ns.pid_allocated % 2 ^ 31)
                (cyclic_fit T pid_max (rq.first 0) (rq.second 0) (start_pid pid_max ns.last_pid) m)
                q (off ns.pid_allocated) (sym a.ptr ∙ e),
        )
