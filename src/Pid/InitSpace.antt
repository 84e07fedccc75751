-- ===== src/Pid/InitSpace.antt =====
-- `alloc_pid` in the initial namespace.
use linux_kernel_code_projec.Base.{
  ℕ, ◌+◌, ◌%◌, ◌^◌, ==_self, ◌≡◌, refl, sym, inl, inr, Bool, true, false, ◌&&◌, not, Option, none,
  some, List, [], ◌∷◌, arith, Bool-cases, Option-cases, is_some, if◌then◌else◌, ℤ, pos, negsuc,
  ◌==◌,
}
use linux_kernel_code_projec.Base.Run.{◌>>=◌, Returns}
use linux_kernel_code_projec.Store.{PidRef, int_of}
use linux_kernel_code_projec.Skiplist.{minus_enomem}
use linux_kernel_code_projec.PidMap
use linux_kernel_code_projec.PidMap.{PidMap, find, IsOrdered, find-insert}
use linux_kernel_code_projec.PidTable.{PidTable}
use linux_kernel_code_projec.Pid.{Namespace, alloc_nr, start_pid}
use linux_kernel_code_projec.Pid.Number.{alloc_nr-Numbered, cyclic_fit}
use linux_kernel_code_projec.Pid.Find.{Upid, PidStruct}
use linux_kernel_code_projec.Pid.Alloc.{
  PidPtr, pid_ptr, err_ptr, is_adding, pidns_adding, init_pid_ns, System, Requests, set_space,
  set_struct, get_pid_ns, put_pid_ns, alloc_levels, release_numbers, out_free, publish, publish_pid,
  alloc_pid,
}

module _ (T : PidTable) (pid_max : ℕ) (rq : Requests T.ops) (p : PidRef) (prepare : Bool) where
  -- Whether the pid is published once it has the number `j`.
  abbrev pub done : ℕ → ℕ → Bool
  done allocated j = not (j == 1 && prepare) && is_adding allocated

  -- ERR_PTR(-1) without a number, and ERR_PTR(0) where a number is given back.
  abbrev pub ptr_of : ℕ → Option ℕ → PidPtr
  ptr_of allocated none = err_ptr (negsuc 0)
  ptr_of allocated (some j) = if done allocated j then pid_ptr p else err_ptr (pos 0)

  abbrev pub map_of : ℕ → Option ℕ → PidMap → PidMap
  map_of allocated none m = m
  map_of allocated (some j) m =
      if done allocated j
      then PidMap.insert (int_of j) (some p) (PidMap.insert (int_of j) none m)
      else PidMap.erase (int_of j) (PidMap.insert (int_of j) none m)

  abbrev pub struct_of : ℕ → Option ℕ → Option PidStruct
  struct_of allocated none = none
  struct_of allocated (some j) =
      if done allocated j
      then some
          (record { count = 1; level = 0; numbers = record { nr = j; ns = init_pid_ns } ∷ [] })
      else none

  abbrev pub allocated_of : ℕ → Option ℕ → ℕ
  allocated_of allocated none = allocated
  allocated_of allocated (some j) = if done allocated j then (allocated + 1) % 2 ^ 32 else allocated

  -- What `alloc_pid` returns and leaves, when the search for a number gives `fit`.
  pub record Allocated (ns : Namespace T.ops) (m : PidMap) (fit : Option ℕ)
      (r : PidPtr × System T.ops) : Type 0 where
    pub ptr : r.0 ≡ ptr_of ns.pid_allocated fit
    pub space : Namespace T.ops
    pub here : r.1.spaces init_pid_ns ≡ some space
    pub holds : T.Holds space.table (map_of ns.pid_allocated fit m)
    pub stored : r.1.pids p ≡ struct_of ns.pid_allocated fit
    pub pid_allocated : space.pid_allocated ≡ allocated_of ns.pid_allocated fit

  out_free-Allocated :
      (nums : List Upid) (w w₁ : System T.ops) (ret : ℤ) (ns space : Namespace T.ops) (m : PidMap)
      (fit : Option ℕ)
      → release_numbers T.ops nums w ≡ some w₁
      → w₁.spaces init_pid_ns ≡ some space
      → err_ptr ret ≡ ptr_of ns.pid_allocated fit
      → T.Holds space.table (map_of ns.pid_allocated fit m)
      → struct_of ns.pid_allocated fit ≡ none
      → space.pid_allocated ≡ allocated_of ns.pid_allocated fit
      → Returns (out_free T.ops init_pid_ns p nums ret w) (Allocated ns m fit)
  unfolding out_free
  out_free-Allocated nums w w₁ ret ns space m fit run at ptr held freed count =
      elim (Bool-cases (space.pid_allocated == pidns_adding)) [
        | inl y ↦ (
          (
            err_ptr ret,
            set_struct T.ops p none
                (set_space T.ops init_pid_ns (some (record space { last_pid = 0 })) w₁),
          ),
          rw (run, ◌>>=◌, at, ◌>>=◌, y),
          record {
            ptr = ptr;
            space = record space { last_pid = 0 };
            here = refl;
            holds = held;
            stored = rw (==_self p) (sym freed);
            pid_allocated = count;
          },
        )
        | inr q ↦ (
          (err_ptr ret, set_struct T.ops p none w₁),
          rw (run, ◌>>=◌, at, ◌>>=◌, q),
          record {
            ptr = ptr;
            space = space;
            here = at;
            holds = held;
            stored = rw (==_self p) (sym freed);
            pid_allocated = count;
          },
        )
      ]

  -- The number is given back.
  give_back-Allocated :
      (w : System T.ops) (ret : ℤ) (ns space : Namespace T.ops) (m : PidMap) (j : ℕ)
      → w.spaces init_pid_ns ≡ some space
      → T.Holds space.table (PidMap.insert (int_of j) none m)
      → ret ≡ pos 0
      → done ns.pid_allocated j ≡ false
      → space.pid_allocated ≡ ns.pid_allocated
      → Returns
          (out_free T.ops init_pid_ns p (record { nr = j; ns = init_pid_ns } ∷ []) ret w)
          (Allocated ns m (some j))
  unfolding release_numbers
  give_back-Allocated w ret ns space m j at held zero_ret failed same =
      let (t, run, erased) =
        T.remove_lem space.table (PidMap.insert (int_of j) none m) (int_of j) held in
      out_free-Allocated (record { nr = j; ns = init_pid_ns } ∷ []) w
        (set_space T.ops init_pid_ns (some (record space { table = t })) w) ret ns
        (record space { table = t }) m (some j) (rw (at, ◌>>=◌, run)) refl (rw (failed, zero_ret))
        (rw failed erased) (rw failed) (rw failed same)

  publish_pid-Allocated :
      (w : System T.ops) (ret : ℤ) (ns space : Namespace T.ops) (m : PidMap) (j : ℕ)
      → w.spaces init_pid_ns ≡ some space
      → space.pid_allocated ≡ ns.pid_allocated
      → T.Holds space.table (PidMap.insert (int_of j) none m)
      → ret ≡ pos 0
      → (j == 1 && prepare) ≡ false
      → Returns
          (publish_pid T.ops rq init_pid_ns p 0 (record { nr = j; ns = init_pid_ns } ∷ []) ret w)
          (Allocated ns m (some j))
  unfolding publish_pid get_pid_ns put_pid_ns publish
  publish_pid-Allocated w ret ns space m j at same held zero_ret prepared =
      elim (Bool-cases (is_adding ns.pid_allocated)) [
        | inr q ↦
            let failed : done ns.pid_allocated j ≡ false = ground arith in
            rw (at, ◌>>=◌, same, q, ◌>>=◌)
              (give_back-Allocated w ret ns space m j at held zero_ret failed same)
        | inl y ↦
            let yes : done ns.pid_allocated j ≡ true = rw (prepared, y) in
            let there : is_some (find (int_of j) (PidMap.insert (int_of j) none m)) ≡ true =
              rw (find-insert (int_of j) (int_of j) none m, ==_self (int_of j)) in
            let (r, run, (code, kept, still)) =
              T.insert_lem (rq.last init_pid_ns) space.table (PidMap.insert (int_of j) none m)
                (int_of j) (some p) held (λ absent. cc) in
            let w₁ =
              set_struct T.ops p
                (some (record {
                  count = 1;
                  level = 0;
                  numbers = record { nr = j; ns = init_pid_ns } ∷ [];
                }))
                w in
            let space₁ = record space {
              table = r.1;
              pid_allocated = (space.pid_allocated + 1) % 2 ^ 32;
            } in
            (
              (pid_ptr p, set_space T.ops init_pid_ns (some space₁) w₁),
              rw (at, ◌>>=◌, same, y, ◌>>=◌, run),
              record {
                ptr = rw yes;
                space = space₁;
                here = refl;
                holds = rw yes (rw there at kept);
                stored = rw (yes, ==_self p);
                pid_allocated = rw (yes, same);
              },
            )
      ]

  -- The run after the search for a number.
  after_search :
      (w : System T.ops) (ns : Namespace T.ops) (r : Option ℕ × Namespace T.ops × ℤ)
      → w.spaces init_pid_ns ≡ some ns
      → ns.level ≡ 0
      → T.ops.has_header ns.table ≡ true
      → alloc_nr T.ops pid_max (rq.first 0) (rq.second 0) ns minus_enomem ≡ some r
      → alloc_pid T.ops pid_max rq (some p) prepare init_pid_ns w
        ≡ elim r.0 as (λ _. Option (PidPtr × System T.ops)) [
          | none ↦
              out_free T.ops init_pid_ns p [] (negsuc 0) (set_space T.ops init_pid_ns (some r.1) w)
          | some j ↦
              if j == 1 && prepare
              then out_free T.ops init_pid_ns p
                  (record { nr = j; ns = init_pid_ns } ∷ [])
                  r.2
                  (set_space T.ops init_pid_ns (some r.1) w)
              else publish_pid T.ops rq init_pid_ns p 0
                  (record { nr = j; ns = init_pid_ns } ∷ [])
                  r.2
                  (set_space T.ops init_pid_ns (some r.1) w)
        ]
  unfolding alloc_pid alloc_levels
  after_search w ns r at level header run =
      let one : ns.level + 1 ≡ 1 = omega arith in
      elim (Option-cases r.0) [
        | inl e ↦ rw (at, ◌>>=◌, header, one, at, ◌>>=◌, run, ◌>>=◌, e)
        | inr (j, e) ↦ rw (at, ◌>>=◌, header, one, at, ◌>>=◌, run, ◌>>=◌, e, level)
      ]

  -- In the initial namespace, on a table that holds a map, with memory that is unused, `alloc_pid`
  -- with a new `struct pid` returns. Without a number that fits it returns ERR_PTR(-1) and leaves
  -- the map as it is. With one, it returns the pid, stores it in the map at the number, counts it
  -- and gives it one reference, if PIDNS_ADDING is set and the preparation of /proc does not fail
  -- for number 1; otherwise it returns ERR_PTR(0), takes the number out of the map and frees the
  -- `struct pid`.
  pub alloc_pid-Allocated :
      (w : System T.ops) (ns : Namespace T.ops) (m : PidMap)
      → w.spaces init_pid_ns ≡ some ns
      → ns.level ≡ 0
      → T.Holds ns.table m
      → ((j : ℕ) → T.Unused (rq.first 0 j) ns.table)
      → ((j : ℕ) → T.Unused (rq.second 0 j) ns.table)
      → Returns (alloc_pid T.ops pid_max rq (some p) prepare init_pid_ns w) (
          Allocated ns m
            (cyclic_fit T pid_max (rq.first 0) (rq.second 0) (start_pid pid_max ns.last_pid) m))
  unfolding release_numbers
  alloc_pid-Allocated w ns m at level v u u' =
      let (r, run, t) =
        alloc_nr-Numbered T pid_max (rq.first 0) (rq.second 0) m ns minus_enomem v u u' in
      let header = T.has_header_lem ns.table m v in
      let w₁ = set_space T.ops init_pid_ns (some r.1) w in
      rw (← t.nr) (elim (Option-cases r.0) [
        | inl e ↦
            let held : T.Holds r.1.table m = rw e at t.holds in
            rw (after_search w ns r at level header run, e)
              (out_free-Allocated [] w₁ w₁ (negsuc 0) ns r.1 m none refl refl refl held refl
                t.pid_allocated)
        | inr (j, e) ↦
            let held : T.Holds r.1.table (PidMap.insert (int_of j) none m) = rw e at t.holds in
            let zero_ret : r.2 ≡ pos 0 = t.retval (rw e) in
            elim (Bool-cases (j == 1 && prepare)) [
              | inl y ↦
                  let failed : done ns.pid_allocated j ≡ false = rw y in
                  rw (after_search w ns r at level header run, e, y)
                    (give_back-Allocated w₁ r.2 ns r.1 m j refl held zero_ret failed
                      t.pid_allocated)
              | inr q ↦
                  rw (after_search w ns r at level header run, e, q)
                    (publish_pid-Allocated w₁ r.2 ns r.1 m j refl t.pid_allocated held zero_ret q)
            ]
      ])
