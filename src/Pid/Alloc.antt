-- ===== src/Pid/Alloc.antt =====
-- `alloc_pid` over the levels of the namespaces.
use linux_kernel_code_projec.Base.{
  ℕ, zero, suc, ◌+◌, ◌-◌, ◌/◌, ◌%◌, ◌^◌, Bool, true, false, ◌&&◌, not, Option, none, some, List, [],
  ◌∷◌, ◌==◌, if◌then◌else◌, get_elem?, ℤ, negsuc,
}
use linux_kernel_code_projec.Base.Run.{◌>>=◌}
use linux_kernel_code_projec.Store.{PidRef, int_of}
use linux_kernel_code_projec.Skiplist.{minus_enomem}
use linux_kernel_code_projec.PidTable.{TableOps}
use linux_kernel_code_projec.Pid.{NsId, Namespace, alloc_nr}
use linux_kernel_code_projec.Pid.Find.{Upid, PidStruct}

-- -EINVAL
abbrev pub minus_einval : ℤ
minus_einval = negsuc 21

-- What `alloc_pid` returns: a pid, or `ERR_PTR`.
pub data PidPtr : Type 0 where
  pid_ptr : PidRef → PidPtr
  err_ptr : ℤ → PidPtr

-- PIDNS_ADDING
abbrev pub pidns_adding : ℕ
pidns_adding = 2 ^ 31

-- `pid_allocated & PIDNS_ADDING`
abbrev pub is_adding : ℕ → Bool
is_adding c = c / 2 ^ 31 % 2 == 1

-- `init_pid_ns`
abbrev pub init_pid_ns : NsId
init_pid_ns = 0

module _ (T : TableOps) where
  open T use {Memory, has_header, insert, remove, destroy}

  -- The namespaces, and the pids that are allocated.
  pub record System : Type 0 where
    pub spaces : NsId → Option (Namespace T)
    pub pids : PidRef → Option PidStruct

  abbrev pub set_space : NsId → Option (Namespace T) → System → System
  set_space id ns w = record w { spaces = λ j. if j == id then ns else w.spaces j }

  abbrev pub set_struct : PidRef → Option PidStruct → System → System
  set_struct p s w = record w { pids = λ q. if q == p then s else w.pids q }

  -- The memory for the attempts of the two loops of each level, and for the last insertions.
  pub record Requests : Type 0 where
    pub first : ℕ → ℕ → Memory
    pub second : ℕ → ℕ → Memory
    pub last : ℕ → Memory

  -- `get_pid_ns`
  unfoldable pub get_pid_ns : NsId → System → Option System
  get_pid_ns id w =
      if id == init_pid_ns
      then some w
      else (do ns ← w.spaces id; some (set_space id (some (record ns { kref = ns.kref + 1 })) w))

  -- `put_pid_ns`, along `n` parents at most: the last reference destroys the namespace, and lets its
  -- parent go.
  unfoldable pub put_pid_ns : ℕ → NsId → System → Option System
  put_pid_ns zero id w = none
  put_pid_ns (suc n) id w = elim (id == init_pid_ns) [
    | true ↦ some w
    | false ↦ w.spaces id >>= λ ns. elim (ns.kref == 1) [
      | true ↦ do
        _ ← destroy ns.table
        parent ← ns.parent
        put_pid_ns n parent (set_space id none w)
      | false ↦ some (set_space id (some (record ns { kref = ns.kref - 1 })) w)
    ]
  ]

  -- The loop over the levels below `n`, from the namespace `tmp` up through the parents. It returns
  -- whether every level has a number, the numbers from the lowest level on, and `retval`.
  unfoldable pub alloc_levels :
      ℕ
      → Requests
      → ℕ
      → Option NsId
      → System
      → ℤ
      → List Upid
      → Option (Bool × List Upid × ℤ × System)
  alloc_levels pid_max rq zero tmp w ret nums = some (true, nums, ret, w)
  alloc_levels pid_max rq (suc i) tmp w ret nums = tmp >>= λ id. w.spaces id >>= λ ns.
      alloc_nr T pid_max (rq.first i) (rq.second i) ns ret >>= λ r. elim r.0 [
        | none ↦ some (false, nums, negsuc 0, set_space id (some r.1) w)
        | some nr ↦
            alloc_levels pid_max rq i r.1.parent (set_space id (some r.1) w) r.2
              (record { nr = nr; ns = id } ∷ nums)
      ]

  -- The loop that gives numbers back.
  unfoldable pub release_numbers : List Upid → System → Option System
  release_numbers [] w = some w
  release_numbers (u ∷ us) w = w.spaces u.ns >>= λ ns. remove ns.table (int_of u.nr) >>= λ t.
      release_numbers us (set_space u.ns (some (record ns { table = t })) w)

  -- From the label `out_free` on.
  unfoldable pub out_free : NsId → PidRef → List Upid → ℤ → System → Option (PidPtr × System)
  out_free id p nums retval w = do
    w₁ ← release_numbers nums w
    ns ← w₁.spaces id
    some (
      err_ptr retval,
      set_struct p none (
          if ns.pid_allocated == pidns_adding
          then set_space id (some (record ns { last_pid = 0 })) w₁
          else w₁),
    )

  -- The loop that stores the pid at its numbers, from the highest level down.
  unfoldable pub publish : (ℕ → Memory) → PidRef → List Upid → System → Option System
  publish mem p [] w = some w
  publish mem p (u ∷ us) w = do
    w₁ ← publish mem p us w
    ns ← w₁.spaces u.ns
    (_, t) ← insert (mem u.ns) ns.table (int_of u.nr) (some p)
    some (
        set_space u.ns
          (some (record ns { table = t; pid_allocated = (ns.pid_allocated + 1) % 2 ^ 32 })) w₁)

  -- What follows once every level has a number and /proc is prepared.
  unfoldable pub publish_pid :
      Requests → NsId → PidRef → ℕ → List Upid → ℤ → System → Option (PidPtr × System)
  publish_pid rq id p level nums retval w = do
    w₁ ← get_pid_ns id w
    ns ← w₁.spaces id
    if is_adding ns.pid_allocated
        then (do
          w₂ ←
              publish rq.last p nums
                (set_struct p (some (record { count = 1; level = level; numbers = nums })) w₁)
          some (pid_ptr p, w₂))
        else (do w₂ ← put_pid_ns (level + 1) id w₁; out_free id p nums retval w₂)

  -- `alloc_pid`. `new` is what `kmem_cache_alloc` gives, and `prepare` whether
  -- `pid_ns_prepare_proc` fails.
  unfoldable pub alloc_pid :
      ℕ → Requests → Option PidRef → Bool → NsId → System → Option (PidPtr × System)
  alloc_pid pid_max rq none prepare id w = do
    ns ← w.spaces id
    some (err_ptr (if has_header ns.table then minus_enomem else minus_einval), w)
  alloc_pid pid_max rq (some p) prepare id w = do
    ns ← w.spaces id
    if not (has_header ns.table) then some (err_ptr minus_einval, w) else (do
      (ok, nums, retval, w₁) ← alloc_levels pid_max rq (ns.level + 1) (some id) w minus_enomem []
      if not ok then out_free id p nums retval w₁ else (do
        top ← get_elem? nums ns.level
        if top.nr == 1 && prepare
            then out_free id p nums retval w₁
            else publish_pid rq id p ns.level nums retval w₁))
