-- ===== src/PidNamespace.antt =====
-- skiplist/pid_namespace.c: new namespaces. Its `put_pid_ns` is in Pid/Alloc, and its loop over the
-- table in Skiplist.
pub mod Ancestry
pub mod LetGo
pub mod Install
pub mod Entered
pub mod LastPid
pub mod Zap
pub mod Created
pub mod GaveBack
use linux_kernel_code_projec.Base.{
  ℕ, zero, suc, ◌+◌, ◌-◌, Bool, true, false, not, Option, none, some, ltb, ◌==◌, if◌then◌else◌, ℤ,
  pos, negsuc,
}
use linux_kernel_code_projec.Base.Run.{◌>>=◌}
use linux_kernel_code_projec.Skiplist.{minus_enomem}
use linux_kernel_code_projec.PidTable.{TableOps}
use linux_kernel_code_projec.Pid.{NsId, Namespace, is_zero}
use linux_kernel_code_projec.Pid.Alloc.{System, set_space, get_pid_ns, minus_einval, pidns_adding}

-- A namespace or `ERR_PTR`
pub data NsPtr : Type 0 where
  ns_ptr : NsId → NsPtr
  ns_err : ℤ → NsPtr

-- -ENOSPC
abbrev pub minus_enospc : ℤ
minus_enospc = negsuc 27

-- MAX_PID_NS_LEVEL
abbrev pub max_pid_ns_level : ℕ
max_pid_ns_level = 32

-- What a new namespace takes besides: its user's count in `ucounts`, and the memory of a
-- `struct pid_namespace` that is in use.
pub record SpaceUse : Type 0 where
  pub ucounts : ℕ
  pub in_use : NsId → Bool

-- `kmem_cache_zalloc` and `kmem_cache_free` of a `struct pid_namespace`
abbrev pub set_cell : NsId → Bool → SpaceUse → SpaceUse
set_cell id b k = record k { in_use = λ j. if j == id then b else k.in_use j }

-- From the label `out_dec` on
unfoldable pub out_dec : ℤ → SpaceUse → NsPtr × SpaceUse
out_dec err k = (ns_err err, record k { ucounts = k.ucounts - 1 })

module _ (T : TableOps) where
  open T use {Memory, State, init, destroy}

  -- What the rest of the kernel answers: `in_userns`, `inc_pid_namespaces`, the cache of namespaces,
  -- the memory for the header of the list, `create_pid_cachep` and `ns_alloc_inum`.
  pub record Answers : Type 0 where
    pub in_userns : Bool
    pub ucounts : Bool
    pub cell : Option NsId
    pub header : Memory
    pub cachep : Bool
    pub inum : ℤ

  -- From the label `out_free_idr` on.
  unfoldable pub out_free_idr :
      State → NsId → ℤ → SpaceUse → System T → Option (NsPtr × SpaceUse × System T)
  out_free_idr t id err k w = do
    _ ← destroy t
    let (r, k₁) = out_dec err (set_cell id false k)
    some (r, k₁, w)

  -- `create_pid_namespace`, from the initialisation of the list on
  unfoldable pub fill_namespace :
      Answers
      → NsId
      → NsId
      → Namespace T
      → SpaceUse
      → System T
      → Option (NsPtr × SpaceUse × System T)
  fill_namespace a id parent_id parent k w = do
    t ← init a.header
    if not a.cachep
        then out_free_idr t id minus_enomem k w
        else if not (is_zero a.inum)
        then out_free_idr t id a.inum k w
        else (do
          w₁ ← get_pid_ns T parent_id w
          some (
            ns_ptr id,
            k,
            set_space T id
                (some (record {
                  table = t;
                  last_pid = 0;
                  pid_allocated = pidns_adding;
                  level = parent.level + 1;
                  parent = some parent_id;
                  kref = 1;
                }))
                w₁,
          ))

  -- `create_pid_namespace`
  unfoldable pub create_pid_namespace :
      Answers → NsId → SpaceUse → System T → Option (NsPtr × SpaceUse × System T)
  create_pid_namespace a parent_id k w = w.spaces parent_id >>= λ parent.
      let counted = record k { ucounts = k.ucounts + 1 } in
      if not a.in_userns
      then some (ns_err minus_einval, k, w)
      else if ltb max_pid_ns_level (parent.level + 1)
      then some (ns_err minus_enospc, k, w)
      else if not a.ucounts
      then some (ns_err minus_enospc, k, w)
      else elim a.cell [
        | none ↦ let (r, k₁) = out_dec minus_enomem counted in some (r, k₁, w)
        | some id ↦ fill_namespace a id parent_id parent (set_cell id true counted) w
      ]

  -- `copy_pid_ns`; `active` is the namespace of the running task.
  unfoldable pub copy_pid_ns :
      Bool → NsId → Answers → NsId → SpaceUse → System T → Option (NsPtr × SpaceUse × System T)
  copy_pid_ns clone_newpid active a old k w =
      if not clone_newpid
      then (do w₁ ← get_pid_ns T old w; some (ns_ptr old, k, w₁))
      else if not (active == old)
      then some (ns_err minus_einval, k, w)
      else create_pid_namespace a old k w
