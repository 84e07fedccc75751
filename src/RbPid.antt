-- ===== src/RbPid.antt =====
-- rb-skiplist/pid.c, rb-skiplist/pid_namespace.c and rb-skiplist/loadavg.c: the text of the files in skiplist/, where the
-- table is the list with a tree.
pub mod Lost
use linux_kernel_code_projec.Base.{ℕ, Bool, Option, List, ℤ, ◌⊎◌}
use linux_kernel_code_projec.Store.{PidRef}
use linux_kernel_code_projec.Pid
use linux_kernel_code_projec.Pid.{NsId}
use linux_kernel_code_projec.Pid.Find
use linux_kernel_code_projec.Pid.Alloc
use linux_kernel_code_projec.Pid.Free
use linux_kernel_code_projec.Pid.Handles
use linux_kernel_code_projec.Pid.Tasks
use linux_kernel_code_projec.Pid.Tasks.Current
use linux_kernel_code_projec.PidNamespace
use linux_kernel_code_projec.PidNamespace.Install
use linux_kernel_code_projec.PidNamespace.LastPid
use linux_kernel_code_projec.PidNamespace.Zap
use linux_kernel_code_projec.Skiplist.AsTable.{Request}
use linux_kernel_code_projec.RbSkiplist.{Rbtree}
use linux_kernel_code_projec.RbSkiplist.AsOps.{rb_skiplist_ops}

module _ (rb : Rbtree) where
  abbrev pub RbNamespace : Type 0
  RbNamespace = Pid.Namespace (rb_skiplist_ops rb)

  abbrev pub RbSystem : Type 0
  RbSystem = Alloc.System (rb_skiplist_ops rb)

  abbrev pub rb_alloc_pid :
      ℕ
      → Alloc.Requests (rb_skiplist_ops rb)
      → Option PidRef
      → Bool
      → NsId
      → RbSystem
      → Option (Alloc.PidPtr × RbSystem)
  rb_alloc_pid = Alloc.alloc_pid (rb_skiplist_ops rb)

  abbrev pub rb_free_pid : PidRef → RbSystem → Option (RbSystem × List Free.Effect)
  rb_free_pid = Free.free_pid (rb_skiplist_ops rb)

  abbrev pub rb_put_pid : Option PidRef → RbSystem → Option RbSystem
  rb_put_pid = Free.put_pid (rb_skiplist_ops rb)

  abbrev pub rb_disable_pid_allocation : NsId → RbSystem → Option RbSystem
  rb_disable_pid_allocation = Free.disable_pid_allocation (rb_skiplist_ops rb)

  abbrev pub rb_put_pid_ns : ℕ → NsId → RbSystem → Option RbSystem
  rb_put_pid_ns = Alloc.put_pid_ns (rb_skiplist_ops rb)

  abbrev pub rb_find_pid_ns : ℕ → RbNamespace → Option (Option PidRef)
  rb_find_pid_ns = Find.find_pid_ns (rb_skiplist_ops rb)

  abbrev pub rb_find_ge_pid : ℕ → Option RbNamespace → Option (Option PidRef)
  rb_find_ge_pid = Find.find_ge_pid (rb_skiplist_ops rb)

  abbrev pub rb_create_pid_namespace :
      PidNamespace.Answers (rb_skiplist_ops rb)
      → NsId
      → PidNamespace.SpaceUse
      → RbSystem
      → Option (PidNamespace.NsPtr × PidNamespace.SpaceUse × RbSystem)
  rb_create_pid_namespace = PidNamespace.create_pid_namespace (rb_skiplist_ops rb)

  abbrev pub rb_copy_pid_ns :
      Bool
      → NsId
      → PidNamespace.Answers (rb_skiplist_ops rb)
      → NsId
      → PidNamespace.SpaceUse
      → RbSystem
      → Option (PidNamespace.NsPtr × PidNamespace.SpaceUse × RbSystem)
  rb_copy_pid_ns = PidNamespace.copy_pid_ns (rb_skiplist_ops rb)

  abbrev pub rb_pid_ns_get_cursor : RbNamespace → ℕ
  rb_pid_ns_get_cursor = Handles.pid_ns_get_cursor (rb_skiplist_ops rb)

  abbrev pub rb_pid_ns_set_cursor : RbNamespace → ℕ → RbNamespace
  rb_pid_ns_set_cursor = Handles.pid_ns_set_cursor (rb_skiplist_ops rb)

  abbrev pub rb_find_get_pid : ℕ → NsId → RbSystem → Option (Option PidRef × RbSystem)
  rb_find_get_pid = Handles.find_get_pid (rb_skiplist_ops rb)

  abbrev pub rb_pidfd_create : ℤ → PidRef → RbSystem → Option (ℤ × RbSystem)
  rb_pidfd_create = Handles.pidfd_create (rb_skiplist_ops rb)

  abbrev pub rb_pidfd_open : ℤ → (PidRef → Bool) → NsId → ℤ → ℕ → RbSystem → Option (ℤ × RbSystem)
  rb_pidfd_open = Handles.pidfd_open (rb_skiplist_ops rb)

  abbrev pub rb_pid_idr_init :
      ℕ → ℕ → ℕ → ℕ → ℕ → ℕ → Request → RbSystem → Option (ℕ × ℕ × RbSystem)
  rb_pid_idr_init = Handles.pid_idr_init (rb_skiplist_ops rb)

  abbrev pub rb_pidns_get : Option NsId → RbSystem → Option (Option NsId × RbSystem)
  rb_pidns_get = Install.pidns_get (rb_skiplist_ops rb)

  abbrev pub rb_pidns_put : NsId → RbSystem → Option RbSystem
  rb_pidns_put = Install.pidns_put (rb_skiplist_ops rb)

  abbrev pub rb_pidns_for_children_get :
      Option NsId → Bool → RbSystem → Option (Option NsId × RbSystem)
  rb_pidns_for_children_get = Install.pidns_for_children_get (rb_skiplist_ops rb)

  abbrev pub rb_pidns_install :
      Bool → Bool → NsId → NsId → NsId → RbSystem → Option (ℤ × NsId × RbSystem)
  rb_pidns_install = Install.pidns_install (rb_skiplist_ops rb)

  abbrev pub rb_pidns_get_parent : NsId → NsId → RbSystem → Option ((ℤ ⊎ NsId) × RbSystem)
  rb_pidns_get_parent = Install.pidns_get_parent (rb_skiplist_ops rb)

  abbrev pub rb_pid_ns_ctl_handler :
      Bool → Bool → (Bool → ℕ → ℤ × ℕ) → NsId → RbSystem → Option (ℤ × RbSystem)
  rb_pid_ns_ctl_handler = LastPid.pid_ns_ctl_handler (rb_skiplist_ops rb)

  abbrev pub rb_loadavg_last_pid : RbNamespace → ℤ
  rb_loadavg_last_pid = LastPid.loadavg_last_pid (rb_skiplist_ops rb)

  abbrev pub rb_change_pid_links :
      Tasks.TaskId
      → ℕ
      → Option PidRef
      → Tasks.Tasks
      → RbSystem
      → Option (Tasks.Tasks × RbSystem × List Free.Effect)
  rb_change_pid_links = Tasks.change_pid_links (rb_skiplist_ops rb)

  abbrev pub rb_detach_pid :
      Tasks.TaskId → ℕ → Tasks.Tasks → RbSystem → Option (Tasks.Tasks × RbSystem × List Free.Effect)
  rb_detach_pid = Tasks.detach_pid (rb_skiplist_ops rb)

  abbrev pub rb_change_pid :
      Tasks.TaskId
      → ℕ
      → Option PidRef
      → Tasks.Tasks
      → RbSystem
      → Option (Tasks.Tasks × RbSystem × List Free.Effect)
  rb_change_pid = Tasks.change_pid (rb_skiplist_ops rb)

  abbrev pub rb_find_task_by_pid_ns : ℕ → RbNamespace → Tasks.Tasks → Option (Option Tasks.TaskId)
  rb_find_task_by_pid_ns = Tasks.find_task_by_pid_ns (rb_skiplist_ops rb)

  abbrev pub rb_task_pid_nr_ns : Tasks.TaskId → ℕ → NsId → Tasks.Tasks → RbSystem → Option ℕ
  rb_task_pid_nr_ns = Tasks.task_pid_nr_ns (rb_skiplist_ops rb)

  abbrev pub rb_task_active_pid_ns : Tasks.TaskId → Tasks.Tasks → RbSystem → Option (Option NsId)
  rb_task_active_pid_ns = Current.task_active_pid_ns (rb_skiplist_ops rb)

  abbrev pub rb_find_vpid : Tasks.TaskId → ℕ → Tasks.Tasks → RbSystem → Option (Option PidRef)
  rb_find_vpid = Current.find_vpid (rb_skiplist_ops rb)

  abbrev pub rb_pid_vnr : Tasks.TaskId → Option PidRef → Tasks.Tasks → RbSystem → Option ℕ
  rb_pid_vnr = Current.pid_vnr (rb_skiplist_ops rb)

  abbrev pub rb_find_task_by_vpid :
      Tasks.TaskId → ℕ → Tasks.Tasks → RbSystem → Option (Option Tasks.TaskId)
  rb_find_task_by_vpid = Current.find_task_by_vpid (rb_skiplist_ops rb)

  abbrev pub rb_find_get_task_by_vpid :
      Tasks.TaskId
      → ℕ
      → (Tasks.TaskId → ℕ)
      → Tasks.Tasks
      → RbSystem
      → Option (Option Tasks.TaskId × (Tasks.TaskId → ℕ))
  rb_find_get_task_by_vpid = Current.find_get_task_by_vpid (rb_skiplist_ops rb)

  abbrev pub rb_get_task_pid :
      Tasks.TaskId → ℕ → Tasks.Tasks → RbSystem → Option (Option PidRef × RbSystem)
  rb_get_task_pid = Current.get_task_pid (rb_skiplist_ops rb)

  abbrev pub rb_zap_pid_ns_processes :
      (Tasks.TaskId → (Tasks.TaskId → Bool) → Tasks.TaskId → Bool)
      → Bool
      → Tasks.TaskId
      → NsId
      → List ℤ
      → List ℕ
      → Tasks.Tasks
      → Zap.Exits
      → RbSystem
      → Option (List Tasks.TaskId × Zap.Exits × RbSystem)
  rb_zap_pid_ns_processes send = Zap.zap_pid_ns_processes send (rb_skiplist_ops rb)
