-- ===== src/Lib.antt =====
-- The allocation of process numbers by skip lists, a change of the Linux kernel's kernel/pid.c
-- that replaces the IDR of a pid namespace. Two variants stand side by side: skiplist/ with a
-- plain skip list, and rb-skiplist/ where the nodes of the highest level are also kept in a
-- red-black tree.
--
-- Parts, and the files that model them:
-- - Base (Base/Lists, Base/Tests, Base/Run): numbers, lists, tests, and runs that may fault.
-- - Store (Store/Laws): memory with the nodes of `struct pid_sl_node`, reads and writes through
--   pointers, `pid_sl_node_alloc` and the callback `pid_sl_node_rcu_free`. A run that gives
--   `none` dereferences NULL or freed memory, reads past an array, stops at BUG_ON, or has too
--   little fuel.
-- - PidMap: the map that a table stands for, from numbers to pids; a number may be reserved with
--   NULL. PidMap/Until is about the pids that a cursor sees.
-- - Skiplist: skiplist/pid_skiplist.c. Its children say what a list in memory stands for (Chain,
--   View), how the readers search (Search, Read, Iterate) and what the writers do (Rewire, Pred,
--   Link, Level, Splice, WriterSearch, Insert, Remove), what a reader sees meanwhile (Between),
--   the life of a list (Lifetime), and how many random numbers give a level (Shares).
-- - RbSkiplist: rb-skiplist/pid_rb_skiplist.c, on the same nodes. TopTree is the search in the
--   tree, Plain compares the list with the plain one, Miss is about a number whose node is in the
--   tree, and Raised about an insertion that puts it there.
-- - PidTable: the interface between the list and kernel/pid.c, its operations (`TableOps`) and
--   their laws (`PidTable`), filled by Skiplist/AsTable. RbSkiplist/AsOps has the operations of
--   the other list.
-- - Pid: skiplist/pid.c for any table, with `struct pid_namespace` of pid_namespace.h. Pid/Scan,
--   Pid/Number and Pid/Choice are about the search of `alloc_pid` for a number, Pid/Alloc has the
--   whole of `alloc_pid` with `get_pid_ns` and `put_pid_ns`. Pid/Maps (Pid/Maps/Listed) has the
--   maps of all namespaces; with Pid/Spaces for a namespace and its parents, Pid/Nested
--   (Pid/Nested/Ranks) for the loop over the levels, and Pid/Published and Pid/Referenced for
--   what follows, Pid/EveryLevel is about `alloc_pid` in any namespace, and Pid/RoundTrip about
--   what `find_pid_ns` and `free_pid` do after it. Pid/InitSpace is about the initial namespace.
--   Pid/Find finds pids by number, and Pid/Free has `free_pid`, `put_pid` and
--   `disable_pid_allocation`, with Pid/Free/Released about what they leave. Pid/Tasks has the
--   lists of the tasks that use a pid; Pid/Tasks/Linked and Pid/Tasks/Moved are about each of the
--   functions that change them, and Pid/Tasks/Steps about sequences of their calls.
--   Pid/Tasks/Current has what the running task asks for, and Pid/Tasks/Seen is about a task with
--   a new pid. Pid/Handles has counted references, `pidfd_open`, the cursor and `pid_idr_init`,
--   and Pid/Handles/Counted is about the references of `pidfd_open`.
-- - PidNamespace: `create_pid_namespace` and `copy_pid_ns` of skiplist/pid_namespace.c, and in
--   PidNamespace/Created what the first one leaves, and in PidNamespace/GaveBack what it gives
--   back. PidNamespace/Ancestry is about the parents of a namespace, PidNamespace/LetGo about
--   `put_pid_ns`. PidNamespace/Install has the operations of /proc/<pid>/ns, and
--   PidNamespace/Entered says what they allow. PidNamespace/LastPid has the handler of
--   ns_last_pid, and the number that loadavg.c prints. PidNamespace/Zap has
--   `zap_pid_ns_processes` and `reboot_pid_ns`; PidNamespace/Zap/Zapped is about the tasks that
--   are killed, and PidNamespace/Zap/Ended about both functions.
-- - RbPid: rb-skiplist/pid.c, rb-skiplist/pid_namespace.c and rb-skiplist/loadavg.c, whose text
--   is that of the files in skiplist/ with the other table. RbPid/Lost is about a pid whose node
--   is in the tree.
-- - Spu: skiplist/sched.c, the run queue of the SPU scheduler. Spu/Queue is about its counts,
--   Spu/Grab about the context that it gives out. Spu/Schedule has the contexts on the SPUs;
--   Spu/Schedule/Bound and Spu/Schedule/Moves are about each change of them,
--   Spu/Schedule/Handover about `__spu_deactivate`, Spu/Schedule/Kept about each call, and
--   Spu/Schedule/Calls about sequences of calls, where the jump back to `spu_activate_top` after
--   `spu_prio_wait` is a step of its own, for a context that has no SPU: the code does not look,
--   and binds a context that has one to a second SPU. Spu/Activate has `spu_activate`:
--   Spu/Activate/Nodes and Spu/Activate/Choice are about its loops, Spu/Activate/Victim about the
--   SPU that is freed for the context, Spu/Activate/Waits about the ways in which the call ends,
--   Spu/Activate/Outcome about the whole call, and Spu/Activate/Idle about an SPU that it does
--   not find. Spu/Affinity has the places of the contexts of a gang, which Spu/Affinity/Placed is
--   about, and Spu/Affinity/Gangs `spu_get_idle` of a context in a gang, which Spu/Affinity/Got
--   is about; Spu/Affinity/Located is about the SPU of `ctx_location`. Spu/Slices is about the
--   end of a time slice, and Spu/Load (Spu/Load/Active) about the number of contexts.
-- - Tests: the theorems at concrete lists and namespaces, and runs of the code.
--
-- A list is well formed (`IsList`) when the nodes in memory lie apart, their keys increase, and
-- the pointers of each level lead from each node to the next one on that level. `contents` is its
-- map.
--
-- Bounds and fuel: the walk along a level and the loops over the nodes take fuel, one unit for
-- each node; every theorem about them asks for more fuel than nodes, and shows that the run
-- returns. The levels are counted down from the list's level, at most 16. Keys are C ints, given
-- by their distance from INT_MIN. Random numbers and the answers of the allocator are arguments.
-- `put_pid_ns` and the loops of `pidns_install` and `pidns_get_parent` go along the parents,
-- whose number is the level.
--
-- Not modelled: the allocation flags; locks (an operation of a writer is one run) and the grace
-- periods of RCU; the functions of the kernel's lib/rbtree.c, which are a parameter (`Rbtree`)
-- that keeps the order of the nodes; the wait queues; the preparation of /proc, whose outcome is
-- an argument, as are the descriptor of a handle, whether a pid leads a thread group, what
-- `kernel_wait4` returns, and how the kernel sends a signal; user namespaces,
-- `delayed_free_pidns` after the grace period, slab caches, inode numbers and
-- `proc_dointvec_minmax`, whose answers are arguments; the load averages of loadavg.c; of
-- sched.c, the BUG_ON about locks, about a context that is queued twice and about the caller of
-- `spu_prio_wait` (that of `ctx_location` is modelled), a gang in `spu_activate` and
-- `spu_unbind_context`, the registers of an SPU and the counts for statistics; and the build
-- files.
pub mod Base
pub mod Store
pub mod PidMap
pub mod Skiplist
pub mod RbSkiplist
pub mod PidTable
pub mod Pid
pub mod PidNamespace
pub mod RbPid
pub mod Spu
pub mod Tests
