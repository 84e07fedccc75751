-- ===== src/RbPid/Lost.antt =====
-- A pid whose node stands in the tree, as kernel/pid.c sees it.
use linux_kernel_code_projec.Base.{ℕ, ◌<◌, ◌≡◌, none, some, List, ◌∷◌, ◌++◌, length}
use linux_kernel_code_projec.Store.{Addr, int_of}
use linux_kernel_code_projec.Skiplist.Chain.{Entry}
use linux_kernel_code_projec.Pid.Find.{find_pid_ns}
use linux_kernel_code_projec.RbSkiplist.{Rbtree}
use linux_kernel_code_projec.RbSkiplist.Miss.{AtTop, lookup-AtTop}
use linux_kernel_code_projec.RbPid.{RbNamespace, rb_find_pid_ns}

-- If in a namespace a node on the highest level of its well-formed list stands in the tree, which
-- is a search tree, then with more fuel than nodes `find_pid_ns` of the number of that node
-- returns NULL, whatever pid the node has.
pub rb_find_pid_ns-AtTop :
    (rb : Rbtree) (ns : RbNamespace rb) (nr : ℕ) (hdr : Addr) (ls : List Entry) (e : Entry)
    (hs : List Entry)
    → AtTop ns.table.heap ns.table.list hdr ls e hs
    → length (ls ++ e ∷ hs) < ns.table.bound
    → e.key ≡ int_of nr
    → rb_find_pid_ns rb nr ns ≡ some none
unfolding find_pid_ns
rb_find_pid_ns-AtTop rb ns nr hdr ls e hs t fuel q = rw (← q) (lookup-AtTop t ns.table.bound fuel)
