-- ===== src/Store/Laws.antt =====
-- What one read sees of another write.
use linux_kernel_code_projec.Base.{
  ℕ, ◌<◌, ◌%◌, ◌^◌, ◌≡◌, ◌≢◌, ◌&&◌, true, Option, none, some, inl, inr, arith, ◌==◌, if◌then◌else◌,
  get_elem?, set, replicate, get_elem?-set_self, get_elem?-set_ne, get_elem?-replicate,
  Option-cases,
}
use linux_kernel_code_projec.Base.Run.{Returns}
use linux_kernel_code_projec.Store.{
  Addr, PidRef, int_of, Node, Heap, write, load_key, load_pid, load_level, load_forward,
  set_forward, set_pid, set_key, free_node, Alloc, node_alloc,
}

-- The heap after `x->forward[i] = v`.
pub record Links (h : Heap) (x : Addr) (i : ℕ) (v : Option Addr) (g : Heap) : Type 0 where
  pub key : (b : Addr) → load_key g b ≡ load_key h b
  pub pid : (b : Addr) → load_pid g b ≡ load_pid h b
  pub level : (b : Addr) → load_level g b ≡ load_level h b
  pub forward :
      (b : Addr) (j : ℕ)
      → load_forward g b j ≡ (if b == x && j == i then some v else load_forward h b j)

module _ (h : Heap) (x : Addr) (i : ℕ) (v : Option Addr) where
  set_forward_cell :
      (n : Node) (u : Option Addr)
      → h x ≡ some n
      → get_elem? n.forward i ≡ some u
      → Returns (set_forward h x i v) (Links h x i v)
  unfolding set_forward write load_key load_pid load_level load_forward
  set_forward_cell n u e l = (
    write h x (some (record n { forward = set n.forward i v })),
    rw (e, l),
    record {
      key = ground arith;
      pid = ground arith;
      level = ground arith;
      forward = λ b j.
          ground (arith, get_elem?-set_self n.forward i u v, get_elem?-set_ne n.forward i j v);
    },
  )

  -- A write to a slot that can be read succeeds, and changes what is read there alone.
  pub set_forward-Links :
      {u : Option Addr}
      → load_forward h x i ≡ some u
      → Returns (set_forward h x i v) (Links h x i v)
  unfolding load_forward
  set_forward-Links {u} l = elim (Option-cases (h x)) [
    | inl e ↦ absurd (ground arith)
    | inr (n, e) ↦ set_forward_cell n u e (rw e at l)
  ]

-- The heap after `x->pid = p`.
pub record SetsPid (h : Heap) (x : Addr) (p : Option PidRef) (g : Heap) : Type 0 where
  pub key : (b : Addr) → load_key g b ≡ load_key h b
  pub pid : (b : Addr) → load_pid g b ≡ (if b == x then some p else load_pid h b)
  pub level : (b : Addr) → load_level g b ≡ load_level h b
  pub forward : (b : Addr) (j : ℕ) → load_forward g b j ≡ load_forward h b j

-- The heap after `x->key = k`.
pub record SetsKey (h : Heap) (x : Addr) (k : ℕ) (g : Heap) : Type 0 where
  pub key : (b : Addr) → load_key g b ≡ (if b == x then some k else load_key h b)
  pub pid : (b : Addr) → load_pid g b ≡ load_pid h b
  pub level : (b : Addr) → load_level g b ≡ load_level h b
  pub forward : (b : Addr) (j : ℕ) → load_forward g b j ≡ load_forward h b j

module _ (h : Heap) (x : Addr) (n : Node) (e : h x ≡ some n) where
  set_pid_cell : (p : Option PidRef) → Returns (set_pid h x p) (SetsPid h x p)
  unfolding set_pid write load_key load_pid load_level load_forward
  set_pid_cell p = (
    write h x (some (record n { pid = p })),
    rw e,
    record { key = ground arith; pid = ground arith; level = ground arith; forward = ground arith },
  )

  set_key_cell : (k : ℕ) → Returns (set_key h x k) (SetsKey h x k)
  unfolding set_key write load_key load_pid load_level load_forward
  set_key_cell k = (
    write h x (some (record n { key = k })),
    rw e,
    record { key = ground arith; pid = ground arith; level = ground arith; forward = ground arith },
  )

module _ (h : Heap) (x : Addr) {k : ℕ} (l : load_key h x ≡ some k) where
  cell_of_key : (n : Node) × (h x ≡ some n)
  unfolding load_key
  cell_of_key = elim (Option-cases (h x)) [ inl e ↦ absurd (ground arith) | inr (n, e) ↦ (n, e) ]

  pub set_pid-SetsPid : (p : Option PidRef) → Returns (set_pid h x p) (SetsPid h x p)
  set_pid-SetsPid p = set_pid_cell h x cell_of_key.0 cell_of_key.1 p

  pub set_key-SetsKey : (k' : ℕ) → Returns (set_key h x k') (SetsKey h x k')
  set_key-SetsKey k' = set_key_cell h x cell_of_key.0 cell_of_key.1 k'

  -- Freeing an allocated node.
  pub free_node-ok : free_node h x ≡ some (write h x none)
  unfolding free_node
  free_node-ok = rw cell_of_key.1

-- The heap in which `x` is a zeroed node with `n` slots.
pub record Zeroed (h : Heap) (x : Addr) (n : ℕ) (g : Heap) : Type 0 where
  pub key_self : load_key g x ≡ some (int_of 0)
  pub pid_self : load_pid g x ≡ some none
  pub level_self : load_level g x ≡ some (n % 2 ^ 8)
  pub forward_self : (j : ℕ) → j < n → load_forward g x j ≡ some none
  pub same : (b : Addr) → b ≢ x → g b ≡ h b

pub node_alloc-Zeroed :
    (n : ℕ) (m : Alloc) (h : Heap) (x : Addr)
    → m.node ≡ some x
    → m.array ≡ true
    → (g : Heap) × (node_alloc n m h ≡ (some x, g)) × Zeroed h x n g
unfolding node_alloc write load_key load_pid load_level load_forward
node_alloc-Zeroed n m h x e a = (
  write h x
      (some (record { key = int_of 0; pid = none; forward = replicate n none; level = n % 2 ^ 8 })),
  rw (e, a),
  record {
    key_self = ground arith;
    pid_self = ground arith;
    level_self = ground arith;
    forward_self = λ j lt. ground (arith, get_elem?-replicate {A = Option Addr} n j none);
    same = ground arith;
  },
)

-- A write to a pointer leaves the levels as they are.
pub set_forward-level :
    (h : Heap) (x : Addr) (i : ℕ) (v : Option Addr) (g : Heap) (b : Addr)
    → set_forward h x i v ≡ some g
    → load_level g b ≡ load_level h b
unfolding set_forward load_forward
set_forward-level h x i v g b e = elim (Option-cases (load_forward h x i)) [
  | inl n ↦ absurd (ground arith)
  | inr (u, l) ↦
      let (g', run, k) = set_forward-Links h x i v l in let q : g' ≡ g = cc in rw (← q) (k.level b)
]

pub set_key-level :
    (h : Heap) (x : Addr) (k : ℕ) (g : Heap) (b : Addr)
    → set_key h x k ≡ some g
    → load_level g b ≡ load_level h b
unfolding set_key load_key
set_key-level h x k g b e = elim (Option-cases (load_key h x)) [
  | inl n ↦ absurd (ground arith)
  | inr (j, l) ↦
      let (g', run, s) = set_key-SetsKey h x l k in let q : g' ≡ g = cc in rw (← q) (s.level b)
]

pub set_pid-level :
    (h : Heap) (x : Addr) (p : Option PidRef) (g : Heap) (b : Addr)
    → set_pid h x p ≡ some g
    → load_level g b ≡ load_level h b
unfolding set_pid load_key
set_pid-level h x p g b e = elim (Option-cases (load_key h x)) [
  | inl n ↦ absurd (ground arith)
  | inr (j, l) ↦
      let (g', run, s) = set_pid-SetsPid h x l p in let q : g' ≡ g = cc in rw (← q) (s.level b)
]
