-- ===== src/Skiplist/Iterate.antt =====
-- The iterator of skiplist/pid_skiplist.c, and the loop of skiplist/pid_namespace.c over it.
use linux_kernel_code_projec.Base.{
  ℕ, zero, suc, ◌≤◌, ◌<◌, ◌≡◌, refl, inl, inr, none, some, List, [], ◌∷◌, arith, Bool-cases,
  Option-cases, length, le→ltb,
}
use linux_kernel_code_projec.Base.Run.{◌>>=◌}
use linux_kernel_code_projec.Store.{Addr, Heap, load_key, load_pid, load_forward}
use linux_kernel_code_projec.PidMap.{from, until_reserved}
use linux_kernel_code_projec.Skiplist.{Skiplist, at_least, visit, iter_next, iterate}
use linux_kernel_code_projec.Skiplist.Chain.{Entry, linked, next_at, AllStored, Above}
use linux_kernel_code_projec.Skiplist.View.{contents, Readable, highs, highs-Above, length-highs}
use linux_kernel_code_projec.Skiplist.Read.{search, stored_highs, from_highs}

-- The first node of `r` that the lowest level reaches.
data First (h : Heap) (r : List Entry) : Type 0 where
  empty : next_at 0 r ≡ none → contents r ≡ [] → First h r
  first :
      (e : Entry) (rest : List Entry)
      → next_at 0 r ≡ some e.addr
      → contents r ≡ (e.key, e.pid) ∷ contents rest
      → load_forward h e.addr 0 ≡ some (next_at 0 rest)
      → load_pid h e.addr ≡ some e.pid
      → load_key h e.addr ≡ some e.key
      → AllStored h rest
      → length rest < length r
      → ((k : ℕ) → Above k r → k ≤ e.key)
      → First h r

First-cases : (h : Heap) (r : List Entry) → AllStored h r → First h r
unfolding contents
First-cases h [] s = empty refl refl
First-cases h (e ∷ r) s = elim (Bool-cases (linked e 0)) [
  | inl y ↦
      first e r (rw y) (rw y) (s.0.forward 0 (ground arith)) s.0.pid s.0.key s.1 (omega arith)
        (λ k a. a.0)
  | inr n ↦ elim (First-cases h r s.1) [
    | empty p q ↦ empty (rw n p) (rw n q)
    | first d rest p q l i k t lt a ↦
        first d rest (rw n p) (rw n q) l i k t (omega arith) (λ k' b. a k' b.1)
  ]
]

module _ {h : Heap} {sl : Skiplist} {hdr : Addr} {xs : List Entry} (v : Readable h sl hdr xs)
    (f nr : ℕ) where
  -- The loop, once the cursor stands on a node before `r`.
  iterate-rest :
      (n : ℕ) (c : Addr) (r : List Entry)
      → AllStored h r
      → load_forward h c 0 ≡ some (next_at 0 r)
      → length r < n
      → iterate n f nr (some c) h sl ≡ some (until_reserved (contents r))
  unfolding iterate iter_next visit until_reserved
  iterate-rest zero c r s l fuel = absurd (omega arith)
  iterate-rest (suc n) c r s l fuel = elim (First-cases h r s) [
    | empty p q ↦ rw (v.header, l, p, q)
    | first e rest p q next i k t lt a ↦ elim (Option-cases e.pid) [
      | inl none_e ↦ rw (v.header, l, p, q, ◌>>=◌, i, none_e)
      | inr (x, some_e) ↦
          rw (v.header, l, p, q, ◌>>=◌, i, some_e, iterate-rest n e.addr rest t next (omega arith))
    ]
  ]

  -- With more fuel and rounds than nodes the loop over the cursor ends, and sees the pids of the
  -- map from the start number on, in order, up to the first number that is reserved.
  pub iterate-until_reserved :
      (n : ℕ)
      → length xs < f
      → length xs < n
      → iterate n f nr none h sl ≡ some (until_reserved (from nr (contents xs)))
  unfolding iterate iter_next visit at_least until_reserved
  iterate-until_reserved zero ff fuel = absurd (omega arith)
  iterate-until_reserved (suc n) ff fuel =
      let sh = length-highs nr xs in
      let (r, run, l) = search v nr f ff in
      elim (First-cases h (highs nr xs) (stored_highs v nr)) [
        | empty p q ↦ rw (v.header, run, ◌>>=◌, l, p, from_highs v nr, q)
        | first e rest p q next i k t lt a ↦
            let above = le→ltb e.key nr (a nr (highs-Above nr xs v.sorted)) in
            elim (Option-cases e.pid) [
              | inl none_e ↦ rw (
                v.header,
                run,
                ◌>>=◌,
                l,
                p,
                from_highs v nr,
                q,
                ◌>>=◌,
                k,
                above,
                ◌>>=◌,
                i,
                none_e,
              )
              | inr (x, some_e) ↦ rw (
                v.header,
                run,
                ◌>>=◌,
                l,
                p,
                from_highs v nr,
                q,
                ◌>>=◌,
                k,
                above,
                ◌>>=◌,
                i,
                some_e,
                iterate-rest n e.addr rest t next (omega arith),
              )
            ]
      ]
