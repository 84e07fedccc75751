-- ===== src/Skiplist/Read.antt =====
-- The readers of skiplist/pid_skiplist.c: lookup, find_ge and the iterator.
use linux_kernel_code_projec.Base.{
  ℕ, zero, suc, ◌<◌, ◌≡◌, refl, ◌∙◌, inl, inr, none, some, List, [], ◌∷◌, arith, if◌then◌else◌,
  Bool-cases, length,
}
use linux_kernel_code_projec.Base.Run.{◌>>=◌, Returns}
use linux_kernel_code_projec.Store.{Addr, Heap, load_pid, load_forward}
use linux_kernel_code_projec.PidMap.{find, visible, from, first_pid, find-KeysAbove}
use linux_kernel_code_projec.Skiplist.{Skiplist, descend, has_key, lookup, find_ge}
use linux_kernel_code_projec.Skiplist.Chain.{
  Entry, linked, next_at, AllStored, AllStored-right, Above, IsSorted,
}
use linux_kernel_code_projec.Skiplist.Search.{Before, descend-next_at}
use linux_kernel_code_projec.Skiplist.View.{
  contents, Readable, lows, highs, lows-append-highs, lows-Below, highs-Above, IsSorted-highs,
  length-lows, find-Below, from-Below, from-Above, KeysAbove-contents,
}

module _ (h : Heap) (key : ℕ) where
  pub lookup-next :
      (r : List Entry)
      → AllStored h r
      → Above key r
      → IsSorted r
      → (has_key h key (next_at 0 r) >>= λ found.
          if found then next_at 0 r >>= load_pid h else some none)
        ≡ some (visible (find key (contents r)))
  unfolding has_key find contents
  lookup-next [] s a o = refl
  lookup-next (e ∷ r) s a o = elim (Bool-cases (linked e 0)) [
    | inr n ↦ rw n (lookup-next r s.1 a.1 o.1)
    | inl y ↦
        rw (y, s.0.key)
          (ground
            (arith, s.0.pid, find-KeysAbove key e.key (contents r), KeysAbove-contents e.key r))
  ]

module _ {h : Heap} {sl : Skiplist} {hdr : Addr} {xs : List Entry} (v : Readable h sl hdr xs)
    (key : ℕ) where
  pub start : (n : ℕ) → sl.level ≡ suc n → Before h key (highs key xs) (suc n) hdr (lows key xs)
  start n e = record {
    forward = λ j lt. rw lows-append-highs (v.stored.0.forward j (omega (arith, v.level_max)));
    stored = rw lows-append-highs v.stored.1;
    below = lows-Below key xs;
  }

  -- The search returns, and ends before the first node that is not below the key.
  pub search :
      (f : ℕ)
      → length xs < f
      → Returns
          (descend f h key sl.level hdr [])
          (λ r. load_forward h r.0 0 ≡ some (next_at 0 (highs key xs)))
  search f fuel = go sl.level refl
    where
      go :
          (n : ℕ)
          → sl.level ≡ n
          → Returns
              (descend f h key n hdr [])
              (λ r. load_forward h r.0 0 ≡ some (next_at 0 (highs key xs)))
      go zero e = absurd (omega (arith, v.level_pos))
      go (suc n) e =
          descend-next_at h key (highs key xs) (highs-Above key xs v.sorted) f n hdr (lows key xs)
            [] (start n e) (omega (arith, length-lows key xs))

  pub stored_highs : AllStored h (highs key xs)
  stored_highs = AllStored-right h (lows key xs) (highs key xs) (rw lows-append-highs v.stored.1)

  find-highs : find key (contents xs) ≡ find key (contents (highs key xs))
  find-highs =
      rw lows-append-highs at (find-Below key (lows key xs) (highs key xs) (lows-Below key xs))

  -- With more fuel than nodes a lookup returns the pid that the map has at the key, and NULL where
  -- the key is missing or reserved.
  pub lookup-find :
      (f : ℕ) → length xs < f → lookup f key h sl ≡ some (visible (find key (contents xs)))
  unfolding lookup
  lookup-find f fuel =
      let (r, run, l) = search f fuel in
      rw (v.header, run, ◌>>=◌, l, ◌>>=◌, find-highs)
        (lookup-next h key (highs key xs) stored_highs (highs-Above key xs v.sorted)
          (IsSorted-highs key xs v.sorted))

  -- `find_ge` returns what stands at the first number of the map from the key on, also where that is
  -- reserved.
  ge-next :
      (r : List Entry)
      → AllStored h r
      → elim (next_at 0 r) [ none ↦ some none | some y ↦ load_pid h y ]
        ≡ some (first_pid (contents r))
  unfolding contents first_pid
  ge-next [] s = refl
  ge-next (e ∷ r) s = elim (Bool-cases (linked e 0)) [
    | inr n ↦ rw n (ge-next r s.1)
    | inl y ↦ rw (y, s.0.pid)
  ]

  pub from_highs : from key (contents xs) ≡ contents (highs key xs)
  from_highs =
      (rw lows-append-highs at (from-Below key (lows key xs) (highs key xs) (lows-Below key xs)))
      ∙ from-Above key (highs key xs) (highs-Above key xs v.sorted)

  -- With more fuel than nodes `find_ge` returns what stands at the first key of the map that is at
  -- least the given one, which is NULL if that key is reserved or there is none.
  pub find_ge-from :
      (f : ℕ) → length xs < f → find_ge f key h sl ≡ some (first_pid (from key (contents xs)))
  unfolding find_ge
  find_ge-from f fuel =
      let (r, run, l) = search f fuel in
      rw (v.header, run, ◌>>=◌, l, from_highs) (ge-next (highs key xs) stored_highs)
