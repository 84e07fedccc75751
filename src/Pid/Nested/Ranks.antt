-- ===== src/Pid/Nested/Ranks.antt =====
-- The levels of a namespace and its parents.
use linux_kernel_code_projec.Base.{
  ℕ, zero, suc, ◌+◌, ◌<◌, ◌≡◌, refl, sym, ◌∙◌, ap, ◌⊎◌, inl, inr, Option, some, List, [], ◌∷◌, ◌++◌,
  arith, length, length-append, get_elem?,
}
use linux_kernel_code_projec.PidTable.{PidTable}
use linux_kernel_code_projec.Pid.{NsId, Namespace}
use linux_kernel_code_projec.Pid.Alloc.{System, Requests}
use linux_kernel_code_projec.Pid.Spaces.{spaces_from, spaces_from-some}
use linux_kernel_code_projec.Pid.Nested.{Chain}

pub get_elem?-length :
    {A : Type 0} (xs : List A) (i : ℕ) (x : A) → get_elem? xs i ≡ some x → i < length xs
get_elem?-length [] i x e = cc
get_elem?-length (y ∷ xs) zero x e = omega arith
get_elem?-length (y ∷ xs) (suc i) x e = let l = get_elem?-length xs i x e in omega arith

-- The last element of a list with one appended
get_elem?-append :
    {A : Type 0} (xs : List A) (y : A) (i : ℕ) (z : A)
    → get_elem? (xs ++ (y ∷ [])) i ≡ some z
    → (get_elem? xs i ≡ some z) ⊎ ((i ≡ length xs) × (y ≡ z))
get_elem?-append [] y zero z e = inr (refl, cc)
get_elem?-append [] y (suc i) z e = cc
get_elem?-append (x ∷ xs) y zero z e = inl e
get_elem?-append (x ∷ xs) y (suc i) z e = elim (get_elem?-append xs y i z e) [
  | inl l ↦ inl l
  | inr (n, q) ↦ inr (ap suc n, q)
]

module _ (T : PidTable) (pid_max : ℕ) (rq : Requests T.ops) where
  length-spaces_from :
      (w : System T.ops) (n : ℕ) (tmp : Option NsId)
      → Chain T pid_max rq w n tmp
      → length (spaces_from T w n tmp) ≡ n
  unfolding spaces_from
  length-spaces_from w zero tmp c = refl
  length-spaces_from w (suc n) tmp (id, ns, e, at, lv, u, u', c) =
      let rest = length-spaces_from w n ns.parent c in
      let l = length-append (spaces_from T w n ns.parent) (id ∷ []) in
      rw (e, spaces_from-some T w n id ns at) (omega arith)

  -- The namespaces stand in the list by their level.
  pub spaces_from-level :
      (w : System T.ops) (n : ℕ) (tmp : Option NsId) (i : ℕ) (j : NsId)
      → Chain T pid_max rq w n tmp
      → get_elem? (spaces_from T w n tmp) i ≡ some j
      → (ns : Namespace T.ops) × (w.spaces j ≡ some ns)
        × (ns.level ≡ i)
        × (i + 1 ≡ n → tmp ≡ some j)
  unfolding spaces_from
  spaces_from-level w zero tmp i j c e = cc
  spaces_from-level w (suc n) tmp i j (id, ns, q, at, lv, u, u', c) e =
      let below = spaces_from T w n ns.parent in
      let e' = rw (q, spaces_from-some T w n id ns at) at e in
      let len = length-spaces_from w n ns.parent c in
      elim (get_elem?-append below id i j e') [
        | inl l ↦
            let (s, here, level, _) = spaces_from-level w n ns.parent i j c l in
            let lt : i < length below = get_elem?-length below i j l in
            (s, here, level, λ top. absurd (omega arith))
        | inr (last, same) ↦ (ns, rw (← same) at, lv ∙ sym (last ∙ len), λ top. q ∙ ap some same)
      ]
