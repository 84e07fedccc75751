-- ===== src/Pid/Spaces.antt =====
-- A namespace with its parents, as `alloc_pid` goes through them.
use linux_kernel_code_projec.Base.{
  ℕ, zero, suc, ◌≡◌, refl, sym, ◌∙◌, ap, inl, inr, Option, none, some, List, [], ◌∷◌, ◌++◌, ◌==◌,
  Bool-cases, Option-cases, ==_eq,
}
use linux_kernel_code_projec.PidTable.{PidTable}
use linux_kernel_code_projec.Pid.{NsId, Namespace}
use linux_kernel_code_projec.Pid.Alloc.{System, set_space}

module _ (T : PidTable) where
  -- The namespaces on the levels below `n`, from level 0 on, where `tmp` is the one on the highest:
  -- each has the one before it as its parent.
  unfoldable pub spaces_from : System T.ops → ℕ → Option NsId → List NsId
  spaces_from w zero tmp = []
  spaces_from w (suc n) tmp = elim tmp [
    | none ↦ []
    | some id ↦ elim (w.spaces id) [ none ↦ [] | some ns ↦ spaces_from w n ns.parent ++ (id ∷ []) ]
  ]

  pub spaces_from-some :
      (w : System T.ops) (n : ℕ) (id : NsId) (ns : Namespace T.ops)
      → w.spaces id ≡ some ns
      → spaces_from w (suc n) (some id) ≡ spaces_from w n ns.parent ++ (id ∷ [])
  unfolding spaces_from
  spaces_from-some w n id ns at = rw (spaces_from, at) refl

  spaces_from-none :
      (w : System T.ops) (n : ℕ) (id : NsId)
      → w.spaces id ≡ none
      → spaces_from w (suc n) (some id) ≡ []
  unfolding spaces_from
  spaces_from-none w n id gone = rw (spaces_from, gone) refl

  -- A change of a namespace that keeps its parent
  pub spaces_from-set_space :
      (w : System T.ops) (n : ℕ) (tmp : Option NsId) (id : NsId) (old new : Namespace T.ops)
      → w.spaces id ≡ some old
      → new.parent ≡ old.parent
      → spaces_from (set_space T.ops id (some new) w) n tmp ≡ spaces_from w n tmp
  unfolding spaces_from
  spaces_from-set_space w zero tmp id old new at same = refl
  spaces_from-set_space w (suc n) none id old new at same = refl
  spaces_from-set_space w (suc n) (some j) id old new at same =
      let w' = set_space T.ops id (some new) w in
      let below : (o : Option NsId)
          → spaces_from w' n o ++ (j ∷ []) ≡ spaces_from w n o ++ (j ∷ []) =
        λ o. ap (λ l. l ++ (j ∷ [])) (spaces_from-set_space w n o id old new at same) in
      elim (Bool-cases (j == id)) [
        | inl y ↦
            let here : w'.spaces j ≡ some new = rw y refl in
            let here' : w.spaces j ≡ some old = rw (==_eq j id y) at in
            spaces_from-some w' n j new here
            ∙ below new.parent
            ∙ ap (λ o. spaces_from w n o ++ (j ∷ [])) same
            ∙ sym (spaces_from-some w n j old here')
        | inr m ↦ elim (Option-cases (w.spaces j)) [
          | inl e ↦
              let e' : w'.spaces j ≡ none = rw m e in
              spaces_from-none w' n j e' ∙ sym (spaces_from-none w n j e)
          | inr (ns, e) ↦
              let e' : w'.spaces j ≡ some ns = rw m e in
              spaces_from-some w' n j ns e' ∙ below ns.parent ∙ sym (spaces_from-some w n j ns e)
        ]
      ]
