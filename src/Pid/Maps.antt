-- ===== src/Pid/Maps.antt =====
-- The maps that the tables of all namespaces hold.
pub mod Listed
use linux_kernel_code_projec.Base.{
  ℕ, ◌≡◌, refl, sym, ◌∙◌, ap, subst, inl, inr, Bool, true, false, Option, none, some, List, [], ◌∷◌,
  ◌++◌, ◌==◌, arith, if◌then◌else◌, is_some, Bool-cases, Option-cases, ==_eq,
}
use linux_kernel_code_projec.Store.{PidRef, int_of}
use linux_kernel_code_projec.PidMap
use linux_kernel_code_projec.PidMap.{PidMap, find, IsOrdered, find-insert, insert-IsOrdered}
use linux_kernel_code_projec.PidTable.{PidTable}
use linux_kernel_code_projec.Pid.{NsId, Namespace}
use linux_kernel_code_projec.Pid.Find.{Upid, PidStruct}
use linux_kernel_code_projec.Pid.Alloc.{System, set_space, set_struct}

-- The maps of all namespaces without these numbers.
abbrev pub erase_all : List Upid → (NsId → PidMap) → NsId → PidMap
erase_all [] maps = maps
erase_all (u ∷ us) maps =
    erase_all us (λ id. if id == u.ns then PidMap.erase (int_of u.nr) (maps u.ns) else maps id)

-- The maps with a number stored for these, the last one first: reserved, or with its pid.
abbrev pub insert_all : Option PidRef → List Upid → (NsId → PidMap) → NsId → PidMap
insert_all p [] maps = maps
insert_all p (u ∷ us) maps = λ id.
    if id == u.ns
    then PidMap.insert (int_of u.nr) p (insert_all p us maps u.ns)
    else insert_all p us maps id

pub insert_all-append :
    (p : Option PidRef) (us vs : List Upid) (maps : NsId → PidMap)
    → insert_all p (us ++ vs) maps ≡ insert_all p us (insert_all p vs maps)
insert_all-append p [] vs maps = refl
insert_all-append p (u ∷ us) vs maps =
    ap {B = NsId → PidMap}
      (λ (f : NsId → PidMap) id.
        if id == u.ns then PidMap.insert (int_of u.nr) p (f u.ns) else f id)
      (insert_all-append p us vs maps)

module _ (T : PidTable) where
  -- The table of every namespace holds its map.
  abbrev pub HoldsAll : (NsId → PidMap) → System T.ops → Type 0
  HoldsAll maps w =
      (id : NsId) (ns : Namespace T.ops) → w.spaces id ≡ some ns → T.Holds ns.table (maps id)

  -- The namespaces of these numbers exist.
  abbrev pub AllExist : List Upid → System T.ops → Type 0
  AllExist [] w = Unit {0}
  AllExist (u ∷ us) w = (is_some (w.spaces u.ns) ≡ true) × AllExist us w

  pub AllExist-set_space :
      (us : List Upid) (w : System T.ops) (id : NsId) (ns : Namespace T.ops)
      → AllExist us w
      → AllExist us (set_space T.ops id (some ns) w)
  AllExist-set_space [] w id ns a = tt
  AllExist-set_space (u ∷ us) w id ns a = (ground arith, AllExist-set_space us w id ns a.1)

  pub AllExist-set_struct :
      (us : List Upid) (w : System T.ops) (p : PidRef) (s : Option PidStruct)
      → AllExist us w
      → AllExist us (set_struct T.ops p s w)
  AllExist-set_struct [] w p s a = tt
  AllExist-set_struct (u ∷ us) w p s a = (a.0, AllExist-set_struct us w p s a.1)

  pub AllExist-stay :
      (us : List Upid) (w w' : System T.ops)
      → ((id : NsId) → is_some (w.spaces id) ≡ true → is_some (w'.spaces id) ≡ true)
      → AllExist us w
      → AllExist us w'
  AllExist-stay [] w w' stay a = tt
  AllExist-stay (u ∷ us) w w' stay a = (stay u.ns a.0, AllExist-stay us w w' stay a.1)

  pub HoldsAll-set_space :
      (maps : NsId → PidMap) (w : System T.ops) (id : NsId) (ns : Namespace T.ops) (m : PidMap)
      → HoldsAll maps w
      → T.Holds ns.table m
      → HoldsAll (λ j. if j == id then m else maps j) (set_space T.ops id (some ns) w)
  HoldsAll-set_space maps w id ns m held here j space e = elim (Bool-cases (j == id)) [
    | inl y ↦
        let e' = rw y at e in
        let same : ns ≡ space = cc in rw y (subst (λ s. T.Holds s.table m) same here)
    | inr q ↦ rw q (held j space (rw q at e))
  ]

  -- A namespace that exists gets the same map again.
  pub HoldsAll-same :
      (maps : NsId → PidMap) (w : System T.ops) (id : NsId) (ns : Namespace T.ops)
      → HoldsAll maps w
      → T.Holds ns.table (maps id)
      → HoldsAll maps (set_space T.ops id (some ns) w)
  HoldsAll-same maps w id ns held here j space e = elim (Bool-cases (j == id)) [
    | inl y ↦
        let e' = rw y at e in
        let same : ns ≡ space = cc in
        let q = ==_eq j id y in rw q (subst (λ s. T.Holds s.table (maps id)) same here)
    | inr q ↦ held j space (rw q at e)
  ]

  pub AllExist-append :
      (us vs : List Upid) (w : System T.ops) → AllExist us w → AllExist vs w → AllExist (us ++ vs) w
  AllExist-append [] vs w a b = b
  AllExist-append (u ∷ us) vs w a b = (a.0, AllExist-append us vs w a.1 b)

  -- Every namespace is still there, and differs in its table and last number at most.
  abbrev pub Kept : System T.ops → System T.ops → Type 0
  Kept w w' =
      (id : NsId) (ns : Namespace T.ops)
      → w.spaces id ≡ some ns
      → (ns' : Namespace T.ops) × (w'.spaces id ≡ some ns')
        × (ns'.pid_allocated ≡ ns.pid_allocated)
        × (ns'.level ≡ ns.level)
        × (ns'.kref ≡ ns.kref)

  pub Kept-set_space :
      (w : System T.ops) (id : NsId) (old new : Namespace T.ops)
      → w.spaces id ≡ some old
      → new.pid_allocated ≡ old.pid_allocated
      → new.level ≡ old.level
      → new.kref ≡ old.kref
      → Kept w (set_space T.ops id (some new) w)
  Kept-set_space w id old new at p l k j ns e = elim (Bool-cases (j == id)) [
    | inl y ↦
        let q = ==_eq j id y in
        let e' : w.spaces id ≡ some ns = rw q at e in
        let same : old ≡ ns = cc in
        (
          new,
          rw y,
          p ∙ ap (λ (s : Namespace T.ops). s.pid_allocated) same,
          l ∙ ap (λ (s : Namespace T.ops). s.level) same,
          k ∙ ap (λ (s : Namespace T.ops). s.kref) same,
        )
    | inr n ↦ (ns, rw n e, refl, refl, refl)
  ]

  pub Kept-trans : (w₁ w₂ w₃ : System T.ops) → Kept w₁ w₂ → Kept w₂ w₃ → Kept w₁ w₃
  Kept-trans w₁ w₂ w₃ a b id ns e =
      let (ns₂, e₂, p₂, l₂, k₂) = a id ns e in
      let (ns₃, e₃, p₃, l₃, k₃) = b id ns₂ e₂ in (ns₃, e₃, p₃ ∙ p₂, l₃ ∙ l₂, k₃ ∙ k₂)

  -- Every namespace is still there, on the same level.
  abbrev pub Ranked : System T.ops → System T.ops → Type 0
  Ranked w w' =
      (id : NsId) (ns : Namespace T.ops)
      → w.spaces id ≡ some ns
      → (ns' : Namespace T.ops) × (w'.spaces id ≡ some ns') × (ns'.level ≡ ns.level)

  pub Kept-Ranked : (w w' : System T.ops) → Kept w w' → Ranked w w'
  Kept-Ranked w w' kept id ns e = let (ns', e', _, l, _) = kept id ns e in (ns', e', l)

  pub Ranked-set_space :
      (w : System T.ops) (id : NsId) (old new : Namespace T.ops)
      → w.spaces id ≡ some old
      → new.level ≡ old.level
      → Ranked w (set_space T.ops id (some new) w)
  Ranked-set_space w id old new at l j ns e = elim (Bool-cases (j == id)) [
    | inl y ↦
        let q = ==_eq j id y in
        let e' : w.spaces id ≡ some ns = rw q at e in
        let same : old ≡ ns = cc in (new, rw y refl, l ∙ ap (λ (s : Namespace T.ops). s.level) same)
    | inr n ↦ (ns, rw n e, refl)
  ]

  pub Ranked-trans : (w₁ w₂ w₃ : System T.ops) → Ranked w₁ w₂ → Ranked w₂ w₃ → Ranked w₁ w₃
  Ranked-trans w₁ w₂ w₃ a b id ns e =
      let (ns₂, e₂, l₂) = a id ns e in let (ns₃, e₃, l₃) = b id ns₂ e₂ in (ns₃, e₃, l₃ ∙ l₂)
