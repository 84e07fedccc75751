-- ===== src/Pid/Maps/Listed.antt =====
-- Lookups in the maps of all namespaces, after numbers are stored there or taken out.
use linux_kernel_code_projec.Base.{
  ℕ, ◌≡◌, refl, sym, ◌∙◌, ap, inl, inr, Bool, true, false, ◌&&◌, ◌||◌, Option, none, some, List, [],
  ◌∷◌, ◌==◌, if◌then◌else◌, Bool-cases, ==_eq,
}
use linux_kernel_code_projec.Store.{PidRef, int_of}
use linux_kernel_code_projec.PidMap
use linux_kernel_code_projec.PidMap.{
  PidMap, find, visible, IsOrdered, find-insert, insert-IsOrdered, find-erase, erase-IsOrdered,
}
use linux_kernel_code_projec.Pid.{NsId}
use linux_kernel_code_projec.Pid.Find.{Upid}
use linux_kernel_code_projec.Pid.Maps.{erase_all, insert_all}

-- Whether the key is one of these numbers in this namespace.
abbrev pub listed : List Upid → NsId → ℕ → Bool
listed [] id k = false
listed (u ∷ us) id k = (id == u.ns && int_of u.nr == k) || listed us id k

pub insert_all-IsOrdered :
    (p : Option PidRef) (us : List Upid) (maps : NsId → PidMap) (id : NsId)
    → IsOrdered (maps id)
    → IsOrdered (insert_all p us maps id)
insert_all-IsOrdered p [] maps id o = o
insert_all-IsOrdered p (u ∷ us) maps id o = elim (Bool-cases (id == u.ns)) [
  | inl y ↦
      let q = ==_eq id u.ns y in
      let o' : IsOrdered (insert_all p us maps u.ns) =
        rw (← q) (insert_all-IsOrdered p us maps id o) in
      rw y (insert-IsOrdered (int_of u.nr) p (insert_all p us maps u.ns) o')
  | inr n ↦ rw n (insert_all-IsOrdered p us maps id o)
]

pub find-insert_all :
    (p : Option PidRef) (us : List Upid) (maps : NsId → PidMap) (id : NsId) (k : ℕ)
    → find k (insert_all p us maps id) ≡ (if listed us id k then some p else find k (maps id))
find-insert_all p [] maps id k = refl
find-insert_all p (u ∷ us) maps id k =
    let rest = find-insert_all p us maps id k in
    elim (Bool-cases (id == u.ns)) [
      | inr n ↦ rw n rest
      | inl y ↦
          let q = ==_eq id u.ns y in
          let m = insert_all p us maps u.ns in
          let f = find-insert k (int_of u.nr) p m in
          let rest' : find k m ≡ (if listed us id k then some p else find k (maps id)) =
            ap (λ i. find k (insert_all p us maps i)) (sym q) ∙ rest in
          elim (Bool-cases (int_of u.nr == k)) [
            | inl e ↦ rw (y, e) (f ∙ rw e)
            | inr e ↦ rw (y, e) (f ∙ rw e rest')
          ]
    ]

else_none : {A : Type 0} {x : Option A} (b : Bool) → x ≡ none → (if b then none else x) ≡ none
else_none true e = refl
else_none false e = e

pub find-erase_all :
    (us : List Upid) (maps : NsId → PidMap) (id : NsId) (k : ℕ)
    → IsOrdered (maps id)
    → find k (erase_all us maps id) ≡ (if listed us id k then none else find k (maps id))
find-erase_all [] maps id k o = refl
find-erase_all (u ∷ us) maps id k o =
    let maps' : NsId → PidMap =
      λ i. if i == u.ns then PidMap.erase (int_of u.nr) (maps u.ns) else maps i in
    elim (Bool-cases (id == u.ns)) [
      | inr n ↦ let rest = find-erase_all us maps' id k (rw n o) in rw n (rw n at rest)
      | inl y ↦
          let q = ==_eq id u.ns y in
          let o' : IsOrdered (maps u.ns) = rw (← q) o in
          let ordered : IsOrdered (maps' id) =
            rw y (erase-IsOrdered (int_of u.nr) (maps u.ns) o') in
          let rest₀ = find-erase_all us maps' id k ordered in
          let f = find-erase k (int_of u.nr) (maps u.ns) o' in
          let here : find k (maps' id) ≡ (if int_of u.nr == k then none else find k (maps id)) =
            rw y (f ∙ ap (λ i. if int_of u.nr == k then none else find k (maps i)) (sym q)) in
          elim (Bool-cases (int_of u.nr == k)) [
            | inl e ↦ rw (y, e) (rest₀ ∙ else_none (listed us id k) (here ∙ rw e))
            | inr e ↦ rw (y, e) (rest₀ ∙ ap (λ z. if listed us id k then none else z) (here ∙ rw e))
          ]
    ]
