-- ===== src/Skiplist/Chain.antt =====
-- What a skip list in memory stands for: the nodes in the order of their keys, the header first.
use linux_kernel_code_projec.Base.{
  ℕ, ◌≤◌, ◌<◌, ◌≡◌, ◌≢◌, refl, sym, inl, inr, Bool, true, false, ◌&&◌, Option, none, some, List, [],
  ◌∷◌, ◌++◌, ltb, leb, if◌then◌else◌, is_some, Bool-cases,
}
use linux_kernel_code_projec.Store.{
  Addr, PidRef, Heap, load_key, load_pid, load_level, load_forward,
}

-- A node with the levels `lo ≤ i < hi` on which the list reaches it, and the slots it has. While
-- the writer links it `hi` grows, and while the writer unlinks it `lo` does.
pub record Entry : Type 0 where
  pub addr : Addr
  pub key : ℕ
  pub pid : Option PidRef
  pub slots : ℕ
  pub lo : ℕ
  pub hi : ℕ

abbrev pub linked : Entry → ℕ → Bool
linked e i = leb e.lo i && ltb i e.hi

-- Where the level-`i` pointer of a node leads that stands before these.
abbrev pub next_at : ℕ → List Entry → Option Addr
next_at i [] = none
next_at i (e ∷ r) = if linked e i then some e.addr else next_at i r

-- The last node that the list reaches on level `i`, or `d`.
abbrev pub pred_at : ℕ → Addr → List Entry → Addr
pred_at i d [] = d
pred_at i d (e ∷ r) = pred_at i (if linked e i then e.addr else d) r

-- The node of `e` is in memory, and its pointers lead to the next nodes of `r`.
pub record Stored (h : Heap) (e : Entry) (r : List Entry) : Type 0 where
  pub key : load_key h e.addr ≡ some e.key
  pub pid : load_pid h e.addr ≡ some e.pid
  pub forward : (i : ℕ) → i < e.hi → load_forward h e.addr i ≡ some (next_at i r)
  pub level : load_level h e.addr ≡ some e.slots
  pub room : (i : ℕ) → i < e.slots → is_some (load_forward h e.addr i) ≡ true

abbrev pub AllStored : Heap → List Entry → Type 0
AllStored h [] = Unit {0}
AllStored h (e ∷ r) = Stored h e r × AllStored h r

abbrev pub All : (Entry → Type 0) → List Entry → Type 0
All P [] = Unit {0}
All P (e ∷ r) = P e × All P r

abbrev pub Below : ℕ → List Entry → Type 0
Below k = All (λ e. e.key < k)

abbrev pub Above : ℕ → List Entry → Type 0
Above k = All (λ e. k ≤ e.key)

abbrev pub Unlinked : ℕ → List Entry → Type 0
Unlinked i = All (λ e. linked e i ≡ false)

abbrev pub Bottomed : List Entry → Type 0
Bottomed = All (λ e. e.lo ≡ 0)

abbrev pub NotAt : Addr → List Entry → Type 0
NotAt a = All (λ e. e.addr ≢ a)

abbrev pub Distinct : List Entry → Type 0
Distinct [] = Unit {0}
Distinct (e ∷ r) = NotAt e.addr r × Distinct r

-- The keys grow.
abbrev pub IsSorted : List Entry → Type 0
IsSorted [] = Unit {0}
IsSorted (e ∷ r) = All (λ f. e.key < f.key) r × IsSorted r

module _ (P : Entry → Type 0) where
  pub All-append : (xs ys : List Entry) → All P xs → All P ys → All P (xs ++ ys)
  All-append [] ys p q = q
  All-append (x ∷ xs) ys p q = (p.0, All-append xs ys p.1 q)

  pub All-left : (xs ys : List Entry) → All P (xs ++ ys) → All P xs
  All-left [] ys p = tt
  All-left (x ∷ xs) ys p = (p.0, All-left xs ys p.1)

  pub All-right : (xs ys : List Entry) → All P (xs ++ ys) → All P ys
  All-right [] ys p = p
  All-right (x ∷ xs) ys p = All-right xs ys p.1

  pub All-mono :
      (Q : Entry → Type 0) (xs : List Entry) → ((e : Entry) → P e → Q e) → All P xs → All Q xs
  All-mono Q [] f p = tt
  All-mono Q (x ∷ xs) f p = (f x p.0, All-mono Q xs f p.1)

pub AllStored-right : (h : Heap) (xs ys : List Entry) → AllStored h (xs ++ ys) → AllStored h ys
AllStored-right h [] ys s = s
AllStored-right h (x ∷ xs) ys s = AllStored-right h xs ys s.1

-- Nodes that level `i` does not reach are passed over.
pub next_at-Unlinked :
    (i : ℕ) (xs ys : List Entry) → Unlinked i xs → next_at i (xs ++ ys) ≡ next_at i ys
next_at-Unlinked i [] ys u = refl
next_at-Unlinked i (x ∷ xs) ys u = rw u.0 (next_at-Unlinked i xs ys u.1)

pub pred_at-Unlinked : (i : ℕ) (d : Addr) (xs : List Entry) → Unlinked i xs → pred_at i d xs ≡ d
pred_at-Unlinked i d [] u = refl
pred_at-Unlinked i d (x ∷ xs) u = rw u.0 (pred_at-Unlinked i d xs u.1)

pub pred_at-append :
    (i : ℕ) (d : Addr) (xs ys : List Entry) → pred_at i d (xs ++ ys) ≡ pred_at i (pred_at i d xs) ys
pred_at-append i d [] ys = refl
pred_at-append i d (x ∷ xs) ys = pred_at-append i (if linked x i then x.addr else d) xs ys

-- Where the last node on level `i` stands: it is `d`, or a node behind which level `i` is empty.
pub data Last (i : ℕ) (d : Addr) (xs : List Entry) : Type 0 where
  stay : Unlinked i xs → Last i d xs
  at :
      (ls : List Entry) (e : Entry) (bs : List Entry)
      → xs ≡ ls ++ e ∷ bs
      → linked e i ≡ true
      → pred_at i d xs ≡ e.addr
      → Unlinked i bs
      → Last i d xs

pub Last-cases : (i : ℕ) (d : Addr) (xs : List Entry) → Last i d xs
Last-cases i d [] = stay tt
Last-cases i d (x ∷ xs) = elim (Bool-cases (linked x i)) [
  | inl l ↦ elim (Last-cases i x.addr xs) [
    | stay u ↦ at [] x xs refl l (rw l (pred_at-Unlinked i x.addr xs u)) u
    | at ls e bs p q r u ↦ at (x ∷ ls) e bs (rw p) q (rw l r) u
  ]
  | inr l ↦ elim (Last-cases i d xs) [
    | stay u ↦ stay (l, u)
    | at ls e bs p q r u ↦ at (x ∷ ls) e bs (rw p) q (rw l r) u
  ]
]

pub Distinct-right : (xs ys : List Entry) → Distinct (xs ++ ys) → Distinct ys
Distinct-right [] ys d = d
Distinct-right (x ∷ xs) ys d = Distinct-right xs ys d.1

-- A node in the middle differs from those before it.
pub Distinct-NotAt :
    (xs : List Entry) (e : Entry) (ys : List Entry) → Distinct (xs ++ e ∷ ys) → NotAt e.addr xs
Distinct-NotAt [] e ys d = tt
Distinct-NotAt (x ∷ xs) e ys d =
    let differs = (All-right (λ f. f.addr ≢ x.addr) xs (e ∷ ys) d.0).0 in
    (λ p. differs (sym p), Distinct-NotAt xs e ys d.1)

pub next_at-cong :
    (i : ℕ) (xs ys zs : List Entry)
    → next_at i ys ≡ next_at i zs
    → next_at i (xs ++ ys) ≡ next_at i (xs ++ zs)
next_at-cong i [] ys zs e = e
next_at-cong i (x ∷ xs) ys zs e = rw (next_at-cong i xs ys zs e)

-- One node of a list is given anew.
pub All-replace :
    (P : Entry → Type 0) (xs : List Entry) (x x' : Entry) (ys : List Entry)
    → (P x → P x')
    → All P (xs ++ x ∷ ys)
    → All P (xs ++ x' ∷ ys)
All-replace P [] x x' ys f p = (f p.0, p.1)
All-replace P (w ∷ xs) x x' ys f p = (p.0, All-replace P xs x x' ys f p.1)

pub Distinct-replace :
    (xs : List Entry) (x x' : Entry) (ys : List Entry)
    → x'.addr ≡ x.addr
    → Distinct (xs ++ x ∷ ys)
    → Distinct (xs ++ x' ∷ ys)
Distinct-replace [] x x' ys e d = (rw e d.0, d.1)
Distinct-replace (w ∷ xs) x x' ys e d = (
  All-replace (λ f. f.addr ≢ w.addr) xs x x' ys (λ n. rw e n) d.0,
  Distinct-replace xs x x' ys e d.1,
)

pub IsSorted-right : (xs ys : List Entry) → IsSorted (xs ++ ys) → IsSorted ys
IsSorted-right [] ys s = s
IsSorted-right (x ∷ xs) ys s = IsSorted-right xs ys s.1
