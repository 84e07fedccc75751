-- ===== src/Skiplist/Splice.antt =====
-- A node put between the nodes below and above its key, or taken from there: order, addresses and
-- contents.
use linux_kernel_code_projec.Base.{
  ◌<◌, ◌≡◌, ◌≢◌, refl, sym, List, [], ◌∷◌, ◌++◌, arith, true, false,
}
use linux_kernel_code_projec.PidMap.{insert, erase}
use linux_kernel_code_projec.Skiplist.Chain.{Entry, linked, All, Below, NotAt, Distinct, IsSorted}
use linux_kernel_code_projec.Skiplist.View.{contents}

pub All-splice :
    (P : Entry → Type 0) (xs : List Entry) (x : Entry) (ys : List Entry)
    → P x
    → All P (xs ++ ys)
    → All P (xs ++ x ∷ ys)
All-splice P [] x ys p a = (p, a)
All-splice P (w ∷ xs) x ys p a = (a.0, All-splice P xs x ys p a.1)

pub All-drop :
    (P : Entry → Type 0) (xs : List Entry) (x : Entry) (ys : List Entry)
    → All P (xs ++ x ∷ ys)
    → All P (xs ++ ys)
All-drop P [] x ys a = a.1
All-drop P (w ∷ xs) x ys a = (a.0, All-drop P xs x ys a.1)

pub Distinct-splice :
    (xs : List Entry) (x : Entry) (ys : List Entry)
    → Distinct (xs ++ ys)
    → NotAt x.addr (xs ++ ys)
    → Distinct (xs ++ x ∷ ys)
Distinct-splice [] x ys d n = (n, d)
Distinct-splice (w ∷ xs) x ys d n = (
  All-splice (λ f. f.addr ≢ w.addr) xs x ys (λ e. n.0 (sym e)) d.0,
  Distinct-splice xs x ys d.1 n.1,
)

pub Distinct-drop :
    (xs : List Entry) (x : Entry) (ys : List Entry) → Distinct (xs ++ x ∷ ys) → Distinct (xs ++ ys)
Distinct-drop [] x ys d = d.1
Distinct-drop (w ∷ xs) x ys d =
    (All-drop (λ f. f.addr ≢ w.addr) xs x ys d.0, Distinct-drop xs x ys d.1)

module _ (x : Entry) where
  pub IsSorted-splice :
      (lows highs : List Entry)
      → IsSorted (lows ++ highs)
      → Below x.key lows
      → All (λ e. x.key < e.key) highs
      → IsSorted (lows ++ x ∷ highs)
  IsSorted-splice [] highs s b a = (a, s)
  IsSorted-splice (e ∷ lows) highs s b a =
      (All-splice (λ f. e.key < f.key) lows x highs b.0 s.0, IsSorted-splice lows highs s.1 b.1 a)

  contents-Above :
      (highs : List Entry)
      → All (λ e. x.key < e.key) highs
      → (x.key, x.pid) ∷ contents highs ≡ insert x.key x.pid (contents highs)
  unfolding contents insert
  contents-Above [] a = refl
  contents-Above (e ∷ highs) a = ground (arith, contents-Above highs)

  pub contents-splice :
      (lows highs : List Entry)
      → linked x 0 ≡ true
      → Below x.key lows
      → All (λ e. x.key < e.key) highs
      → contents (lows ++ x ∷ highs) ≡ insert x.key x.pid (contents (lows ++ highs))
  unfolding contents insert
  contents-splice [] highs l b a = rw l (contents-Above highs a)
  contents-splice (e ∷ lows) highs l b a = ground (arith, contents-splice lows highs)

  -- a node that the lowest level does not reach does not count
  pub contents-unlinked :
      (lows highs : List Entry)
      → linked x 0 ≡ false
      → contents (lows ++ x ∷ highs) ≡ contents (lows ++ highs)
  unfolding contents
  contents-unlinked [] highs l = rw l
  contents-unlinked (e ∷ lows) highs l = rw (contents-unlinked lows highs l)

  pub contents-erase :
      (lows highs : List Entry)
      → linked x 0 ≡ true
      → Below x.key lows
      → contents (lows ++ highs) ≡ erase x.key (contents (lows ++ x ∷ highs))
  unfolding contents erase
  contents-erase [] highs l b = ground arith
  contents-erase (e ∷ lows) highs l b = ground (arith, contents-erase lows highs)

  pub contents-replace :
      (x' : Entry) (lows highs : List Entry)
      → linked x 0 ≡ true
      → linked x' 0 ≡ true
      → x'.key ≡ x.key
      → Below x.key lows
      → contents (lows ++ x' ∷ highs) ≡ insert x.key x'.pid (contents (lows ++ x ∷ highs))
  unfolding contents insert
  contents-replace x' [] highs l l' k b = ground arith
  contents-replace x' (e ∷ lows) highs l l' k b = ground (arith, contents-replace x' lows highs)
