-- ===== src/Skiplist/View.antt =====
-- The map that a skip list holds, and the split of its nodes at a key.
use linux_kernel_code_projec.Base.{
  ℕ, ◌≤◌, ◌<◌, ◌≡◌, refl, inl, inr, true, none, some, List, [], ◌∷◌, ◌++◌, arith, ltb,
  if◌then◌else◌, Bool-cases, length, ltb→le,
}
use linux_kernel_code_projec.Store.{Addr, Heap, int_min}
use linux_kernel_code_projec.PidMap.{PidMap, find, KeysAbove, IsOrdered, from}
use linux_kernel_code_projec.Skiplist.{Skiplist, max_level}
use linux_kernel_code_projec.Skiplist.Chain.{
  Entry, linked, AllStored, All, Below, Above, Bottomed, IsSorted, Distinct, All-mono,
}

abbrev pub header_entry : Addr → Entry
header_entry a = record {
  addr = a;
  key = int_min;
  pid = none;
  slots = max_level;
  lo = 0;
  hi = max_level;
}

-- The map that readers see: the nodes that the lowest level reaches.
unfoldable pub contents : List Entry → PidMap
contents [] = []
contents (e ∷ r) = if linked e 0 then (e.key, e.pid) ∷ contents r else contents r

-- A list that can be read, also between two writes of the writer.
pub record Readable (h : Heap) (sl : Skiplist) (hdr : Addr) (xs : List Entry) : Type 0 where
  pub header : sl.header ≡ some hdr
  pub stored : AllStored h (header_entry hdr ∷ xs)
  pub sorted : IsSorted xs
  pub level_pos : 0 < sl.level
  pub level_max : sl.level ≤ max_level

-- A node that is linked on all its levels.
abbrev pub Whole : ℕ → Entry → Type 0
Whole level e = (e.lo ≡ 0) × (0 < e.hi) × (e.hi ≤ level) × (e.slots ≡ e.hi)

-- A list that no writer is changing.
pub record IsList (h : Heap) (sl : Skiplist) (hdr : Addr) (xs : List Entry) : Type 0 where
  pub readable : Readable h sl hdr xs
  pub distinct : Distinct (header_entry hdr ∷ xs)
  pub whole : All (Whole sl.level) xs

unfoldable pub lows : ℕ → List Entry → List Entry
lows k [] = []
lows k (e ∷ r) = if ltb e.key k then e ∷ lows k r else []

unfoldable pub highs : ℕ → List Entry → List Entry
highs k [] = []
highs k (e ∷ r) = if ltb e.key k then highs k r else e ∷ r

pub lows-append-highs : (k : ℕ) (xs : List Entry) → lows k xs ++ highs k xs ≡ xs
unfolding lows highs
lows-append-highs k [] = refl
lows-append-highs k (e ∷ r) = ground (arith, lows-append-highs k r)

pub lows-Below : (k : ℕ) (xs : List Entry) → Below k (lows k xs)
unfolding lows
lows-Below k [] = tt
lows-Below k (e ∷ r) = ground (arith, lows-Below k r)

pub highs-Above : (k : ℕ) (xs : List Entry) → IsSorted xs → Above k (highs k xs)
unfolding highs
highs-Above k [] s = tt
highs-Above k (e ∷ r) s = elim (Bool-cases (ltb e.key k)) [
  | inl y ↦ rw y (highs-Above k r s.1)
  | inr n ↦
      let le = ltb→le e.key k n in
      rw n (le, All-mono (λ f. e.key < f.key) (λ f. k ≤ f.key) r (λ f lt. omega arith) s.0)
]

pub IsSorted-highs : (k : ℕ) (xs : List Entry) → IsSorted xs → IsSorted (highs k xs)
unfolding highs
IsSorted-highs k [] s = tt
IsSorted-highs k (e ∷ r) s = ground (arith, IsSorted-highs k r)

pub length-lows : (k : ℕ) (xs : List Entry) → length (lows k xs) ≤ length xs
unfolding lows
length-lows k [] = omega arith
length-lows k (e ∷ r) = ground (arith, length-lows k r)

-- A lookup, and a lookup from a key on, concern the nodes from the key on.
pub find-Below :
    (k : ℕ) (xs ys : List Entry) → Below k xs → find k (contents (xs ++ ys)) ≡ find k (contents ys)
unfolding contents find
find-Below k [] ys b = refl
find-Below k (e ∷ r) ys b = ground (arith, find-Below k r ys)

pub from-Below :
    (k : ℕ) (xs ys : List Entry) → Below k xs → from k (contents (xs ++ ys)) ≡ from k (contents ys)
unfolding contents from
from-Below k [] ys b = refl
from-Below k (e ∷ r) ys b = ground (arith, from-Below k r ys)

pub from-Above : (k : ℕ) (ys : List Entry) → Above k ys → from k (contents ys) ≡ contents ys
unfolding contents from
from-Above k [] b = refl
from-Above k (e ∷ r) b = ground (arith, from-Above k r)

pub KeysAbove-contents :
    (k : ℕ) (xs : List Entry) → All (λ e. k < e.key) xs → KeysAbove k (contents xs)
unfolding contents
KeysAbove-contents k [] a = tt
KeysAbove-contents k (e ∷ r) a = ground (arith, KeysAbove-contents k r)

pub contents-IsOrdered : (xs : List Entry) → IsSorted xs → IsOrdered (contents xs)
unfolding contents
contents-IsOrdered [] s = tt
contents-IsOrdered (e ∷ r) s = ground (arith, contents-IsOrdered r, KeysAbove-contents e.key r)

pub length-highs : (k : ℕ) (xs : List Entry) → length (highs k xs) ≤ length xs
unfolding highs
length-highs k [] = omega arith
length-highs k (e ∷ r) = ground (arith, length-highs k r)

-- A list in which every node is linked on all its levels.
pub Whole-linked : (level : ℕ) (e : Entry) → Whole level e → linked e 0 ≡ true
Whole-linked level e w = ground arith

pub Whole-Bottomed : (level : ℕ) (xs : List Entry) → All (Whole level) xs → Bottomed xs
Whole-Bottomed level [] w = tt
Whole-Bottomed level (e ∷ xs) w = (w.0.0, Whole-Bottomed level xs w.1)

pub Whole-raise :
    (level level' : ℕ) (xs : List Entry)
    → level ≤ level'
    → All (Whole level) xs
    → All (Whole level') xs
Whole-raise level level' [] le w = tt
Whole-raise level level' (e ∷ xs) le w = (omega arith, Whole-raise level level' xs le w.1)
