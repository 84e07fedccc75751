-- ===== src/PidMap.antt =====
-- What a PID table promises: a map from numbers to pids, kept in the order of the numbers. A number
-- may be reserved, with the pid NULL.
pub mod Until
use linux_kernel_code_projec.Base.{
  ℕ, ◌<◌, ◌≤◌, ◌≡◌, refl, Option, none, some, List, [], ◌∷◌, arith, true, is_some, ltb, ◌==◌,
  if◌then◌else◌,
}
use linux_kernel_code_projec.Store.{PidRef}

abbrev pub PidMap : Type 0
PidMap = List (ℕ × Option PidRef)

-- `none` where the number is free, `some none` where it is reserved
unfoldable pub find : ℕ → PidMap → Option (Option PidRef)
find k [] = none
find k ((j, p) ∷ m) = if j == k then some p else find k m

-- what a reader sees: a reserved number is like a free one
abbrev pub visible : Option (Option PidRef) → Option PidRef
visible none = none
visible (some p) = p

unfoldable pub insert : ℕ → Option PidRef → PidMap → PidMap
insert k p [] = (k, p) ∷ []
insert k p ((j, q) ∷ m) =
    if ltb j k then (j, q) ∷ insert k p m else if j == k then (k, p) ∷ m else (k, p) ∷ (j, q) ∷ m

unfoldable pub erase : ℕ → PidMap → PidMap
erase k [] = []
erase k ((j, q) ∷ m) = if j == k then m else (j, q) ∷ erase k m

-- the part of the map from a number on
unfoldable pub from : ℕ → PidMap → PidMap
from k [] = []
from k ((j, q) ∷ m) = if ltb j k then from k m else (j, q) ∷ m

abbrev pub KeysAbove : ℕ → PidMap → Type 0
KeysAbove k [] = Unit {0}
KeysAbove k ((j, _) ∷ m) = (k < j) × KeysAbove k m

abbrev pub IsOrdered : PidMap → Type 0
IsOrdered [] = Unit {0}
IsOrdered ((j, _) ∷ m) = KeysAbove j m × IsOrdered m

pub KeysAbove-mono : (j k : ℕ) (m : PidMap) → j ≤ k → KeysAbove k m → KeysAbove j m
KeysAbove-mono j k [] le a = tt
KeysAbove-mono j k (e ∷ m) le a = (omega arith, KeysAbove-mono j k m le a.1)

pub find-KeysAbove : (j k : ℕ) (m : PidMap) → j ≤ k → KeysAbove k m → find j m ≡ none
unfolding find
find-KeysAbove j k [] le a = refl
find-KeysAbove j k (e ∷ m) le a = ground (arith, find-KeysAbove j k m)

-- Insertion and removal, seen by a lookup.
pub find-insert :
    (j k : ℕ) (p : Option PidRef) (m : PidMap)
    → find j (insert k p m) ≡ (if k == j then some p else find j m)
unfolding find insert
find-insert j k p [] = refl
find-insert j k p ((i, q) ∷ m) = ground (arith, find-insert j k p m)

-- An insertion loses no number.
pub found-insert :
    (j k : ℕ) (p : Option PidRef) (m : PidMap)
    → is_some (find j m) ≡ true
    → is_some (find j (insert k p m)) ≡ true
unfolding find insert
found-insert j k p [] e = cc
found-insert j k p ((i, q) ∷ m) e = ground (arith, found-insert j k p m)

pub found-inserted :
    (k : ℕ) (p : Option PidRef) (m : PidMap) → is_some (find k (insert k p m)) ≡ true
unfolding find insert
found-inserted k p [] = ground arith
found-inserted k p ((i, q) ∷ m) = ground (arith, found-inserted k p m)

pub find-erase :
    (j k : ℕ) (m : PidMap) → IsOrdered m → find j (erase k m) ≡ (if k == j then none else find j m)
unfolding find erase
find-erase j k [] o = ground arith
find-erase j k ((i, q) ∷ m) o = ground (arith, find-erase j k m, find-KeysAbove k i m)

KeysAbove-insert :
    (i k : ℕ) (p : Option PidRef) (m : PidMap) → i < k → KeysAbove i m → KeysAbove i (insert k p m)
unfolding insert
KeysAbove-insert i k p [] lt a = (lt, tt)
KeysAbove-insert i k p ((j, q) ∷ m) lt a = ground (arith, KeysAbove-insert i k p m)

pub insert-IsOrdered :
    (k : ℕ) (p : Option PidRef) (m : PidMap) → IsOrdered m → IsOrdered (insert k p m)
unfolding insert
insert-IsOrdered k p [] o = (tt, tt)
insert-IsOrdered k p ((j, q) ∷ m) o =
    ground (arith, insert-IsOrdered k p m, KeysAbove-insert j k p m, KeysAbove-mono k j m)

KeysAbove-erase : (i k : ℕ) (m : PidMap) → KeysAbove i m → KeysAbove i (erase k m)
unfolding erase
KeysAbove-erase i k [] a = tt
KeysAbove-erase i k ((j, q) ∷ m) a = ground (arith, KeysAbove-erase i k m)

pub erase-IsOrdered : (k : ℕ) (m : PidMap) → IsOrdered m → IsOrdered (erase k m)
unfolding erase
erase-IsOrdered k [] o = tt
erase-IsOrdered k ((j, q) ∷ m) o = ground (arith, erase-IsOrdered k m, KeysAbove-erase j k m)

-- the pid at the first number, NULL where it is reserved or the map is empty
unfoldable pub first_pid : PidMap → Option PidRef
first_pid [] = none
first_pid ((j, p) ∷ m) = p

-- the pids up to the first number that is reserved
unfoldable pub until_reserved : PidMap → List PidRef
until_reserved [] = []
until_reserved ((j, none) ∷ m) = []
until_reserved ((j, some p) ∷ m) = p ∷ until_reserved m

pub erase-absent : (k : ℕ) (m : PidMap) → find k m ≡ none → m ≡ erase k m
unfolding find erase
erase-absent k [] e = refl
erase-absent k ((j, q) ∷ m) e = ground (arith, erase-absent k m)
