-- ===== src/Epoch/Calls/Ordered.antt =====
-- src/sync/epoch.cc: lists of deferred pointers whose epochs do not go down.
use optimistic_locking.Base.{
  ℕ, ◌≤◌, ◌≡◌, refl, sym, ap, inl, inr, true, List, [], ◌∷◌, ◌++◌, leb, if◌then◌else◌, All, take,
  drop, Bool-cases, arith,
}
use optimistic_locking.Epoch.{ToFreePointer, outdated}

abbrev pub AtMost : ℕ → List ToFreePointer → Type 0
AtMost top = All (λ x. x.epoch ≤ top)

abbrev pub IsOrdered : List ToFreePointer → Type 0
IsOrdered [] = Unit
IsOrdered (x ∷ xs) = All (λ y. x.epoch ≤ y.epoch) xs × IsOrdered xs

pub AtMost-le : (top top' : ℕ) (q : List ToFreePointer) → top ≤ top' → AtMost top q → AtMost top' q
AtMost-le top top' [] le a = tt
AtMost-le top top' (x ∷ q) le a = (let h = a.0 in omega arith, AtMost-le top top' q le a.1)

pub AtMost-append_right :
    (top : ℕ) (xs ys : List ToFreePointer) → AtMost top (xs ++ ys) → AtMost top ys
AtMost-append_right top [] ys a = a
AtMost-append_right top (x ∷ xs) ys a = AtMost-append_right top xs ys a.1

pub IsOrdered-append_right : (xs ys : List ToFreePointer) → IsOrdered (xs ++ ys) → IsOrdered ys
IsOrdered-append_right [] ys a = a
IsOrdered-append_right (x ∷ xs) ys a = IsOrdered-append_right xs ys a.1

-- What is new is at the top.
abbrev pub At : ℕ → List ToFreePointer → Type 0
At top = All (λ x. x.epoch ≡ top)

At-from :
    (low top : ℕ) (new : List ToFreePointer) → low ≤ top → At top new → All (λ y. low ≤ y.epoch) new
At-from low top [] le a = tt
At-from low top (x ∷ new) le a = (let h = a.0 in omega arith, At-from low top new le a.1)

new-IsOrdered : (top : ℕ) (new : List ToFreePointer) → At top new → IsOrdered new × AtMost top new
new-IsOrdered top [] a = (tt, tt)
new-IsOrdered top (x ∷ new) a =
    let here = a.0 in
    let (o, m) = new-IsOrdered top new a.1 in
    ((At-from x.epoch top new (omega arith) a.1, o), (omega arith, m))

from_append :
    (low top : ℕ) (kept new : List ToFreePointer)
    → low ≤ top
    → All (λ y. low ≤ y.epoch) kept
    → At top new
    → All (λ y. low ≤ y.epoch) (kept ++ new)
from_append low top [] new le a at = At-from low top new le at
from_append low top (x ∷ kept) new le a at = (a.0, from_append low top kept new le a.1 at)

pub append-IsOrdered :
    (top : ℕ) (kept new : List ToFreePointer)
    → IsOrdered kept
    → AtMost top kept
    → At top new
    → IsOrdered (kept ++ new) × AtMost top (kept ++ new)
append-IsOrdered top [] new o m at = new-IsOrdered top new at
append-IsOrdered top (x ∷ kept) new o m at =
    let (o', m') = append-IsOrdered top kept new o.1 m.1 at in
    ((from_append x.epoch top kept new m.0 o.0 at, o'), (m.0, m'))

-- The entries below an epoch, and the others.
abbrev pub below : ℕ → List ToFreePointer → List ToFreePointer
below least [] = []
below least (x ∷ xs) = let rest = below least xs in if leb least x.epoch then rest else x ∷ rest

abbrev pub not_below : ℕ → List ToFreePointer → List ToFreePointer
not_below least [] = []
not_below least (x ∷ xs) =
    let rest = not_below least xs in if leb least x.epoch then x ∷ rest else rest

none_below :
    (least low : ℕ) (xs : List ToFreePointer)
    → least ≤ low
    → All (λ y. low ≤ y.epoch) xs
    → (below least xs ≡ []) × (not_below least xs ≡ xs)
none_below least low [] le a = (refl, refl)
none_below least low (x ∷ xs) le a =
    let (b, n) = none_below least low xs le a.1 in
    let here = a.0 in
    let test : leb least x.epoch ≡ true = ground arith in rw test (b, ap (λ l. x ∷ l) n)

pub outdated-below :
    (least : ℕ) (xs : List ToFreePointer)
    → IsOrdered xs
    → (take (outdated least xs) xs ≡ below least xs)
      × (drop (outdated least xs) xs ≡ not_below least xs)
unfolding outdated
outdated-below least [] o = (refl, refl)
outdated-below least (x ∷ xs) o = elim (Bool-cases (leb least x.epoch)) [
  | inl current ↦
      let le : least ≤ x.epoch = ground arith in
      let (b, n) = none_below least x.epoch xs le o.0 in rw current (sym b, ap (λ l. x ∷ l) (sym n))
  | inr old ↦ let (t, d) = outdated-below least xs o.1 in rw old (ap (λ l. x ∷ l) t, d)
]
