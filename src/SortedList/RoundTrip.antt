-- ===== src/SortedList/RoundTrip.antt =====
-- A value that goes into a list and out of it again, over the interface of the lists.
pub mod Mutex
pub mod Optimistic
use optimistic_locking.Base.{
  ℕ, suc, ◌+◌, ◌≤◌, ◌<◌, ◌≡◌, ◌≢◌, refl, sym, ap, ◌∙◌, inl, inr, Bool, true, Option, none, some,
  List, [], ◌∷◌, ltb, ◌==◌, length, Bool-cases, arith,
}
use optimistic_locking.Machine.{M, ok, pure, ◌>>=◌, ◌>>◌}
use optimistic_locking.SortedList.{null, Heap, insert, look_up, delete}
use optimistic_locking.SortedList.Chain.{Chain, IsSorted, find_equal}
use optimistic_locking.SortedList.Remove.{Avoids, IsDistinct, erase_equal, equal_address}
use optimistic_locking.SortedList.Search.{look_up-find_equal}
use optimistic_locking.SortedList.Place.{insert_sorted}
use optimistic_locking.SortedList.Sorted.{insert_sorted-Avoids}
use optimistic_locking.SortedList.Insert.{IsFirst, insert-insert_sorted}
use optimistic_locking.SortedList.Delete.{delete-erase_equal}
use optimistic_locking.SortedList.Mutex.{
  MutexSortedList, free_mutex, with_unique_lock, with_shared_lock, mutex_insert, mutex_look_up,
  mutex_delete,
}
use optimistic_locking.SortedList.Interface.{SortedList, mutex_list}

-- `Insert`, `LookUp`, `Delete` and `LookUp` of one value, by one thread.
pub in_and_out : {W T A : Type 0} → SortedList W T A → ℕ → T → M W (A × Bool × A)
in_and_out l fresh value = do
  l.insert fresh value
  found ← l.look_up value
  gone ← l.delete value
  left ← l.look_up value
  pure (found, gone, left)

module _ {T : Type 0} (key : T → ℕ) (fresh : ℕ) (value : T) where
  pub find_equal-insert_sorted :
      (xs : List (ℕ × T))
      → find_equal key value xs ≡ none
      → find_equal key value (insert_sorted key fresh value xs) ≡ some value
  find_equal-insert_sorted [] absent = ground arith
  find_equal-insert_sorted ((p, v) ∷ xs) absent = elim (Bool-cases (key v == key value)) [
    | inl hit ↦ absurd (ground arith)
    | inr miss ↦ elim (Bool-cases (ltb (key value) (key v))) [
      | inl past ↦ rw past (ground arith)
      | inr before ↦ rw (before, miss, miss) (find_equal-insert_sorted xs (rw miss at absent))
    ]
  ]

  pub erase_equal-insert_sorted :
      (h : Heap T) (xs : List (ℕ × T))
      → find_equal key value xs ≡ none
      → erase_equal key h value (insert_sorted key fresh value xs) ≡ xs
  erase_equal-insert_sorted h [] absent = ground arith
  erase_equal-insert_sorted h ((p, v) ∷ xs) absent = elim (Bool-cases (key v == key value)) [
    | inl hit ↦ absurd (ground arith)
    | inr miss ↦ elim (Bool-cases (ltb (key value) (key v))) [
      | inl past ↦ rw past (ground arith)
      | inr before ↦
          rw (before, miss, miss)
            (ap (λ ys. (p, v) ∷ ys) (erase_equal-insert_sorted h xs (rw miss at absent)))
    ]
  ]

  pub equal_address-insert_sorted :
      (h : Heap T) (xs : List (ℕ × T))
      → find_equal key value xs ≡ none
      → equal_address key h value (insert_sorted key fresh value xs) ≡ fresh
  equal_address-insert_sorted h [] absent = ground arith
  equal_address-insert_sorted h ((p, v) ∷ xs) absent = elim (Bool-cases (key v == key value)) [
    | inl hit ↦ absurd (ground arith)
    | inr miss ↦ elim (Bool-cases (ltb (key value) (key v))) [
      | inl past ↦ rw past (ground arith)
      | inr before ↦ rw (before, miss, miss) (equal_address-insert_sorted h xs (rw miss at absent))
    ]
  ]

  pub length-insert_sorted :
      (xs : List (ℕ × T)) → length (insert_sorted key fresh value xs) ≤ suc (length xs)
  length-insert_sorted [] = omega arith
  length-insert_sorted ((p, v) ∷ xs) = elim (Bool-cases (ltb (key value) (key v))) [
    | inl past ↦ rw past (omega arith)
    | inr before ↦ elim (Bool-cases (key v == key value)) [
      | inl hit ↦ rw (before, hit) (omega arith)
      | inr miss ↦ let more = length-insert_sorted xs in rw (before, miss) (omega arith)
    ]
  ]

  pub find_equal-IsFirst :
      (xs : List (ℕ × T)) → find_equal key value xs ≡ none → ¬ IsFirst key fresh value xs
  find_equal-IsFirst [] absent first = first
  find_equal-IsFirst ((p, v) ∷ xs) absent first = ground arith
