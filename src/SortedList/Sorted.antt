-- ===== src/SortedList/Sorted.antt =====
-- A list with a value inserted is sorted and at addresses of their own again.
use optimistic_locking.Base.{
  ℕ, ◌≤◌, ◌<◌, ◌≢◌, sym, inl, inr, List, [], ◌∷◌, All, ltb, ◌==◌, Bool-cases, arith,
}
use optimistic_locking.SortedList.Chain.{IsSorted}
use optimistic_locking.SortedList.Remove.{Avoids, IsDistinct}
use optimistic_locking.SortedList.Place.{insert_sorted}

module _ {T : Type 0} (key : T → ℕ) (fresh : ℕ) (value : T) where
  insert_sorted-All :
      (w : T) (xs : List (ℕ × T))
      → key w < key value
      → All (λ x. key w < key x.1) xs
      → All (λ x. key w < key x.1) (insert_sorted key fresh value xs)
  insert_sorted-All w [] lt all = (lt, tt)
  insert_sorted-All w ((p, v) ∷ xs) lt all = elim (Bool-cases (ltb (key value) (key v))) [
    | inl past ↦ rw past (lt, all)
    | inr before ↦ elim (Bool-cases (key v == key value)) [
      | inl hit ↦ rw (before, hit) (lt, all.1)
      | inr miss ↦ rw (before, miss) (all.0, insert_sorted-All w xs lt all.1)
    ]
  ]

  All_trans :
      (v w : T) (xs : List (ℕ × T))
      → key v ≤ key w
      → All (λ x. key w < key x.1) xs
      → All (λ x. key v < key x.1) xs
  All_trans v w [] le all = tt
  All_trans v w (x ∷ xs) le all = (omega arith, All_trans v w xs le all.1)

  pub insert_sorted-IsSorted :
      (xs : List (ℕ × T)) → IsSorted key xs → IsSorted key (insert_sorted key fresh value xs)
  insert_sorted-IsSorted [] sorted = (tt, tt)
  insert_sorted-IsSorted ((p, v) ∷ xs) sorted = elim (Bool-cases (ltb (key value) (key v))) [
    | inl past ↦ rw past ((ground arith, All_trans value v xs (ground arith) sorted.0), sorted)
    | inr before ↦ elim (Bool-cases (key v == key value)) [
      | inl hit ↦ rw (before, hit) (All_trans value v xs (ground arith) sorted.0, sorted.1)
      | inr miss ↦
          rw (before, miss)
            (insert_sorted-All v xs (ground arith) sorted.0, insert_sorted-IsSorted xs sorted.1)
    ]
  ]

  pub insert_sorted-Avoids :
      (q : ℕ) (xs : List (ℕ × T))
      → fresh ≢ q
      → Avoids q xs
      → Avoids q (insert_sorted key fresh value xs)
  insert_sorted-Avoids q [] ne out = (ne, tt)
  insert_sorted-Avoids q ((p, v) ∷ xs) ne out = elim (Bool-cases (ltb (key value) (key v))) [
    | inl past ↦ rw past (ne, out)
    | inr before ↦ elim (Bool-cases (key v == key value)) [
      | inl hit ↦ rw (before, hit) out
      | inr miss ↦ rw (before, miss) (out.0, insert_sorted-Avoids q xs ne out.1)
    ]
  ]

  pub insert_sorted-IsDistinct :
      (xs : List (ℕ × T))
      → Avoids fresh xs
      → IsDistinct xs
      → IsDistinct (insert_sorted key fresh value xs)
  insert_sorted-IsDistinct [] out distinct = (tt, tt)
  insert_sorted-IsDistinct ((p, v) ∷ xs) out distinct =
      elim (Bool-cases (ltb (key value) (key v))) [
        | inl past ↦ rw past (out, distinct)
        | inr before ↦ elim (Bool-cases (key v == key value)) [
          | inl hit ↦ rw (before, hit) distinct
          | inr miss ↦
              rw (before, miss)
                (
                  insert_sorted-Avoids p xs (λ e. out.0 (sym e)) distinct.0,
                  insert_sorted-IsDistinct xs out.1 distinct.1,
                )
        ]
      ]
