-- ===== src/SortedList/Delete.antt =====
-- src/list/list.cc: `MutexSortedList::Delete` of a value that the list holds.
use optimistic_locking.Base.{
  ℕ, ◌<◌, ◌≡◌, ◌≢◌, refl, sym, inl, inr, true, none, List, [], ◌∷◌, ◌==◌, length, update,
  Bool-cases, arith,
}
use optimistic_locking.Machine.{ok}
use optimistic_locking.SortedList.{null, Heap, free_node, delete}
use optimistic_locking.SortedList.Chain.{Chain, stop, node, Chain-frame, IsSorted, find_equal}
use optimistic_locking.SortedList.Search.{not_null}
use optimistic_locking.SortedList.Remove.{
  Avoids, IsDistinct, erase_equal, equal_address, delete_loop-erase_equal,
}

module _ {T : Type 0} (key : T → ℕ) (h : Heap T) (value : T) where
  erase_equal-Avoids :
      (q : ℕ) (xs : List (ℕ × T)) → Avoids q xs → Avoids q (erase_equal key h value xs)
  erase_equal-Avoids q [] out = tt
  erase_equal-Avoids q ((p, v) ∷ xs) out = elim (Bool-cases (key v == key value)) [
    | inl hit ↦ rw hit out.1
    | inr miss ↦ rw miss (out.0, erase_equal-Avoids q xs out.1)
  ]

  equal_address-ne :
      (q : ℕ) (xs : List (ℕ × T))
      → Avoids q xs
      → find_equal key value xs ≢ none
      → q ≢ equal_address key h value xs
  equal_address-ne q [] out there = absurd (there refl)
  equal_address-ne q ((p, v) ∷ xs) out there = elim (Bool-cases (key v == key value)) [
    | inl hit ↦ rw hit (λ e. out.0 (sym e))
    | inr miss ↦ rw miss (equal_address-ne q xs out.1 (rw miss at there))
  ]

  -- the node that is unlinked is not in what is left
  erase_equal-Avoids_address :
      (xs : List (ℕ × T))
      → IsDistinct xs
      → find_equal key value xs ≢ none
      → Avoids (equal_address key h value xs) (erase_equal key h value xs)
  erase_equal-Avoids_address [] apart there = absurd (there refl)
  erase_equal-Avoids_address ((p, v) ∷ xs) apart there = elim (Bool-cases (key v == key value)) [
    | inl hit ↦ rw hit apart.0
    | inr miss ↦
        let there' = rw miss at there in
        rw miss (equal_address-ne p xs apart.0 there', erase_equal-Avoids_address xs apart.1 there')
  ]

  pub equal_address-ne-null :
      {p : ℕ} {xs : List (ℕ × T)}
      → Chain h p xs
      → find_equal key value xs ≢ none
      → equal_address key h value xs ≢ null
  equal_address-ne-null stop there = absurd (there refl)
  equal_address-ne-null (node {v} {xs} ne e c) there = elim (Bool-cases (key v == key value)) [
    | inl hit ↦ rw hit ne
    | inr miss ↦ rw miss (equal_address-ne-null c (rw miss at there))
  ]

  -- On a sorted list of which every node is on the heap, at addresses of their own, with more rounds
  -- than nodes, `MutexSortedList::Delete` of a value that some node equals returns true. Then the
  -- list is the old one less its first such node, from the root on; that node is freed, and no other
  -- address outside the old list has changed.
  pub delete-erase_equal :
      (rounds : ℕ) {xs : List (ℕ × T)}
      → Chain h h.root xs
      → IsDistinct xs
      → IsSorted key xs
      → length xs < rounds
      → find_equal key value xs ≢ none
      → (left : Heap T) × (delete key rounds value h ≡ ok true left)
        × Chain left left.root (erase_equal key h value xs)
        × (left.nodes (equal_address key h value xs) ≡ none)
        × ((q : ℕ) → Avoids q xs → left.nodes q ≡ h.nodes q)
  unfolding delete free_node
  delete-erase_equal rounds {xs} c apart sorted enough there =
      let (g, run, chain, same) =
        delete_loop-erase_equal key h value rounds c apart sorted enough there in
      let a = equal_address key h value xs in
      (
        record g { nodes = update g.nodes a none },
        rw (run, not_null a (equal_address-ne-null c there)) refl,
        Chain-frame _ a chain (erase_equal-Avoids_address xs apart there) (λ q far. ground arith),
        ground arith,
        λ q out. let far = equal_address-ne q xs out there in let old = same q out in ground arith,
      )
