-- ===== src/SortedList/Search.antt =====
-- The loops of src/list/list.cc on a sorted list.
use optimistic_locking.Base.{
  ℕ, zero, suc, ◌<◌, ◌≡◌, ◌≢◌, refl, ◌∙◌, inl, inr, true, false, none, some, List, ◌∷◌, ltb, ◌==◌,
  length, Bool-cases, arith,
}
use optimistic_locking.Machine.{ok, aborted}
use optimistic_locking.SortedList.{
  null, Heap, load_node, look_up_loop, look_up, insert, delete_loop,
}
use optimistic_locking.SortedList.Chain.{
  Chain, stop, node, load_node_lem, IsSorted, find_equal, find_equal-none,
}

pub not_null : (p : ℕ) → p ≢ null → (p == null) ≡ false
not_null p h = ground arith

module _ {T : Type 0} (key : T → ℕ) (h : Heap T) (value : T) where
  look_up_loop-find_equal :
      (rounds : ℕ) {p : ℕ} {xs : List (ℕ × T)}
      → Chain h p xs
      → IsSorted key xs
      → length xs < rounds
      → look_up_loop key rounds value p h ≡ ok (find_equal key value xs) h
  unfolding look_up_loop
  look_up_loop-find_equal zero c sorted enough = absurd (omega arith)
  look_up_loop-find_equal (suc rounds) stop sorted enough = refl
  look_up_loop-find_equal (suc rounds) (node {p} {next} {v} {xs} ne e c) sorted enough =
      rw (not_null p ne, load_node_lem h p next v ne e)
        (elim (Bool-cases (ltb (key value) (key v))) [
          | inl past ↦
              let other : (key v == key value) ≡ false = ground arith in
              rw (past, other, find_equal-none key value v xs (ground arith) sorted.0)
          | inr before ↦ rw before (elim (Bool-cases (key v == key value)) [
            | inl hit ↦ rw hit
            | inr miss ↦ rw miss (look_up_loop-find_equal rounds c sorted.1 (omega arith))
          ])
        ])

  -- On a sorted list of which every node is on the heap, with more rounds than nodes, `LookUp` ends,
  -- finds the value equal to the one given if the list holds one anywhere, and none else, and
  -- changes nothing.
  pub look_up-find_equal :
      {xs : List (ℕ × T)} (rounds : ℕ)
      → Chain h h.root xs
      → IsSorted key xs
      → length xs < rounds
      → look_up key rounds value h ≡ ok (find_equal key value xs) h
  unfolding look_up
  look_up-find_equal rounds c sorted enough = look_up_loop-find_equal rounds c sorted enough

  pub delete_loop_absent :
      (rounds prev : ℕ) {p : ℕ} {xs : List (ℕ × T)}
      → Chain h p xs
      → find_equal key value xs ≡ none
      → length xs < rounds
      → delete_loop key rounds value prev p h ≡ ok none h
  unfolding delete_loop
  delete_loop_absent zero prev c absent enough = absurd (omega arith)
  delete_loop_absent (suc rounds) prev stop absent enough = refl
  delete_loop_absent (suc rounds) prev (node {p} {next} {v} {xs} ne e c) absent enough =
      rw (not_null p ne, load_node_lem h p next v ne e)
        (elim (Bool-cases (ltb (key value) (key v))) [
          | inl past ↦ rw past
          | inr before ↦
              let miss : (key v == key value) ≡ false = ground arith in
              rw (before, miss) (delete_loop_absent rounds p c (ground arith) (omega arith))
        ])

  first_node :
      {q p : ℕ} {v : T} {xs ys : List (ℕ × T)}
      → Chain h q ys
      → ys ≡ (p, v) ∷ xs
      → (next : ℕ) × (q ≢ null) × (h.nodes q ≡ some (record { value = v; next = next }))
  first_node stop e = cc
  first_node (node {next} ne held c) e = (next, ne, held ∙ ground arith)

  -- `Insert` of a value equal to that of the first node, with a round or more for its loop, does not
  -- return: it follows the null pointer `prev`.
  pub insert_first_again :
      (rounds fresh p : ℕ) (v : T) (xs : List (ℕ × T))
      → Chain h h.root ((p, v) ∷ xs)
      → key v ≡ key value
      → insert key (suc rounds) fresh value h ≡ aborted
  unfolding insert load_node
  insert_first_again rounds fresh p v xs c same =
      let (next, ne, held) = first_node c refl in
      let below : ltb (key value) (key v) ≡ false = ground arith in
      let hit : (key v == key value) ≡ true = ground arith in
      rw (not_null h.root ne, held, below, not_null h.root ne, held, below, hit) refl
