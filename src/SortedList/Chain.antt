-- ===== src/SortedList/Chain.antt =====
-- What a list on the heap holds, and what is asked of the values in it.
use optimistic_locking.Base.{
  ℕ, ◌<◌, ◌≡◌, ◌≢◌, refl, ◌∙◌, false, Option, none, some, List, [], ◌∷◌, All, ◌==◌, if◌then◌else◌,
  arith,
}
use optimistic_locking.Machine.{ok}
use optimistic_locking.SortedList.{null, Heap, load_node}

-- From `p` the pointers lead through the nodes of `xs`, addresses with values, to the null pointer.
pub data Chain {T : Type 0} (h : Heap T) : ℕ → List (ℕ × T) → Type 0 where
  stop : Chain h null []
  node :
      {p next : ℕ} {v : T} {xs : List (ℕ × T)}
      → p ≢ null
      → h.nodes p ≡ some (record { value = v; next = next })
      → Chain h next xs
      → Chain h p ((p, v) ∷ xs)

module _ {T : Type 0} where
  pub load_node_lem :
      (h : Heap T) (p next : ℕ) (v : T)
      → p ≢ null
      → h.nodes p ≡ some (record { value = v; next = next })
      → load_node p h ≡ ok (record { value = v; next = next }) h
  unfolding load_node
  load_node_lem h p next v ne e = let test : (p == null) ≡ false = ground arith in rw (test, e)

module _ {T : Type 0} (key : T → ℕ) where
  abbrev pub IsSorted : List (ℕ × T) → Type 0
  IsSorted [] = Unit
  IsSorted ((_, v) ∷ xs) = All (λ x. key v < key x.1) xs × IsSorted xs

  -- the first value equal to a given one, anywhere in the list
  abbrev pub find_equal : T → List (ℕ × T) → Option T
  find_equal value [] = none
  find_equal value ((_, v) ∷ xs) = if key v == key value then some v else find_equal value xs

  pub find_equal-none :
      (value v : T) (xs : List (ℕ × T))
      → key value < key v
      → All (λ x. key v < key x.1) xs
      → find_equal value xs ≡ none
  find_equal-none value v [] h a = refl
  find_equal-none value v ((_, w) ∷ xs) h a =
      let test : (key w == key value) ≡ false = ground arith in
      rw test (find_equal-none value v xs h a.1)

-- A chain stays under a change of the heap at an address that it does not go through.
pub Chain-frame :
    {T : Type 0} {h : Heap T} (g : Heap T) (a : ℕ) {p : ℕ} {xs : List (ℕ × T)}
    → Chain h p xs
    → All (λ x. x.0 ≢ a) xs
    → ((q : ℕ) → q ≢ a → g.nodes q ≡ h.nodes q)
    → Chain g p xs
Chain-frame g a stop out same = stop
Chain-frame g a (node {p} ne e c) out same =
    node ne (same p out.0 ∙ e) (Chain-frame g a c out.1 same)
