-- ===== src/SortedList/Remove.antt =====
-- src/list/list.cc: the loop of `Delete` where the list holds the value.
use optimistic_locking.Base.{
  ℕ, zero, suc, ◌<◌, ◌≡◌, ◌≢◌, refl, sym, ◌∙◌, inl, inr, false, none, some, List, [], ◌∷◌, All, ltb,
  ◌==◌, if◌then◌else◌, length, update, Bool-cases, arith,
}
use optimistic_locking.Machine.{ok}
use optimistic_locking.SortedList.{null, Heap, store_node, set_root, unlink, delete_loop}
use optimistic_locking.SortedList.Chain.{
  Chain, stop, node, load_node_lem, Chain-frame, IsSorted, find_equal, find_equal-none,
}
use optimistic_locking.SortedList.Search.{not_null}

module _ {T : Type 0} where
  abbrev pub Avoids : ℕ → List (ℕ × T) → Type 0
  Avoids a xs = All (λ x. x.0 ≢ a) xs

  abbrev pub IsDistinct : List (ℕ × T) → Type 0
  IsDistinct [] = Unit
  IsDistinct ((p, _) ∷ xs) = Avoids p xs × IsDistinct xs

  unlink_lem :
      (h : Heap T) (prev next p : ℕ) (pv : T)
      → prev ≢ null
      → h.nodes prev ≡ some (record { value = pv; next = p })
      → unlink prev next h
        ≡ ok tt
            (record h { nodes = update h.nodes prev (some (record { value = pv; next = next })) })
  unfolding unlink store_node
  unlink_lem h prev next p pv ne e = rw (not_null prev ne, load_node_lem h prev p pv ne e)

module _ {T : Type 0} (key : T → ℕ) (h : Heap T) (value : T) where
  abbrev pub erase_equal : List (ℕ × T) → List (ℕ × T)
  erase_equal [] = []
  erase_equal ((p, v) ∷ xs) = if key v == key value then xs else (p, v) ∷ erase_equal xs

  -- the address of that value
  abbrev pub equal_address : List (ℕ × T) → ℕ
  equal_address [] = null
  equal_address ((p, v) ∷ xs) = if key v == key value then p else equal_address xs

  -- What the loop does behind a node `prev` with the value `pv`, before the nodes `xs`.
  pub record Unlinked (rounds prev p : ℕ) (pv : T) (xs : List (ℕ × T)) : Type 0 where
    pub left : Heap T
    pub run : delete_loop key rounds value prev p h ≡ ok (some (equal_address xs)) left
    pub root_same : left.root ≡ h.root
    pub chain : Chain left prev ((prev, pv) ∷ erase_equal xs)
    pub same : (q : ℕ) → q ≢ prev → Avoids q xs → left.nodes q ≡ h.nodes q

  delete_loop-Unlinked :
      (rounds : ℕ) {prev p : ℕ} {pv : T} {xs : List (ℕ × T)}
      → prev ≢ null
      → h.nodes prev ≡ some (record { value = pv; next = p })
      → Avoids prev xs
      → Chain h p xs
      → IsDistinct xs
      → IsSorted key xs
      → length xs < rounds
      → find_equal key value xs ≢ none
      → Unlinked rounds prev p pv xs
  unfolding delete_loop
  delete_loop-Unlinked zero ne e out c apart sorted enough there = absurd (omega arith)
  delete_loop-Unlinked (suc rounds) ne e out stop apart sorted enough there = absurd (there refl)
  delete_loop-Unlinked (suc rounds) {prev} {pv} ne e out (node {p} {next} {v} {xs} ne' e' c) apart
        sorted enough there =
      elim (Bool-cases (ltb (key value) (key v))) [
        | inl past ↦
            let other : (key v == key value) ≡ false = ground arith in
            absurd (there (rw (other, find_equal-none key value v xs (ground arith) sorted.0)))
        | inr before ↦ elim (Bool-cases (key v == key value)) [
          | inl hit ↦ record {
            left = record h {
              nodes = update h.nodes prev (some (record { value = pv; next = next }));
            };
            run = rw (
              not_null p ne',
              load_node_lem h p next v ne' e',
              before,
              hit,
              unlink_lem h prev next p pv ne e,
            );
            root_same = refl;
            chain =
                rw hit
                  (node ne (ground arith) (Chain-frame _ prev c out.1 (λ q far. ground arith)));
            same = λ q far _. ground arith;
          }
          | inr miss ↦
              let rest =
                delete_loop-Unlinked rounds ne' e' apart.0 c apart.1 sorted.1 (omega arith)
                  (rw miss at there) in
              record {
                left = rest.left;
                run = rw (not_null p ne', load_node_lem h p next v ne' e', before, miss) rest.run;
                root_same = rest.root_same;
                chain =
                    rw miss (node ne (rest.same prev (λ q. out.0 (sym q)) out.1 ∙ e) rest.chain);
                same = λ q _ far. rest.same q (λ r. far.0 (sym r)) far.1;
              }
        ]
      ]

  abbrev pub Erased : ℕ → ℕ → List (ℕ × T) → Type 0
  Erased rounds p xs =
      (left : Heap T) × (delete_loop key rounds value null p h ≡ ok (some (equal_address xs)) left)
      × Chain left left.root (erase_equal xs)
      × ((q : ℕ) → Avoids q xs → left.nodes q ≡ h.nodes q)

  delete_loop-Erased :
      (rounds : ℕ) {p : ℕ} {xs : List (ℕ × T)}
      → h.root ≡ p
      → Chain h p xs
      → IsDistinct xs
      → IsSorted key xs
      → length xs < rounds
      → find_equal key value xs ≢ none
      → Erased rounds p xs
  unfolding delete_loop unlink set_root
  delete_loop-Erased zero root c apart sorted enough there = absurd (omega arith)
  delete_loop-Erased (suc rounds) root stop apart sorted enough there = absurd (there refl)
  delete_loop-Erased (suc rounds) root (node {p} {next} {v} {xs} ne e c) apart sorted enough there =
      elim (Bool-cases (ltb (key value) (key v))) [
        | inl past ↦
            let other : (key v == key value) ≡ false = ground arith in
            absurd (there (rw (other, find_equal-none key value v xs (ground arith) sorted.0)))
        | inr before ↦ elim (Bool-cases (key v == key value)) [
          | inl hit ↦ (
            record h { root = next },
            rw (not_null p ne, load_node_lem h p next v ne e, before, hit),
            rw hit (Chain-frame (record h { root = next }) p c apart.0 (λ _ _. refl)),
            λ q far. refl,
          )
          | inr miss ↦
              let rest =
                delete_loop-Unlinked rounds ne e apart.0 c apart.1 sorted.1 (omega arith)
                  (rw miss at there) in
              (
                rest.left,
                rw (not_null p ne, load_node_lem h p next v ne e, before, miss) rest.run,
                rw (rest.root_same, root, miss) rest.chain,
                λ q far. rest.same q (λ r. far.0 (sym r)) far.1,
              )
        ]
      ]

  -- On a sorted list of which every node is on the heap, at addresses of their own, with more rounds
  -- than nodes and a value that some node equals, the loop of `Delete` ends and gives the address of
  -- the first such node. Then the list is the old one less the value of that node, from the root on,
  -- and no address outside the list has changed.
  pub delete_loop-erase_equal :
      (rounds : ℕ) {xs : List (ℕ × T)}
      → Chain h h.root xs
      → IsDistinct xs
      → IsSorted key xs
      → length xs < rounds
      → find_equal key value xs ≢ none
      → Erased rounds h.root xs
  delete_loop-erase_equal rounds c apart sorted enough there =
      delete_loop-Erased rounds refl c apart sorted enough there
