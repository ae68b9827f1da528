-- ===== src/SortedList/Place.antt =====
-- src/list/list.cc: the loop of `Insert` on a sorted list.
use optimistic_locking.Base.{
  ℕ, zero, suc, ◌<◌, ◌≡◌, ◌≢◌, refl, sym, ◌∙◌, inl, inr, true, false, some, List, [], ◌∷◌, ltb,
  ◌==◌, if◌then◌else◌, length, update, Bool-cases, arith,
}
use optimistic_locking.Machine.{ok, and_then}
use optimistic_locking.SortedList.{null, Heap, store_node, new_node, insert_loop, place}
use optimistic_locking.SortedList.Chain.{Chain, stop, node, load_node_lem, Chain-frame}
use optimistic_locking.SortedList.Search.{not_null}
use optimistic_locking.SortedList.Remove.{Avoids, IsDistinct}

module _ {T : Type 0} (key : T → ℕ) (fresh : ℕ) (value : T) where
  -- Where `Insert` puts a value: before the first larger one, or in place of the first equal one.
  abbrev pub insert_sorted : List (ℕ × T) → List (ℕ × T)
  insert_sorted [] = (fresh, value) ∷ []
  insert_sorted ((p, v) ∷ xs) =
      if ltb (key value) (key v)
      then (fresh, value) ∷ (p, v) ∷ xs
      else if key v == key value
      then (p, value) ∷ xs
      else (p, v) ∷ insert_sorted xs

  module _ (h : Heap T) (new : fresh ≢ null) where
    -- The heap after a new node has been linked between `prev` and `p`.
    abbrev linked : ℕ → T → ℕ → Heap T
    linked prev pv p = record h {
      nodes =
          update (update h.nodes fresh (some (record { value = value; next = p }))) prev
            (some (record { value = pv; next = fresh }));
    }

    place_new :
        (prev p : ℕ) (pv : T)
        → prev ≢ null
        → h.nodes prev ≡ some (record { value = pv; next = p })
        → place key fresh value (false, prev) h ≡ ok tt (linked prev pv p)
    unfolding place new_node store_node
    place_new prev p pv ne e = rw (load_node_lem h prev p pv ne e) refl

    place_found :
        (prev p next : ℕ) (pv v : T)
        → prev ≢ null
        → h.nodes prev ≡ some (record { value = pv; next = p })
        → p ≢ null
        → h.nodes p ≡ some (record { value = v; next = next })
        → place key fresh value (true, prev) h
          ≡ ok tt
              (record h { nodes = update h.nodes p (some (record { value = value; next = next })) })
    unfolding place store_node
    place_found prev p next pv v ne e ne' e' =
        rw (load_node_lem h prev p pv ne e, not_null p ne', load_node_lem h p next v ne' e') refl

    -- What the loop and the end of `Insert` do behind a node `prev` with the value `pv`.
    pub record Placed (rounds prev p : ℕ) (pv : T) (xs : List (ℕ × T)) : Type 0 where
      pub left : Heap T
      pub run :
          and_then (insert_loop key rounds value prev p h) (place key fresh value) ≡ ok tt left
      pub root_same : left.root ≡ h.root
      pub chain : Chain left prev ((prev, pv) ∷ insert_sorted xs)
      pub same : (q : ℕ) → q ≢ prev → q ≢ fresh → Avoids q xs → left.nodes q ≡ h.nodes q

    linked-Chain :
        (prev p : ℕ) (pv : T) {xs : List (ℕ × T)}
        → prev ≢ null
        → prev ≢ fresh
        → Avoids prev xs
        → Avoids fresh xs
        → Chain h p xs
        → Chain (linked prev pv p) prev ((prev, pv) ∷ (fresh, value) ∷ xs)
    linked-Chain prev p pv ne apart out out' c =
        let first : Heap T = record h {
          nodes = update h.nodes fresh (some (record { value = value; next = p }));
        } in
        let c' = Chain-frame first fresh c out' (λ q far. ground arith) in
        node ne (ground arith)
          (node new (ground arith) (Chain-frame _ prev c' out (λ q far. ground arith)))

    linked_same :
        (prev p : ℕ) (pv : T) (q : ℕ)
        → q ≢ prev
        → q ≢ fresh
        → (linked prev pv p).nodes q ≡ h.nodes q
    linked_same prev p pv q far far' = ground arith

    pub insert_loop-Placed :
        (rounds : ℕ) {prev p : ℕ} {pv : T} {xs : List (ℕ × T)}
        → prev ≢ null
        → prev ≢ fresh
        → h.nodes prev ≡ some (record { value = pv; next = p })
        → Avoids prev xs
        → Avoids fresh xs
        → Chain h p xs
        → IsDistinct xs
        → length xs < rounds
        → Placed rounds prev p pv xs
    unfolding insert_loop
    insert_loop-Placed zero ne apart e out out' c distinct enough = absurd (omega arith)
    insert_loop-Placed (suc rounds) {prev} {p} {pv} ne apart e out out' stop distinct enough =
        record {
          left = linked prev pv null;
          run = place_new prev null pv ne e;
          root_same = refl;
          chain = linked-Chain prev null pv ne apart out out' stop;
          same = λ q far far' _. linked_same prev null pv q far far';
        }
    insert_loop-Placed (suc rounds) {prev} {pv} ne apart e out out'
          (node {p} {next} {v} {xs} ne' e' c) distinct enough =
        elim (Bool-cases (ltb (key value) (key v))) [
          | inl past ↦ record {
            left = linked prev pv p;
            run =
                rw (not_null p ne', load_node_lem h p next v ne' e', past)
                  (place_new prev p pv ne e);
            root_same = refl;
            chain = rw past (linked-Chain prev p pv ne apart out out' (node ne' e' c));
            same = λ q far far' _. linked_same prev p pv q far far';
          }
          | inr before ↦ elim (Bool-cases (key v == key value)) [
            | inl hit ↦ record {
              left = record h {
                nodes = update h.nodes p (some (record { value = value; next = next }));
              };
              run =
                  rw (not_null p ne', load_node_lem h p next v ne' e', before, hit)
                    (place_found prev p next pv v ne e ne' e');
              root_same = refl;
              chain =
                  rw (before, hit)
                    (node ne (ground arith) (
                      node ne' (ground arith)
                        (Chain-frame _ p c distinct.0 (λ q far. ground arith))));
              same = λ q far far' away. ground arith;
            }
            | inr miss ↦
                let rest =
                  insert_loop-Placed rounds ne' out'.0 e' distinct.0 out'.1 c distinct.1
                    (omega arith) in
                record {
                  left = rest.left;
                  run = rw (not_null p ne', load_node_lem h p next v ne' e', before, miss) rest.run;
                  root_same = rest.root_same;
                  chain =
                      rw (before, miss)
                        (node ne (rest.same prev (λ q. out.0 (sym q)) apart out.1 ∙ e) rest.chain);
                  same = λ q _ far' far. rest.same q (λ r. far.0 (sym r)) far' far.1;
                }
          ]
        ]
