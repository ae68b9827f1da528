-- ===== src/SortedList/Insert.antt =====
-- src/list/list.cc: `Insert` on a sorted list.
use optimistic_locking.Base.{
  ℕ, zero, suc, ◌<◌, ◌≡◌, ◌≢◌, refl, sym, ap, ◌∙◌, inl, inr, false, some, List, [], ◌∷◌, ltb, ◌==◌,
  length, update, Bool-cases, arith,
}
use optimistic_locking.Machine.{ok, and_then}
use optimistic_locking.SortedList.{
  null, Heap, load_node, store_node, new_node, set_root, insert_loop, place, insert,
}
use optimistic_locking.SortedList.Chain.{Chain, stop, node, Chain-frame, IsSorted}
use optimistic_locking.SortedList.Remove.{Avoids, IsDistinct}
use optimistic_locking.SortedList.Place.{insert_sorted, insert_loop-Placed}
use optimistic_locking.SortedList.Sorted.{insert_sorted-IsSorted, insert_sorted-IsDistinct}

module _ {T : Type 0} (key : T → ℕ) (fresh : ℕ) (value : T) where
  abbrev pub Inserted : ℕ → Heap T → List (ℕ × T) → Type 0
  Inserted rounds h xs =
      (left : Heap T) × (insert key rounds fresh value h ≡ ok tt left)
      × Chain left left.root (insert_sorted key fresh value xs)
      × IsSorted key (insert_sorted key fresh value xs)
      × IsDistinct (insert_sorted key fresh value xs)
      × ((q : ℕ) → q ≢ fresh → Avoids q xs → left.nodes q ≡ h.nodes q)

  -- The value equals the first one.
  abbrev pub IsFirst : List (ℕ × T) → Type 0
  IsFirst [] = ⊥
  IsFirst ((_, v) ∷ _) = key v ≡ key value

  insert_from :
      (rounds : ℕ) (h : Heap T) {p : ℕ} {xs : List (ℕ × T)}
      → h.root ≡ p
      → fresh ≢ null
      → Avoids fresh xs
      → Chain h p xs
      → IsDistinct xs
      → ¬ IsFirst xs
      → length xs < rounds
      → (left : Heap T) × (insert key rounds fresh value h ≡ ok tt left)
        × Chain left left.root (insert_sorted key fresh value xs)
        × ((q : ℕ) → q ≢ fresh → Avoids q xs → left.nodes q ≡ h.nodes q)
  unfolding insert load_node new_node store_node set_root
  insert_from zero h root new out c distinct other enough = absurd (omega arith)
  insert_from (suc rounds) h root new out stop distinct other enough = (
    record {
      root = fresh;
      nodes = update h.nodes fresh (some (record { value = value; next = h.root }));
    },
    rw root refl,
    node new (rw root (ground arith)) stop,
    λ q far _. ground arith,
  )
  insert_from (suc rounds) h root new out (node {p} {next} {v} {xs} ne e c) distinct other enough =
      let there : (h.root == null) ≡ false = ground arith in
      let held : h.nodes h.root ≡ some (record { value = v; next = next }) = ap h.nodes root ∙ e in
      elim (Bool-cases (ltb (key value) (key v))) [
        | inl past ↦ (
          record {
            root = fresh;
            nodes = update h.nodes fresh (some (record { value = value; next = p }));
          },
          rw (there, held, past)
              (ap
                (λ q. ok tt (record {
                  root = fresh;
                  nodes = update h.nodes fresh (some (record { value = value; next = q }));
                }))
                root),
          rw past (
              node new (ground arith)
                (Chain-frame _ fresh (node ne e c) out (λ q far. ground arith))),
          λ q far _. ground arith,
        )
        | inr before ↦
            let miss : (key v == key value) ≡ false = ground arith in
            let rest =
              insert_loop-Placed key fresh value h new rounds ne out.0 e distinct.0 out.1 c
                distinct.1 (omega arith) in
            (
              rest.left,
              rw (there, held, before, there, held, before, miss)
                  (ap
                      (λ q.
                        and_then (insert_loop key rounds value q next h) (place key fresh value))
                      root
                    ∙ rest.run),
              rw (rest.root_same, root, before, miss) rest.chain,
              λ q far away. rest.same q (λ r. away.0 (sym r)) far away.1,
            )
      ]

  -- On a sorted list of which every node is on the heap, at addresses of their own, with more rounds
  -- than nodes, and where `malloc` returns an address that is not null and not in the list: `Insert`
  -- of a value that does not equal the first node's returns. Then the list is the old one with the
  -- value in its place, or in place of the first equal value; it is sorted and at addresses of their
  -- own again, and no address has changed but the new one and those of the old list.
  pub insert-insert_sorted :
      (rounds : ℕ) (h : Heap T) {xs : List (ℕ × T)}
      → fresh ≢ null
      → Avoids fresh xs
      → Chain h h.root xs
      → IsDistinct xs
      → IsSorted key xs
      → ¬ IsFirst xs
      → length xs < rounds
      → Inserted rounds h xs
  insert-insert_sorted rounds h {xs} new out c distinct sorted other enough =
      let (left, run, c', same) = insert_from rounds h refl new out c distinct other enough in
      (
        left,
        run,
        c',
        insert_sorted-IsSorted key fresh value xs sorted,
        insert_sorted-IsDistinct key fresh value xs out distinct,
        same,
      )
