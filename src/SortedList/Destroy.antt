-- ===== src/SortedList/Destroy.antt =====
-- src/list/list.cc: the destructors of the lists.
use optimistic_locking.Base.{
  ℕ, zero, suc, ◌<◌, ◌≡◌, refl, ap, ◌∙◌, none, some, List, All, false, ◌==◌, length, update, arith,
}
use optimistic_locking.Machine.{ok}
use optimistic_locking.SortedList.{null, Heap, load_node, free_node, set_root, destroy_list}
use optimistic_locking.SortedList.Chain.{Chain, stop, node, Chain-frame}
use optimistic_locking.SortedList.Remove.{Avoids, IsDistinct}

module _ {T : Type 0} where
  abbrev pub Freed : ℕ → Heap T → List (ℕ × T) → Type 0
  Freed rounds h xs =
      (left : Heap T) × (destroy_list rounds h ≡ ok tt left)
      × (left.root ≡ null)
      × All (λ x. left.nodes x.0 ≡ none) xs
      × ((q : ℕ) → Avoids q xs → left.nodes q ≡ h.nodes q)

  destroy_from :
      (rounds : ℕ) (h : Heap T) {p : ℕ} {xs : List (ℕ × T)}
      → h.root ≡ p
      → Chain h p xs
      → IsDistinct xs
      → length xs < rounds
      → Freed rounds h xs
  unfolding destroy_list load_node free_node set_root
  destroy_from zero h root c apart enough = absurd (omega arith)
  destroy_from (suc rounds) h root stop apart enough = (h, rw root refl, root, tt, λ q out. refl)
  destroy_from (suc rounds) h root (node {p} {next} {v} {xs} ne e c) apart enough =
      let there : (h.root == null) ≡ false = ground arith in
      let held : h.nodes h.root ≡ some (record { value = v; next = next }) = ap h.nodes root ∙ e in
      let g : Heap T = record { root = next; nodes = update h.nodes h.root none } in
      let (left, run, gone, freed, same) =
        destroy_from rounds g refl (Chain-frame g p c apart.0 (λ q far. ground arith)) apart.1
          (omega arith) in
      (
        left,
        rw (there, held) run,
        gone,
        (same p apart.0 ∙ ground arith, freed),
        λ q out. same q out.1 ∙ (let far = out.0 in ground arith),
      )

  -- On a list of which every node is on the heap, at addresses of their own, with more rounds than
  -- nodes, the destructor ends. Then the root is null, each node of the list is freed, and no other
  -- address has changed.
  pub destroy_list-Freed :
      (rounds : ℕ) (h : Heap T) {xs : List (ℕ × T)}
      → Chain h h.root xs
      → IsDistinct xs
      → length xs < rounds
      → Freed rounds h xs
  destroy_list-Freed rounds h c apart enough = destroy_from rounds h refl c apart enough
