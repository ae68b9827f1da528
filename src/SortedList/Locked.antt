-- ===== src/SortedList/Locked.antt =====
-- src/list/list.cc: `Insert` and `Delete` of `OptimisticSortedList` where no other thread moves.
use optimistic_locking.Base.{
  ℕ, suc, ◌+◌, ◌^◌, ◌<◌, ◌≡◌, ◌≢◌, refl, Bool, true, none, some, List, [], ◌∷◌, ◌++◌, length,
  get_elem?, set, arith,
}
use optimistic_locking.Machine.{Memory, World, ok, M, quiet, set_cell, ◌>>=◌}
use optimistic_locking.Lock.Word.{
  unlocked, exclusive, lock_state, version, same_version_new_state, next_version_new_state,
}
use optimistic_locking.Lock.WordLaws.{
  HasFields, same_version_new_state-HasFields, next_version_new_state-HasFields,
}
use optimistic_locking.Guard.{exclusively}
use optimistic_locking.Guard.Steps.{hybrid_guard-exclusive, destroy_guard_held}
use optimistic_locking.Epoch.{ToFreePointer, EpochHandler, defer_free_pointer}
use optimistic_locking.SortedList.{null, Heap, insert, delete_loop}
use optimistic_locking.SortedList.Chain.{Chain, IsSorted, find_equal}
use optimistic_locking.SortedList.Search.{not_null}
use optimistic_locking.SortedList.Remove.{
  Avoids, IsDistinct, erase_equal, equal_address, delete_loop-erase_equal,
}
use optimistic_locking.SortedList.Insert.{IsFirst, insert-insert_sorted}
use optimistic_locking.SortedList.Place.{insert_sorted}
use optimistic_locking.SortedList.Delete.{equal_address-ne-null}
use optimistic_locking.SortedList.Shared.{Shared, on_heap}
use optimistic_locking.SortedList.Optimistic.{
  OptimisticSortedList, with_hybrid_guard, optimistic_insert, defer_found, optimistic_delete,
}

-- A scope that ended: the lock is free at the next version, and the rest is `rest`.
abbrev pub Left :
    {T A : Type 0} → ℕ → Memory (Shared T) → M (World (Shared T)) A → A → Shared T → Type 0
Left {T} lock m scope a rest =
    (m' : Memory (Shared T)) × (scope (quiet m) ≡ ok a (quiet m'))
    × HasFields (m'.cells lock) (version (m.cells lock) + 1) unlocked
    × (m'.rest ≡ rest)

module _ {T : Type 0} (lock : ℕ) (m : Memory (Shared T))
    (free : lock_state (m.cells lock) ≡ unlocked)
    (small : version (m.cells lock) + 1 < 2 ^ 56) where
  -- memory while the lock is held
  abbrev held : Shared T → Memory (Shared T)
  held rest =
      record ((set_cell (quiet m) lock (same_version_new_state (m.cells lock) exclusive)).mem) {
        rest = rest;
      }

  held-HasFields :
      (rest : Shared T) → HasFields ((held rest).cells lock) (version (m.cells lock)) exclusive
  held-HasFields rest =
      ground (arith, same_version_new_state-HasFields (m.cells lock) exclusive (omega arith))

  -- A scope with an exclusive guard round a body that leaves the lock alone.
  with_hybrid_guard-exclusively :
      {A : Type 0} (rounds : ℕ) (body : M (World (Shared T)) A) (a : A) (rest : Shared T)
      → body (quiet (held m.rest)) ≡ ok a (quiet (held rest))
      → Left lock m (with_hybrid_guard (suc rounds) lock exclusively body) a rest
  unfolding with_hybrid_guard
  with_hybrid_guard-exclusively rounds body a rest run =
      let made = hybrid_guard-exclusive lock m rounds free in
      let fields = held-HasFields rest in
      let ended = destroy_guard_held lock (held rest) (suc rounds) 0 (ground arith) in
      (
        (set_cell (quiet (held rest)) lock
            (next_version_new_state ((held rest).cells lock) unlocked)).mem,
        rw made (rw run (rw ended refl)),
        ground (arith, next_version_new_state-HasFields ((held rest).cells lock) unlocked),
        refl,
      )

-- the state of the handler with a pointer deferred
abbrev pub deferred : EpochHandler → ℕ → List ToFreePointer → ℕ → ℕ → EpochHandler
deferred e tid entries ptr epoch = record e {
  to_free_ptr = set e.to_free_ptr tid (entries ++ record { ptr = ptr; epoch = epoch } ∷ []);
}

module _ {T : Type 0} (key : T → ℕ) (value : T) (list : OptimisticSortedList)
    (m : Memory (Shared T)) (free : lock_state (m.cells list.lock) ≡ unlocked)
    (small : version (m.cells list.lock) + 1 < 2 ^ 56) where
  -- On a free lock that is not at the last version, with nobody else moving, on a sorted list of
  -- which every node is on the heap, at addresses of their own, with more rounds than nodes, and a
  -- value that some node equals: `OptimisticSortedList::Delete` returns true. The list is the old
  -- one less its first such node; the address of that node stands at the end of the thread's list
  -- of pointers to free, with the thread's local epoch; the rest of the handler and `result` are as
  -- they were, no address outside the old list has changed, and the lock is free at the next version.
  pub optimistic_delete-deferred :
      (rounds tid epoch : ℕ) (entries : List ToFreePointer) {xs : List (ℕ × T)}
      → let s = m.rest in
        get_elem? (s.epoch).to_free_ptr tid ≡ some entries
        → get_elem? (s.epoch).local_epoch tid ≡ some epoch
        → Chain s.heap (s.heap).root xs
        → IsDistinct xs
        → IsSorted key xs
        → length xs < suc rounds
        → find_equal key value xs ≢ none
        → (left : Heap T) × Left list.lock m
            (optimistic_delete key (suc rounds) list tid value)
            true
            (record s {
              heap = left;
              epoch = deferred s.epoch tid entries (equal_address key s.heap value xs) epoch;
            })
          × Chain left left.root (erase_equal key s.heap value xs)
          × ((q : ℕ) → Avoids q xs → left.nodes q ≡ (s.heap).nodes q)
  unfolding optimistic_delete defer_found defer_free_pointer
  optimistic_delete-deferred rounds tid epoch entries {xs} slot slot' c apart sorted enough there =
      let s = m.rest in
      let (left, run, chain, same) =
        delete_loop-erase_equal key s.heap value (suc rounds) c apart sorted enough there in
      let a = equal_address key s.heap value xs in
      let body : M (World (Shared T)) Bool =
        on_heap (λ h. delete_loop key (suc rounds) value null h.root h) >>= λ found.
        defer_found tid found in
      (
        left,
        with_hybrid_guard-exclusively list.lock m free small rounds body true
            (record s { heap = left; epoch = deferred s.epoch tid entries a epoch })
            (rw (run, not_null a (equal_address-ne-null key s.heap value c there))
              (rw (slot, slot') refl)),
        chain,
        same,
      )

  -- On a free lock that is not at the last version, with nobody else moving, on a sorted list of
  -- which every node is on the heap, at addresses of their own, with more rounds than nodes, where
  -- `malloc` returns an address that is not null and not in the list, and for a value that does not
  -- equal the first node's: `OptimisticSortedList::Insert` returns. The list is the old one with the
  -- value in its place or in place of the first equal value, and is sorted and at addresses of their
  -- own again; no other address has changed, the handler and `result` are as they were, and the lock
  -- is free at the next version.
  pub optimistic_insert-insert_sorted :
      (rounds fresh : ℕ) {xs : List (ℕ × T)}
      → let s = m.rest in
        fresh ≢ null
        → Avoids fresh xs
        → Chain s.heap (s.heap).root xs
        → IsDistinct xs
        → IsSorted key xs
        → ¬ IsFirst key fresh value xs
        → length xs < suc rounds
        → (left : Heap T) × Left list.lock m
            (optimistic_insert key (suc rounds) list fresh value)
            tt
            (record s { heap = left })
          × Chain left left.root (insert_sorted key fresh value xs)
          × IsSorted key (insert_sorted key fresh value xs)
          × IsDistinct (insert_sorted key fresh value xs)
          × ((q : ℕ) → q ≢ fresh → Avoids q xs → left.nodes q ≡ (s.heap).nodes q)
  unfolding optimistic_insert
  optimistic_insert-insert_sorted rounds fresh {xs} new out c apart sorted other enough =
      let s = m.rest in
      let (left, run, chain, sorted', apart', same) =
        insert-insert_sorted key fresh value (suc rounds) s.heap new out c apart sorted other
          enough in
      (
        left,
        with_hybrid_guard-exclusively list.lock m free small rounds
            (on_heap (insert key (suc rounds) fresh value)) tt (record s { heap = left })
            (rw run refl),
        chain,
        sorted',
        apart',
        same,
      )
