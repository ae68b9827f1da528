-- ===== src/SortedList/RoundTrip/Optimistic.antt =====
-- src/list/list.cc, src/sync/epoch.cc: the round trip of a value through an `OptimisticSortedList`.
use optimistic_locking.Base.{
  ℕ, suc, ◌+◌, ◌^◌, ◌<◌, ◌≡◌, ◌≢◌, refl, sym, ap, ◌∙◌, true, false, none, some, List, [], ◌∷◌, ◌++◌,
  length, get_elem?, get_elem?-set_self, arith,
}
use optimistic_locking.Machine.{Memory, World, M, ok, quiet}
use optimistic_locking.Lock.Word.{unlocked, lock_state, version}
use optimistic_locking.Lock.WordLaws.{HasFields}
use optimistic_locking.Epoch.{ToFreePointer, max_value}
use optimistic_locking.SortedList.{null}
use optimistic_locking.SortedList.Chain.{Chain, IsSorted, find_equal}
use optimistic_locking.SortedList.Remove.{Avoids, IsDistinct, erase_equal, equal_address}
use optimistic_locking.SortedList.Place.{insert_sorted}
use optimistic_locking.SortedList.Sorted.{insert_sorted-Avoids}
use optimistic_locking.SortedList.Shared.{Shared}
use optimistic_locking.SortedList.Optimistic.{
  OptimisticSortedList, optimistic_insert, optimistic_delete, optimistic_look_up,
}
use optimistic_locking.SortedList.Alone.{
  with_result, found_in, at_epoch, optimistic_look_up-find_equal,
}
use optimistic_locking.SortedList.Locked.{
  Left, deferred, optimistic_delete-deferred, optimistic_insert-insert_sorted,
}
use optimistic_locking.SortedList.Interface.{optimistic_list}
use optimistic_locking.SortedList.RoundTrip.{
  in_and_out, find_equal-insert_sorted, erase_equal-insert_sorted, equal_address-insert_sorted,
  length-insert_sorted, find_equal-IsFirst,
}

module _ {T : Type 0} where
  abbrev pub shared_at : (ℕ → ℕ) → Shared T → Memory (Shared T)
  shared_at cells s = record { cells = cells; rest = s }

  -- the cells that a scope leaves
  Left-shared_at :
      {A : Type 0} (lock : ℕ) (m : Memory (Shared T)) (scope : M (World (Shared T)) A) (a : A)
      (s : Shared T)
      → Left lock m scope a s
      → (cells : ℕ → ℕ) × (scope (quiet m) ≡ ok a (quiet (shared_at cells s)))
        × HasFields (cells lock) (version (m.cells lock) + 1) unlocked
  Left-shared_at lock m scope a s (m', run, fields, same) =
      (m'.cells, run ∙ ap (λ r. ok a (quiet (shared_at m'.cells r))) same, fields)

-- What `Delete` of a value and `LookUp` of it leave of a list with the nodes `ys`.
record TakenOut {T : Type 0} (key : T → ℕ) (value : T) (list : OptimisticSortedList)
    (m : Memory (Shared T)) (tries rounds tid : ℕ) (entries : List ToFreePointer)
    (ys : List (ℕ × T)) : Type 0 where
  pub deleted : Memory (Shared T)
  pub left : Memory (Shared T)
  pub run_delete : optimistic_delete key rounds list tid value (quiet m) ≡ ok true (quiet deleted)
  pub run_look_up :
      optimistic_look_up key tries rounds list tid value (quiet deleted) ≡ ok false (quiet left)
  pub chain :
      Chain (left.rest).heap ((left.rest).heap).root (erase_equal key (m.rest).heap value ys)
  pub word : HasFields (left.cells list.lock) (version (m.cells list.lock) + 1) unlocked
  pub result_same : (left.rest).result ≡ (m.rest).result
  pub epoch_max : get_elem? ((left.rest).epoch).local_epoch tid ≡ some max_value
  pub queue :
      get_elem? ((left.rest).epoch).to_free_ptr tid
      ≡ some (
          entries
          ++ record { ptr = equal_address key (m.rest).heap value ys; epoch = max_value } ∷ [])
  pub same : (q : ℕ) → Avoids q ys → ((left.rest).heap).nodes q ≡ ((m.rest).heap).nodes q

module _ {T : Type 0} (key : T → ℕ) (value : T) (list : OptimisticSortedList)
    (m : Memory (Shared T)) (free : lock_state (m.cells list.lock) ≡ unlocked)
    (small : version (m.cells list.lock) + 1 < 2 ^ 56) where
  taken_out :
      (tries rounds tid : ℕ) (entries : List ToFreePointer) {ys : List (ℕ × T)}
      → let s = m.rest in
        get_elem? (s.epoch).local_epoch tid ≡ some max_value
        → get_elem? (s.epoch).to_free_ptr tid ≡ some entries
        → Chain s.heap (s.heap).root ys
        → IsDistinct ys
        → IsSorted key ys
        → length ys < suc rounds
        → find_equal key value ys ≢ none
        → IsSorted key (erase_equal key s.heap value ys)
        → length (erase_equal key s.heap value ys) < suc rounds
        → find_equal key value (erase_equal key s.heap value ys) ≡ none
        → TakenOut key value list m (suc tries) (suc rounds) tid entries ys
  taken_out tries rounds tid entries {ys} slot queue c distinct sorted short there sorted' short'
        absent =
      let s = m.rest in
      let (g, deleted, chain, same) =
        optimistic_delete-deferred key value list m free small rounds tid max_value entries queue
          slot c distinct sorted short there in
      let a = equal_address key s.heap value ys in
      let s' : Shared T = record s { heap = g; epoch = deferred s.epoch tid entries a max_value } in
      let (cells, run, fields) =
        Left-shared_at list.lock m (optimistic_delete key (suc rounds) list tid value) true s'
          deleted in
      let m' = shared_at cells s' in
      record {
        deleted = m';
        left = at_epoch m' tid max_value;
        run_delete = run;
        run_look_up =
            optimistic_look_up-find_equal key value m' tries rounds list tid
              (omega (arith, fields.state_is)) slot chain sorted' short'
            ∙ ap (found_in (at_epoch m' tid max_value)) absent;
        chain = chain;
        word = fields;
        result_same = refl;
        epoch_max = get_elem?-set_self (s.epoch).local_epoch tid max_value slot;
        queue =
            get_elem?-set_self (s.epoch).to_free_ptr tid
              (entries ++ record { ptr = a; epoch = max_value } ∷ []) queue;
        same = same;
      }

module _ {T : Type 0} (key : T → ℕ) (fresh : ℕ) (value : T) (list : OptimisticSortedList)
    (m : Memory (Shared T)) (free : lock_state (m.cells list.lock) ≡ unlocked)
    (small : version (m.cells list.lock) + 2 < 2 ^ 56) where
  -- On an `OptimisticSortedList` whose lock is free and two releases away from the last version, with
  -- the values sorted, every node on the heap at an address of its own, more rounds than nodes
  -- with the new one, an attempt or more for each `LookUp`, no value equal to the given
  -- one, where `malloc` returns an address that is not null and not in the list, and for a thread
  -- that has its slots in the handler and runs alone: it inserts the value, finds it, deletes it,
  -- which returns true, and does not find it any more. Then the list is the old one, node by node;
  -- the lock is free, two versions on; `result` is the value; the thread's local epoch is
  -- `MAX_VALUE`; the new node's address stands last in the thread's list of pointers to free, with
  -- the epoch `MAX_VALUE`; and no address but those of the
  -- old list and the new one has changed.
  pub in_and_out-optimistic_list :
      (tries rounds tid seen : ℕ) (entries : List ToFreePointer) {xs : List (ℕ × T)}
      → let s = m.rest in
        fresh ≢ null
        → get_elem? (s.epoch).local_epoch tid ≡ some seen
        → get_elem? (s.epoch).to_free_ptr tid ≡ some entries
        → Avoids fresh xs
        → Chain s.heap (s.heap).root xs
        → IsDistinct xs
        → IsSorted key xs
        → find_equal key value xs ≡ none
        → length xs < rounds
        → (m' : Memory (Shared T)) × (in_and_out
              (optimistic_list key (suc tries) (suc rounds) list tid)
              fresh
              value
              (quiet m)
            ≡ ok (true, true, false) (quiet m'))
          × Chain (m'.rest).heap ((m'.rest).heap).root xs
          × HasFields (m'.cells list.lock) (version (m.cells list.lock) + 2) unlocked
          × ((m'.rest).result ≡ some value)
          × (get_elem? ((m'.rest).epoch).local_epoch tid ≡ some max_value)
          × (get_elem? ((m'.rest).epoch).to_free_ptr tid
              ≡ some (entries ++ record { ptr = fresh; epoch = max_value } ∷ []))
          × ((q : ℕ) → q ≢ fresh → Avoids q xs → ((m'.rest).heap).nodes q ≡ (s.heap).nodes q)
  unfolding in_and_out
  in_and_out-optimistic_list tries rounds tid seen entries {xs} new slot queue out c distinct sorted
        absent enough =
      let s = m.rest in
      let lock = list.lock in
      let ys = insert_sorted key fresh value xs in
      let l = (s.epoch).local_epoch in
      let slot' = get_elem?-set_self l tid max_value slot in
      let (g, inserted, c1, sorted1, distinct1, same1) =
        optimistic_insert-insert_sorted key value list m free (omega arith) rounds fresh new out c
          distinct sorted (find_equal-IsFirst key fresh value xs absent) (omega arith) in
      let (cells1, run1, fields1) =
        Left-shared_at lock m (optimistic_insert key (suc rounds) list fresh value) tt
          (record s { heap = g }) inserted in
      let m1 = shared_at cells1 (record s { heap = g }) in
      let here = find_equal-insert_sorted key fresh value xs absent in
      let short : length ys < suc rounds =
        let more = length-insert_sorted key fresh value xs in omega arith in
      let run2 =
        optimistic_look_up-find_equal key value m1 tries rounds list tid
          (omega (arith, fields1.state_is)) slot c1 sorted1 short
        ∙ ap (found_in (at_epoch m1 tid max_value)) here in
      let m2 = shared_at cells1 (with_result ((at_epoch m1 tid max_value).rest) (some value)) in
      let erased = erase_equal-insert_sorted key fresh value g xs absent in
      let t =
        taken_out key value list m2 fields1.state_is (omega (arith, fields1.version_is)) tries
          rounds tid entries slot' queue c1 distinct1 sorted1 short (λ e. ground arith)
          (rw erased sorted) (rw erased (omega arith)) (rw erased absent) in
      (
        t.left,
        rw (run1, run2, t.run_delete, t.run_look_up) refl,
        rw erased at t.chain,
        ground (arith, fields1.version_is, t.word),
        t.result_same,
        t.epoch_max,
        rw (equal_address-insert_sorted key fresh value g xs absent) at t.queue,
        λ q far away.
            t.same q (insert_sorted-Avoids key fresh value q xs (λ e. far (sym e)) away)
            ∙ same1 q far away,
      )
