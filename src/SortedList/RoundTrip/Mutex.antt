-- ===== src/SortedList/RoundTrip/Mutex.antt =====
-- src/list/list.cc: the round trip of a value through a `MutexSortedList`.
use optimistic_locking.Base.{
  ℕ, ◌+◌, ◌<◌, ◌≡◌, ◌≢◌, refl, sym, ap, ◌∙◌, true, Option, none, some, List, length, arith,
}
use optimistic_locking.Machine.{ok}
use optimistic_locking.SortedList.{null, Heap, insert, look_up, delete}
use optimistic_locking.SortedList.Chain.{Chain, IsSorted, find_equal}
use optimistic_locking.SortedList.Remove.{Avoids, IsDistinct}
use optimistic_locking.SortedList.Search.{look_up-find_equal}
use optimistic_locking.SortedList.Place.{insert_sorted}
use optimistic_locking.SortedList.Sorted.{insert_sorted-Avoids}
use optimistic_locking.SortedList.Insert.{insert-insert_sorted}
use optimistic_locking.SortedList.Delete.{delete-erase_equal}
use optimistic_locking.SortedList.Mutex.{
  MutexSortedList, free_mutex, with_unique_lock, with_shared_lock, mutex_insert, mutex_look_up,
  mutex_delete,
}
use optimistic_locking.SortedList.Interface.{mutex_list}
use optimistic_locking.SortedList.RoundTrip.{
  in_and_out, find_equal-insert_sorted, erase_equal-insert_sorted, equal_address-insert_sorted,
  length-insert_sorted, find_equal-IsFirst,
}

-- a `MutexSortedList` that nobody has locked
abbrev pub at_leisure : {T : Type 0} → Heap T → MutexSortedList T
at_leisure h = record { heap = h; lock = free_mutex }

module _ {T : Type 0} (key : T → ℕ) (rounds fresh : ℕ) (value : T) (h left : Heap T) where
  mutex_insert-at_leisure :
      insert key rounds fresh value h ≡ ok tt left
      → mutex_insert key rounds fresh value (at_leisure h) ≡ ok tt (at_leisure left)
  unfolding mutex_insert with_unique_lock
  mutex_insert-at_leisure run = rw run refl

  mutex_delete-at_leisure :
      delete key rounds value h ≡ ok true left
      → mutex_delete key rounds value (at_leisure h) ≡ ok true (at_leisure left)
  unfolding mutex_delete with_unique_lock
  mutex_delete-at_leisure run = rw run refl

  mutex_look_up-at_leisure :
      (o : Option T)
      → look_up key rounds value h ≡ ok o h
      → mutex_look_up key rounds value (at_leisure h) ≡ ok o (at_leisure h)
  unfolding mutex_look_up with_shared_lock
  mutex_look_up-at_leisure o run = rw run refl

module _ {T : Type 0} (key : T → ℕ) (fresh : ℕ) (value : T) where
  -- On a `MutexSortedList` that nobody has locked, with the values sorted, every node on the heap at
  -- an address of its own, more rounds than nodes with the new one, no value equal to the given one,
  -- and where `malloc` returns an address that is not null and not in the list: a thread that runs
  -- alone inserts the value, finds that very value, deletes it, which returns true, and does not find
  -- it any more. Then the list is the old one, node by node, nobody has locked it, the new node is
  -- freed, and no address but those of the old list and the new one has changed.
  pub in_and_out-mutex_list :
      (rounds : ℕ) (h : Heap T) {xs : List (ℕ × T)}
      → fresh ≢ null
      → Avoids fresh xs
      → Chain h h.root xs
      → IsDistinct xs
      → IsSorted key xs
      → find_equal key value xs ≡ none
      → length xs + 1 < rounds
      → (left : Heap T) × (in_and_out (mutex_list key rounds) fresh value (at_leisure h)
          ≡ ok (some value, true, none) (at_leisure left))
        × Chain left left.root xs
        × (left.nodes fresh ≡ none)
        × ((q : ℕ) → q ≢ fresh → Avoids q xs → left.nodes q ≡ h.nodes q)
  unfolding in_and_out
  in_and_out-mutex_list rounds h {xs} new out c distinct sorted absent enough =
      let ys = insert_sorted key fresh value xs in
      let (g, inserted, c', sorted', distinct', same) =
        insert-insert_sorted key fresh value rounds h new out c distinct sorted
          (find_equal-IsFirst key fresh value xs absent) (omega arith) in
      let here = find_equal-insert_sorted key fresh value xs absent in
      let short : length ys < rounds =
        let l = length-insert_sorted key fresh value xs in omega arith in
      let (left, deleted, c'', freed, same') =
        delete-erase_equal key g value rounds c' distinct' sorted' short (λ e. ground arith) in
      let chain : Chain left left.root xs =
        rw (erase_equal-insert_sorted key fresh value g xs absent) at c'' in
      let found =
        mutex_look_up-at_leisure key rounds fresh value g left (some value)
          (look_up-find_equal key g value rounds c' sorted' short ∙ ap (λ o. ok o g) here) in
      let lost = mutex_look_up-at_leisure key rounds fresh value left left none (
        look_up-find_equal key left value rounds chain sorted (omega arith)
        ∙ ap (λ o. ok o left) absent) in
      (
        left,
        rw
            (
              mutex_insert-at_leisure key rounds fresh value h g inserted,
              found,
              mutex_delete-at_leisure key rounds fresh value g left deleted,
              lost,
            )
            refl,
        chain,
        ap left.nodes (sym (equal_address-insert_sorted key fresh value g xs absent)) ∙ freed,
        λ q far away.
            same' q (insert_sorted-Avoids key fresh value q xs (λ e. far (sym e)) away)
            ∙ same q far away,
      )
