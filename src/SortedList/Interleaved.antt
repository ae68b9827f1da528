-- ===== src/SortedList/Interleaved.antt =====
-- src/list/list.cc: `Insert` of `OptimisticSortedList` while other threads move before each access of
-- the lock.
use optimistic_locking.Base.{ℕ, ◌+◌, ◌^◌, ◌<◌, ◌≡◌, ◌≢◌, refl, List, All, length, arith}
use optimistic_locking.Machine.{Memory, Turn, World, ok}
use optimistic_locking.Lock.Word.{unlocked, lock_state, version}
use optimistic_locking.Lock.WordLaws.{HasFields}
use optimistic_locking.Guard.Wait.{Busy}
use optimistic_locking.SortedList.{null, insert}
use optimistic_locking.SortedList.Chain.{Chain, IsSorted}
use optimistic_locking.SortedList.Remove.{Avoids, IsDistinct}
use optimistic_locking.SortedList.Insert.{IsFirst, insert-insert_sorted}
use optimistic_locking.SortedList.Place.{insert_sorted}
use optimistic_locking.SortedList.Racing.{heap_of}
use optimistic_locking.SortedList.Shared.{Shared, on_heap, with_heap}
use optimistic_locking.SortedList.Optimistic.{OptimisticSortedList, optimistic_insert}
use optimistic_locking.SortedList.Undisturbed.{
  IsRespectful, approach, taken, with_hybrid_guard-undisturbed,
}

-- The loads of the guard's constructor find the words of the memories `busy`, 64 bits wide and of a
-- lock that is not free, and then that of a free lock, not at the last version, which is still the
-- lock's word in the memory `free` of the exchange; and turns of the others come after, in any
-- number, that leave a lock that is held exclusively alone, and the nodes with it. In `free`, let the
-- list be sorted, every node on the heap, at addresses of their own, and not equal to the value if
-- it is the first, and let there be more rounds than nodes and than memories in `busy`, and `malloc`
-- return an address that is not null and not in the list. Then `OptimisticSortedList::Insert`
-- returns; the list is that of `free` with the value in its place or in place of the first equal
-- value, is sorted and at addresses of their own, no other address has changed since `free`, and the
-- lock is free at the next version.
pub optimistic_insert_undisturbed :
    {T : Type 0} (key : T → ℕ) (value : T) (list : OptimisticSortedList) (start : Memory (Shared T))
    (busy : List (Memory (Shared T))) (seen free : Memory (Shared T))
    (later : List (Turn (Shared T))) (rounds fresh : ℕ) {xs : List (ℕ × T)}
    → All (Busy list.lock) busy
    → lock_state (free.cells list.lock) ≡ unlocked
    → version (free.cells list.lock) + 1 < 2 ^ 56
    → seen.cells list.lock ≡ free.cells list.lock
    → All (IsRespectful list.lock) later
    → length busy < rounds
    → length xs < rounds
    → let h = (free.rest).heap in
      fresh ≢ null
      → Avoids fresh xs
      → Chain h h.root xs
      → IsDistinct xs
      → IsSorted key xs
      → ¬ IsFirst key fresh value xs
      → (w' : World (Shared T)) × (optimistic_insert key rounds list fresh value
            (approach start busy seen free later)
          ≡ ok tt w')
        × HasFields ((w'.mem).cells list.lock) (version (free.cells list.lock) + 1) unlocked
        × Chain (heap_of w') (heap_of w').root (insert_sorted key fresh value xs)
        × IsSorted key (insert_sorted key fresh value xs)
        × IsDistinct (insert_sorted key fresh value xs)
        × ((q : ℕ) → q ≢ fresh → Avoids q xs → (heap_of w').nodes q ≡ h.nodes q)
unfolding optimistic_insert
optimistic_insert_undisturbed key value list start busy seen free later rounds fresh {xs} held
      is_free small same respectful waits enough new out c apart sorted other =
    let h = (free.rest).heap in
    let (left, run, chain, sorted', apart', unchanged) =
      insert-insert_sorted key fresh value rounds h new out c apart sorted other enough in
    let at = taken list.lock seen free later is_free same in
    let (w', ends, fields, heap_is, rest_is) =
      with_hybrid_guard-undisturbed list.lock seen free later is_free same rounds start busy
        (on_heap (insert key rounds fresh value)) tt left (with_heap at left) small held waits
        (rw run refl)
        (record { word_is = ground arith; heap_is = refl; respectful = respectful }) in
    (
      w',
      ends,
      fields,
      rw heap_is chain,
      sorted',
      apart',
      λ q far away. rw heap_is (unchanged q far away),
    )
