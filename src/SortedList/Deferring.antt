-- ===== src/SortedList/Deferring.antt =====
-- src/list/list.cc: `Delete` of `OptimisticSortedList` while other threads move before each access of
-- the lock and of the handler.
use optimistic_locking.Base.{
  ℕ, ◌+◌, ◌^◌, ◌<◌, ◌≡◌, ◌≢◌, refl, ap, ◌∙◌, Bool, true, none, some, List, [], ◌∷◌, ◌++◌, All,
  length, get_elem?, get_elem?-set_self, arith,
}
use optimistic_locking.Machine.{Memory, Turn, World, ok, M, advance, ◌>>=◌}
use optimistic_locking.Lock.Word.{unlocked, exclusive, lock_state, version, same_version_new_state}
use optimistic_locking.Lock.WordLaws.{HasFields, same_version_new_state-HasFields}
use optimistic_locking.Guard.Wait.{Busy}
use optimistic_locking.Epoch.{ToFreePointer, EpochHandler, defer_free_pointer}
use optimistic_locking.SortedList.{null, delete_loop}
use optimistic_locking.SortedList.Chain.{Chain, IsSorted, find_equal}
use optimistic_locking.SortedList.Search.{not_null}
use optimistic_locking.SortedList.Remove.{
  Avoids, IsDistinct, erase_equal, equal_address, delete_loop-erase_equal,
}
use optimistic_locking.SortedList.Delete.{equal_address-ne-null}
use optimistic_locking.SortedList.Racing.{heap_of}
use optimistic_locking.SortedList.Shared.{Shared, on_heap, with_heap, with_epoch}
use optimistic_locking.SortedList.Optimistic.{OptimisticSortedList, optimistic_delete, defer_found}
use optimistic_locking.SortedList.Locked.{deferred}
use optimistic_locking.SortedList.Undisturbed.{
  IsRespectful, approach, Holds, advance-Holds, taken, with_hybrid_guard-undisturbed,
}

abbrev pub handler_of : {T : Type 0} → Memory (Shared T) → EpochHandler
handler_of m = (m.rest).epoch

-- A turn of the others that leaves the list of thread `tid`, and its local epoch, alone.
abbrev pub IsConsiderate : {T : Type 0} → ℕ → Turn (Shared T) → Type 0
IsConsiderate {T} tid t =
    (m : Memory (Shared T))
    → (get_elem? (handler_of (t.interfere m)).to_free_ptr tid
        ≡ get_elem? (handler_of m).to_free_ptr tid)
      × (get_elem? (handler_of (t.interfere m)).local_epoch tid
          ≡ get_elem? (handler_of m).local_epoch tid)

module _ {T : Type 0} (tid epoch : ℕ) (entries : List ToFreePointer) where
  record Owns (w : World (Shared T)) : Type 0 where
    list_is : get_elem? (handler_of w.mem).to_free_ptr tid ≡ some entries
    slot_is : get_elem? (handler_of w.mem).local_epoch tid ≡ some epoch
    considerate : All (IsConsiderate tid) w.turns

  advance-Owns : (w : World (Shared T)) → Owns w → Owns (advance w)
  advance-Owns w owns = go w.turns owns.considerate
    where
      go :
          (ts : List (Turn (Shared T)))
          → All (IsConsiderate tid) ts
          → Owns (advance (record { mem = w.mem; turns = ts }))
      go [] a = record { list_is = owns.list_is; slot_is = owns.slot_is; considerate = tt }
      go (t ∷ ts) a =
          let (list, slot) = a.0 w.mem in
          record { list_is = list ∙ owns.list_is; slot_is = slot ∙ owns.slot_is; considerate = a.1 }

  advance_thrice-Owns : (w : World (Shared T)) → Owns w → Owns (advance (advance (advance w)))
  advance_thrice-Owns w owns =
      advance-Owns (advance (advance w)) (advance-Owns (advance w) (advance-Owns w owns))

-- The world behind the deferred free of the node at `a`.
abbrev behind : {T : Type 0} → ℕ → ℕ → List ToFreePointer → ℕ → World (Shared T) → World (Shared T)
behind tid epoch entries a w =
    with_epoch (advance w) (deferred (handler_of ((advance w).mem)) tid entries a epoch)

module _ {T : Type 0} (tid epoch a : ℕ) (entries : List ToFreePointer) (w : World (Shared T))
    (owns : Owns tid epoch entries w) where
  defer_found-owned : a ≢ null → defer_found tid (some a) w ≡ ok true (behind tid epoch entries a w)
  unfolding defer_found defer_free_pointer
  defer_found-owned there =
      let next = advance-Owns tid epoch entries w owns in
      rw (not_null a there) (rw (next.list_is, next.slot_is) refl)

  behind-Owns :
      Owns tid epoch
        (entries ++ record { ptr = a; epoch = epoch } ∷ [])
        (behind tid epoch entries a w)
  behind-Owns =
      let next = advance-Owns tid epoch entries w owns in
      record {
        list_is = get_elem?-set_self (handler_of ((advance w).mem)).to_free_ptr tid _ next.list_is;
        slot_is = next.slot_is;
        considerate = next.considerate;
      }

-- As for `Insert`: the guard's loads find the words of the memories `busy`, 64 bits wide and of a
-- lock that is not free, then that of a free lock, not at the last version, which is still the
-- lock's word in the memory `free` of the exchange; the turns after that, in any number, leave a lock
-- that is held exclusively alone, and the nodes with it, and at any time this thread's list of
-- pointers to free and its local epoch. In `free`, let the list be sorted, every node on the heap,
-- at addresses of their own, and some node equal to the value; let there be more rounds than nodes
-- and than memories in `busy`. Then `OptimisticSortedList::Delete` returns true; the list is that of
-- `free` less its first such node, no address outside of that list has changed since `free`; the
-- node's address, with the thread's local epoch, stands at the end of the thread's list of pointers
-- to free; and the lock is free at the next version.
pub optimistic_delete_undisturbed :
    {T : Type 0} (key : T → ℕ) (value : T) (list : OptimisticSortedList) (start : Memory (Shared T))
    (busy : List (Memory (Shared T))) (seen free : Memory (Shared T))
    (later : List (Turn (Shared T))) (rounds tid epoch : ℕ) (entries : List ToFreePointer)
    {xs : List (ℕ × T)}
    → All (Busy list.lock) busy
    → lock_state (free.cells list.lock) ≡ unlocked
    → version (free.cells list.lock) + 1 < 2 ^ 56
    → seen.cells list.lock ≡ free.cells list.lock
    → All (IsRespectful list.lock) later
    → All (IsConsiderate tid) later
    → length busy < rounds
    → length xs < rounds
    → let h = (free.rest).heap in
      get_elem? (handler_of free).to_free_ptr tid ≡ some entries
      → get_elem? (handler_of free).local_epoch tid ≡ some epoch
      → Chain h h.root xs
      → IsDistinct xs
      → IsSorted key xs
      → find_equal key value xs ≢ none
      → (w' : World (Shared T)) × (optimistic_delete key rounds list tid value
            (approach start busy seen free later)
          ≡ ok true w')
        × HasFields ((w'.mem).cells list.lock) (version (free.cells list.lock) + 1) unlocked
        × Chain (heap_of w') (heap_of w').root (erase_equal key h value xs)
        × ((q : ℕ) → Avoids q xs → (heap_of w').nodes q ≡ h.nodes q)
        × (get_elem? (handler_of w'.mem).to_free_ptr tid
            ≡ some (entries ++ record { ptr = equal_address key h value xs; epoch = epoch } ∷ []))
unfolding optimistic_delete
optimistic_delete_undisturbed {T} key value list start busy seen free later rounds tid epoch entries
      {xs} held is_free small same respectful considerate waits enough listed slot c apart sorted
      there =
    let h = (free.rest).heap in
    let (left, run, chain, unchanged) =
      delete_loop-erase_equal key h value rounds c apart sorted enough there in
    let a = equal_address key h value xs in
    let x : ToFreePointer = record { ptr = a; epoch = epoch } in
    let v = same_version_new_state (free.cells list.lock) exclusive in
    let fields : HasFields v (version (free.cells list.lock)) exclusive =
      same_version_new_state-HasFields (free.cells list.lock) exclusive (omega arith) in
    let erased = with_heap (taken list.lock seen free later is_free same) left in
    let holds : Holds list.lock v left (advance erased) =
      advance-Holds list.lock v left (omega (arith, fields)) erased
        (record { word_is = ground arith; heap_is = refl; respectful = respectful }) in
    let owns : Owns tid epoch entries erased = record {
      list_is = listed;
      slot_is = slot;
      considerate = considerate;
    } in
    let w1 = behind tid epoch entries a erased in
    let body : M (World (Shared T)) Bool =
      on_heap (λ h. delete_loop key rounds value null h.root h) >>= λ found.
      defer_found tid found in
    let deferring =
      defer_found-owned tid epoch a entries erased owns
        (equal_address-ne-null key h value c there) in
    let (w', ends, fields', heap_is, rest_is) =
      with_hybrid_guard-undisturbed list.lock seen free later is_free same rounds start busy body
        true left w1 small held waits (rw run deferring)
        (record {
          word_is = holds.word_is;
          heap_is = holds.heap_is;
          respectful = holds.respectful;
        }) in
    let at_end =
      advance_thrice-Owns tid epoch (entries ++ x ∷ []) w1
        (behind-Owns tid epoch a entries erased owns) in
    (
      w',
      ends,
      fields',
      rw heap_is chain,
      λ q away. rw heap_is (unchanged q away),
      ap (λ s. get_elem? (s.epoch).to_free_ptr tid) rest_is ∙ at_end.list_is,
    )
