-- ===== src/SortedList/Undisturbed.antt =====
-- src/list/list.cc, src/sync/guard.cc: a scope of `OptimisticSortedList` with an exclusive guard, while
-- other threads move before each access of the lock.
use optimistic_locking.Base.{
  ℕ, suc, zero, ◌+◌, ◌^◌, ◌<◌, ◌≡◌, refl, ap, ◌∙◌, List, [], ◌∷◌, ◌++◌, map, All, length, arith,
}
use optimistic_locking.Machine.{Memory, Turn, World, ok, M, set_cell, advance}
use optimistic_locking.Lock.{unlock_exclusive}
use optimistic_locking.Lock.Word.{
  unlocked, exclusive, lock_state, version, same_version_new_state, next_version_new_state,
}
use optimistic_locking.Lock.WordLaws.{
  HasFields, same_version_new_state-HasFields, next_version_new_state-HasFields,
  is_exclusively_locked-true,
}
use optimistic_locking.Lock.Attempts.{try_lock_exclusive_free}
use optimistic_locking.Guard.{exclusively, acquire_exclusive, hybrid_guard, destroy_guard}
use optimistic_locking.Guard.Wait.{Busy, becomes, next_round}
use optimistic_locking.SortedList.{Heap}
use optimistic_locking.SortedList.Racing.{heap_of}
use optimistic_locking.SortedList.Shared.{Shared}
use optimistic_locking.SortedList.Optimistic.{with_hybrid_guard}

-- The others hold the lock in the memories `busy`. It is free in `seen`, and still at that version in
-- `free`; the turns `later` come after.
abbrev pub approach :
    {H : Type 0} → Memory H → List (Memory H) → Memory H → Memory H → List (Turn H) → World H
approach start busy seen free later = record {
  mem = start;
  turns = map becomes busy ++ becomes seen ∷ becomes free ∷ later;
}

module _ {H : Type 0} (lock : ℕ) (seen free : Memory H) (later : List (Turn H))
    (is_free : lock_state (free.cells lock) ≡ unlocked)
    (same : seen.cells lock ≡ free.cells lock) where
  acquire_exclusive-approach :
      (rounds : ℕ) (start : Memory H) (busy : List (Memory H))
      → All (Busy lock) busy
      → length busy < rounds
      → acquire_exclusive rounds lock (approach start busy seen free later)
        ≡ ok tt (
            set_cell
              (record { mem = free; turns = later })
              lock
              (same_version_new_state (free.cells lock) exclusive))
  unfolding acquire_exclusive
  acquire_exclusive-approach zero start busy held enough = absurd (omega arith)
  acquire_exclusive-approach (suc rounds) start [] held enough =
      let open_ : lock_state (seen.cells lock) ≡ unlocked = ap lock_state same ∙ is_free in
      rw (try_lock_exclusive_free lock (seen.cells lock) open_) (ground arith)
  acquire_exclusive-approach (suc rounds) start (m ∷ busy) held enough =
      next_round lock rounds start m (map becomes busy ++ becomes seen ∷ becomes free ∷ later)
        held.0
      ∙ acquire_exclusive-approach rounds m busy held.1 (omega arith)

module _ {T : Type 0} (lock : ℕ) where
  -- A turn of the others that leaves a lock that is held exclusively alone, and the nodes with it.
  abbrev pub IsRespectful : Turn (Shared T) → Type 0
  IsRespectful t =
      (m : Memory (Shared T))
      → lock_state (m.cells lock) ≡ exclusive
      → ((t.interfere m).cells lock ≡ m.cells lock) × (((t.interfere m).rest).heap ≡ (m.rest).heap)

  -- this thread holds the lock, whose word is `v`, and the nodes are `h`
  pub record Holds (v : ℕ) (h : Heap T) (w : World (Shared T)) : Type 0 where
    pub word_is : (w.mem).cells lock ≡ v
    pub heap_is : heap_of w ≡ h
    pub respectful : All IsRespectful w.turns

  module _ (v : ℕ) (h : Heap T) (held : lock_state v ≡ exclusive) where
    pub advance-Holds : (w : World (Shared T)) → Holds v h w → Holds v h (advance w)
    advance-Holds w holds = go w.turns holds.respectful
      where
        go :
            (ts : List (Turn (Shared T)))
            → All IsRespectful ts
            → Holds v h (advance (record { mem = w.mem; turns = ts }))
        go [] a = record { word_is = holds.word_is; heap_is = holds.heap_is; respectful = tt }
        go (t ∷ ts) a =
            let (cell, heap) = a.0 w.mem (ap lock_state holds.word_is ∙ held) in
            record {
              word_is = cell ∙ holds.word_is;
              heap_is = heap ∙ holds.heap_is;
              respectful = a.1;
            }

    unlock_exclusive-Holds :
        (w : World (Shared T))
        → Holds v h w
        → (w' : World (Shared T)) × (unlock_exclusive lock w ≡ ok tt w')
          × ((w'.mem).cells lock ≡ next_version_new_state v unlocked)
          × (heap_of w' ≡ h)
          × ((w'.mem).rest ≡ ((advance (advance (advance w))).mem).rest)
    unfolding unlock_exclusive
    unlock_exclusive-Holds w holds =
        let h1 = advance-Holds w holds in
        let h2 = advance-Holds (advance w) h1 in
        let h3 = advance-Holds (advance (advance w)) h2 in
        (
          set_cell (advance (advance (advance w))) lock (next_version_new_state v unlocked),
          rw (h1.word_is, is_exclusively_locked-true v held, h2.word_is) refl,
          ground arith,
          h3.heap_is,
          refl,
        )

module _ {T : Type 0} (lock : ℕ) (seen free : Memory (Shared T)) (later : List (Turn (Shared T)))
    (is_free : lock_state (free.cells lock) ≡ unlocked)
    (same : seen.cells lock ≡ free.cells lock) where
  -- where the thread has the lock
  abbrev pub taken : World (Shared T)
  taken =
      set_cell (record { mem = free; turns = later }) lock
        (same_version_new_state (free.cells lock) exclusive)

  pub with_hybrid_guard-undisturbed :
      {A : Type 0} (rounds : ℕ) (start : Memory (Shared T)) (busy : List (Memory (Shared T)))
      (body : M (World (Shared T)) A) (a : A) (h : Heap T) (w1 : World (Shared T))
      → version (free.cells lock) + 1 < 2 ^ 56
      → All (Busy lock) busy
      → length busy < rounds
      → body taken ≡ ok a w1
      → Holds lock (same_version_new_state (free.cells lock) exclusive) h w1
      → (w' : World (Shared T)) × (with_hybrid_guard rounds lock exclusively body
            (approach start busy seen free later)
          ≡ ok a w')
        × HasFields ((w'.mem).cells lock) (version (free.cells lock) + 1) unlocked
        × (heap_of w' ≡ h)
        × ((w'.mem).rest ≡ ((advance (advance (advance w1))).mem).rest)
  unfolding with_hybrid_guard hybrid_guard destroy_guard
  with_hybrid_guard-undisturbed rounds start busy body a h w1 small held enough run holds =
      let v = same_version_new_state (free.cells lock) exclusive in
      let fields : HasFields v (version (free.cells lock)) exclusive =
        same_version_new_state-HasFields (free.cells lock) exclusive (omega arith) in
      let (w', ends, word_is, heap_is, rest_is) =
        unlock_exclusive-Holds lock v h (omega (arith, fields)) w1 holds in
      let acquired =
        acquire_exclusive-approach lock seen free later is_free same rounds start busy held
          enough in
      (
        w',
        rw (acquired, run, ends) refl,
        rw word_is (ground (arith, next_version_new_state-HasFields v unlocked, fields)),
        heap_is,
        rest_is,
      )
