-- ===== src/SortedList/Waiting.antt =====
-- src/list/list.cc, src/sync/guard.cc: `Insert` and `Delete` of `OptimisticSortedList` while others
-- hold the lock.
use optimistic_locking.Base.{
  ℕ, suc, zero, ◌<◌, ◌≡◌, refl, ◌∙◌, List, [], ◌∷◌, ◌++◌, map, All, length, arith,
}
use optimistic_locking.Machine.{Memory, World, M, quiet}
use optimistic_locking.Lock.Word.{unlocked, lock_state}
use optimistic_locking.Lock.Attempts.{try_lock_exclusive_free}
use optimistic_locking.Guard.{exclusively, acquire_exclusive, hybrid_guard}
use optimistic_locking.Guard.Wait.{Busy, becomes, next_round}
use optimistic_locking.SortedList.Shared.{Shared}
use optimistic_locking.SortedList.Optimistic.{
  OptimisticSortedList, with_hybrid_guard, optimistic_insert, optimistic_delete,
}

-- The others hold the lock in the memories `busy`, and then leave `free`.
abbrev pub waiting : {H : Type 0} → Memory H → List (Memory H) → Memory H → World H
waiting start busy free = record { mem = start; turns = map becomes busy ++ becomes free ∷ [] }

module _ {H : Type 0} (lock : ℕ) (free : Memory H)
    (is_free : lock_state (free.cells lock) ≡ unlocked) where
  acquire_exclusive_waits :
      (rounds : ℕ) (start : Memory H) (busy : List (Memory H))
      → All (Busy lock) busy
      → length busy < rounds
      → acquire_exclusive rounds lock (waiting start busy free)
        ≡ acquire_exclusive rounds lock (quiet free)
  unfolding acquire_exclusive
  acquire_exclusive_waits zero start busy held enough = absurd (omega arith)
  acquire_exclusive_waits (suc rounds) start [] held enough = refl
  acquire_exclusive_waits (suc zero) start (m ∷ busy) held enough = absurd (omega arith)
  acquire_exclusive_waits (suc (suc rounds)) start (m ∷ busy) held enough =
      next_round lock (suc rounds) start m (map becomes busy ++ becomes free ∷ []) held.0
      ∙ acquire_exclusive_waits (suc rounds) m busy held.1 (omega arith)
      ∙ rw (try_lock_exclusive_free lock (free.cells lock) is_free) (ground arith)

module _ {T : Type 0} (lock : ℕ) (free : Memory (Shared T))
    (is_free : lock_state (free.cells lock) ≡ unlocked) where
  with_hybrid_guard_waits :
      {A : Type 0} (rounds : ℕ) (start : Memory (Shared T)) (busy : List (Memory (Shared T)))
      (body : M (World (Shared T)) A)
      → All (Busy lock) busy
      → length busy < rounds
      → with_hybrid_guard rounds lock exclusively body (waiting start busy free)
        ≡ with_hybrid_guard rounds lock exclusively body (quiet free)
  unfolding with_hybrid_guard hybrid_guard
  with_hybrid_guard_waits rounds start busy body held enough =
      rw (acquire_exclusive_waits lock free is_free rounds start busy held enough) refl

-- The loads of a writer's guard find the words of the memories `busy`, 64 bits wide and of a lock
-- that is not free, and then that of a free lock, and no other thread moves after that. With more
-- rounds than such memories, `Insert` and `Delete` of `OptimisticSortedList` then do, to the list
-- and the handler as the others have left them by then, what they do where they begin in that
-- memory with nobody else moving: nothing of the memory that they began with, nor of those that
-- they waited through, is used.
pub writers_wait :
    {T : Type 0} (key : T → ℕ) (list : OptimisticSortedList) (free : Memory (Shared T))
    → lock_state (free.cells list.lock) ≡ unlocked
    → (rounds : ℕ) (start : Memory (Shared T)) (busy : List (Memory (Shared T)))
    → All (Busy list.lock) busy
    → length busy < rounds
    → (fresh tid : ℕ) (value : T)
    → (optimistic_insert key rounds list fresh value (waiting start busy free)
        ≡ optimistic_insert key rounds list fresh value (quiet free))
      × (optimistic_delete key rounds list tid value (waiting start busy free)
          ≡ optimistic_delete key rounds list tid value (quiet free))
unfolding optimistic_insert optimistic_delete
writers_wait key list free is_free rounds start busy held enough fresh tid value = (
  with_hybrid_guard_waits list.lock free is_free rounds start busy _ held enough,
  with_hybrid_guard_waits list.lock free is_free rounds start busy _ held enough,
)
