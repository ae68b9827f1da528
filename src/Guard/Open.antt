-- ===== src/Guard/Open.antt =====
-- src/sync/guard.cc: the loop of `OptimisticLock`.
use optimistic_locking.Base.{
  ℕ, suc, ◌≡◌, ◌≢◌, refl, true, false, List, [], ◌∷◌, ◌++◌, map, All, length, ◌==◌, arith,
}
use optimistic_locking.Machine.{Memory, Turn, World, ok, running, quiet}
use optimistic_locking.Lock.Word.{exclusive, lock_state}
use optimistic_locking.Guard.{
  HybridGuard, Self, optimistic, load_state, wait_while_exclusive, hybrid_guard,
}
use optimistic_locking.Guard.Wait.{becomes}

module _ {H : Type 0} (lock : ℕ) (free : Memory H)
    (is_open : lock_state (free.cells lock) ≢ exclusive) where
  abbrev IsWritten : Memory H → Type 0
  IsWritten m = lock_state (m.cells lock) ≡ exclusive

  -- the memories that the others make, the last of them open
  abbrev pub until_open : List (Memory H) → List (Turn H)
  until_open busy = map becomes busy ++ becomes free ∷ []

  abbrev seeing : Memory H → HybridGuard
  seeing m = record { lock = lock; mode = optimistic; state = m.cells lock }

  at_open : (lock_state (free.cells lock) == exclusive) ≡ false
  at_open = ground arith

  wait_while_exclusive_first_open :
      (m : Memory H) (busy : List (Memory H))
      → IsWritten m
      → All IsWritten busy
      → let s : Self H = (seeing m, record { mem = m; turns = until_open busy }) in
        (wait_while_exclusive (suc (suc (length busy))) s ≡ ok tt (seeing free, quiet free))
        × (wait_while_exclusive (suc (length busy)) s ≡ running)
  unfolding wait_while_exclusive load_state
  wait_while_exclusive_first_open m [] written _ =
      let e : (lock_state (m.cells lock) == exclusive) ≡ true = ground arith in
      (rw (e, at_open) refl, rw e refl)
  wait_while_exclusive_first_open m (b ∷ busy) written all =
      let e : (lock_state (m.cells lock) == exclusive) ≡ true = ground arith in
      let (ends, waits) = wait_while_exclusive_first_open b busy all.0 all.1 in
      (rw e ends, rw e waits)

  -- The loads of an optimistic guard's constructor find the words of the memories `busy`, all with a
  -- writer, and then that of a lock without one. Then the guard is made in the round of that last
  -- load and keeps that word; and it is still in its loop after the rounds before.
  pub hybrid_guard_first_open :
      (start : Memory H) (busy : List (Memory H))
      → All IsWritten busy
      → let w : World H = record { mem = start; turns = until_open busy } in
        (hybrid_guard (suc (length busy)) lock optimistic w ≡ ok (seeing free) (quiet free))
        × (hybrid_guard (length busy) lock optimistic w ≡ running)
  unfolding hybrid_guard wait_while_exclusive load_state
  hybrid_guard_first_open start [] all = (rw at_open refl, refl)
  hybrid_guard_first_open start (b ∷ busy) all =
      let (ends, waits) = wait_while_exclusive_first_open b busy all.0 all.1 in
      (rw ends refl, rw waits refl)
