-- ===== src/Guard/Steps.antt =====
-- src/sync/guard.cc: the lock's operations as a guard calls them, for one thread alone.
use optimistic_locking.Base.{ℕ, suc, ◌<◌, ◌≡◌, ◌≢◌, true, arith}
use optimistic_locking.Machine.{Memory, ok, thrown, aborted, restart_exception, quiet, set_cell}
use optimistic_locking.Lock.Word.{
  unlocked, exclusive, lock_state, same_version_new_state, next_version_new_state,
}
use optimistic_locking.Lock.WordLaws.{is_exclusively_locked-true, is_exclusively_locked-false}
use optimistic_locking.Lock.Attempts.{try_lock_exclusive_free}
use optimistic_locking.Lock.{unlock_exclusive}
use optimistic_locking.Guard.{
  optimistic, exclusively, moved, acquire_exclusive, hybrid_guard, destroy_guard,
  validate_optimistic_lock, must_restart,
}

module _ {H : Type 0} (lock : ℕ) (m : Memory H) where
  abbrev w : ℕ
  w = m.cells lock

  acquire_exclusive_free :
      (rounds : ℕ)
      → lock_state w ≡ unlocked
      → acquire_exclusive (suc rounds) lock (quiet m)
        ≡ ok tt (set_cell (quiet m) lock (same_version_new_state w exclusive))
  unfolding acquire_exclusive
  acquire_exclusive_free rounds free = rw (try_lock_exclusive_free lock w free) (ground arith)

  pub unlock_exclusive_held :
      lock_state w ≡ exclusive
      → unlock_exclusive lock (quiet m)
        ≡ ok tt (set_cell (quiet m) lock (next_version_new_state w unlocked))
  unfolding unlock_exclusive
  unlock_exclusive_held held = rw (is_exclusively_locked-true w held)

  pub unlock_exclusive_not_held :
      lock_state w < exclusive → unlock_exclusive lock (quiet m) ≡ aborted
  unfolding unlock_exclusive
  unlock_exclusive_not_held h = rw (is_exclusively_locked-false w h)

  -- An exclusive guard made on a free lock, and one destroyed that holds it.
  pub hybrid_guard-exclusive :
      (rounds : ℕ)
      → lock_state w ≡ unlocked
      → hybrid_guard (suc rounds) lock exclusively (quiet m)
        ≡ ok
            (record { lock = lock; mode = exclusively; state = 0 })
            (set_cell (quiet m) lock (same_version_new_state w exclusive))
  unfolding hybrid_guard
  hybrid_guard-exclusive rounds free = rw (acquire_exclusive_free rounds free)

  module _ (rounds state : ℕ) where
    pub destroy_guard_held :
        lock_state w ≡ exclusive
        → destroy_guard rounds (record { lock = lock; mode = exclusively; state = state }, quiet m)
          ≡ ok tt (
            record { lock = lock; mode = moved; state = state },
            set_cell (quiet m) lock (next_version_new_state w unlocked),
          )
    unfolding destroy_guard
    destroy_guard_held held = rw (unlock_exclusive_held held)

    pub destroy_guard_not_held :
        lock_state w < exclusive
        → destroy_guard rounds (record { lock = lock; mode = exclusively; state = state }, quiet m)
          ≡ aborted
    unfolding destroy_guard
    destroy_guard_not_held h = rw (unlock_exclusive_not_held h)

  pub hybrid_guard-optimistic :
      (rounds : ℕ)
      → lock_state w ≢ exclusive
      → hybrid_guard (suc rounds) lock optimistic (quiet m)
        ≡ ok (record { lock = lock; mode = optimistic; state = w }) (quiet m)
  unfolding hybrid_guard
  hybrid_guard-optimistic rounds free = ground arith

  pub validate_fails :
      (state : ℕ)
      → must_restart w state ≡ true
      → validate_optimistic_lock (record { lock = lock; mode = optimistic; state = state }, quiet m)
        ≡ thrown restart_exception (record { lock = lock; mode = moved; state = state }, quiet m)
  unfolding validate_optimistic_lock
  validate_fails state h = rw h
