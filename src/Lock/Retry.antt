-- ===== src/Lock/Retry.antt =====
-- src/sync/lock.cc: the loop of `UnlockShared`, whose weak exchange may fail for no reason.
use optimistic_locking.Base.{ℕ, zero, suc, ◌-◌, ◌<◌, ◌≡◌, refl, true, false, List, [], ◌∷◌, arith}
use optimistic_locking.Machine.{Memory, Turn, World, ok, running, quiet, set_cell}
use optimistic_locking.Lock.Word.{exclusive, lock_state, same_version_new_state}
use optimistic_locking.Lock.WordLaws.{is_shared_locked-true}
use optimistic_locking.Lock.Attempts.{release_shared_lem}
use optimistic_locking.Lock.{unlock_shared}

module _ {H : Type 0} where
  abbrev idle_turn : Turn H
  idle_turn = record { interfere = λ m. m; spurious = false }

  abbrev failing_turn : Turn H
  failing_turn = record { interfere = λ m. m; spurious = true }

  -- `k` rounds of the loop, in each of which the load goes well and the exchange fails
  abbrev pub spurious_rounds : ℕ → List (Turn H)
  spurious_rounds zero = []
  spurious_rounds (suc k) = idle_turn ∷ failing_turn ∷ spurious_rounds k

  abbrev pub failing : ℕ → Memory H → World H
  failing k m = record { mem = m; turns = spurious_rounds k }

module _ {H : Type 0} (lock : ℕ) (m : Memory H) (pos : 0 < lock_state (m.cells lock))
    (small : lock_state (m.cells lock) < exclusive) where
  -- Where the lock is held shared and no other thread touches it, `UnlockShared` outlasts any number
  -- `k` of exchanges that fail spuriously: it ends in round `k + 1` and counts the state down by
  -- one, and it is still in its loop after `k` rounds.
  pub unlock_shared_retries :
      (k : ℕ)
      → (unlock_shared (suc k) lock (failing k m)
          ≡ ok tt (
              set_cell
                (quiet m)
                lock
                (same_version_new_state (m.cells lock) (lock_state (m.cells lock) - 1))))
        × (unlock_shared k lock (failing k m) ≡ running)
  unfolding unlock_shared
  unlock_shared_retries zero = (
    rw
        (
          is_shared_locked-true (m.cells lock) pos small,
          release_shared_lem lock (m.cells lock) pos (omega arith),
        )
        (ground arith),
    refl,
  )
  unlock_shared_retries (suc k) =
      let (ends, waits) = unlock_shared_retries k in
      let test = is_shared_locked-true (m.cells lock) pos small in (rw test ends, rw test waits)
