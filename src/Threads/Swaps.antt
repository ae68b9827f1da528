-- ===== src/Threads/Swaps.antt =====
-- What an attempt of a thread that succeeds does to the word, and that one that fails does nothing.
use optimistic_locking.Base.{ℕ, ◌+◌, ◌-◌, ◌^◌, ◌<◌, ◌≡◌, refl, Bool, true, false, arith}
use optimistic_locking.Machine.{Memory, World, ok, quiet, paused}
use optimistic_locking.Lock.Word.{
  unlocked, max_shared, exclusive, lock_state, version, same_version_new_state,
}
use optimistic_locking.Lock.WordLaws.{HasFields, same_version_new_state-HasFields}
use optimistic_locking.Lock.Attempts.{
  Took, try_lock_exclusive-Tried, try_lock_shared-Tried, upgrade_lock-Tried, release_shared-Tried,
}
use optimistic_locking.Lock.{try_lock_exclusive, try_lock_shared, upgrade_lock, release_shared}

-- The word has a new state and its old version, and the data is the same.
pub record Swapped {D : Type 0} (lock : ℕ) (m m' : Memory D) (state : ℕ) : Type 0 where
  pub fields : HasFields (m'.cells lock) (version (m.cells lock)) state
  pub rest_same : m'.rest ≡ m.rest

module _ {D : Type 0} (lock old : ℕ) (m : Memory D) (w : World D) where
  Took-Swapped :
      (state : ℕ)
      → state < 256
      → Took lock old (same_version_new_state old state) m w.mem
      → Swapped lock m w.mem state
  Took-Swapped state h took = ground (arith, same_version_new_state-HasFields old state)

  pub try_lock_exclusive-Swapped :
      old < 2 ^ 64
      → try_lock_exclusive lock old (quiet m) ≡ ok true w
      → (lock_state (m.cells lock) ≡ unlocked) × Swapped lock m w.mem exclusive
  try_lock_exclusive-Swapped fits h =
      let (took, free) = try_lock_exclusive-Tried lock old m w true fits h in
      (ground (arith, free refl), Took-Swapped exclusive (omega arith) took)

  pub try_lock_exclusive_failed :
      old < 2 ^ 64 → try_lock_exclusive lock old (quiet m) ≡ ok false w → w.mem ≡ m
  try_lock_exclusive_failed fits h = (try_lock_exclusive-Tried lock old m w false fits h).0

  pub try_lock_shared-Swapped :
      try_lock_shared lock old (quiet m) ≡ ok true w
      → (lock_state (m.cells lock) < max_shared)
        × Swapped lock m w.mem (lock_state (m.cells lock) + 1)
  try_lock_shared-Swapped h =
      let (took, free) = try_lock_shared-Tried lock old m w true h in
      let small : lock_state old < max_shared = free refl in
      (ground arith, rw took.found (Took-Swapped (lock_state old + 1) (omega arith) took))

  pub try_lock_shared_failed : try_lock_shared lock old (quiet m) ≡ ok false w → w.mem ≡ m
  try_lock_shared_failed h = (try_lock_shared-Tried lock old m w false h).0

  pub upgrade_lock-Swapped :
      (spurious : Bool)
      → upgrade_lock lock old (paused m spurious) ≡ ok true w
      → (lock_state (m.cells lock) ≡ 1) × Swapped lock m w.mem exclusive
  upgrade_lock-Swapped spurious h =
      let (took, alone) = upgrade_lock-Tried lock old m w true spurious h in
      (ground (arith, alone refl), Took-Swapped exclusive (omega arith) took)

  pub upgrade_lock_failed :
      (spurious : Bool) → upgrade_lock lock old (paused m spurious) ≡ ok false w → w.mem ≡ m
  upgrade_lock_failed spurious h = (upgrade_lock-Tried lock old m w false spurious h).0

  module _ (spurious : Bool) (pos : 0 < lock_state old) (small : lock_state old < exclusive) where
    pub release_shared-Swapped :
        release_shared lock old (paused m spurious) ≡ ok true w
        → Swapped lock m w.mem (lock_state (m.cells lock) - 1)
    release_shared-Swapped h =
        let took = release_shared-Tried lock old m w true spurious pos (omega arith) h in
        rw took.found (Took-Swapped (lock_state old - 1) (omega arith) took)

    pub release_shared_failed : release_shared lock old (paused m spurious) ≡ ok false w → w.mem ≡ m
    release_shared_failed h = release_shared-Tried lock old m w false spurious pos (omega arith) h
