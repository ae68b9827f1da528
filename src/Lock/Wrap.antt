-- ===== src/Lock/Wrap.antt =====
-- src/sync/lock.cc: the release by a writer at the last version.
use optimistic_locking.Base.{ℕ, ◌+◌, ◌^◌, ◌≡◌, false, arith}
use optimistic_locking.Machine.{Memory, ok, quiet, set_cell}
use optimistic_locking.Lock.Word.{unlocked, exclusive, lock_state, version, next_version_new_state}
use optimistic_locking.Lock.WordLaws.{
  HasFields, next_version_new_state-carry, is_exclusively_locked-true,
}
use optimistic_locking.Lock.Attempts.{try_lock_exclusive_busy}
use optimistic_locking.Lock.{try_lock_exclusive, unlock_exclusive}

-- A lock that is held exclusively at the last version, 2 ^ 56 - 1, is not free after
-- `UnlockExclusive`: its version is 0 and its state 1, as if one thread held it shared, and
-- `TryLockExclusive` on its word fails.
pub unlock_exclusive_last_version :
    {H : Type 0} (lock : ℕ) (m : Memory H)
    → lock_state (m.cells lock) ≡ exclusive
    → version (m.cells lock) + 1 ≡ 2 ^ 56
    → (m' : Memory H) × (unlock_exclusive lock (quiet m) ≡ ok tt (quiet m'))
      × HasFields (m'.cells lock) 0 1
      × (try_lock_exclusive lock (m'.cells lock) (quiet m') ≡ ok false (quiet m'))
unfolding unlock_exclusive
unlock_exclusive_last_version lock m held last =
    let new : ℕ = next_version_new_state (m.cells lock) unlocked in
    let m' = (set_cell (quiet m) lock new).mem in
    let fields = next_version_new_state-carry (m.cells lock) unlocked (omega arith) last in
    let word_is : m'.cells lock ≡ new = ground arith in
    let after : HasFields (m'.cells lock) 0 1 = rw word_is fields in
    (
      m',
      rw (is_exclusively_locked-true (m.cells lock) held),
      after,
      try_lock_exclusive_busy lock (m'.cells lock) after.fits (omega (arith, after.state_is))
          (quiet m'),
    )
