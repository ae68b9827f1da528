-- ===== src/Lock.antt =====
-- src/sync/lock.cc: the operations of `HybridLock` on the atomic word at an address. A spurious
-- failure of `compare_exchange_weak` and what other threads do to the word come with the world.
pub mod Word
pub mod WordLaws
pub mod Attempts
pub mod Spec
pub mod Refinement
pub mod Wrap
pub mod Retry
pub mod Interface
pub mod History
use optimistic_locking.Base.{
  ℕ, zero, suc, ◌+◌, ◌-◌, Bool, true, false, not, ◌&&◌, ltb, leb, ◌==◌, if◌then◌else◌,
}
use optimistic_locking.Machine.{
  M, World, pure, running, assert, load, store, compare_exchange_strong, compare_exchange_weak,
  ◌>>=◌, ◌>>◌,
}
use Word.{
  unlocked, max_shared, exclusive, u64_mod, u64, lock_state, version, is_exclusively_locked,
  is_shared_locked, same_version_new_state, next_version_new_state,
}

module _ {H : Type 0} where
  -- the constructor
  unfoldable pub hybrid_lock : ℕ → M (World H) (Unit {0})
  hybrid_lock lock = store lock (same_version_new_state 0 unlocked)

  -- the members `LockState()` and `Version()`
  unfoldable pub current_lock_state : ℕ → M (World H) ℕ
  current_lock_state lock = do v ← load lock; pure (lock_state v)

  unfoldable pub current_version : ℕ → M (World H) ℕ
  current_version lock = do v ← load lock; pure (version v)

  unfoldable pub try_lock_exclusive : ℕ → ℕ → M (World H) Bool
  try_lock_exclusive lock old =
      if ltb unlocked (lock_state old) && leb (lock_state old) exclusive
      then pure false
      else compare_exchange_strong lock old (same_version_new_state old exclusive)

  unfoldable pub unlock_exclusive : ℕ → M (World H) (Unit {0})
  unlock_exclusive lock = do
    seen ← load lock
    assert (is_exclusively_locked seen)
    v ← load lock
    store lock (next_version_new_state v unlocked)

  unfoldable pub downgrade_lock : ℕ → M (World H) (Unit {0})
  downgrade_lock lock = do
    seen ← load lock
    assert (is_exclusively_locked seen)
    v ← load lock
    store lock (next_version_new_state v 1)

  unfoldable pub try_lock_shared : ℕ → ℕ → M (World H) Bool
  try_lock_shared lock old =
      if ltb (lock_state old) max_shared
      then compare_exchange_strong lock old (same_version_new_state old (lock_state old + 1))
      else pure false

  unfoldable pub upgrade_lock : ℕ → ℕ → M (World H) Bool
  upgrade_lock lock old =
      if not (lock_state old == 1)
      then pure false
      else compare_exchange_weak lock old (same_version_new_state old exclusive)

  -- One round of `UnlockShared` after its load: the exchange.
  unfoldable pub release_shared : ℕ → ℕ → M (World H) Bool
  release_shared lock old =
      compare_exchange_weak lock old
        (same_version_new_state old (u64 (lock_state old + u64_mod - 1)))

  -- The loop of `UnlockShared`, for as many rounds as the fuel says.
  unfoldable pub unlock_shared : ℕ → ℕ → M (World H) (Unit {0})
  unfolding release_shared
  unlock_shared zero lock = λ _. running
  unlock_shared (suc rounds) lock = do
    old ← load lock
    assert (is_shared_locked old)
    done ← release_shared lock old
    if done then pure tt else unlock_shared rounds lock
