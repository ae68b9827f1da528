-- ===== src/Lock/Interface.antt =====
-- include/sync/lock.h: the class `HybridLock` as its callers see it. A reference to the atomic word is
-- its address; the loop of `UnlockShared` takes its number of rounds.
use optimistic_locking.Base.{ℕ, Bool}
use optimistic_locking.Machine.{M, World}
use optimistic_locking.Lock.Word.{
  lock_state, version, is_exclusively_locked, is_shared_locked, same_version_new_state,
  next_version_new_state,
}
use optimistic_locking.Lock.{
  hybrid_lock, current_lock_state, current_version, try_lock_exclusive, unlock_exclusive,
  try_lock_shared, unlock_shared, upgrade_lock, downgrade_lock,
}

pub record HybridLock (H : Type 0) : Type 0 where
  pub construct : M (World H) (Unit {0})
  -- the static members, then the members without an argument
  pub lock_state : ℕ → ℕ
  pub version : ℕ → ℕ
  pub current_lock_state : M (World H) ℕ
  pub current_version : M (World H) ℕ
  pub state_and_version : ℕ
  pub try_lock_exclusive : ℕ → M (World H) Bool
  pub unlock_exclusive : M (World H) (Unit {0})
  pub try_lock_shared : ℕ → M (World H) Bool
  pub unlock_shared : ℕ → M (World H) (Unit {0})
  pub upgrade_lock : ℕ → M (World H) Bool
  pub downgrade_lock : M (World H) (Unit {0})
  -- what the class keeps to itself and `HybridGuard`
  pub is_exclusively_locked : ℕ → Bool
  pub is_shared_locked : ℕ → Bool
  pub same_version_new_state : ℕ → ℕ → ℕ
  pub next_version_new_state : ℕ → ℕ → ℕ

-- the lock whose word has this address
abbrev pub state_and_version : ℕ → ℕ
state_and_version lock = lock

abbrev pub hybrid_lock_at : {H : Type 0} → ℕ → HybridLock H
hybrid_lock_at lock = record {
  construct = hybrid_lock lock;
  lock_state = lock_state;
  version = version;
  current_lock_state = current_lock_state lock;
  current_version = current_version lock;
  state_and_version = state_and_version lock;
  try_lock_exclusive = try_lock_exclusive lock;
  unlock_exclusive = unlock_exclusive lock;
  try_lock_shared = try_lock_shared lock;
  unlock_shared = λ rounds. unlock_shared rounds lock;
  upgrade_lock = upgrade_lock lock;
  downgrade_lock = downgrade_lock lock;
  is_exclusively_locked = is_exclusively_locked;
  is_shared_locked = is_shared_locked;
  same_version_new_state = same_version_new_state;
  next_version_new_state = next_version_new_state;
}
