-- ===== src/Threads.antt =====
-- Threads that use one `HybridLock` through guards, interleaved at every access of its word. `D` is
-- the data that the lock protects.
pub mod Defs
mod Swaps
mod Moves
mod Effects
pub mod Invariant
pub mod Safety
pub mod Code
use optimistic_locking.Base.{ℕ, suc, ◌<◌, ◌≡◌, ◌≢◌, Bool, true, false, List, [], ◌∷◌, update}
use optimistic_locking.Machine.{Memory, World, ok, quiet, paused}
use optimistic_locking.Lock.Word.{
  unlocked, exclusive, lock_state, is_exclusively_locked, is_shared_locked, next_version_new_state,
}
use optimistic_locking.Lock.{
  hybrid_lock, try_lock_exclusive, try_lock_shared, upgrade_lock, release_shared,
}
use optimistic_locking.Guard.{must_restart}

-- Where a thread stands, with the local variables that are live there.
pub data Pc (D : Type 0) : Type 0 where
  idle : Pc D
  locking_exclusive : (old : ℕ) → Pc D  -- before the call of `TryLockExclusive`
  writing : Pc D  -- holds the lock exclusively
  unlocking : Pc D  -- in `UnlockExclusive`, behind the assertion
  storing_unlocked : (v : ℕ) → Pc D  -- in `UnlockExclusive`, before the store
  downgrading : Pc D  -- in `DowngradeLock`, behind the assertion
  storing_shared : (v : ℕ) → Pc D  -- in `DowngradeLock`, before the store
  locking_shared : (old : ℕ) → Pc D  -- before the call of `TryLockShared`
  reading : Pc D  -- holds the lock shared
  upgrading : (old : ℕ) → Pc D  -- before the call of `UpgradeLock`
  releasing : Pc D  -- in `UnlockShared`, at the head of the loop
  unlocking_shared : (old : ℕ) → Pc D  -- in `UnlockShared`, before the exchange
  observing : (state : ℕ) (seen : List D) → Pc D  -- an optimistic guard, and what was read so far
  validated : (seen : List D) → Pc D  -- the optimistic guard has ended without an exception
  crashed : Pc D  -- an assertion has failed

-- Memory, and how often a version was counted up since the start. No code reads the count.
pub record Shared (D : Type 0) : Type 0 where
  pub mem : Memory D
  pub bumps : ℕ

module _ {D : Type 0} where
  abbrev pub word : ℕ → Shared D → ℕ
  word lock s = (s.mem).cells lock

  abbrev pub put_word : ℕ → Shared D → ℕ → Shared D
  put_word lock s v = record s { mem = record (s.mem) { cells = update (s.mem).cells lock v } }

  abbrev pub bump_word : ℕ → Shared D → ℕ → Shared D
  bump_word lock s v = record {
    mem = record (s.mem) { cells = update (s.mem).cells lock v };
    bumps = suc s.bumps;
  }

  abbrev pub put_data : Shared D → D → Shared D
  put_data s d = record s { mem = record (s.mem) { rest = d } }

  abbrev pub pick_pc : Bool → Pc D → Pc D → Pc D
  pick_pc true p q = p
  pick_pc false p q = q

-- One access of one thread, by the code of the lock and of the guard. Which lock a thread takes
-- next, and what it writes, is left open.
pub data Move {D : Type 0} (lock : ℕ) (s : Shared D) : Pc D → Shared D → Pc D → Type 0 where
  load_exclusive : Move lock s idle s (locking_exclusive (word lock s))
  try_exclusive :
      {old : ℕ} {b : Bool} {w : World D}
      → try_lock_exclusive lock old (quiet s.mem) ≡ ok b w
      → Move lock s (locking_exclusive old) (record s { mem = w.mem }) (pick_pc b writing idle)
  write : (d : D) → Move lock s writing (put_data s d) writing
  assert_exclusive :
      {b : Bool}
      → is_exclusively_locked (word lock s) ≡ b
      → Move lock s writing s (pick_pc b unlocking crashed)
  load_unlocking : Move lock s unlocking s (storing_unlocked (word lock s))
  store_unlocked :
      {v : ℕ}
      → Move lock s (storing_unlocked v) (bump_word lock s (next_version_new_state v unlocked)) idle
  assert_downgrade :
      {b : Bool}
      → is_exclusively_locked (word lock s) ≡ b
      → Move lock s writing s (pick_pc b downgrading crashed)
  load_downgrading : Move lock s downgrading s (storing_shared (word lock s))
  store_shared :
      {v : ℕ}
      → Move lock s (storing_shared v) (bump_word lock s (next_version_new_state v 1)) reading
  load_shared : Move lock s idle s (locking_shared (word lock s))
  try_shared :
      {old : ℕ} {b : Bool} {w : World D}
      → try_lock_shared lock old (quiet s.mem) ≡ ok b w
      → Move lock s (locking_shared old) (record s { mem = w.mem }) (pick_pc b reading idle)
  load_upgrading : Move lock s reading s (upgrading (word lock s))
  upgrade :
      {old : ℕ} {b : Bool} {w : World D} (spurious : Bool)
      → upgrade_lock lock old (paused s.mem spurious) ≡ ok b w
      → Move lock s (upgrading old) (record s { mem = w.mem }) (pick_pc b writing reading)
  call_unlock_shared : Move lock s reading s releasing
  load_unlocking_shared :
      {b : Bool}
      → is_shared_locked (word lock s) ≡ b
      → Move lock s releasing s (pick_pc b (unlocking_shared (word lock s)) crashed)
  unlock_shared :
      {old : ℕ} {b : Bool} {w : World D} (spurious : Bool)
      → release_shared lock old (paused s.mem spurious) ≡ ok b w
      → Move lock s (unlocking_shared old) (record s { mem = w.mem }) (pick_pc b idle releasing)
  wait_optimistic : lock_state (word lock s) ≡ exclusive → Move lock s idle s idle
  start_optimistic :
      lock_state (word lock s) ≢ exclusive → Move lock s idle s (observing (word lock s) [])
  observe :
      {state : ℕ} {seen : List D}
      → Move lock s (observing state seen) s (observing state ((s.mem).rest ∷ seen))
  validate :
      {state : ℕ} {seen : List D} {b : Bool}
      → must_restart (word lock s) state ≡ b
      → Move lock s (observing state seen) s (pick_pc b idle (validated seen))
  finish : {seen : List D} → Move lock s (validated seen) s idle

-- `n` threads; an index from `n` on names no thread, and stays `idle`.
pub record System (D : Type 0) : Type 0 where
  pub shared : Shared D
  pub pc : ℕ → Pc D

pub data Step {D : Type 0} (lock n : ℕ) (s : System D) : System D → Type 0 where
  pick :
      (i : ℕ) {t : Shared D} {p : Pc D}
      → i < n
      → Move lock s.shared (s.pc i) t p
      → Step lock n s (record { shared = t; pc = update s.pc i p })

-- From a new lock, with all threads idle.
pub data Reach {D : Type 0} (lock n : ℕ) : System D → Type 0 where
  start :
      (m : Memory D) {w : World D}
      → hybrid_lock lock (quiet m) ≡ ok tt w
      → Reach lock n (record { shared = record { mem = w.mem; bumps = 0 }; pc = λ _. idle })
  later : {s t : System D} → Reach lock n s → Step lock n s t → Reach lock n t
