-- ===== src/Threads/Defs.antt =====
-- The invariant of the threads: the state of the lock's word counts the holders, and its version
-- the releases.
use optimistic_locking.Base.{ℕ, ◌+◌, ◌*◌, ◌^◌, ◌≤◌, ◌<◌, ◌≡◌, ◌≢◌, List, All, total}
use optimistic_locking.Lock.Word.{max_shared, exclusive, lock_state, version}
use optimistic_locking.Threads.{
  Pc, idle, locking_exclusive, writing, unlocking, storing_unlocked, downgrading, storing_shared,
  reading, upgrading, releasing, unlocking_shared, observing, crashed, Shared, word,
}

abbrev pub holds_exclusive : {D : Type 0} → Pc D → ℕ
holds_exclusive writing = 1
holds_exclusive unlocking = 1
holds_exclusive (storing_unlocked _) = 1
holds_exclusive downgrading = 1
holds_exclusive (storing_shared _) = 1
holds_exclusive _ = 0

abbrev pub holds_shared : {D : Type 0} → Pc D → ℕ
holds_shared reading = 1
holds_shared (upgrading _) = 1
holds_shared releasing = 1
holds_shared (unlocking_shared _) = 1
holds_shared _ = 0

-- The word, where `E` threads hold the lock exclusively and `S` threads hold it shared.
pub record Counted {D : Type 0} (lock : ℕ) (s : Shared D) (E S : ℕ) : Type 0 where
  pub fits : word lock s < 2 ^ 64
  pub state_is : lock_state (word lock s) ≡ E * exclusive + S
  pub room : E * max_shared + S ≤ max_shared
  pub version_is : version (word lock s) ≡ s.bumps

-- What an optimistic guard may rely on: if the version is that of its snapshot and no writer holds
-- the lock, then all that it has read is what the data is now.
pub record Observed {D : Type 0} (lock : ℕ) (s : Shared D) (state : ℕ) (seen : List D)
    : Type 0 where
  pub snapshot : version state ≤ s.bumps
  pub same :
      version state ≡ s.bumps
      → lock_state (word lock s) ≢ exclusive
      → All (λ d. d ≡ (s.mem).rest) seen

-- What the locals of a thread say about shared memory.
abbrev pub IsSound : {D : Type 0} → ℕ → Shared D → Pc D → Type 0
IsSound lock s (locking_exclusive old) = old < 2 ^ 64
IsSound lock s (storing_unlocked v) = v ≡ word lock s
IsSound lock s (storing_shared v) = v ≡ word lock s
IsSound lock s (unlocking_shared old) = (0 < lock_state old) × (lock_state old < exclusive)
IsSound lock s (observing state seen) = Observed lock s state seen
IsSound lock s crashed = ⊥
IsSound lock s _ = Unit

pub record Inv {D : Type 0} (lock n : ℕ) (s : Shared D) (pc : ℕ → Pc D) : Type 0 where
  pub counted : Counted lock s (total holds_exclusive n pc) (total holds_shared n pc)
  pub sound : (i : ℕ) → IsSound lock s (pc i)
  pub outside : (i : ℕ) → n ≤ i → pc i ≡ idle
