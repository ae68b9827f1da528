-- ===== src/Lock/Attempts.antt =====
-- src/sync/lock.cc: what an attempt to take, release or upgrade a lock did, read off its result.
use optimistic_locking.Base.{
  ℕ, ◌+◌, ◌-◌, ◌%◌, ◌^◌, ◌<◌, ◌≡◌, ◌≢◌, Bool, true, false, ◌&&◌, ltb, leb, ◌==◌, arith, dec_lt,
  ℕ_discrete,
}
use optimistic_locking.Machine.{
  Memory, World, Outcome, ok, quiet, paused, compare_exchange_strong, compare_exchange_weak,
}
use optimistic_locking.Lock.Word.{
  unlocked, max_shared, exclusive, lock_state, same_version_new_state,
}
use optimistic_locking.Lock.WordLaws.{lock_state-lt}
use optimistic_locking.Lock.{try_lock_exclusive, try_lock_shared, release_shared, upgrade_lock}

-- The exchange put a new word in the place of `old`, or it changed nothing.
pub record Took {H : Type 0} (lock old new : ℕ) (m m' : Memory H) : Type 0 where
  pub found : m.cells lock ≡ old
  pub left : m'.cells lock ≡ new
  pub rest_same : m'.rest ≡ m.rest

abbrev pub Tried : {H : Type 0} → ℕ → ℕ → ℕ → Memory H → Memory H → Bool → Type 0
Tried lock old new m m' true = Took lock old new m m'
Tried lock old new m m' false = m' ≡ m

module _ {H : Type 0} (lock old : ℕ) where
  -- Each operation either refuses at once, with no access to memory, or is one exchange.
  pub try_lock_exclusive_busy :
      old < 2 ^ 64
      → lock_state old ≢ unlocked
      → (w : World H) → try_lock_exclusive lock old w ≡ ok false w
  unfolding try_lock_exclusive
  try_lock_exclusive_busy fits h w =
      let e : (ltb unlocked (lock_state old) && leb (lock_state old) exclusive) ≡ true =
        ground (arith, lock_state-lt old) in
      rw e

  pub try_lock_exclusive_free :
      lock_state old ≡ unlocked
      → (w : World H)
      → try_lock_exclusive lock old w
        ≡ compare_exchange_strong lock old (same_version_new_state old exclusive) w
  unfolding try_lock_exclusive
  try_lock_exclusive_free h w = rw h

  pub try_lock_shared_busy :
      max_shared < lock_state old + 1 → (w : World H) → try_lock_shared lock old w ≡ ok false w
  unfolding try_lock_shared
  try_lock_shared_busy h w = let e : ltb (lock_state old) max_shared ≡ false = ground arith in rw e

  pub try_lock_shared_free :
      lock_state old < max_shared
      → (w : World H)
      → try_lock_shared lock old w
        ≡ compare_exchange_strong lock old (same_version_new_state old (lock_state old + 1)) w
  unfolding try_lock_shared
  try_lock_shared_free h w = let e : ltb (lock_state old) max_shared ≡ true = ground arith in rw e

  pub upgrade_lock_busy : lock_state old ≢ 1 → (w : World H) → upgrade_lock lock old w ≡ ok false w
  unfolding upgrade_lock
  upgrade_lock_busy h w = let e : (lock_state old == 1) ≡ false = ground arith in rw e

  pub upgrade_lock_alone :
      lock_state old ≡ 1
      → (w : World H)
      → upgrade_lock lock old w
        ≡ compare_exchange_weak lock old (same_version_new_state old exclusive) w
  unfolding upgrade_lock
  upgrade_lock_alone h w = rw h

  -- `-` on uint64_t, where it does not wrap
  pub release_shared_lem :
      0 < lock_state old
      → lock_state old < 2 ^ 64
      → (w : World H)
      → release_shared lock old w
        ≡ compare_exchange_weak lock old (same_version_new_state old (lock_state old - 1)) w
  unfolding release_shared
  release_shared_lem pos fits w =
      let e : (lock_state old + 2 ^ 64 - 1) % 2 ^ 64 ≡ lock_state old - 1 = omega arith in rw e

  refused :
      {G : Type 0} (new : ℕ) (b : Bool) (w w' : World H)
      → ◌≡◌ {A = Outcome (World H) Bool} (ok false w) (ok b w')
      → Tried lock old new w.mem w'.mem b × (b ≡ true → G)
  refused new true w w' e = cc
  refused new false w w' e = (cc, λ f. cc)

  module _ (m : Memory H) (w' : World H) where
    compare_exchange_strong-Tried :
        (new : ℕ) (b : Bool)
        → compare_exchange_strong lock old new (quiet m) ≡ ok b w'
        → Tried lock old new m w'.mem b
    compare_exchange_strong-Tried new true h = ground arith
    compare_exchange_strong-Tried new false h = ground arith

    compare_exchange_weak-Tried :
        (new : ℕ) (b spurious : Bool)
        → compare_exchange_weak lock old new (paused m spurious) ≡ ok b w'
        → Tried lock old new m w'.mem b
    compare_exchange_weak-Tried new true true h = ground arith
    compare_exchange_weak-Tried new true false h = ground arith
    compare_exchange_weak-Tried new false true h = ground arith
    compare_exchange_weak-Tried new false false h = ground arith

    -- What each attempt needs of the word that it was given, and what it then does.
    pub try_lock_exclusive-Tried :
        (b : Bool)
        → old < 2 ^ 64
        → try_lock_exclusive lock old (quiet m) ≡ ok b w'
        → Tried lock old (same_version_new_state old exclusive) m w'.mem b
          × (b ≡ true → lock_state old ≡ unlocked)
    try_lock_exclusive-Tried b fits h = elim (ℕ_discrete (lock_state old) unlocked) [
      | yes free ↦
          (compare_exchange_strong-Tried _ b (rw (try_lock_exclusive_free free) at h), λ _. free)
      | no busy ↦ refused _ b (quiet m) w' (rw (try_lock_exclusive_busy fits busy) at h)
    ]

    pub try_lock_shared-Tried :
        (b : Bool)
        → try_lock_shared lock old (quiet m) ≡ ok b w'
        → Tried lock old (same_version_new_state old (lock_state old + 1)) m w'.mem b
          × (b ≡ true → lock_state old < max_shared)
    try_lock_shared-Tried b h = elim (dec_lt (lock_state old) max_shared) [
      | yes free ↦
          (compare_exchange_strong-Tried _ b (rw (try_lock_shared_free free) at h), λ _. free)
      | no busy ↦ refused _ b (quiet m) w' (rw (try_lock_shared_busy (omega arith)) at h)
    ]

    pub upgrade_lock-Tried :
        (b spurious : Bool)
        → upgrade_lock lock old (paused m spurious) ≡ ok b w'
        → Tried lock old (same_version_new_state old exclusive) m w'.mem b
          × (b ≡ true → lock_state old ≡ 1)
    upgrade_lock-Tried b spurious h = elim (ℕ_discrete (lock_state old) 1) [
      | yes alone ↦ (
        compare_exchange_weak-Tried _ b spurious (rw (upgrade_lock_alone alone) at h),
        λ _. alone,
      )
      | no other ↦ refused _ b (paused m spurious) w' (rw (upgrade_lock_busy other) at h)
    ]

    pub release_shared-Tried :
        (b spurious : Bool)
        → 0 < lock_state old
        → lock_state old < 2 ^ 64
        → release_shared lock old (paused m spurious) ≡ ok b w'
        → Tried lock old (same_version_new_state old (lock_state old - 1)) m w'.mem b
    release_shared-Tried b spurious pos fits h =
        compare_exchange_weak-Tried _ b spurious (rw (release_shared_lem pos fits) at h)
