-- ===== src/Lock/Refinement.antt =====
-- src/sync/lock.cc does on words what the specification says, for a thread that runs alone.
use optimistic_locking.Base.{
  ℕ, ◌+◌, ◌-◌, ◌^◌, ◌<◌, ◌≡◌, Bool, true, Option, none, some, [], ◌==◌, arith, dec_lt, ℕ_discrete,
}
use optimistic_locking.Machine.{Memory, World, M, Outcome, ok, aborted, quiet, pure, ◌>>◌}
use optimistic_locking.Lock.Word.{unlocked, max_shared, exclusive, lock_state, version}
use optimistic_locking.Lock.WordLaws.{
  same_version_new_state-HasFields, next_version_new_state-HasFields, lock_state-lt, word-eq,
  is_exclusively_locked-true, is_exclusively_locked-false, is_shared_locked-true,
  is_shared_locked-false, is_shared_locked-exclusive,
}
use optimistic_locking.Lock.Attempts.{
  try_lock_exclusive_busy, try_lock_exclusive_free, try_lock_shared_busy, try_lock_shared_free,
  upgrade_lock_busy, upgrade_lock_alone, release_shared_lem,
}
use optimistic_locking.Lock.Spec.{View, Operation, view_of, spec, same_view}
use optimistic_locking.Lock.{
  try_lock_exclusive, try_lock_shared, upgrade_lock, unlock_exclusive, unlock_shared,
  downgrade_lock,
}

abbrev pub view_operation : Operation ℕ → Operation View
view_operation (Operation.lock_exclusive old) = Operation.lock_exclusive (view_of old)
view_operation (Operation.lock_shared old) = Operation.lock_shared (view_of old)
view_operation (Operation.upgrade old) = Operation.upgrade (view_of old)
view_operation Operation.unlock_exclusive = Operation.unlock_exclusive
view_operation Operation.unlock_shared = Operation.unlock_shared
view_operation Operation.downgrade = Operation.downgrade

-- What the lock's word `w` and the operation must meet: a word that a caller hands over is 64 bits
-- wide, and a writer that releases the lock does not hold it at the last version.
abbrev pub Ready : ℕ → Operation ℕ → Type 0
Ready w (Operation.lock_exclusive old) = old < 2 ^ 64
Ready w (Operation.lock_shared old) = old < 2 ^ 64
Ready w (Operation.upgrade old) = old < 2 ^ 64
Ready w Operation.unlock_exclusive = version w + 1 < 2 ^ 56
Ready w Operation.unlock_shared = Unit
Ready w Operation.downgrade = version w + 1 < 2 ^ 56

-- The code of each operation.
abbrev pub run : {H : Type 0} → ℕ → Operation ℕ → M (World H) Bool
run lock (Operation.lock_exclusive old) = try_lock_exclusive lock old
run lock (Operation.lock_shared old) = try_lock_shared lock old
run lock (Operation.upgrade old) = upgrade_lock lock old
run lock Operation.unlock_exclusive = unlock_exclusive lock >> pure true
run lock Operation.unlock_shared = unlock_shared 1 lock >> pure true
run lock Operation.downgrade = downgrade_lock lock >> pure true

-- The outcome of the code is the one of the specification: the result, the view of the new word,
-- a word of 64 bits again, and the data untouched; or a failed assertion.
abbrev pub Agrees :
    {H : Type 0} → ℕ → Memory H → Outcome (World H) Bool → Option (Bool × View) → Type 0
Agrees lock m (ok b w) (some (c, v)) =
    (b ≡ c)
    × (view_of ((w.mem).cells lock) ≡ v)
    × ((w.mem).cells lock < 2 ^ 64)
    × ((w.mem).rest ≡ m.rest)
    × (w.turns ≡ [])
Agrees lock m aborted none = Unit
Agrees lock m _ _ = ⊥

-- The same word, or the same view: words below 2 ^ 64 are told apart by their views.
same_view-word : (u v : ℕ) → u < 2 ^ 64 → v < 2 ^ 64 → same_view (view_of u) (view_of v) ≡ (v == u)
same_view-word u v hu hv = ground (arith, word-eq u, word-eq v, lock_state-lt u, lock_state-lt v)

module _ {H : Type 0} (lock : ℕ) (m : Memory H) (fits : m.cells lock < 2 ^ 64) where
  abbrev w : ℕ
  w = m.cells lock

  run-lock_exclusive :
      (old : ℕ)
      → old < 2 ^ 64
      → Agrees lock m
          (run lock (Operation.lock_exclusive old) (quiet m))
          (spec (Operation.lock_exclusive (view_of old)) (view_of w))
  unfolding spec
  run-lock_exclusive old h = elim (ℕ_discrete (lock_state old) unlocked) [
    | yes free ↦
        rw (try_lock_exclusive_free lock old free, same_view-word old w h fits)
          (ground (arith, same_version_new_state-HasFields old exclusive))
    | no busy ↦
        rw (try_lock_exclusive_busy lock old h busy, same_view-word old w h fits) (ground arith)
  ]

  run-lock_shared :
      (old : ℕ)
      → old < 2 ^ 64
      → Agrees lock m
          (run lock (Operation.lock_shared old) (quiet m))
          (spec (Operation.lock_shared (view_of old)) (view_of w))
  unfolding spec
  run-lock_shared old h = elim (dec_lt (lock_state old) max_shared) [
    | yes free ↦
        rw (try_lock_shared_free lock old free, same_view-word old w h fits)
          (ground (arith, same_version_new_state-HasFields old (lock_state old + 1)))
    | no busy ↦
        rw (try_lock_shared_busy lock old (omega arith), same_view-word old w h fits)
          (ground (arith, lock_state-lt old))
  ]

  run-upgrade :
      (old : ℕ)
      → old < 2 ^ 64
      → Agrees lock m
          (run lock (Operation.upgrade old) (quiet m))
          (spec (Operation.upgrade (view_of old)) (view_of w))
  unfolding spec
  run-upgrade old h = elim (ℕ_discrete (lock_state old) 1) [
    | yes alone ↦
        rw (upgrade_lock_alone lock old alone, same_view-word old w h fits)
          (ground (arith, same_version_new_state-HasFields old exclusive))
    | no other ↦ rw (upgrade_lock_busy lock old other, same_view-word old w h fits) (ground arith)
  ]

  module _ (last : version w + 1 < 2 ^ 56) where
    run-unlock_exclusive :
        Agrees lock m
          (run lock Operation.unlock_exclusive (quiet m))
          (spec Operation.unlock_exclusive (view_of w))
    unfolding spec unlock_exclusive
    run-unlock_exclusive = elim (ℕ_discrete (lock_state w) exclusive) [
      | yes held ↦
          rw (is_exclusively_locked-true w held)
            (ground (arith, next_version_new_state-HasFields w unlocked))
      | no other ↦
          rw (is_exclusively_locked-false w (omega (arith, lock_state-lt w fits))) (ground arith)
    ]

    run-downgrade :
        Agrees lock m
          (run lock Operation.downgrade (quiet m))
          (spec Operation.downgrade (view_of w))
    unfolding spec downgrade_lock
    run-downgrade = elim (ℕ_discrete (lock_state w) exclusive) [
      | yes held ↦
          rw (is_exclusively_locked-true w held)
            (ground (arith, next_version_new_state-HasFields w 1))
      | no other ↦
          rw (is_exclusively_locked-false w (omega (arith, lock_state-lt w fits))) (ground arith)
    ]

  run-unlock_shared :
      Agrees lock m
        (run lock Operation.unlock_shared (quiet m))
        (spec Operation.unlock_shared (view_of w))
  unfolding spec unlock_shared
  run-unlock_shared = elim (dec_lt 0 (lock_state w)) [
    | yes pos ↦ elim (ℕ_discrete (lock_state w) exclusive) [
      | yes held ↦ rw (is_shared_locked-exclusive w held) (ground arith)
      | no other ↦
          let small : lock_state w < exclusive = omega (arith, lock_state-lt w fits) in
          rw (is_shared_locked-true w pos small, release_shared_lem lock w pos (omega arith))
            (ground (arith, same_version_new_state-HasFields w (lock_state w - 1)))
    ]
    | no none_left ↦ rw (is_shared_locked-false w (omega arith)) (ground arith)
  ]

  -- On a lock whose word is 64 bits wide, and away from the last version where a writer releases
  -- it, each of the six operations, run by one thread alone, does what the specification says of
  -- the view of the word: the result, the new holders and version or the failed assertion, and no
  -- change of the data.
  pub run-spec :
      (o : Operation ℕ)
      → Ready w o
      → Agrees lock m (run lock o (quiet m)) (spec (view_operation o) (view_of w))
  run-spec (Operation.lock_exclusive old) h = run-lock_exclusive old h
  run-spec (Operation.lock_shared old) h = run-lock_shared old h
  run-spec (Operation.upgrade old) h = run-upgrade old h
  run-spec Operation.unlock_exclusive last = run-unlock_exclusive last
  run-spec Operation.unlock_shared _ = run-unlock_shared
  run-spec Operation.downgrade last = run-downgrade last
