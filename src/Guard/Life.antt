-- ===== src/Guard/Life.antt =====
-- src/sync/guard.cc: guards from construction to destruction, for one thread alone.
use optimistic_locking.Base.{ℕ, suc, ◌+◌, ◌^◌, ◌<◌, ◌≡◌, ◌≢◌, refl, ap, false, true, arith}
use optimistic_locking.Machine.{
  Memory, World, M, Outcome, ok, thrown, aborted, running, restart_exception, quiet, set_cell,
  ◌>>=◌,
}
use optimistic_locking.Lock.Word.{
  unlocked, exclusive, lock_state, version, same_version_new_state, next_version_new_state,
}
use optimistic_locking.Lock.WordLaws.{
  HasFields, same_version_new_state-HasFields, next_version_new_state-HasFields,
}
use optimistic_locking.Guard.{
  HybridGuard, optimistic, exclusively, moved, is_optimistic, Self, hybrid_guard, destroy_guard,
  validate_optimistic_lock, move_assign, must_restart,
}
use optimistic_locking.Guard.Steps.{
  hybrid_guard-exclusive, destroy_guard_held, destroy_guard_not_held, hybrid_guard-optimistic,
  validate_fails,
}

module _ {H : Type 0} where
  abbrev pub forget : Outcome (Self H) (Unit {0}) → Outcome (World H) (Unit {0})
  forget (ok _ (_, w)) = ok tt w
  forget (thrown e (_, w)) = thrown e w
  forget aborted = aborted
  forget running = running

  -- `{ HybridGuard guard(&lock, GuardMode::EXCLUSIVE); }`
  abbrev pub exclusive_scope : ℕ → ℕ → M (World H) (Unit {0})
  exclusive_scope rounds lock = do
    g ← hybrid_guard rounds lock exclusively
    λ w. forget (destroy_guard rounds (g, w))

  abbrev put : ℕ → Memory H → ℕ → Memory H
  put lock m v = (set_cell (quiet m) lock v).mem

  -- memory behind the release of the lock by a writer
  abbrev pub released : ℕ → Memory H → Memory H
  released lock m = put lock m (next_version_new_state (m.cells lock) unlocked)

version_changed :
    (latest state : ℕ) → version latest ≢ version state → must_restart latest state ≡ true
unfolding must_restart
version_changed latest state h = ground arith

module _ {H : Type 0} (lock : ℕ) (m : Memory H) (free : lock_state (m.cells lock) ≡ unlocked)
    (small : version (m.cells lock) + 1 < 2 ^ 56) where
  abbrev locked : ℕ
  locked = same_version_new_state (m.cells lock) exclusive

  abbrev pub behind : Memory H
  behind = put lock (put lock m locked) (next_version_new_state locked unlocked)

  locked-HasFields : HasFields locked (version (m.cells lock)) exclusive
  locked-HasFields = same_version_new_state-HasFields (m.cells lock) exclusive (omega arith)

  behind-HasFields : HasFields (behind.cells lock) (version (m.cells lock) + 1) unlocked
  behind-HasFields =
      ground (arith, next_version_new_state-HasFields locked unlocked, locked-HasFields)

  -- the words in the memory that holds the lock, and in that behind
  locked_word : (put lock m locked).cells lock ≡ locked
  locked_word = ground arith

  behind_is :
      put lock
        (put lock m locked)
        (next_version_new_state ((put lock m locked).cells lock) unlocked)
      ≡ behind
  behind_is = rw locked_word

  exclusive_scope-behind :
      (rounds : ℕ) → exclusive_scope (suc rounds) lock (quiet m) ≡ ok tt (quiet behind)
  exclusive_scope-behind rounds =
      let held : lock_state ((put lock m locked).cells lock) ≡ exclusive =
        ground (arith, locked-HasFields) in
      let made = hybrid_guard-exclusive lock m rounds free in
      let ended = destroy_guard_held lock (put lock m locked) (suc rounds) 0 held in
      rw made (rw ended (ap (λ b. ok tt (quiet b)) behind_is))

  -- On a free lock that is not at the last version: an optimistic guard, then a whole scope with an
  -- exclusive guard, then the validation of the first guard. The validation throws
  -- `RestartException` and leaves the first guard moved, whose destructor then does nothing.
  -- The scope leaves the lock free, with the next version, and the data as it was.
  pub overtaken_guard_restarts :
      (rounds : ℕ)
      → let g : HybridGuard = record { lock = lock; mode = optimistic; state = m.cells lock } in
        let spent : HybridGuard = record { lock = lock; mode = moved; state = m.cells lock } in
        (m' : Memory H) × (hybrid_guard (suc rounds) lock optimistic (quiet m) ≡ ok g (quiet m))
        × (exclusive_scope (suc rounds) lock (quiet m) ≡ ok tt (quiet m'))
        × (validate_optimistic_lock (g, quiet m') ≡ thrown restart_exception (spent, quiet m'))
        × (destroy_guard rounds (spent, quiet m') ≡ ok tt (spent, quiet m'))
        × HasFields (m'.cells lock) (version (m.cells lock) + 1) unlocked
        × (m'.rest ≡ m.rest)
  unfolding destroy_guard
  overtaken_guard_restarts rounds = (
    behind,
    hybrid_guard-optimistic lock m rounds (omega arith),
    exclusive_scope-behind rounds,
    validate_fails lock behind (m.cells lock) restarts,
    refl,
    behind-HasFields,
    refl,
  )
    where
      restarts : must_restart (behind.cells lock) (m.cells lock) ≡ true
      restarts =
          version_changed (behind.cells lock) (m.cells lock) (omega (arith, behind-HasFields))

-- The source of a move assignment keeps its lock and its mode.
module _ {H : Type 0} (lock other_state : ℕ) (m : Memory H) (target : HybridGuard) where
  abbrev source : HybridGuard
  source = record { lock = lock; mode = exclusively; state = other_state }

  -- A guard that is not optimistic is assigned an exclusive guard whose lock is held exclusively, not
  -- at the last version. Then both guards hold the lock: the destructor of the first releases it,
  -- and that of the second fails the assertion of `UnlockExclusive`.
  pub move_assign_releases_twice :
      (rounds : ℕ)
      → is_optimistic target.mode ≡ false
      → lock_state (m.cells lock) ≡ exclusive
      → version (m.cells lock) + 1 < 2 ^ 56
      → (move_assign source (target, quiet m) ≡ ok tt (source, quiet m))
        × (destroy_guard rounds (source, quiet m)
            ≡ ok tt (record source { mode = moved }, quiet (released lock m)))
        × (destroy_guard rounds (source, quiet (released lock m)) ≡ aborted)
  unfolding move_assign
  move_assign_releases_twice rounds plain held small = (
    rw plain,
    destroy_guard_held lock m rounds other_state held,
    destroy_guard_not_held lock (released lock m) rounds other_state
        (ground (arith, next_version_new_state-HasFields (m.cells lock) unlocked)),
  )
