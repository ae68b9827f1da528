-- ===== src/Tests/Threads.antt =====
-- Interleavings of two threads on a lock at address 0 that protects one number.
use optimistic_locking.Base.{
  ℕ, zero, suc, ◌+◌, ◌*◌, ◌≤◌, ◌<◌, ◌≡◌, ◌≢◌, refl, true, [], ◌∷◌, All, total, update, arith,
  ℕ_discrete,
}
use optimistic_locking.Machine.{Memory}
use optimistic_locking.Lock.Word.{
  lock_state, version, exclusive, max_shared, is_exclusively_locked, same_version_new_state,
  next_version_new_state,
}
use optimistic_locking.Lock.{hybrid_lock, try_lock_exclusive}
use optimistic_locking.Guard.{must_restart}
use optimistic_locking.Threads.Defs.{holds_exclusive, holds_shared}
use optimistic_locking.Threads.Safety.{
  mutual_exclusion, word_counts_holders, assertions_hold, optimistic_read_consistent,
}
use optimistic_locking.Threads.{Pc, Shared, Move, System, Step, Reach, word}

abbrev memory : ℕ → Memory ℕ
memory w = record { cells = update (λ _. 0) 0 w; rest = 7 }

record Run : Type 0 where
  last : System ℕ
  reach : Reach 0 2 last

abbrev turn :
    {t : Shared ℕ} {p : Pc ℕ} (r : Run) (i : ℕ)
    → i < 2
    → Move 0 (r.last).shared ((r.last).pc i) t p
    → Run
turn r i lt mv = record { last = _; reach = Reach.later r.reach (Step.pick i lt mv) }

fresh : Run
unfolding hybrid_lock
fresh = record { last = _; reach = Reach.start (memory 9) refl }

first : 0 < 2
first = omega arith

second : 1 < 2
second = omega arith

-- Thread 0 holds the lock exclusively.
held : Run
unfolding fresh try_lock_exclusive ℕ_discrete lock_state same_version_new_state
held = turn (turn fresh 0 first Move.load_exclusive) 0 first (Move.try_exclusive {b = true} refl)

-- It has written 8 and is behind its assertion; then it has released the lock.
released : Run
unfolding held is_exclusively_locked next_version_new_state
released =
    let wrote = turn held 0 first (Move.write 8) in
    let checked = turn wrote 0 first (Move.assert_exclusive {b = true} refl) in
    turn (turn checked 0 first Move.load_unlocking) 0 first Move.store_unlocked

-- Thread 1 reads optimistically, twice.
observed : Run
unfolding released
observed =
    let started = turn released 1 second (Move.start_optimistic (omega arith)) in
    turn (turn started 1 second Move.observe) 1 second Move.observe

-- Thread 0 takes the lock once more: the guard of thread 1 must not pass.
overtaken : Run
unfolding observed
overtaken =
    turn (turn observed 0 first Move.load_exclusive) 0 first (Move.try_exclusive {b = true} refl)

observed_pc : (observed.last).pc 1 ≡ Pc.observing 1 (8 ∷ 8 ∷ [])
unfolding observed
observed_pc = refl

overtaken_restarts : must_restart (word 0 (overtaken.last).shared) 1 ≡ true
unfolding overtaken must_restart version
overtaken_restarts = refl

mutual_exclusion_example :
    (holds_exclusive ((held.last).pc 1) ≡ 0) × (holds_shared ((held.last).pc 1) ≡ 0)
unfolding held
mutual_exclusion_example = mutual_exclusion held.reach (omega arith) 0 1 (omega arith) refl

word_counts_holders_example :
    (lock_state (word 0 (held.last).shared)
      ≡ total holds_exclusive 2 (held.last).pc * exclusive + total holds_shared 2 (held.last).pc)
    × (total holds_exclusive 2 (held.last).pc * max_shared + total holds_shared 2 (held.last).pc
        ≤ max_shared)
    × (version (word 0 (held.last).shared) ≡ ((held.last).shared).bumps)
unfolding held
word_counts_holders_example = word_counts_holders held.reach (omega arith)

assertions_hold_example : (released.last).pc 0 ≢ Pc.crashed
unfolding released
assertions_hold_example = assertions_hold released.reach (omega arith) 0

optimistic_read_consistent_example : All {A = ℕ} (λ d. d ≡ 8) (8 ∷ 8 ∷ []) × (version 1 ≡ 1)
unfolding observed must_restart version
optimistic_read_consistent_example =
    optimistic_read_consistent observed.reach (omega arith) 1 1 (8 ∷ 8 ∷ []) refl refl

released_idle :
    (i : ℕ)
    → (holds_exclusive ((released.last).pc i) ≡ 0) × (holds_shared ((released.last).pc i) ≡ 0)
unfolding released
released_idle zero = (refl, refl)
released_idle (suc i) = (ground arith, ground arith)
