-- ===== src/Tests/Lock.antt =====
-- The operations of one thread on a lock at address 0.
use optimistic_locking.Base.{ℕ, ◌*◌, ◌^◌, ◌+◌, ◌≡◌, refl, update, List, [], ◌∷◌, arith, ℕ_discrete}
use optimistic_locking.Machine.{Memory, quiet, aborted}
use optimistic_locking.Lock.Word.{lock_state, version, is_shared_locked}
use optimistic_locking.Lock.Spec.{Operation, view_of}
use optimistic_locking.Lock.Interface.{hybrid_lock_at}
use optimistic_locking.Lock.History.{history, spec_history, views, AllAgree, history-spec}
use optimistic_locking.Lock.{unlock_shared}

abbrev memory : ℕ → Memory ℕ
memory w = record { cells = update (λ _. 0) 0 w; rest = 7 }

-- version 5, held by a writer
abbrev held : Memory ℕ
held = memory (255 * 2 ^ 56 + 5)

-- A reader comes and upgrades, releases the lock as a writer, and a stale attempt is refused.
abbrev calls : List (Operation ℕ)
calls =
    Operation.lock_shared 5
    ∷ Operation.upgrade (1 * 2 ^ 56 + 5)
    ∷ Operation.unlock_exclusive
    ∷ Operation.lock_exclusive 5
    ∷ Operation.unlock_shared
    ∷ []

history-spec_example :
    AllAgree 0
      (memory 5)
      (history (hybrid_lock_at 0) calls (quiet (memory 5)))
      (spec_history (views calls) (view_of 5))
unfolding version ℕ_discrete
history-spec_example =
    history-spec 0 calls (memory 5) (omega arith, (omega arith, (tt, (omega arith, (tt, tt)))))
      (omega arith) (omega arith)

-- Nobody holds the lock: the assertion of `UnlockShared` fails.
unlock_shared_free : unlock_shared 1 0 (quiet (memory 5)) ≡ aborted
unfolding unlock_shared is_shared_locked lock_state ℕ_discrete
unlock_shared_free = refl
