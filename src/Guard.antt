-- ===== src/Guard.antt =====
-- include/sync/guard.h, src/sync/guard.cc: `HybridGuard`. A method runs on the guard and the world,
-- so that an exception keeps what the method wrote to the guard. A waiting loop takes its number of
-- rounds.
pub mod Steps
pub mod Life
pub mod Wait
pub mod Open
pub mod Room
use optimistic_locking.Base.{ℕ, zero, suc, Bool, true, false, not, ◌&&◌, ◌||◌, ◌==◌, if◌then◌else◌}
use optimistic_locking.Machine.{
  logic_error, restart_exception, Outcome, ok, thrown, aborted, running, M, World, pure, throw,
  load, ◌>>=◌, ◌>>◌,
}
use optimistic_locking.Lock.Word.{exclusive, lock_state, version}
use optimistic_locking.Lock.{try_lock_exclusive, try_lock_shared, unlock_exclusive, unlock_shared}

pub data GuardMode : Type 0 where
  optimistic : GuardMode
  shared : GuardMode
  exclusively : GuardMode
  moved : GuardMode

abbrev pub is_optimistic : GuardMode → Bool
is_optimistic optimistic = true
is_optimistic _ = false

abbrev pub is_shared : GuardMode → Bool
is_shared shared = true
is_shared _ = false

abbrev pub is_exclusive : GuardMode → Bool
is_exclusive exclusively = true
is_exclusive _ = false

-- `lock` is the address that `lock_` points to, `state` the word that an optimistic guard has seen.
pub record HybridGuard : Type 0 where
  pub lock : ℕ
  pub mode : GuardMode
  pub state : ℕ

-- The test of `ValidateOptimisticLock` on the word found at the end and the word seen at first.
unfoldable pub must_restart : ℕ → ℕ → Bool
must_restart latest state = lock_state latest == exclusive || not (version latest == version state)

abbrev pub Self : Type 0 → Type 0
Self H = HybridGuard × World H

module _ {H : Type 0} where
  abbrev pub with_guard : {A : Type 0} → HybridGuard → Outcome (World H) A → Outcome (Self H) A
  with_guard g (ok a w) = ok a (g, w)
  with_guard g (thrown e w) = thrown e (g, w)
  with_guard g aborted = aborted
  with_guard g running = running

  -- an access of shared memory from within a method
  abbrev pub on_memory : {A : Type 0} → M (World H) A → M (Self H) A
  on_memory m (g, w) = with_guard g (m w)

  abbrev pub this : M (Self H) HybridGuard
  this (g, w) = ok g (g, w)

  abbrev pub set_this : HybridGuard → M (Self H) (Unit {0})
  set_this g (_, w) = ok tt (g, w)

  -- `state_ = lock_->StateAndVersion().load()`
  unfoldable pub load_state : M (Self H) (Unit {0})
  load_state = do g ← this; v ← on_memory (load g.lock); set_this (record g { state = v })

  unfoldable pub wait_while_exclusive : ℕ → M (Self H) (Unit {0})
  unfolding load_state
  wait_while_exclusive zero = λ _. running
  wait_while_exclusive (suc rounds) = do
    g ← this
    if lock_state g.state == exclusive then (load_state >> wait_while_exclusive rounds) else pure tt

  unfoldable pub optimistic_lock : ℕ → M (Self H) (Unit {0})
  unfolding load_state wait_while_exclusive
  optimistic_lock rounds = do
    g ← this
    if not (is_optimistic g.mode) then pure tt else (load_state >> wait_while_exclusive rounds)

  unfoldable pub validate_optimistic_lock : M (Self H) (Unit {0})
  validate_optimistic_lock = do
    g ← this
    if not (is_optimistic g.mode) then pure tt else do
      set_this (record g { mode = moved })
      latest ← on_memory (load g.lock)
      if must_restart latest g.state then throw restart_exception else pure tt

  -- The loops of the constructor: load the word and try, until a try succeeds.
  unfoldable pub acquire_shared : ℕ → ℕ → M (World H) (Unit {0})
  acquire_shared zero lock = λ _. running
  acquire_shared (suc rounds) lock = do
    old ← load lock
    done ← try_lock_shared lock old
    if done then pure tt else acquire_shared rounds lock

  unfoldable pub acquire_exclusive : ℕ → ℕ → M (World H) (Unit {0})
  acquire_exclusive zero lock = λ _. running
  acquire_exclusive (suc rounds) lock = do
    old ← load lock
    done ← try_lock_exclusive lock old
    if done then pure tt else acquire_exclusive rounds lock

  acquire : ℕ → ℕ → GuardMode → M (Self H) (Unit {0})
  unfolding optimistic_lock acquire_shared acquire_exclusive
  acquire rounds lock optimistic = optimistic_lock rounds
  acquire rounds lock shared = on_memory (acquire_shared rounds lock)
  acquire rounds lock exclusively = on_memory (acquire_exclusive rounds lock)
  acquire rounds lock moved = throw logic_error

  abbrev pub made : Outcome (Self H) (Unit {0}) → Outcome (World H) HybridGuard
  made (ok _ (g, w)) = ok g w
  made (thrown e (g, w)) = thrown e w
  made aborted = aborted
  made running = running

  -- the constructor
  unfoldable pub hybrid_guard : ℕ → ℕ → GuardMode → M (World H) HybridGuard
  unfolding acquire optimistic_lock acquire_shared acquire_exclusive
  hybrid_guard rounds lock mode w =
      made (acquire rounds lock mode (record { lock = lock; mode = mode; state = 0 }, w))

  -- `operator=(HybridGuard &&other)`, which reads the fields of `other` and writes none of them
  unfoldable pub move_assign : HybridGuard → M (Self H) (Unit {0})
  unfolding validate_optimistic_lock
  move_assign other = do
    g ← this
    if is_optimistic g.mode then validate_optimistic_lock else pure tt
    set_this (record { lock = other.lock; mode = other.mode; state = other.state })

  abbrev unlock_by : ℕ → ℕ → GuardMode → M (World H) (Unit {0})
  unlock_by rounds lock shared = unlock_shared rounds lock
  unlock_by rounds lock exclusively = unlock_exclusive lock
  unlock_by rounds lock _ = pure tt

  unfoldable pub unlock : ℕ → M (Self H) (Unit {0})
  unlock rounds = do
    g ← this
    if not (is_shared g.mode) && not (is_exclusive g.mode)
        then pure tt
        else do on_memory (unlock_by rounds g.lock g.mode); set_this (record g { mode = moved })

  -- the destructor
  unfoldable pub destroy_guard : ℕ → M (Self H) (Unit {0})
  unfolding validate_optimistic_lock unlock
  destroy_guard rounds = do
    g ← this
    if is_optimistic g.mode then validate_optimistic_lock else unlock rounds
