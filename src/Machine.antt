-- ===== src/Machine.antt =====
-- What the code uses of C++: `std::atomic<uint64_t>`, `assert`, exceptions, and other threads that
-- run between two accesses of memory.
use optimistic_locking.Base.{ℕ, Bool, true, false, List, [], ◌∷◌, ◌==◌, if◌then◌else◌, update}

-- `RestartException` of common/utils.h, and the standard exceptions that the code throws.
pub data Exception : Type 0 where
  restart_exception : Exception
  logic_error : Exception
  runtime_error : Exception

-- How a run of code with the state `W` ends. The state is kept by an exception, since C++ does not
-- roll anything back.
pub data Outcome (W A : Type 0) : Type 0 where
  ok : A → W → Outcome W A
  thrown : Exception → W → Outcome W A
  -- a failed `assert`, a null pointer, `std::terminate`; and undefined behaviour such as an index past
  -- the end of a vector, of which nothing else is said
  aborted : Outcome W A
  running : Outcome W A  -- a loop has not ended within the rounds that it was given

abbrev pub M : Type 0 → Type 0 → Type 0
M W A = W → Outcome W A

module _ {W : Type 0} where
  abbrev pub pure : {A : Type 0} → A → M W A
  pure a w = ok a w

  abbrev pub throw : {A : Type 0} → Exception → M W A
  throw e w = thrown e w

  abbrev pub and_then : {A B : Type 0} → Outcome W A → (A → M W B) → Outcome W B
  and_then (ok a w) k = k a w
  and_then (thrown e w) k = thrown e w
  and_then aborted k = aborted
  and_then running k = running

  infixl 5 ◌>>=◌ ◌>>◌
  abbrev pub ◌>>=◌ : {A B : Type 0} → M W A → (A → M W B) → M W B
  ◌>>=◌ m k w = and_then (m w) k

  abbrev pub ◌>>◌ : {B : Type 0} → M W (Unit {0}) → M W B → M W B
  m >> k = m >>= λ _. k

  -- `assert`, as the build of the Makefile keeps it (no NDEBUG)
  abbrev pub assert : Bool → M W (Unit {0})
  assert true w = ok tt w
  assert false w = aborted

-- The 64-bit atomics by address, and whatever else is shared.
pub record Memory (H : Type 0) : Type 0 where
  pub cells : ℕ → ℕ
  pub rest : H

-- What the other threads do to memory before this thread's next access, and whether that access,
-- if it is a `compare_exchange_weak`, fails for no reason.
pub record Turn (H : Type 0) : Type 0 where
  pub interfere : Memory H → Memory H
  pub spurious : Bool

-- Memory, and the turns of the other threads that are still to come; none after the last.
pub record World (H : Type 0) : Type 0 where
  pub mem : Memory H
  pub turns : List (Turn H)

module _ {H : Type 0} where
  -- this thread alone
  abbrev pub quiet : Memory H → World H
  quiet m = record { mem = m; turns = [] }

  abbrev pub after : List (Turn H) → Memory H → World H
  after [] m = quiet m
  after (t ∷ ts) m = record { mem = t.interfere m; turns = ts }

  -- the others move
  abbrev pub advance : World H → World H
  advance w = after w.turns w.mem

  abbrev pub fails : List (Turn H) → Bool
  fails [] = false
  fails (t ∷ ts) = t.spurious

  abbrev pub set_cell : World H → ℕ → ℕ → World H
  set_cell w a v = record w { mem = record (w.mem) { cells = update (w.mem).cells a v } }

  -- `load()`
  abbrev pub load : ℕ → M (World H) ℕ
  load a w = let w' = advance w in ok ((w'.mem).cells a) w'

  -- `store(v)`
  abbrev pub store : ℕ → ℕ → M (World H) (Unit {0})
  store a v w = ok tt (set_cell (advance w) a v)

  abbrev exchange : ℕ → ℕ → ℕ → M (World H) Bool
  exchange a expected desired w =
      if (w.mem).cells a == expected then ok true (set_cell w a desired) else ok false w

  -- `compare_exchange_strong(expected, desired)`
  abbrev pub compare_exchange_strong : ℕ → ℕ → ℕ → M (World H) Bool
  compare_exchange_strong a expected desired w = exchange a expected desired (advance w)

  -- `compare_exchange_weak(expected, desired)`
  abbrev pub compare_exchange_weak : ℕ → ℕ → ℕ → M (World H) Bool
  compare_exchange_weak a expected desired w =
      if fails w.turns then ok false (advance w) else exchange a expected desired (advance w)

  -- This thread alone for one access, which fails spuriously if `b` says so.
  abbrev pub paused : Memory H → Bool → World H
  paused m b = record { mem = m; turns = record { interfere = λ m. m; spurious = b } ∷ [] }
