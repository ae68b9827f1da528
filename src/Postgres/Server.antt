-- ===== src/Postgres/Server.antt =====
-- How a program of postgresql/opt_and_pess_lock.cc runs against a database: alone, and as one of the
-- threads of a test, where any other thread may run between two of its calls.
use Prim.Native.String.{String}
use optimistic_locking.Base.{
  ℕ, Bool, true, false, none, some, List, [], ◌∷◌, ◌++◌, if◌then◌else◌, get_elem?, set,
}
use optimistic_locking.Postgres.Calls.{
  Client, Call, Answer, Reply, ok, cout, cerr, lock_mutex, unlock_mutex, Program, ret, raise,
  unfinished, call,
}

-- The database, the network and the runtime, which are not in the repository.
pub record Server (c : Client) : Type 1 where
  pub Db : Type 0
  pub answer : (q : Call c.Double) → Db → Reply (Answer c q) × Db

-- with what the process has printed, and whether a thread holds the tests' mutex
pub record World (D : Type 0) : Type 0 where
  pub db : D
  pub log : List String
  pub locked : Bool

pub data Ended (A : Type 0) : Type 0 where
  returned : A → Ended A
  raised : String → Ended A
  running : Ended A

module _ {c : Client} (s : Server c) where
  abbrev pub printed : String → World s.Db → World s.Db
  printed line w = record w { log = w.log ++ line ∷ [] }

  unfoldable pub serve : (q : Call c.Double) → World s.Db → Reply (Answer c q) × World s.Db
  serve (cout line) w = (ok tt, printed line w)
  serve (cerr line) w = (ok tt, printed line w)
  serve lock_mutex w = (ok tt, record w { locked = true })
  serve unlock_mutex w = (ok tt, record w { locked = false })
  serve q w = let (r, d) = s.answer q w.db in (r, record w { db = d })

  unfoldable pub run : {A : Type 0} → Program c A → World s.Db → Ended A × World s.Db
  run (ret a) w = (returned a, w)
  run (raise e) w = (raised e, w)
  run unfinished w = (running, w)
  run (call q k) w = let (r, w') = serve q w in run (k r) w'

  abbrev pub blocked : Call c.Double → World s.Db → Bool
  blocked lock_mutex w = w.locked
  blocked _ w = false

  -- A thread makes its next call, unless it waits for the mutex or has ended.
  unfoldable pub move : Program c (Unit {0}) → World s.Db → Program c (Unit {0}) × World s.Db
  unfolding serve
  move (call q k) w = if blocked q w then (call q k, w) else (let (r, w') = serve q w in (k r, w'))
  move p w = (p, w)

  -- The threads of a schedule, in its order; the joins at the end wait until all have ended.
  unfoldable pub run_threads :
      List ℕ → List (Program c (Unit {0})) → World s.Db → List (Program c (Unit {0})) × World s.Db
  run_threads [] pool w = (pool, w)
  run_threads (i ∷ schedule) pool w = elim (get_elem? pool i) [
    | none ↦ run_threads schedule pool w
    | some thread ↦
        let (thread', w') = move thread w in run_threads schedule (set pool i thread') w'
  ]
