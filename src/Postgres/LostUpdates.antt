-- ===== src/Postgres/LostUpdates.antt =====
-- The threads of `testDataOpt`, interleaved in any order: no deposit is lost.
use optimistic_locking.Base.{
  ℕ, zero, suc, ◌+◌, ◌≡◌, ◌≤◌, refl, inl, inr, none, some, List, [], ◌∷◌, All, if◌then◌else◌,
  Bool-cases, Option-cases, get_elem?, set, arith,
}
use optimistic_locking.Postgres.Calls.{Client, Program, call}
use optimistic_locking.Postgres.Statements.{opt_statements}
use optimistic_locking.Postgres.Server.{Server, World, serve, blocked, move, run_threads}
use optimistic_locking.Postgres.Keeps.{
  Keeps, ret_lem, raise_lem, unfinished_lem, call_lem, Anything,
}
use optimistic_locking.Postgres.Table.{Entry, Rows, Obeys}
use optimistic_locking.Postgres.Effects.{confirmed, serve-Effect}
use optimistic_locking.Postgres.Optimistic.{opt_thread-Keeps}
use optimistic_locking.Postgres.Traces.{searching, deposited, stages_after, IsDisconnecting}
use optimistic_locking.Postgres.OptEarned.{opt_counts, test_data_opt-IsDeposited}
use optimistic_locking.Postgres.Workload.{opt_thread, emplace_threads, test_data_opt}
use optimistic_locking.Postgres.Ledger.{IsFair, Grown, Same-Grown}

module _ {c : Client} (s : Server c) (rows : Rows c s.Db) (id : ℕ) where
  abbrev pub deposit_in : Program c (Unit {0}) → World s.Db → ℕ
  deposit_in (call q k) w = if blocked s q w then 0 else confirmed s rows id q (serve s q w).0 w.db
  deposit_in _ w = 0

  -- The deposits to the row that commits have confirmed along a schedule.
  unfoldable pub deposits_done : List ℕ → List (Program c (Unit {0})) → World s.Db → ℕ
  deposits_done [] pool w = 0
  deposits_done (i ∷ schedule) pool w = elim (get_elem? pool i) [
    | none ↦ deposits_done schedule pool w
    | some thread ↦
        let (thread', w') = move s thread w in
        deposit_in thread w + deposits_done schedule (set pool i thread') w'
  ]

module _ {c : Client} {D : Type 0} (rows : Rows c D) (F : ℕ → ℕ → c.Double) where
  pub Grown-trans :
      (id m n : ℕ) (d d1 d2 : D)
      → Grown F rows id m d d1
      → Grown F rows id n d1 d2
      → Grown F rows id (m + n) d d2
  Grown-trans id m n d d1 d2 first second e h =
      let (e1, h1, le1) = first e h in let (e2, h2, le2) = second e1 h1 in (e2, h2, omega arith)

module _ {c : Client} (s : Server c) (rows : Rows c s.Db) (obeys : Obeys s rows opt_statements)
    (F : ℕ → ℕ → c.Double) where
  KeepsAll : List (Program c (Unit {0})) → Type 0
  KeepsAll pool = All (Keeps c F (Anything c F)) pool

  KeepsAll-get_elem? :
      (pool : List (Program c (Unit {0}))) (i : ℕ) (thread : Program c (Unit {0}))
      → KeepsAll pool
      → get_elem? pool i ≡ some thread
      → Keeps c F (Anything c F) thread
  unfolding KeepsAll
  KeepsAll-get_elem? [] i thread all e = cc
  KeepsAll-get_elem? (p ∷ pool) zero thread all e = let same : p ≡ thread = cc in rw (← same) all.0
  KeepsAll-get_elem? (p ∷ pool) (suc i) thread all e = KeepsAll-get_elem? pool i thread all.1 e

  KeepsAll-set :
      (pool : List (Program c (Unit {0}))) (i : ℕ) (thread : Program c (Unit {0}))
      → KeepsAll pool
      → Keeps c F (Anything c F) thread
      → KeepsAll (set pool i thread)
  unfolding KeepsAll
  KeepsAll-set [] i thread all h = tt
  KeepsAll-set (p ∷ pool) zero thread all h = (h, all.1)
  KeepsAll-set (p ∷ pool) (suc i) thread all h = (all.0, KeepsAll-set pool i thread all.1 h)

  -- What one move of a thread does.
  record Moved (id : ℕ) (thread : Program c (Unit {0})) (w : World s.Db) : Type 0 where
    keeps : Keeps c F (Anything c F) (move s thread w).0
    fair : IsFair F rows (move s thread w).1.db
    grown : Grown F rows id (deposit_in s rows id thread w) w.db (move s thread w).1.db

  stays :
      (id : ℕ) (thread : Program c (Unit {0})) (w : World s.Db)
      → Keeps c F (Anything c F) thread
      → IsFair F rows w.db
      → move s thread w ≡ (thread, w)
      → deposit_in s rows id thread w ≡ 0
      → Moved id thread w
  stays id thread w keeps fair same nothing = record {
    keeps = rw same keeps;
    fair = rw same fair;
    grown = rw (same, nothing) (Same-Grown F rows id (λ _. refl));
  }

  thread-Moved :
      (id : ℕ) {thread : Program c (Unit {0})} (w : World s.Db)
      → Keeps c F (Anything c F) thread
      → IsFair F rows w.db
      → Moved id thread w
  unfolding move
  thread-Moved id w (ret_lem p) fair = stays id _ w (ret_lem p) fair refl refl
  thread-Moved id w raise_lem fair = stays id _ w raise_lem fair refl refl
  thread-Moved id w unfinished_lem fair = stays id _ w unfinished_lem fair refl refl
  thread-Moved id w (call_lem {q} {k} a h) fair = elim (Bool-cases (blocked s q w)) [
    | inl waits ↦ stays id (call q k) w (call_lem a h) fair (rw waits) (rw waits)
    | inr goes ↦
        let effect = serve-Effect s rows obeys F q a w fair in
        record {
          keeps = rw goes (h _ effect.told);
          fair = rw goes effect.fair;
          grown = rw goes (effect.grown id);
        }
  ]

  run_threads-Grown :
      (id : ℕ) (schedule : List ℕ) (pool : List (Program c (Unit {0}))) (w : World s.Db)
      → KeepsAll pool
      → IsFair F rows w.db
      → let w' = (run_threads s schedule pool w).1 in
        IsFair F rows w'.db × Grown F rows id (deposits_done s rows id schedule pool w) w.db w'.db
  unfolding run_threads deposits_done
  run_threads-Grown id [] pool w all fair = (fair, Same-Grown F rows id (λ _. refl))
  run_threads-Grown id (i ∷ schedule) pool w all fair = elim (Option-cases (get_elem? pool i)) [
    | inl absent ↦
        rw (absent, run_threads, deposits_done) (run_threads-Grown id schedule pool w all fair)
    | inr (thread, present) ↦
        let moved = thread-Moved id w (KeepsAll-get_elem? pool i thread all present) fair in
        let (fair', later) =
          run_threads-Grown id schedule (set pool i (move s thread w).0) (move s thread w).1
            (KeepsAll-set pool i (move s thread w).0 all moved.keeps) moved.fair in
        rw (present, run_threads, deposits_done)
          (fair', Grown-trans rows F id _ _ w.db _ _ moved.grown later)
  ]

module _ (c : Client) (s : Server c) (rows : Rows c s.Db) (obeys : Obeys s rows opt_statements)
    (F : ℕ → ℕ → c.Double)
    (grows : (id version : ℕ) → F id (suc version) ≡ c.add (F id version) (c.literal 1000))
    (rounds : ℕ) where
  emplace_threads-KeepsAll :
      (first left : ℕ)
      → KeepsAll s rows obeys F (emplace_threads c (opt_thread c rounds) first left)
  unfolding emplace_threads KeepsAll
  emplace_threads-KeepsAll first zero = tt
  emplace_threads-KeepsAll first (suc left) =
      (opt_thread-Keeps c F grows rounds first, emplace_threads-KeepsAll (suc first) left)

  test_data_opt-KeepsAll :
      (user_count : ℕ) → KeepsAll s rows obeys F (test_data_opt c rounds user_count)
  unfolding test_data_opt
  test_data_opt-KeepsAll user_count = emplace_threads-KeepsAll 0 user_count

-- The threads of `testDataOpt` run in any order, any of them between two calls of another, against a
-- database that runs the statements of `opt_statements` as PostgreSQL does, by the text that each
-- name stands for, and to which nobody else writes. Let the table be fair at the start: a row at
-- version `v` holds the balance `F id v`, where `F` adds 1000 with each version; nothing that is
-- written is open, or it is of this kind too. Then after any schedule a row that was there is there,
-- its version has grown by the number of deposits to it that commits have confirmed or by more, and
-- its balance is the one of its version. And no thread gets to its `disconnect` before it has
-- deposited: in one transaction, its update has affected a row, and then its commit was confirmed.
pub no_deposit_lost :
    {c : Client} (s : Server c) (rows : Rows c s.Db)
    → Obeys s rows opt_statements
    → (F : ℕ → ℕ → c.Double)
    → ((id version : ℕ) → F id (suc version) ≡ c.add (F id version) (c.literal 1000))
    → (rounds user_count : ℕ) (schedule : List ℕ) (w : World s.Db) → IsFair F rows w.db
    → (id : ℕ) (e : Entry c.Double) → rows.committed w.db id ≡ some e
    → let pool = test_data_opt c rounds user_count in
      let (pool', w') = run_threads s schedule pool w in
      ((e' : Entry c.Double) × (rows.committed w'.db id ≡ some e')
        × (e.version + deposits_done s rows id schedule pool w ≤ e'.version)
        × (e'.balance ≡ F id e'.version))
      × ((i : ℕ) (thread : Program c (Unit {0}))
          → get_elem? pool' i ≡ some thread
          → IsDisconnecting c opt_counts thread
          → stages_after opt_counts s schedule (λ _. searching) pool w i ≡ deposited)
no_deposit_lost {c} s rows obeys F grows rounds user_count schedule w fair id e held =
    let (fair', grown) =
      run_threads-Grown s rows obeys F id schedule (test_data_opt c rounds user_count) w
        (test_data_opt-KeepsAll c s rows obeys F grows rounds user_count) fair in
    let (e', held', le) = grown e held in
    (
      (e', held', le, fair'.balances id e' held'),
      test_data_opt-IsDeposited s rounds user_count schedule w,
    )
