-- ===== src/Tests/Postgres.antt =====
-- Two threads that deposit to one account of a small database.
use optimistic_locking.Base.{
  get_elem?, ℕ, ◌+◌, ◌*◌, ◌≡◌, ◌≤◌, refl, false, none, some, List, [], ◌∷◌, arith,
}
use optimistic_locking.Postgres.Server.{World, serve, move, run_threads}
use optimistic_locking.Postgres.{
  deposit_opt, deposit_once, read_account, read_rows, read_row, modify_balance, get_random_number,
  give_up,
}
use optimistic_locking.Postgres.Calls.{
  Program, and_then, from_reply, ask, try_catch, with_destructor, with_connection, with_work,
  to_string,
}
use optimistic_locking.Postgres.Traces.{searching, deposited, stages_after, IsDisconnecting}
use optimistic_locking.Postgres.OptEarned.{opt_counts}
use optimistic_locking.Postgres.Table.{Entry}
use optimistic_locking.Postgres.Ledger.{IsFair}
use optimistic_locking.Postgres.Workload.{emplace_threads, opt_thread, test_data_opt}
use optimistic_locking.Postgres.LostUpdates.{deposits_done, no_deposit_lost}
use optimistic_locking.Tests.Bank.{Bank, bank_client, bank_rows, bank, bank-Obeys}

abbrev start : World Bank
start = record {
  db = record { row = record { balance = 1000; version = 0 }; open_row = none; next = 1 };
  log = [];
  locked = false;
}

abbrev worth : ℕ → ℕ → ℕ
worth id version = 1000 + version * 1000

-- the turns of the first thread until its end, and some of the second's in between
abbrev schedule : List ℕ
schedule = 0 ∷ 1 ∷ 0 ∷ 0 ∷ 1 ∷ 1 ∷ 0 ∷ 0 ∷ 1 ∷ 1 ∷ 0 ∷ 0 ∷ 0 ∷ 1 ∷ 1 ∷ 0 ∷ 0 ∷ 0 ∷ 0 ∷ 1 ∷ []

start-IsFair : IsFair worth bank_rows (start.db)
start-IsFair = record {
  balances = λ id e h. ground arith;
  written_balances = λ t id e h. cc;
  newer = λ t id e h. cc;
  alone = λ t u id e f h k. cc;
}

no_deposit_lost_example :
    let pool = test_data_opt bank_client 3 2 in
    let (pool', w') = run_threads bank schedule pool start in
    ((e' : Entry ℕ) × (bank_rows.committed w'.db 1 ≡ some e')
      × (0 + deposits_done bank bank_rows 1 schedule pool start ≤ e'.version)
      × (e'.balance ≡ worth 1 e'.version))
    × ((i : ℕ) (thread : Program bank_client (Unit {0}))
        → get_elem? pool' i ≡ some thread
        → IsDisconnecting bank_client opt_counts thread
        → stages_after opt_counts bank schedule (λ _. searching) pool start i ≡ deposited)
no_deposit_lost_example =
    no_deposit_lost bank bank_rows bank-Obeys worth (λ id version. omega arith) 3 2 schedule start
      start-IsFair 1 (record { balance = 1000; version = 0 }) refl

one_deposited :
    bank_rows.committed (run_threads bank schedule (test_data_opt bank_client 3 2) start).1.db 1
    ≡ some (record { balance = 2000; version = 1 })
unfolding run_threads test_data_opt emplace_threads opt_thread move serve deposit_opt deposit_once
    read_account read_rows read_row modify_balance get_random_number give_up and_then from_reply ask
    try_catch with_destructor with_connection with_work to_string
one_deposited = refl
