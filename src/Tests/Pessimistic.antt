-- ===== src/Tests/Pessimistic.antt =====
-- Threads of `testDataPess` on a database with a lock on its row.
use optimistic_locking.Base.{
  get_elem?, ℕ, ◌+◌, ◌*◌, ◌≡◌, ◌≤◌, refl, false, none, some, List, [], ◌∷◌, arith,
}
use optimistic_locking.Postgres.Server.{World, returned, running, run, serve, move, run_threads}
use optimistic_locking.Postgres.{
  DepositRequest, deposit, deposit_opt, read_account, read_rows, read_row, modify_balance, give_up,
}
use optimistic_locking.Postgres.Calls.{
  Program, and_then, from_reply, ask, try_catch, with_destructor, with_connection, with_work,
  to_string,
}
use optimistic_locking.Postgres.Traces.{searching, stages_after, IsDisconnecting}
use optimistic_locking.Postgres.PessEarned.{pess_counts, IsDepositedOrFailed}
use optimistic_locking.Postgres.Table.{Entry}
use optimistic_locking.Postgres.Guarded.{IsGuarded}
use optimistic_locking.Postgres.Workload.{emplace_threads, pess_thread, test_data_pess}
use optimistic_locking.Postgres.LostUpdates.{deposits_done}
use optimistic_locking.Postgres.LockedUpdates.{no_locked_deposit_lost}
use optimistic_locking.Tests.Bank.{bank_client}
use optimistic_locking.Postgres.Missing.{IsEmpty, missed, deposits_missing}
use optimistic_locking.Tests.LockBank.{LockBank, affecting, lock_rows, row_locks, lock_bank}
use optimistic_locking.Tests.LockBank.Laws.{lock_bank-ObeysLocks}

abbrev start : World LockBank
start = record {
  db = record { row = record { balance = 1000; version = 0 }; session = none; following = 1 };
  log = [];
  locked = false;
}

abbrev worth : ℕ → ℕ → ℕ
worth id version = 1000 + version * 1000

-- the turns of the first thread until its end, and some of the second's in between
abbrev schedule : List ℕ
schedule = 0 ∷ 1 ∷ 0 ∷ 0 ∷ 1 ∷ 1 ∷ 0 ∷ 0 ∷ 1 ∷ 1 ∷ 0 ∷ 0 ∷ 0 ∷ 1 ∷ 1 ∷ 0 ∷ []

start-IsGuarded : IsGuarded worth lock_rows row_locks (start.db)
start-IsGuarded = record {
  fair = record {
    balances = λ id e h. ground arith;
    written_balances = λ t id e h. cc;
    newer = λ t id e h. cc;
    alone = λ t u id e f h k. cc;
  };
  guarded = λ t id e h. cc;
}

no_locked_deposit_lost_example :
    let pool = test_data_pess bank_client 2 in
    let (pool', w') = run_threads lock_bank schedule pool start in
    ((e' : Entry ℕ) × (lock_rows.committed w'.db 1 ≡ some e')
      × (0 + deposits_done lock_bank lock_rows 1 schedule pool start ≤ e'.version)
      × (e'.balance ≡ worth 1 e'.version))
    × ((i : ℕ) (thread : Program bank_client (Unit {0}))
        → get_elem? pool' i ≡ some thread
        → IsDisconnecting bank_client pess_counts thread
        → IsDepositedOrFailed
            (stages_after pess_counts lock_bank schedule (λ _. searching) pool start i))
no_locked_deposit_lost_example =
    no_locked_deposit_lost lock_bank lock_rows row_locks lock_bank-ObeysLocks worth
      (λ id version. omega arith) 2 schedule start start-IsGuarded 1
      (record { balance = 1000; version = 0 }) refl

one_deposited :
    lock_rows.committed (run_threads lock_bank schedule (test_data_pess bank_client 2) start).1.db 1
    ≡ some (record { balance = 2000; version = 1 })
unfolding run_threads test_data_pess emplace_threads pess_thread move serve deposit read_account
    read_rows read_row modify_balance give_up and_then from_reply ask try_catch with_destructor
    with_connection with_work to_string
one_deposited = refl

counted : deposits_done lock_bank lock_rows 1 schedule (test_data_pess bank_client 2) start ≡ 1
unfolding run_threads test_data_pess emplace_threads pess_thread move serve deposit read_account
    read_rows read_row modify_balance give_up and_then from_reply ask try_catch with_destructor
    with_connection with_work to_string deposits_done
counted = refl

-- The small database has no account with the name "2", in either select.
locked-IsEmpty : IsEmpty lock_bank "select_account_lock" "2"
locked-IsEmpty = record {
  opens = λ conn d. (d.following, refl);
  finds_none = λ txn d. (affecting 0, refl, refl);
  aborts = λ txn d. refl;
}

plain-IsEmpty : IsEmpty lock_bank "select_account_by_username" "2"
plain-IsEmpty = record {
  opens = λ conn d. (d.following, refl);
  finds_none = λ txn d. (affecting 0, refl, refl);
  aborts = λ txn d. refl;
}

abbrev unknown : DepositRequest ℕ
unknown = record { username = "2"; amount = 1000 }

deposits_missing_example :
    let (r, w1) = run lock_bank (deposit bank_client (record { conn = 7 }) unknown) start in
    let (r', w2) = run lock_bank (deposit_opt bank_client 2 (record { conn = 8 }) unknown) start in
    ((r ≡ returned tt) × (w1.log ≡ missed 1 start.log))
    × ((r' ≡ running) × (w2.log ≡ missed 2 start.log))
deposits_missing_example =
    deposits_missing lock_bank unknown locked-IsEmpty plain-IsEmpty 2 (record { conn = 7 })
      (record { conn = 8 }) start
