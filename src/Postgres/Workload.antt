-- ===== src/Postgres/Workload.antt =====
-- postgresql/opt_and_pess_lock.cc: the threads of `testDataPess` and `testDataOpt`, the functions
-- that fill and empty the table, and `main`. The mutex is the one that all threads of a test share.
use Prim.Native.String.{String, ◌++◌}
use optimistic_locking.Base.{ℕ, zero, suc, ◌+◌, ◌-◌, ◌/◌, ◌%◌, List, [], ◌∷◌, if◌then◌else◌}
use optimistic_locking.Postgres.Calls.{
  Client, text, double, int, is_open, dbname, prepare, exec, exec_prepared, commit, disconnect, now,
  lock_mutex, unlock_mutex, cout, cerr, Program, ret, ◌>>=◌, ◌>>◌, ask, try_catch, with_connection,
  with_work, to_string,
}
use optimistic_locking.Postgres.{
  account_repository_pess, account_repository_opt, deposit, deposit_opt,
}

-- A run of the process: code that runs alone, threads that are started and joined, and the exit.
pub data Script (c : Client) : Type 0 where
  alone : Program c ℕ → (ℕ → Script c) → Script c
  threads : List (Program c (Unit {0})) → Script c → Script c
  exit : ℕ → Script c

module _ (c : Client) where
  -- the handlers of the two tests' threads
  report : String → Program c (Unit {0})
  report what = do ask lock_mutex; ask (cerr ("Error: " ++ what)); ask unlock_mutex

  unfoldable pub pess_thread : ℕ → Program c (Unit {0})
  unfolding report
  pess_thread i =
      try_catch
        (with_connection λ conn. do
          ask (
              prepare conn "select_account_lock"
                "SELECT * FROM account WHERE username = $1 LIMIT 1 FOR NO KEY UPDATE")
          ask (
              prepare conn "deposit_account"
                "UPDATE account SET balance = $1, version = version+1 WHERE id = $2")
          let local_repo = account_repository_pess conn
          deposit c local_repo (record { username = to_string (i + 1); amount = c.literal 1000 })
          ask (disconnect conn))
        report

  -- `rounds` bounds the loop of `depositOpt`.
  unfoldable pub opt_thread : ℕ → ℕ → Program c (Unit {0})
  unfolding report
  opt_thread rounds i =
      try_catch
        (with_connection λ conn. do
          ask (
              prepare conn "select_account_by_username"
                "SELECT * FROM account WHERE username = $1 LIMIT 1")
          ask (
              prepare conn "deposit_account_opt"
                "UPDATE account SET balance = $1, version = version+1 WHERE id = $2 AND version = $3")
          let local_repo = account_repository_opt conn
          deposit_opt c rounds local_repo
              (record { username = to_string (i + 1); amount = c.literal 1000 })
          ask (disconnect conn))
        report

  -- `threads.emplace_back(body(i))` for each `i` from `first` on
  unfoldable pub emplace_threads : (ℕ → Program c (Unit {0})) → ℕ → ℕ → List (Program c (Unit {0}))
  emplace_threads body first zero = []
  emplace_threads body first (suc left) = body first ∷ emplace_threads body (suc first) left

  unfoldable pub test_data_pess : ℕ → List (Program c (Unit {0}))
  unfolding emplace_threads
  test_data_pess user_count = emplace_threads pess_thread 0 user_count

  unfoldable pub test_data_opt : ℕ → ℕ → List (Program c (Unit {0}))
  unfolding emplace_threads
  test_data_opt rounds user_count = emplace_threads (opt_thread rounds) 0 user_count

  print_error : String → Program c (Unit {0})
  print_error what = ask (cerr what)

  abbrev create_account : String
  create_account =
      "\n            CREATE TABLE IF NOT EXIST account (\n                id SERIAL PRIMARY KEY,\n                username VARCHAR(100) UNIQUE NOT NULL,\n                balance NUMERIC(10, 2) DEFAULT 0.0,\n                version INT DEFAULT 0\n            )"

  unfoldable pub init_table : Program c (Unit {0})
  unfolding print_error
  init_table =
      try_catch
        (with_connection λ conn. do
          opened ← ask (is_open conn)
          if opened
              then (do
                name ← ask (dbname conn)
                ask (cout ("Opened database successfully: " ++ name))
                with_work conn λ txn. do created ← ask (exec txn create_account); ask (commit txn))
              else ask (cout "Failed to open database")
          ask (disconnect conn)
          ask (cout "Disconnected from database"))
        print_error

  -- the loop of `insertData`, from `i` on
  unfoldable pub insert_accounts : ℕ → ℕ → ℕ → ℕ → Program c (Unit {0})
  insert_accounts txn num_elements i zero = ret tt
  insert_accounts txn num_elements i (suc left) = do
    inserted ← ask (
        exec_prepared txn "insert_account"
          (text (to_string (i % num_elements + 1)) ∷ double (c.literal 1000) ∷ int 0 ∷ []))
    insert_accounts txn num_elements (suc i) left

  unfoldable pub insert_data : ℕ → Program c (Unit {0})
  unfolding print_error insert_accounts
  insert_data num_elements =
      try_catch
        (with_connection λ conn. do
          opened ← ask (is_open conn)
          if opened
              then (with_work conn λ txn. do
                ask (
                    prepare conn "insert_account"
                      "INSERT INTO account (username, balance, version) VALUES ($1, $2, $3)")
                insert_accounts txn num_elements 0 num_elements
                ask (commit txn)
                ask (cout "Successfully inserted 1000 items into the account table."))
              else ask (cout "Failed to open database")
          ask (disconnect conn))
        print_error

  unfoldable pub delete_data : Program c (Unit {0})
  unfolding print_error
  delete_data =
      try_catch
        (with_connection λ conn. do
          opened ← ask (is_open conn)
          if opened
              then (with_work conn λ txn. do
                deleted ← ask (exec txn "DELETE FROM account")
                ask (commit txn)
                ask (cout "Deleted all rows from the table successfully."))
              else ask (cout "Failed to open database")
          ask (disconnect conn))
        print_error

  -- `duration_cast<milliseconds>(end - start)` of a clock that counts nanoseconds
  report_time : ℕ → Program c (Unit {0})
  report_time start = do
    finish ← ask now
    ask (cout ("Execution time: " ++ to_string ((finish - start) / 1000000) ++ " ms"))

  unfoldable pub main : ℕ → Script c
  unfolding report_time
  main rounds =
      alone (do ask (cout "Testing pessimistic locking:"); ask now)
        λ start. threads (test_data_pess 100) (
          alone (do report_time start; ask (cout "Testing optimistic locking:"); ask now)
            λ start. threads (test_data_opt rounds 100) (alone (do report_time start; ret 0) exit))
