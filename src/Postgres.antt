-- ===== src/Postgres.antt =====
-- postgresql/opt_and_pess_lock.cc: the two repositories of accounts and the functions around them.
-- A `double` is a value of the client's type, with its addition.
pub mod Calls
pub mod Server
pub mod Statements
pub mod Keeps
pub mod Locks
pub mod Holding
pub mod Pessimistic
pub mod Guarded
pub mod LockSteps
pub mod LockEffects
pub mod LockCalls
pub mod LockedUpdates
pub mod Table
pub mod Ledger
pub mod Missing
pub mod Effects
pub mod LostUpdates
pub mod Optimistic
pub mod Workload
pub mod Traces
pub mod Earned
pub mod OptEarned
pub mod PessEarned
use Prim.Native.String.{String, ◌++◌}
use optimistic_locking.Base.{
  ℕ, zero, suc, ◌+◌, ◌%◌, Bool, true, false, List, [], ◌∷◌, ◌==◌, if◌then◌else◌,
}
use Calls.{
  Client, QueryResult, int, text, double, connect, is_open, dbname, prepare, begin, exec,
  exec_prepared, commit, abort, disconnect, random, sleep_for, now, lock_mutex, unlock_mutex, cout,
  cerr, Program, ret, raise, unfinished, ◌>>=◌, ◌>>◌, from_reply, ask, try_catch, with_connection,
  with_work, to_string,
}

pub record Account (D : Type 0) : Type 0 where
  pub id : ℕ
  pub username : String
  pub balance : D
  pub version : ℕ

pub record DepositRequest (D : Type 0) : Type 0 where
  pub username : String
  pub amount : D

-- The repositories hold a connection.
pub record AccountRepositoryPess : Type 0 where
  pub conn : ℕ

pub record AccountRepositoryOpt : Type 0 where
  pub conn : ℕ

-- the constructors
abbrev pub account_repository_pess : ℕ → AccountRepositoryPess
account_repository_pess conn = record { conn = conn }

abbrev pub account_repository_opt : ℕ → AccountRepositoryOpt
account_repository_opt conn = record { conn = conn }

module _ (c : Client) where
  -- `dist(gen)`: a number that the system's random device gives
  unfoldable pub get_random_number : ℕ → ℕ → Program c ℕ
  get_random_number least most = ask (random least most)

  -- The body of the loop over the rows.
  unfoldable pub read_row : c.Row → Program c (Account c.Double)
  read_row row = do
    id ← from_reply (c.as_int row "id")
    username ← from_reply (c.as_string row "username")
    balance ← from_reply (c.as_double row "balance")
    version ← from_reply (c.as_int row "version")
    ret (record { id = id; username = username; balance = balance; version = version })

  -- The loop: it reads every row, and the last one stays.
  unfoldable pub read_rows : c.Row → List c.Row → Program c (Account c.Double)
  read_rows row [] = read_row row
  read_rows row (next ∷ rows) = read_row row >>= λ _. read_rows next rows

  unfoldable pub read_account : List c.Row → Program c (Account c.Double)
  read_account [] = raise "Account not found"
  read_account (row ∷ rows) = read_rows row rows

  -- `account.balance += request.amount`
  unfoldable pub modify_balance : DepositRequest c.Double → Account c.Double → Account c.Double
  modify_balance request account = record account { balance = c.add account.balance request.amount }

  -- the handler of `deposit` and `depositOpt`
  unfoldable pub give_up : ℕ → String → Program c (Unit {0})
  give_up txn what = do ask (abort txn); ask (cerr ("Error: " ++ what))

  unfoldable pub deposit : AccountRepositoryPess → DepositRequest c.Double → Program c (Unit {0})
  deposit repo request = with_work repo.conn λ txn.
      try_catch
        (do
          res ← ask (exec_prepared txn "select_account_lock" (text request.username ∷ []))
          found ← read_account res.rows
          let account = modify_balance request found
          updated ←
              ask
                (exec_prepared txn "deposit_account" (double account.balance ∷ int account.id ∷ []))
          ask (commit txn))
        (give_up txn)

  -- One round of the loop of `depositOpt`: whether it returns.
  unfoldable pub deposit_once : ℕ → DepositRequest c.Double → Program c Bool
  deposit_once txn request =
      try_catch
        (do
          res ← ask (exec_prepared txn "select_account_by_username" (text request.username ∷ []))
          found ← read_account res.rows
          let account = modify_balance request found
          pause ← get_random_number 10 20
          ask (sleep_for pause)
          update_res ← ask (
              exec_prepared txn "deposit_account_opt"
                (double account.balance ∷ int account.id ∷ int account.version ∷ []))
          if update_res.affected_rows == 0
              then (do ask (abort txn); ret false)
              else (do ask (commit txn); ret true))
        (λ what. do give_up txn what; ret false)

  unfoldable pub deposit_opt :
      ℕ → AccountRepositoryOpt → DepositRequest c.Double → Program c (Unit {0})
  deposit_opt zero repo request = unfinished
  deposit_opt (suc rounds) repo request = do
    done ← with_work repo.conn λ txn. deposit_once txn request
    if done then ret tt else deposit_opt rounds repo request
