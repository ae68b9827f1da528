-- ===== src/Tests/LockBank.antt =====
-- A small database with one account, number 1 with the name "1", and a lock on its row. While one
-- transaction has the lock, the statements of the others on the row are refused.
pub mod Laws
use Prim.Native.String.{String}
use package.text.Mathlib.Text as Texts
use optimistic_locking.Base.{
  ℕ, suc, ◌+◌, ◌<◌, ◌≡◌, refl, ap, ◌∙◌, inl, inr, true, ◌&&◌, Option, none, some, List, [], ◌∷◌,
  ◌==◌, if◌then◌else◌, Bool-cases, All, arith,
}
use optimistic_locking.Postgres.Calls.{
  Value, int, text, double, QueryResult, Call, connect, is_open, dbname, begin, exec, exec_prepared,
  commit, abort, end_work, random, now, prepare, disconnect, end_connection, sleep_for, lock_mutex,
  unlock_mutex, cout, cerr, Answer, Reply, ok, threw,
}
use optimistic_locking.Postgres.Server.{Server}
use optimistic_locking.Postgres.Table.{Entry, or_else, Rows, Same, Committed, RolledBack, IsSeen}
use optimistic_locking.Postgres.Locks.{
  RowLocks, ObeysLocks, IsPlain, SameHolders, StillOpen, Acquired, Released, Begun, LockSelected,
  LockUpdated, IsHeld,
}
use optimistic_locking.Tests.Bank.{BankRow, bank_client}

-- the transaction that has the lock, and what it has written
abbrev pub Session : Type 0
Session = Option (ℕ × Option (Entry ℕ))

pub record LockBank : Type 0 where
  pub row : Entry ℕ
  pub session : Session
  pub following : ℕ

abbrev pub session_row : Session → ℕ → ℕ → Option (Entry ℕ)
session_row none txn id = none
session_row (some (u, o)) txn id = if txn == u && id == 1 then o else none

abbrev pub session_holder : Session → ℕ → Option ℕ
session_holder none id = none
session_holder (some (u, o)) id = if id == 1 then some u else none

abbrev pub lock_rows : Rows bank_client LockBank
lock_rows = record {
  committed = λ d id. if id == 1 then some d.row else none;
  written = λ d txn id. session_row d.session txn id;
}

abbrev pub row_locks : RowLocks LockBank
row_locks = record { holder = λ d id. session_holder d.session id; IsOpen = λ d t. t < d.following }

abbrev pub row_or : Option (Entry ℕ) → Entry ℕ → Entry ℕ
row_or none e = e
row_or (some e) _ = e

abbrev pub one_row : Entry ℕ → QueryResult BankRow
one_row e = record { rows = record { id = 1; entry = e } ∷ []; affected_rows = 0 }

abbrev pub affecting : ℕ → QueryResult BankRow
affecting n = record { rows = []; affected_rows = n }

abbrev pub select_locked : Session → ℕ → LockBank → Reply (QueryResult BankRow) × LockBank
select_locked none txn d = (ok (one_row d.row), record d { session = some (txn, none) })
select_locked (some (u, o)) txn d =
    if u == txn then (ok (one_row (row_or o d.row)), d) else (threw "lock not available", d)

abbrev pub counted_up : Entry ℕ → ℕ → Entry ℕ
counted_up e balance = record { balance = balance; version = suc e.version }

abbrev pub update_locked : Session → ℕ → ℕ → LockBank → Reply (QueryResult BankRow) × LockBank
update_locked none txn balance d =
    (ok (affecting 1), record d { session = some (txn, some (counted_up d.row balance)) })
update_locked (some (u, o)) txn balance d =
    if u == txn
    then (
      ok (affecting 1),
      record d { session = some (txn, some (counted_up (row_or o d.row) balance)) },
    )
    else (threw "lock not available", d)

abbrev lock_statement :
    String → ℕ → List (Value ℕ) → LockBank → Reply (QueryResult BankRow) × LockBank
lock_statement name txn (text username ∷ []) d =
    if Texts.◌==◌ name "select_account_lock" && Texts.◌==◌ username "1"
    then select_locked d.session txn d
    else (ok (affecting 0), d)
lock_statement name txn (double balance ∷ int id ∷ []) d =
    if id == 1 then update_locked d.session txn balance d else (ok (affecting 0), d)
lock_statement name txn _ d = (threw "invalid parameters", d)

abbrev pub give_back : Session → ℕ → LockBank → LockBank
give_back none txn d = d
give_back (some (u, o)) txn d = if u == txn then record d { session = none } else d

abbrev pub commit_session : Session → ℕ → LockBank → LockBank
commit_session none txn d = d
commit_session (some (u, o)) txn d =
    if u == txn then record d { row = row_or o d.row; session = none } else d

abbrev pub lock_bank_answer : (q : Call ℕ) → LockBank → Reply (Answer bank_client q) × LockBank
lock_bank_answer connect d = (ok 0, d)
lock_bank_answer (is_open conn) d = (ok true, d)
lock_bank_answer (dbname conn) d = (ok "bank", d)
lock_bank_answer (begin conn) d = (ok d.following, record d { following = d.following + 1 })
lock_bank_answer (exec txn statement) d = (threw "not a statement of this database", d)
lock_bank_answer (exec_prepared txn name params) d = lock_statement name txn params d
lock_bank_answer (commit txn) d = (ok tt, commit_session d.session txn d)
lock_bank_answer (abort txn) d = (ok tt, give_back d.session txn d)
lock_bank_answer (end_work txn) d = (ok tt, give_back d.session txn d)
lock_bank_answer (random least most) d = (ok least, d)
lock_bank_answer now d = (ok 0, d)
lock_bank_answer (prepare _ _ _) d = (ok tt, d)
lock_bank_answer (disconnect _) d = (ok tt, d)
lock_bank_answer (end_connection _) d = (ok tt, d)
lock_bank_answer (sleep_for _) d = (ok tt, d)
lock_bank_answer lock_mutex d = (ok tt, d)
lock_bank_answer unlock_mutex d = (ok tt, d)
lock_bank_answer (cout _) d = (ok tt, d)
lock_bank_answer (cerr _) d = (ok tt, d)

abbrev pub lock_bank : Server bank_client
lock_bank = record { Db = LockBank; answer = lock_bank_answer }
