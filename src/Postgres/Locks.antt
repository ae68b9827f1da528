-- ===== src/Postgres/Locks.antt =====
-- What is relied on of PostgreSQL, for the statements that `testDataPess` prepares: a select `FOR NO
-- KEY UPDATE` and an update lock the rows for their transaction until it ends. The threads of the
-- test are the only clients that write to the table or lock its rows.
use Prim.Native.String.{String}
use optimistic_locking.Base.{
  ℕ, ◌≡◌, ◌≢◌, ◌⊎◌, Option, none, some, [], ◌∷◌, All, ◌==◌, if◌then◌else◌,
}
use optimistic_locking.Postgres.Calls.{
  Client, int, text, double, QueryResult, Call, prepare, begin, exec_prepared, commit, abort,
  end_work, Reply, ok, threw,
}
use optimistic_locking.Postgres.Statements.{Statements, locking_select, plain_update}
use optimistic_locking.Postgres.Server.{Server}
use optimistic_locking.Postgres.Keeps.{IsQuiet}
use optimistic_locking.Postgres.Table.{Rows, Same, IsSeen, Wrote, Committed, RolledBack}

-- `holder` is the transaction that has locked a row; `IsOpen` holds of a transaction that has begun
-- and whose `pqxx::work` is not destroyed.
pub record RowLocks (D : Type 0) : Type 1 where
  pub holder : D → ℕ → Option ℕ
  pub IsOpen : D → ℕ → Type 0

-- quiet calls other than the start of a transaction
abbrev pub IsPlain : {D : Type 0} → Call D → Type 0
IsPlain (begin _) = ⊥
IsPlain q = IsQuiet q

module _ {c : Client} {D : Type 0} (rows : Rows c D) (locks : RowLocks D) where
  abbrev pub SameHolders : D → D → Type 0
  SameHolders d d' = (id : ℕ) → locks.holder d' id ≡ locks.holder d id

  abbrev pub StillOpen : D → D → Type 0
  StillOpen d d' = (t : ℕ) → locks.IsOpen d t → locks.IsOpen d' t

  -- The transaction may have locked rows that none had locked.
  abbrev pub Acquired : ℕ → D → D → Type 0
  Acquired txn d d' =
      (id : ℕ)
      → (locks.holder d' id ≡ locks.holder d id)
        ⊎ ((locks.holder d id ≡ none) × (locks.holder d' id ≡ some txn))

  -- The others keep their locks.
  abbrev pub Released : ℕ → D → D → Type 0
  Released txn d d' =
      (t id : ℕ) → t ≢ txn → locks.holder d id ≡ some t → locks.holder d' id ≡ some t

  -- A transaction begins under a number that no open one has.
  abbrev pub Begun : D → Reply ℕ × D → Type 0
  Begun d (ok txn, d') = (locks.IsOpen d txn → ⊥) × locks.IsOpen d' txn
  Begun d (threw _, d') = Unit

  -- The row that is shown is locked.
  abbrev pub IsHeld : ℕ → D → c.Row → Type 0
  IsHeld txn d row = (id : ℕ) → c.as_int row "id" ≡ ok id → locks.holder d id ≡ some txn

  abbrev pub LockSelected : ℕ → D → Reply (QueryResult c.Row) × D → Type 0
  LockSelected txn d (ok res, d') = All (λ row. IsSeen rows txn d row × IsHeld txn d' row) res.rows
  LockSelected txn d (threw _, d') = Unit

  -- An update that affects the row counts its version up, and has locked it.
  abbrev pub LockUpdated : ℕ → ℕ → c.Double → D → Reply (QueryResult c.Row) × D → Type 0
  LockUpdated txn id balance d (ok res, d') =
      if res.affected_rows == 0
      then Same rows d d'
      else ((version : ℕ) × Wrote rows txn id version balance d d'
          × (locks.holder d' id ≡ some txn))
  LockUpdated txn id balance d (threw _, d') = Same rows d d'

-- A statement that is run by its name does what the text says that the name stands for.
pub record ObeysLocks {c : Client} (s : Server c) (rows : Rows c s.Db) (locks : RowLocks s.Db)
    (statements : Statements) : Type 0 where
  pub quiet_law :
      (q : Call c.Double)
      → IsPlain q
      → (d : s.Db)
      → Same rows d (s.answer q d).1
        × SameHolders rows locks d (s.answer q d).1
        × StillOpen rows locks d (s.answer q d).1
  pub begin_law :
      (conn : ℕ) (d : s.Db)
      → Begun rows locks d (s.answer (begin conn) d)
        × Same rows d (s.answer (begin conn) d).1
        × SameHolders rows locks d (s.answer (begin conn) d).1
        × StillOpen rows locks d (s.answer (begin conn) d).1
  pub prepare_law :
      (conn : ℕ) (name statement : String)
      → statements name ≡ some statement
      → (d : s.Db)
      → Same rows d (s.answer (prepare conn name statement) d).1
        × SameHolders rows locks d (s.answer (prepare conn name statement) d).1
        × StillOpen rows locks d (s.answer (prepare conn name statement) d).1
  pub select_law :
      statements "select_account_lock" ≡ some locking_select
      → (txn : ℕ) (username : String) (d : s.Db)
      → let o = s.answer (exec_prepared txn "select_account_lock" (text username ∷ [])) d in
        LockSelected rows locks txn d o
        × Same rows d o.1
        × Acquired rows locks txn d o.1
        × StillOpen rows locks d o.1
  pub update_law :
      statements "deposit_account" ≡ some plain_update
      → (txn id : ℕ) (balance : c.Double) (d : s.Db)
      → let o = s.answer (exec_prepared txn "deposit_account" (double balance ∷ int id ∷ [])) d in
        LockUpdated rows locks txn id balance d o
        × Acquired rows locks txn d o.1
        × StillOpen rows locks d o.1
  pub commit_law :
      (txn : ℕ) (d : s.Db)
      → Committed rows txn d (s.answer (commit txn) d)
        × Released rows locks txn d (s.answer (commit txn) d).1
        × StillOpen rows locks d (s.answer (commit txn) d).1
  pub abort_law :
      (txn : ℕ) (d : s.Db)
      → RolledBack rows txn d (s.answer (abort txn) d).1
        × Released rows locks txn d (s.answer (abort txn) d).1
        × StillOpen rows locks d (s.answer (abort txn) d).1
  pub end_work_law :
      (txn : ℕ) (d : s.Db)
      → RolledBack rows txn d (s.answer (end_work txn) d).1
        × Released rows locks txn d (s.answer (end_work txn) d).1
        × ((t : ℕ) → t ≢ txn → locks.IsOpen d t → locks.IsOpen (s.answer (end_work txn) d).1 t)
