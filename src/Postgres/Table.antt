-- ===== src/Postgres/Table.antt =====
-- What is relied on of PostgreSQL, for the statements that `testDataOpt` prepares: the committed rows
-- of the table `account`, and the rows that a transaction has written and not yet committed. The
-- threads of the test are the only clients that write to the table.
use Prim.Native.String.{String}
use optimistic_locking.Base.{
  ℕ, suc, ◌≡◌, ◌≢◌, ◌⊎◌, ◌&&◌, Option, none, some, [], ◌∷◌, All, ◌==◌, if◌then◌else◌,
}
use optimistic_locking.Postgres.Calls.{
  Client, int, text, double, QueryResult, Call, prepare, exec_prepared, commit, abort, end_work,
  Reply, ok, threw,
}
use optimistic_locking.Postgres.Statements.{Statements, plain_select, versioned_update}
use optimistic_locking.Postgres.Server.{Server}
use optimistic_locking.Postgres.Keeps.{IsQuiet}

pub record Entry (D : Type 0) : Type 0 where
  pub balance : D
  pub version : ℕ

abbrev pub or_else : {A : Type 0} → Option A → Option A → Option A
or_else none b = b
or_else (some a) b = some a

-- `committed` by id, `written` by transaction and id.
pub record Rows (c : Client) (D : Type 0) : Type 0 where
  pub committed : D → ℕ → Option (Entry c.Double)
  pub written : D → ℕ → ℕ → Option (Entry c.Double)

module _ {c : Client} {D : Type 0} (rows : Rows c D) where
  abbrev pub SameCommitted : D → D → Type 0
  SameCommitted d d' = (id : ℕ) → rows.committed d' id ≡ rows.committed d id

  abbrev pub SameWritten : D → D → Type 0
  SameWritten d d' = (txn id : ℕ) → rows.written d' txn id ≡ rows.written d txn id

  abbrev pub Same : D → D → Type 0
  Same d d' = SameCommitted d d' × SameWritten d d'

  -- The transaction's rows are committed.
  abbrev pub Applied : ℕ → D → D → Type 0
  Applied txn d d' =
      (id : ℕ) → rows.committed d' id ≡ or_else (rows.written d txn id) (rows.committed d id)

  abbrev pub Cleared : ℕ → D → D → Type 0
  Cleared txn d d' =
      (t id : ℕ) → rows.written d' t id ≡ (if t == txn then none else rows.written d t id)

  -- A commit that throws may have been done or not.
  abbrev pub Committed : ℕ → D → Reply (Unit {0}) × D → Type 0
  Committed txn d (ok _, d') = Applied txn d d' × Cleared txn d d'
  Committed txn d (threw _, d') = (Applied txn d d' ⊎ SameCommitted d d') × Cleared txn d d'

  abbrev pub RolledBack : ℕ → D → D → Type 0
  RolledBack txn d d' = SameCommitted d d' × Cleared txn d d'

  -- A select shows the rows as they are committed, or as its own transaction has written them.
  abbrev pub IsSeen : ℕ → D → c.Row → Type 0
  IsSeen txn d row =
      (id version : ℕ) (balance : c.Double)
      → c.as_int row "id" ≡ ok id
      → c.as_double row "balance" ≡ ok balance
      → c.as_int row "version" ≡ ok version
      → or_else (rows.written d txn id) (rows.committed d id)
        ≡ some (record { balance = balance; version = version })

  abbrev pub Selected : ℕ → D → Reply (QueryResult c.Row) × D → Type 0
  Selected txn d (ok res, d') = Same d d' × All (IsSeen txn d) res.rows
  Selected txn d (threw _, d') = Same d d'

  -- An update that affects the row `id` has found it at `version`, and no other transaction that
  -- has written it is open; it writes the balance and the next version.
  abbrev pub Wrote : ℕ → ℕ → ℕ → c.Double → D → D → Type 0
  Wrote txn id version balance d d' =
      ((e : Entry c.Double) × (or_else (rows.written d txn id) (rows.committed d id) ≡ some e)
        × (e.version ≡ version))
      × ((t : ℕ) → t ≢ txn → rows.written d t id ≡ none)
      × SameCommitted d d'
      × ((t i : ℕ)
          → rows.written d' t i ≡ (
              if t == txn && i == id
              then some (record { balance = balance; version = suc version })
              else rows.written d t i))

  abbrev pub Updated : ℕ → ℕ → ℕ → c.Double → D → Reply (QueryResult c.Row) × D → Type 0
  Updated txn id version balance d (ok res, d') =
      if res.affected_rows == 0 then Same d d' else Wrote txn id version balance d d'
  Updated txn id version balance d (threw _, d') = Same d d'

-- A statement that is run by its name does what the text says that the name stands for.
pub record Obeys {c : Client} (s : Server c) (rows : Rows c s.Db) (statements : Statements)
    : Type 0 where
  pub quiet_law : (q : Call c.Double) → IsQuiet q → (d : s.Db) → Same rows d (s.answer q d).1
  pub prepare_law :
      (conn : ℕ) (name statement : String)
      → statements name ≡ some statement
      → (d : s.Db) → Same rows d (s.answer (prepare conn name statement) d).1
  pub select_law :
      statements "select_account_by_username" ≡ some plain_select
      → (txn : ℕ) (username : String) (d : s.Db)
      → Selected rows txn d
          (s.answer (exec_prepared txn "select_account_by_username" (text username ∷ [])) d)
  pub update_law :
      statements "deposit_account_opt" ≡ some versioned_update
      → (txn id version : ℕ) (balance : c.Double) (d : s.Db)
      → Updated rows txn id version balance d (
          s.answer
            (exec_prepared txn "deposit_account_opt" (double balance ∷ int id ∷ int version ∷ []))
            d)
  pub commit_law : (txn : ℕ) (d : s.Db) → Committed rows txn d (s.answer (commit txn) d)
  pub abort_law : (txn : ℕ) (d : s.Db) → RolledBack rows txn d (s.answer (abort txn) d).1
  pub end_work_law : (txn : ℕ) (d : s.Db) → RolledBack rows txn d (s.answer (end_work txn) d).1
