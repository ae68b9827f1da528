-- ===== src/Postgres/Statements.antt =====
-- postgresql/opt_and_pess_lock.cc: the statements that a connection runs by name. PostgreSQL runs the
-- text that was prepared under the name.
use Prim.Native.String.{String}
use package.text.Mathlib.Text as Texts
use optimistic_locking.Base.{Option, none, some, if◌then◌else◌}

-- The text that a name stands for on every connection.
abbrev pub Statements : Type 0
Statements = String → Option String

-- reads the rows as they are
abbrev pub plain_select : String
plain_select = "SELECT * FROM account WHERE username = $1 LIMIT 1"

-- reads the rows and locks them
abbrev pub locking_select : String
locking_select = "SELECT * FROM account WHERE username = $1 LIMIT 1 FOR NO KEY UPDATE"

-- writes the row, if it is at the version
abbrev pub versioned_update : String
versioned_update =
    "UPDATE account SET balance = $1, version = version+1 WHERE id = $2 AND version = $3"

-- writes the row
abbrev pub plain_update : String
plain_update = "UPDATE account SET balance = $1, version = version+1 WHERE id = $2"

-- what the connections of `testDataOpt` and of `testDataPess` may prepare
abbrev pub opt_statements : Statements
opt_statements name =
    if Texts.◌==◌ name "select_account_by_username"
    then some plain_select
    else if Texts.◌==◌ name "deposit_account_opt"
    then some versioned_update
    else none

abbrev pub pess_statements : Statements
pess_statements name =
    if Texts.◌==◌ name "select_account_lock"
    then some locking_select
    else if Texts.◌==◌ name "deposit_account"
    then some plain_update
    else none
