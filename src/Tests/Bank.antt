-- ===== src/Tests/Bank.antt =====
-- A small database: one account, number 1 with the name "1". One transaction writes at a time; the
-- others' updates are refused.
use Prim.Native.String.{String}
use package.text.Mathlib.Text as Texts
use optimistic_locking.Base.{
  ℕ, suc, ◌+◌, ◌≡◌, refl, ap, ◌∙◌, inl, inr, true, ◌&&◌, Option, none, some, List, [], ◌∷◌, ◌==◌,
  if◌then◌else◌, Bool-cases, All, arith,
}
use optimistic_locking.Postgres.Calls.{
  Client, Value, int, text, double, QueryResult, Call, connect, is_open, dbname, begin, exec,
  exec_prepared, commit, abort, end_work, random, now, prepare, disconnect, end_connection,
  sleep_for, lock_mutex, unlock_mutex, cout, cerr, Answer, Reply, ok, threw,
}
use optimistic_locking.Postgres.Statements.{opt_statements}
use optimistic_locking.Postgres.Server.{Server}
use optimistic_locking.Postgres.Table.{
  Entry, or_else, Rows, Same, Updated, Committed, RolledBack, IsSeen, Selected, Obeys,
}
use optimistic_locking.Postgres.Keeps.{IsQuiet}

pub record BankRow : Type 0 where
  pub id : ℕ
  pub entry : Entry ℕ

abbrev pub bank_client : Client
bank_client = record {
  Double = ℕ;
  add = λ a b. a + b;
  literal = λ n. n;
  Row = BankRow;
  as_int = λ row name. ok (if Texts.◌==◌ name "id" then row.id else row.entry.version);
  as_string = λ row name. ok "1";
  as_double = λ row name. ok row.entry.balance;
}

-- `row` is the account as it is committed, `open_row` what a transaction has written.
pub record Bank : Type 0 where
  pub row : Entry ℕ
  pub open_row : Option (ℕ × Entry ℕ)
  pub next : ℕ

abbrev own_row : Option (ℕ × Entry ℕ) → ℕ → ℕ → Option (Entry ℕ)
own_row none txn id = none
own_row (some (t, e)) txn id = if t == txn && id == 1 then some e else none

abbrev pub bank_rows : Rows bank_client Bank
bank_rows = record {
  committed = λ d id. if id == 1 then some d.row else none;
  written = λ d txn id. own_row d.open_row txn id;
}

abbrev shown : Option (Entry ℕ) → List BankRow
shown none = []
shown (some e) = record { id = 1; entry = e } ∷ []

abbrev select_rows : ℕ → List (Value ℕ) → Bank → List BankRow
select_rows txn (text username ∷ []) d =
    if Texts.◌==◌ username "1" then shown (or_else (own_row d.open_row txn 1) (some d.row)) else []
select_rows txn _ d = []

abbrev affected : ℕ → Reply (QueryResult BankRow)
affected n = ok (record { rows = []; affected_rows = n })

abbrev update_row : Option (ℕ × Entry ℕ) → ℕ → ℕ → ℕ → ℕ → Bank → Reply (QueryResult BankRow) × Bank
update_row (some _) txn balance id version d = (threw "could not serialize access", d)
update_row none txn balance id version d =
    if id == 1 && (d.row).version == version
    then (
      affected 1,
      record d { open_row = some (txn, record { balance = balance; version = suc version }) },
    )
    else (affected 0, d)

abbrev update_rows : ℕ → List (Value ℕ) → Bank → Reply (QueryResult BankRow) × Bank
update_rows txn (double balance ∷ int id ∷ int version ∷ []) d =
    update_row d.open_row txn balance id version d
update_rows txn _ d = (threw "invalid parameters", d)

abbrev roll_back : Option (ℕ × Entry ℕ) → ℕ → Bank → Bank
roll_back none txn d = d
roll_back (some (t, e)) txn d = if t == txn then record d { open_row = none } else d

abbrev commit_row : Option (ℕ × Entry ℕ) → ℕ → Bank → Bank
commit_row none txn d = d
commit_row (some (t, e)) txn d = if t == txn then record d { row = e; open_row = none } else d

abbrev bank_answer : (q : Call ℕ) → Bank → Reply (Answer bank_client q) × Bank
bank_answer connect d = (ok d.next, record d { next = d.next + 1 })
bank_answer (is_open conn) d = (ok true, d)
bank_answer (dbname conn) d = (ok "bank", d)
bank_answer (begin conn) d = (ok d.next, record d { next = d.next + 1 })
bank_answer (exec txn statement) d = (threw "not a statement of this database", d)
bank_answer (exec_prepared txn name params) d =
    if Texts.◌==◌ name "select_account_by_username"
    then (ok (record { rows = select_rows txn params d; affected_rows = 0 }), d)
    else if Texts.◌==◌ name "deposit_account_opt"
    then update_rows txn params d
    else (threw "prepared statement does not exist", d)
bank_answer (commit txn) d = (ok tt, commit_row d.open_row txn d)
bank_answer (abort txn) d = (ok tt, roll_back d.open_row txn d)
bank_answer (end_work txn) d = (ok tt, roll_back d.open_row txn d)
bank_answer (random least most) d = (ok least, d)
bank_answer now d = (ok 0, d)
bank_answer (prepare _ _ _) d = (ok tt, d)
bank_answer (disconnect _) d = (ok tt, d)
bank_answer (end_connection _) d = (ok tt, d)
bank_answer (sleep_for _) d = (ok tt, d)
bank_answer lock_mutex d = (ok tt, d)
bank_answer unlock_mutex d = (ok tt, d)
bank_answer (cout _) d = (ok tt, d)
bank_answer (cerr _) d = (ok tt, d)

abbrev pub bank : Server bank_client
bank = record { Db = Bank; answer = bank_answer }

bank_quiet : (q : Call ℕ) → IsQuiet q → (d : Bank) → Same bank_rows d (bank_answer q d).1
bank_quiet (prepare _ _ _) h d = absurd h
bank_quiet (exec _ _) h d = absurd h
bank_quiet (exec_prepared _ _ _) h d = absurd h
bank_quiet (commit _) h d = absurd h
bank_quiet (abort _) h d = absurd h
bank_quiet (end_work _) h d = absurd h
bank_quiet q h d = (λ _. refl, λ _ _. refl)

bank_update :
    (slot : Option (ℕ × Entry ℕ)) (txn id version balance : ℕ) (d : Bank)
    → d.open_row ≡ slot
    → Updated bank_rows txn id version balance d (update_row slot txn balance id version d)
bank_update (some _) txn id version balance d e = (λ _. refl, λ _ _. refl)
bank_update none txn id version balance d e =
    elim (Bool-cases (id == 1 && (d.row).version == version)) [
      | inl hit ↦ rw hit (
        (d.row, rw e (ground arith), ground arith),
        λ t ne. rw e refl,
        λ _. refl,
        λ t i. rw e (ground arith),
      )
      | inr miss ↦ rw miss (λ _. refl, λ _ _. refl)
    ]

bank_commit :
    (slot : Option (ℕ × Entry ℕ)) (txn : ℕ) (d : Bank)
    → d.open_row ≡ slot
    → Committed bank_rows txn d (ok tt, commit_row slot txn d)
bank_commit none txn d e = (λ id. rw e refl, λ t id. rw e (ground arith))
bank_commit (some (t, entry)) txn d e = elim (Bool-cases (t == txn)) [
  | inl own ↦ rw own (λ id. rw e (ground arith), λ u id. rw e (ground arith))
  | inr other ↦ rw other (λ id. rw e (ground arith), λ u id. rw e (ground arith))
]

bank_roll_back :
    (slot : Option (ℕ × Entry ℕ)) (txn : ℕ) (d : Bank)
    → d.open_row ≡ slot
    → RolledBack bank_rows txn d (roll_back slot txn d)
bank_roll_back none txn d e = (λ _. refl, λ t id. rw e (ground arith))
bank_roll_back (some (t, entry)) txn d e = elim (Bool-cases (t == txn)) [
  | inl own ↦ rw own (λ _. refl, λ u id. rw e (ground arith))
  | inr other ↦ rw other (λ _. refl, λ u id. rw e (ground arith))
]

bank_shows :
    (txn : ℕ) (d : Bank) (o : Option (Entry ℕ))
    → or_else (bank_rows.written d txn 1) (bank_rows.committed d 1) ≡ o
    → All (IsSeen bank_rows txn d) (shown o)
bank_shows txn d none e = tt
bank_shows txn d (some entry) e = (
  λ id version balance f g h.
      let same : ◌≡◌ {A = ℕ} id 1 = ground arith in
      let same' : entry ≡ record { balance = balance; version = version } = ground arith in
      rw same (e ∙ ap some same'),
  tt,
)

bank_select :
    (txn : ℕ) (username : String) (d : Bank)
    → Selected bank_rows txn d
        (bank_answer (exec_prepared txn "select_account_by_username" (text username ∷ [])) d)
bank_select txn username d = elim (Bool-cases (Texts.◌==◌ username "1")) [
  | inl known ↦ ((λ _. refl, λ _ _. refl), rw known (bank_shows txn d _ refl))
  | inr unknown ↦ ((λ _. refl, λ _ _. refl), rw unknown tt)
]

pub bank-Obeys : Obeys bank bank_rows opt_statements
bank-Obeys = record {
  quiet_law = bank_quiet;
  prepare_law = λ conn name statement known d. (λ _. refl, λ _ _. refl);
  select_law = λ _. bank_select;
  update_law = λ _ txn id version balance d. bank_update d.open_row txn id version balance d refl;
  commit_law = λ txn d. bank_commit d.open_row txn d refl;
  abort_law = λ txn d. bank_roll_back d.open_row txn d refl;
  end_work_law = λ txn d. bank_roll_back d.open_row txn d refl;
}
