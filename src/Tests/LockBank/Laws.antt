-- ===== src/Tests/LockBank/Laws.antt =====
-- The laws of row locks, for the small database with one account.
use Prim.Native.String.{String}
use package.text.Mathlib.Text as Texts
use optimistic_locking.Base.{
  ℕ, ◌≡◌, refl, ap, ◌∙◌, inl, inr, Option, none, some, [], ◌∷◌, ◌==◌, Bool-cases, All, arith,
}
use optimistic_locking.Postgres.Calls.{
  prepare, int, text, double, QueryResult, Call, begin, exec, exec_prepared, commit, abort,
  end_work, Reply, ok,
}
use optimistic_locking.Postgres.Table.{Entry, or_else, Same, Committed, RolledBack, IsSeen}
use optimistic_locking.Postgres.Statements.{pess_statements}
use optimistic_locking.Postgres.Locks.{
  ObeysLocks, IsPlain, SameHolders, StillOpen, Acquired, Released, Begun, LockSelected, LockUpdated,
  IsHeld,
}
use optimistic_locking.Tests.Bank.{BankRow}
use optimistic_locking.Tests.LockBank.{
  Session, LockBank, lock_rows, row_locks, row_or, one_row, affecting, counted_up, select_locked,
  update_locked, give_back, commit_session, lock_bank_answer, lock_bank,
}

bank_plain :
    (q : Call ℕ)
    → IsPlain q
    → (d : LockBank)
    → let d' = (lock_bank_answer q d).1 in
      Same lock_rows d d'
      × SameHolders lock_rows row_locks d d'
      × StillOpen lock_rows row_locks d d'
bank_plain (begin _) h d = absurd h
bank_plain (prepare _ _ _) h d = absurd h
bank_plain (exec _ _) h d = absurd h
bank_plain (exec_prepared _ _ _) h d = absurd h
bank_plain (commit _) h d = absurd h
bank_plain (abort _) h d = absurd h
bank_plain (end_work _) h d = absurd h
bank_plain q h d = ((λ _. refl, λ _ _. refl), λ _. refl, λ _ o. o)

bank_begin :
    (conn : ℕ) (d : LockBank)
    → let o = lock_bank_answer (begin conn) d in
      Begun lock_rows row_locks d o
      × Same lock_rows d o.1
      × SameHolders lock_rows row_locks d o.1
      × StillOpen lock_rows row_locks d o.1
bank_begin conn d =
    ((λ lt. omega arith, omega arith), (λ _. refl, λ _ _. refl), λ _. refl, λ t lt. omega arith)

abbrev bank_of : Entry ℕ → Session → ℕ → LockBank
bank_of row session following = record { row = row; session = session; following = following }

one_shown :
    (txn : ℕ) (d d' : LockBank) (e : Entry ℕ)
    → or_else (lock_rows.written d txn 1) (some d.row) ≡ some e
    → row_locks.holder d' 1 ≡ some txn
    → All
        (λ row. IsSeen lock_rows txn d row × IsHeld lock_rows row_locks txn d' row)
        ((one_row e).rows)
one_shown txn d d' e found held = (
  (
    λ id version balance f g h.
        let same : ◌≡◌ {A = ℕ} id 1 = ground arith in
        let same' : e ≡ record { balance = balance; version = version } = ground arith in
        rw same (found ∙ ap some same'),
    λ id f. let same : ◌≡◌ {A = ℕ} id 1 = ground arith in rw same held,
  ),
  tt,
)

abbrev LockSelects : ℕ → LockBank → Reply (QueryResult BankRow) × LockBank → Type 0
LockSelects txn d o =
    LockSelected lock_rows row_locks txn d o
    × Same lock_rows d o.1
    × Acquired lock_rows row_locks txn d o.1
    × StillOpen lock_rows row_locks d o.1

own_shown :
    (txn : ℕ) (row : Entry ℕ) (o : Option (Entry ℕ)) (n : ℕ)
    → or_else (lock_rows.written (bank_of row (some (txn, o)) n) txn 1) (some row)
      ≡ some (row_or o row)
own_shown txn row none n = ground arith
own_shown txn row (some e) n = ground arith

bank_locks_own :
    (txn : ℕ) (row : Entry ℕ) (o : Option (Entry ℕ)) (n : ℕ)
    → let d = bank_of row (some (txn, o)) n in LockSelects txn d (ok (one_row (row_or o row)), d)
bank_locks_own txn row o n =
    let d = bank_of row (some (txn, o)) n in
    (
      one_shown txn d d (row_or o row) (own_shown txn row o n) refl,
      (λ _. refl, λ _ _. refl),
      λ _. inl refl,
      λ t lt. lt,
    )

bank_locks :
    (txn : ℕ) (row : Entry ℕ) (session : Session) (n : ℕ)
    → LockSelects txn (bank_of row session n) (select_locked session txn (bank_of row session n))
bank_locks txn row none n = (
  one_shown txn (bank_of row none n) (bank_of row (some (txn, none)) n) row refl refl,
  (λ _. refl, λ t id. ground arith),
  λ id. elim (Bool-cases (id == 1)) [
    | inl own ↦ inr (refl, rw own refl)
    | inr other ↦ inl (rw other refl)
  ],
  λ t lt. lt,
)
bank_locks txn row (some (u, o)) n = elim (Bool-cases (u == txn)) [
  | inl own ↦ let same : u ≡ txn = ground arith in rw own (rw same (bank_locks_own txn row o n))
  | inr other ↦ rw other (tt, (λ _. refl, λ _ _. refl), λ _. inl refl, λ t lt. lt)
]

bank_select :
    (txn : ℕ) (username : String) (d : LockBank)
    → LockSelects txn d
        (lock_bank_answer (exec_prepared txn "select_account_lock" (text username ∷ [])) d)
bank_select txn username d = elim (Bool-cases (Texts.◌==◌ username "1")) [
  | inl known ↦ rw known (bank_locks txn d.row d.session d.following)
  | inr unknown ↦ rw unknown (tt, (λ _. refl, λ _ _. refl), λ _. inl refl, λ t lt. lt)
]

abbrev LockUpdates : ℕ → ℕ → ℕ → LockBank → Reply (QueryResult BankRow) × LockBank → Type 0
LockUpdates txn id balance d o =
    LockUpdated lock_rows row_locks txn id balance d o
    × Acquired lock_rows row_locks txn d o.1
    × StillOpen lock_rows row_locks d o.1

bank_updates_own :
    (txn balance : ℕ) (row : Entry ℕ) (o : Option (Entry ℕ)) (n : ℕ)
    → LockUpdates txn 1 balance
        (bank_of row (some (txn, o)) n)
        (ok (affecting 1), bank_of row (some (txn, some (counted_up (row_or o row) balance))) n)
bank_updates_own txn balance row o n = (
  (
    (row_or o row).version,
    (
      (row_or o row, own_shown txn row o n, refl),
      (λ t ne. ground arith),
      (λ _. refl),
      (λ t i. ground arith),
    ),
    refl,
  ),
  λ id. inl refl,
  λ t lt. lt,
)

bank_updates :
    (txn balance : ℕ) (row : Entry ℕ) (session : Session) (n : ℕ)
    → LockUpdates txn 1 balance
        (bank_of row session n)
        (update_locked session txn balance (bank_of row session n))
bank_updates txn balance row none n = (
  (row.version, ((row, refl, refl), (λ t ne. refl), (λ _. refl), (λ t i. ground arith)), refl),
  λ id. elim (Bool-cases (id == 1)) [
    | inl own ↦ inr (refl, rw own refl)
    | inr other ↦ inl (rw other refl)
  ],
  λ t lt. lt,
)
bank_updates txn balance row (some (u, o)) n = elim (Bool-cases (u == txn)) [
  | inl own ↦
      let same : u ≡ txn = ground arith in rw own (rw same (bank_updates_own txn balance row o n))
  | inr other ↦ rw other ((λ _. refl, λ _ _. refl), λ _. inl refl, λ t lt. lt)
]

bank_update :
    (txn id balance : ℕ) (d : LockBank)
    → LockUpdates txn id balance d
        (lock_bank_answer (exec_prepared txn "deposit_account" (double balance ∷ int id ∷ [])) d)
bank_update txn id balance d = elim (Bool-cases (id == 1)) [
  | inl account ↦
      let same : ◌≡◌ {A = ℕ} id 1 = ground arith in
      rw account (rw same (bank_updates txn balance d.row d.session d.following))
  | inr other ↦ rw other ((λ _. refl, λ _ _. refl), λ _. inl refl, λ t lt. lt)
]

bank_commit :
    (txn : ℕ) (row : Entry ℕ) (session : Session) (n : ℕ)
    → let d = bank_of row session n in
      let d' = commit_session session txn d in
      Committed lock_rows txn d (ok tt, d')
      × Released lock_rows row_locks txn d d'
      × StillOpen lock_rows row_locks d d'
bank_commit txn row none n = ((λ id. refl, λ t id. ground arith), λ t id ne held. held, λ t lt. lt)
bank_commit txn row (some (u, none)) n = elim (Bool-cases (u == txn)) [
  | inl own ↦
      rw own ((λ id. ground arith, λ t id. ground arith), λ t id ne held. ground arith, λ t lt. lt)
  | inr other ↦
      rw other ((λ id. ground arith, λ t id. ground arith), λ t id ne held. held, λ t lt. lt)
]
bank_commit txn row (some (u, some e)) n = elim (Bool-cases (u == txn)) [
  | inl own ↦
      rw own ((λ id. ground arith, λ t id. ground arith), λ t id ne held. ground arith, λ t lt. lt)
  | inr other ↦
      rw other ((λ id. ground arith, λ t id. ground arith), λ t id ne held. held, λ t lt. lt)
]

bank_give_back :
    (txn : ℕ) (row : Entry ℕ) (session : Session) (n : ℕ)
    → let d = bank_of row session n in
      let d' = give_back session txn d in
      RolledBack lock_rows txn d d'
      × Released lock_rows row_locks txn d d'
      × StillOpen lock_rows row_locks d d'
bank_give_back txn row none n =
    ((λ _. refl, λ t id. ground arith), λ t id ne held. held, λ t lt. lt)
bank_give_back txn row (some (u, o)) n = elim (Bool-cases (u == txn)) [
  | inl own ↦ rw own ((λ _. refl, λ t id. ground arith), λ t id ne held. ground arith, λ t lt. lt)
  | inr other ↦ rw other ((λ _. refl, λ t id. ground arith), λ t id ne held. held, λ t lt. lt)
]

pub lock_bank-ObeysLocks : ObeysLocks lock_bank lock_rows row_locks pess_statements
lock_bank-ObeysLocks = record {
  quiet_law = bank_plain;
  begin_law = bank_begin;
  prepare_law = λ conn name statement known d. ((λ _. refl, λ _ _. refl), λ _. refl, λ _ o. o);
  select_law = λ _. bank_select;
  update_law = λ _. bank_update;
  commit_law = λ txn d. bank_commit txn d.row d.session d.following;
  abort_law = λ txn d. bank_give_back txn d.row d.session d.following;
  end_work_law = λ txn d.
      let (rolled, released, still) = bank_give_back txn d.row d.session d.following in
      (rolled, released, λ t _. still t);
}
