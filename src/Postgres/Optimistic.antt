-- ===== src/Postgres/Optimistic.antt =====
-- postgresql/opt_and_pess_lock.cc: what a thread of `testDataOpt` asks of the database and writes.
use Prim.Native.String.{String, ◌++◌}
use optimistic_locking.Base.{
  ℕ, zero, suc, ◌+◌, ◌≡◌, refl, sym, Bool, true, false, List, [], ◌∷◌, All, ◌==◌, if◌then◌else◌,
}
use optimistic_locking.Postgres.Calls.{
  Client, text, QueryResult, exec_prepared, prepare, commit, abort, disconnect, random, sleep_for,
  lock_mutex, unlock_mutex, cerr, Reply, ok, threw, Program, from_reply, ask, to_string,
}
use optimistic_locking.Postgres.Keeps.{
  Follows, Told, Keeps, ret_lem, raise_lem, unfinished_lem, call_lem, quiet, closing, preparing,
  selecting, updating, Anything, Keeps-and_then, Keeps-try_catch, Keeps-ask, Keeps-from_reply,
  Keeps-with_work, Keeps-with_connection,
}
use optimistic_locking.Postgres.{
  Account, AccountRepositoryOpt, get_random_number, read_row, read_rows, read_account,
  modify_balance, give_up, deposit_once, deposit_opt,
}
use optimistic_locking.Postgres.Workload.{opt_thread}

module _ (c : Client) (F : ℕ → ℕ → c.Double) where
  abbrev IsCurrent : Account c.Double → Type 0
  IsCurrent account = account.balance ≡ F account.id account.version

  read_row-Keeps : (row : c.Row) → Follows c F row → Keeps c F IsCurrent (read_row c row)
  unfolding read_row
  read_row-Keeps row follows = Keeps-and_then c F (Keeps-from_reply c F _) λ id e.
      Keeps-and_then c F (Keeps-from_reply c F _) λ username _.
        Keeps-and_then c F (Keeps-from_reply c F _) λ balance f.
          Keeps-and_then c F (Keeps-from_reply c F _)
            λ version g. ret_lem (follows id version balance e f g)

  read_rows-Keeps :
      (row : c.Row) (rows : List c.Row)
      → Follows c F row
      → All (Follows c F) rows
      → Keeps c F IsCurrent (read_rows c row rows)
  unfolding read_rows
  read_rows-Keeps row [] follows all = read_row-Keeps row follows
  read_rows-Keeps row (next ∷ rows) follows all =
      Keeps-and_then c F (read_row-Keeps row follows) λ _ _. read_rows-Keeps next rows all.0 all.1

  read_account-Keeps :
      (rows : List c.Row) → All (Follows c F) rows → Keeps c F IsCurrent (read_account c rows)
  unfolding read_account
  read_account-Keeps [] all = raise_lem
  read_account-Keeps (row ∷ rows) all = read_rows-Keeps row rows all.0 all.1

  Keeps-select :
      (txn : ℕ) (username : String)
      → Keeps c F
          (λ res. All (Follows c F) res.rows)
          (ask (exec_prepared txn "select_account_by_username" (text username ∷ [])))
  unfolding ask from_reply
  Keeps-select txn username = call_lem (selecting txn username) λ r told. answered r told
    where
      answered :
          (r : Reply (QueryResult c.Row))
          → Told c F (selecting txn username) r
          → Keeps c F (λ res. All (Follows c F) res.rows) (from_reply r)
      answered (ok res) told = ret_lem told
      answered (threw e) told = raise_lem

  give_up-Keeps : (txn : ℕ) (what : String) → Keeps c F (Anything c F) (give_up c txn what)
  unfolding give_up
  give_up-Keeps txn what =
      Keeps-and_then c F (Keeps-ask c F (abort txn) (closing tt))
        λ _ _. Keeps-ask c F (cerr ("Error: " ++ what)) (quiet tt)

  Keeps-if :
      {A : Type 0} {P : A → Type 0} {m n : Program c A} (b : Bool)
      → Keeps c F P m
      → Keeps c F P n
      → Keeps c F P (if b then m else n)
  Keeps-if true h k = h
  Keeps-if false h k = k

module _ (c : Client) (F : ℕ → ℕ → c.Double) (amount : c.Double)
    (grows : (id version : ℕ) → F id (suc version) ≡ c.add (F id version) amount) where
  deposit_once-Keeps :
      (txn : ℕ) (username : String)
      → Keeps c F
          (Anything c F)
          (deposit_once c txn (record { username = username; amount = amount }))
  unfolding deposit_once get_random_number modify_balance
  deposit_once-Keeps txn username =
      Keeps-try_catch c F
        (Keeps-and_then c F (Keeps-select c F txn username) λ res told.
          Keeps-and_then c F (read_account-Keeps c F res.rows told) λ found current.
            Keeps-and_then c F (Keeps-ask c F (random 10 20) (quiet tt)) λ pause _.
              Keeps-and_then c F (Keeps-ask c F (sleep_for pause) (quiet tt)) λ _ _.
                Keeps-and_then c F
                  (Keeps-ask c F _ (
                    updating txn found.id found.version (c.add found.balance amount)
                      (rw current (sym (grows found.id found.version)))))
                  λ update_res _.
                    Keeps-if c F (update_res.affected_rows == 0)
                      (Keeps-and_then c F (Keeps-ask c F (abort txn) (closing tt))
                        λ _ _. ret_lem tt)
                      (Keeps-and_then c F (Keeps-ask c F (commit txn) (closing tt))
                        λ _ _. ret_lem tt))
        λ what. Keeps-and_then c F (give_up-Keeps c F txn what) λ _ _. ret_lem tt

  deposit_opt-Keeps :
      (rounds : ℕ) (repo : AccountRepositoryOpt) (username : String)
      → Keeps c F
          (Anything c F)
          (deposit_opt c rounds repo (record { username = username; amount = amount }))
  unfolding deposit_opt
  deposit_opt-Keeps zero repo username = unfinished_lem
  deposit_opt-Keeps (suc rounds) repo username =
      Keeps-and_then c F (Keeps-with_work c F repo.conn λ txn. deposit_once-Keeps txn username)
        λ done _. Keeps-if c F done (ret_lem tt) (deposit_opt-Keeps rounds repo username)

-- A thread of `testDataOpt`.
pub opt_thread-Keeps :
    (c : Client) (F : ℕ → ℕ → c.Double)
    → ((id version : ℕ) → F id (suc version) ≡ c.add (F id version) (c.literal 1000))
    → (rounds i : ℕ) → Keeps c F (Anything c F) (opt_thread c rounds i)
unfolding opt_thread
opt_thread-Keeps c F grows rounds i =
    Keeps-try_catch c F
      (Keeps-with_connection c F λ conn.
        Keeps-and_then c F
          (Keeps-ask c F
            (prepare conn "select_account_by_username"
              "SELECT * FROM account WHERE username = $1 LIMIT 1")
            (preparing conn _ _ refl))
          λ _ _.
            Keeps-and_then c F
              (Keeps-ask c F
                (prepare conn "deposit_account_opt"
                  "UPDATE account SET balance = $1, version = version+1 WHERE id = $2 AND version = $3")
                (preparing conn _ _ refl))
              λ _ _.
                Keeps-and_then c F
                  (deposit_opt-Keeps c F (c.literal 1000) grows rounds (record { conn = conn })
                    (to_string (i + 1)))
                  λ _ _. Keeps-ask c F (disconnect conn) (quiet tt))
      λ what. Keeps-and_then c F (Keeps-ask c F lock_mutex (quiet tt)) λ _ _.
        Keeps-and_then c F (Keeps-ask c F (cerr ("Error: " ++ what)) (quiet tt))
          λ _ _. Keeps-ask c F unlock_mutex (quiet tt)
