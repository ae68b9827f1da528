-- ===== src/Postgres/Missing.antt =====
-- postgresql/opt_and_pess_lock.cc: what the two deposits do when no account has the name.
use Prim.Native.String.{String}
use optimistic_locking.Base.{
  ℕ, zero, suc, true, false, ◌+◌, ◌≡◌, refl, sym, ◌∙◌, ap, List, [], ◌∷◌, arith,
}
use optimistic_locking.Base as Base
use optimistic_locking.Postgres.Calls.{
  Client, text, QueryResult, begin, exec_prepared, abort, end_work, ok, Program, ret, raise,
  unfinished, call, and_then, from_reply, ask, try_catch, with_destructor, with_work,
}
use optimistic_locking.Postgres.Server.{Server, World, serve, Ended, returned, raised, running, run}
use optimistic_locking.Postgres.{
  AccountRepositoryPess, AccountRepositoryOpt, DepositRequest, read_account, give_up, deposit,
  deposit_once, deposit_opt,
}

-- the log after `n` rounds that fail for want of the account
abbrev pub missed : ℕ → List String → List String
missed zero log = log
missed (suc n) log = missed n (Base.◌++◌ log ("Error: Account not found" ∷ []))

-- A database that opens and ends transactions, and in which a select finds no row.
pub record IsEmpty {c : Client} (s : Server c) (statement username : String) : Type 0 where
  pub opens : (conn : ℕ) (d : s.Db) → (txn : ℕ) × ((s.answer (begin conn) d).0 ≡ ok txn)
  pub finds_none :
      (txn : ℕ) (d : s.Db)
      → (res : QueryResult c.Row) × ((s.answer
            (exec_prepared txn statement (text username ∷ []))
            d).0
          ≡ ok res)
        × (res.rows ≡ [])
  pub aborts : (txn : ℕ) (d : s.Db) → (s.answer (abort txn) d).0 ≡ ok tt

module _ {c : Client} (s : Server c) (request : DepositRequest c.Double) where
  -- `deposit` of an account that is not there returns, having printed the error.
  deposit_missing :
      IsEmpty s "select_account_lock" request.username
      → (repo : AccountRepositoryPess) (w : World s.Db)
      → let (r, w') = run s (deposit c repo request) w in
        (r ≡ returned tt) × (w'.log ≡ missed 1 w.log)
  unfolding deposit with_work with_destructor ask from_reply try_catch and_then run serve
      read_account give_up
  deposit_missing empty repo w =
      let (txn, opened) = empty.opens repo.conn w.db in
      let d = (s.answer (begin repo.conn) w.db).1 in
      let (res, found, no_rows) = empty.finds_none txn d in
      let select = exec_prepared txn "select_account_lock" (text request.username ∷ []) in
      let aborted = empty.aborts txn (s.answer select d).1 in
      rw (opened, run) (rw (found, run) (rw (no_rows, run) (rw (aborted, run) (refl, refl))))

  -- one round of the loop of `depositOpt`
  once_missing :
      IsEmpty s "select_account_by_username" request.username
      → (conn : ℕ) (w : World s.Db)
      → (w' : World s.Db) × (w'.log ≡ missed 1 w.log)
        × (run s (with_work conn λ txn. deposit_once c txn request) w ≡ (returned false, w'))
  unfolding deposit_once with_work with_destructor ask from_reply try_catch and_then run serve
      read_account give_up
  once_missing empty conn w =
      let (txn, opened) = empty.opens conn w.db in
      let d = (s.answer (begin conn) w.db).1 in
      let (res, found, no_rows) = empty.finds_none txn d in
      let select = exec_prepared txn "select_account_by_username" (text request.username ∷ []) in
      let d' = (s.answer select d).1 in
      let aborted = empty.aborts txn d' in
      (
        record w {
          db = (s.answer (end_work txn) (s.answer (abort txn) d').1).1;
          log = missed 1 w.log;
        },
        refl,
        rw (opened, run) (rw (found, run) (rw (no_rows, run) (rw (aborted, run) refl))),
      )

  resume : {A B : Type 0} → (A → Program c B) → Ended A × World s.Db → Ended B × World s.Db
  resume k (returned a, w) = run s (k a) w
  resume k (raised e, w) = (raised e, w)
  resume k (running, w) = (running, w)

  run-and_then :
      {A B : Type 0} (m : Program c A) (k : A → Program c B) (w : World s.Db)
      → run s (and_then m k) w ≡ resume k (run s m w)
  unfolding run and_then resume
  run-and_then (ret a) k w = refl
  run-and_then (raise x) k w = refl
  run-and_then unfinished k w = refl
  run-and_then (call q f) k w = run-and_then (f (serve s q w).0) k (serve s q w).1

  -- `depositOpt` of an account that is not there does not return, whatever number of rounds its loop
  -- is given: it prints the error in each of them.
  deposit_opt_missing :
      IsEmpty s "select_account_by_username" request.username
      → (rounds : ℕ) (repo : AccountRepositoryOpt) (w : World s.Db)
      → let (r, w') = run s (deposit_opt c rounds repo request) w in
        (r ≡ running) × (w'.log ≡ missed rounds w.log)
  unfolding deposit_opt run resume
  deposit_opt_missing empty zero repo w = (refl, refl)
  deposit_opt_missing empty (suc rounds) repo w =
      let (w', printed, once) = once_missing empty repo.conn w in
      let later = deposit_opt_missing empty rounds repo w' in
      rw (run-and_then (with_work repo.conn λ txn. deposit_once c txn request) _ w, once)
        (later.0, later.1 ∙ ap (missed rounds) printed)

  -- Of an account that is not there, by either of the two selects: `deposit` prints the error once
  -- and returns; `depositOpt` does not return, whatever number of rounds its loop is given, and
  -- prints the error in each of them.
  pub deposits_missing :
      IsEmpty s "select_account_lock" request.username
      → IsEmpty s "select_account_by_username" request.username
      → (rounds : ℕ) (pess : AccountRepositoryPess) (opt : AccountRepositoryOpt) (w : World s.Db)
      → let (r, w1) = run s (deposit c pess request) w in
        let (r', w2) = run s (deposit_opt c rounds opt request) w in
        ((r ≡ returned tt) × (w1.log ≡ missed 1 w.log))
        × ((r' ≡ running) × (w2.log ≡ missed rounds w.log))
  deposits_missing locked plain rounds pess opt w =
      (deposit_missing locked pess w, deposit_opt_missing plain rounds opt w)
