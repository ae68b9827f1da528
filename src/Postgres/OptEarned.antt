-- ===== src/Postgres/OptEarned.antt =====
-- postgresql/opt_and_pess_lock.cc: what a thread of `testDataOpt` has done where it disconnects.
use Prim.Native.String.{String}
use package.text.Mathlib.Text as Texts
use optimistic_locking.Base.{
  ℕ, zero, suc, ◌≡◌, refl, inl, inr, Bool, true, false, not, ◌&&◌, ◌==◌, some, List, [], ◌∷◌,
  if◌then◌else◌, get_elem?, Bool-cases,
}
use optimistic_locking.Postgres.Calls.{
  Client, Call, Value, QueryResult, int, double, text, begin, exec_prepared, prepare, commit, abort,
  end_work, connect, end_connection, disconnect, random, sleep_for, Reply, ok, Program, ask,
  and_then, with_work, with_connection,
}
use optimistic_locking.Postgres.{
  Account, AccountRepositoryOpt, DepositRequest, get_random_number, modify_balance, deposit_once,
  deposit_opt,
}
use optimistic_locking.Postgres.Workload.{opt_thread, test_data_opt}
use optimistic_locking.Postgres.Server.{Server, World, run_threads}
use optimistic_locking.Postgres.Traces.{
  Stage, searching, deposited, after_call, Earns, ret_lem, unfinished_lem, Anywhere, Whatever,
  Earns-and_then, Earns-try_catch, Earns-with_destructor, Earns-ask, stages_after,
  run_threads-IsFine, IsDisconnecting,
}
use optimistic_locking.Postgres.Earned.{
  calling, earned, give_up-Earns, report-Earns, read_account-Earns, emplace_threads-Earns,
}

-- The update counts if it has affected a row.
abbrev pub opt_counts : String → ℕ → Bool
opt_counts name affected = Texts.◌==◌ name "deposit_account_opt" && not (affected == 0)

abbrev pub IsDeposited : Stage → Type 0
IsDeposited st = st ≡ deposited

module _ (c : Client) where
  abbrev OptEarns : {A : Type 0} → (A → Stage → Type 0) → Stage → Program c A → Type 0
  OptEarns P = Earns c opt_counts IsDeposited P (Anywhere c opt_counts IsDeposited)

  abbrev IfTrue : Bool → Stage → Type 0
  IfTrue b st = b ≡ true → st ≡ deposited

  abbrev params : DepositRequest c.Double → Account c.Double → List (Value c.Double)
  params request found =
      double (c.add found.balance request.amount) ∷ int found.id ∷ int found.version ∷ []

  abbrev update_call : ℕ → DepositRequest c.Double → Account c.Double → Call c.Double
  update_call txn request found = exec_prepared txn "deposit_account_opt" (params request found)

  deposit_once-Earns :
      (txn : ℕ) (request : DepositRequest c.Double) (st : Stage)
      → OptEarns IfTrue st (deposit_once c txn request)
  unfolding deposit_once get_random_number modify_balance
  deposit_once-Earns txn request st =
      Earns-try_catch c opt_counts IsDeposited
        (Earns-and_then c opt_counts IsDeposited
          (calling c opt_counts IsDeposited
            (exec_prepared txn "select_account_by_username" (text request.username ∷ [])) (λ d. d))
          λ res st1 _.
            Earns-and_then c opt_counts IsDeposited
              (read_account-Earns c opt_counts IsDeposited res.rows st1)
              λ found st2 _.
                Earns-and_then c opt_counts IsDeposited
                  (calling c opt_counts IsDeposited (random 10 20) (λ d. d))
                  λ pause st3 _.
                    Earns-and_then c opt_counts IsDeposited
                      (calling c opt_counts IsDeposited (sleep_for pause) (λ d. d))
                      λ _ st4 _.
                        Earns-and_then c opt_counts IsDeposited
                          (Earns-ask c opt_counts IsDeposited (update_call txn request found)
                            (λ r st'.
                              st'
                              ≡ after_call c opt_counts st4 (update_call txn request found) (ok r))
                            (λ d. absurd d) (λ _. refl))
                          λ update_res st5 at.
                            rw at (answered (params request found) st4 update_res))
        λ what st' _.
          Earns-and_then c opt_counts IsDeposited
            (give_up-Earns c opt_counts IsDeposited txn what st' (Whatever c opt_counts IsDeposited)
              (λ _. tt))
            λ _ _ _. ret_lem (λ e. cc)
    where
      committing :
          (st4 : Stage)
          → after_call c opt_counts st4 (commit txn) (ok tt) ≡ deposited
          → OptEarns IfTrue st4 (and_then (ask (commit txn)) (λ _. Program.ret true))
      committing st4 done =
          Earns-and_then c opt_counts IsDeposited
            (Earns-ask c opt_counts IsDeposited (commit txn) (λ _ st'. st' ≡ deposited)
              (λ d. absurd d) (λ _. done))
            λ _ st' at. ret_lem (λ _. at)

      aborting :
          (st4 : Stage) → OptEarns IfTrue st4 (and_then (ask (abort txn)) (λ _. Program.ret false))
      aborting st4 =
          Earns-and_then c opt_counts IsDeposited
            (calling c opt_counts IsDeposited (abort txn) (λ d. d)) λ _ st' _. ret_lem (λ e. cc)

      answered :
          (ps : List (Value c.Double)) (st4 : Stage) (res : QueryResult c.Row)
          → OptEarns IfTrue
              (after_call c opt_counts st4 (exec_prepared txn "deposit_account_opt" ps) (ok res))
              (if res.affected_rows == 0
                then (and_then (ask (abort txn)) (λ _. Program.ret false))
                else (and_then (ask (commit txn)) (λ _. Program.ret true)))
      answered ps st4 res = elim (Bool-cases (res.affected_rows == 0)) [
        | inl none_affected ↦ rw none_affected (aborting _)
        | inr affected ↦
            let counted : opt_counts "deposit_account_opt" res.affected_rows ≡ true =
              rw affected refl in
            let done =
              earned c opt_counts IsDeposited st4 txn "deposit_account_opt" ps res counted in
            rw affected (committing _ done)
      ]

  done_or_again :
      (b : Bool) (st : Stage)
      → IfTrue b st
      → (again : Program c (Unit {0})) → OptEarns (λ _ st'. st' ≡ deposited) st again
      → OptEarns (λ _ st'. st' ≡ deposited) st (if b then Program.ret tt else again)
  done_or_again true st h again earns = ret_lem (h refl)
  done_or_again false st h again earns = earns

  deposit_opt-Earns :
      (rounds : ℕ) (repo : AccountRepositoryOpt) (request : DepositRequest c.Double) (st : Stage)
      → OptEarns (λ _ st'. st' ≡ deposited) st (deposit_opt c rounds repo request)
  unfolding deposit_opt with_work
  deposit_opt-Earns zero repo request st = unfinished_lem
  deposit_opt-Earns (suc rounds) repo request st =
      Earns-and_then c opt_counts IsDeposited
        (Earns-and_then c opt_counts IsDeposited
          (calling c opt_counts IsDeposited (begin repo.conn) (λ d. d))
          λ txn st1 _.
            Earns-with_destructor c opt_counts IsDeposited (end_work txn) (λ d. d) (kept txn)
              (deposit_once-Earns txn request st1))
        λ b st2 is.
          done_or_again b st2 is (deposit_opt c rounds repo request)
            (deposit_opt-Earns rounds repo request st2)
    where
      kept :
          (txn : ℕ) (b : Bool) (st' : Stage) (r : Reply (Unit {0}))
          → IfTrue b st'
          → IfTrue b (after_call c opt_counts st' (end_work txn) r)
      kept txn b st' r h e = rw (h e) refl

  opt_thread-Earns :
      (rounds i : ℕ) (st : Stage)
      → OptEarns (Whatever c opt_counts IsDeposited) st (opt_thread c rounds i)
  unfolding opt_thread with_connection
  opt_thread-Earns rounds i st =
      Earns-try_catch c opt_counts IsDeposited
        (Earns-and_then c opt_counts IsDeposited (calling c opt_counts IsDeposited connect (λ d. d))
          λ conn st1 _.
            Earns-with_destructor c opt_counts IsDeposited (end_connection conn) (λ d. d)
              (λ _ _ _ _. tt)
              (Earns-and_then c opt_counts IsDeposited
                (calling c opt_counts IsDeposited (prepare conn _ _) (λ d. d))
                λ _ st2 _.
                  Earns-and_then c opt_counts IsDeposited
                    (calling c opt_counts IsDeposited (prepare conn _ _) (λ d. d))
                    λ _ st3 _.
                      Earns-and_then c opt_counts IsDeposited
                        (deposit_opt-Earns rounds (record { conn = conn }) _ st3)
                        λ _ st4 at.
                          Earns-ask c opt_counts IsDeposited (disconnect conn)
                            (Whatever c opt_counts IsDeposited) (λ _. at) (λ _. tt)))
        λ what st' _. report-Earns c opt_counts IsDeposited what st'

module _ {c : Client} (s : Server c) where
  -- Where a thread of the test disconnects next, after a schedule.
  pub test_data_opt-IsDeposited :
      (rounds user_count : ℕ) (schedule : List ℕ) (w : World s.Db) (i : ℕ)
      (thread : Program c (Unit {0}))
      → let pool = test_data_opt c rounds user_count in
        get_elem? (run_threads s schedule pool w).0 i ≡ some thread
        → IsDisconnecting c opt_counts thread
        → stages_after opt_counts s schedule (λ _. searching) pool w i ≡ deposited
  unfolding test_data_opt
  test_data_opt-IsDeposited rounds user_count schedule w =
      run_threads-IsFine opt_counts s IsDeposited schedule (λ _. searching) _ w
        (emplace_threads-Earns opt_counts s IsDeposited (opt_thread c rounds)
          (λ i. opt_thread-Earns c rounds i searching) 0 user_count)
