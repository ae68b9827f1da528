-- ===== src/Postgres/PessEarned.antt =====
-- postgresql/opt_and_pess_lock.cc: what a thread of `testDataPess` has done where it disconnects.
use Prim.Native.String.{String, ◌++◌}
use package.text.Mathlib.Text as Texts
use optimistic_locking.Base.{ℕ, ◌≡◌, refl, ◌⊎◌, inl, inr, Bool, some, List, [], ◌∷◌, get_elem?}
use optimistic_locking.Postgres.Calls.{
  Client, Call, Value, int, double, text, begin, exec_prepared, prepare, commit, end_work, connect,
  end_connection, disconnect, cerr, Reply, ok, Program, with_work, with_connection,
}
use optimistic_locking.Postgres.{
  Account, AccountRepositoryPess, DepositRequest, modify_balance, deposit,
}
use optimistic_locking.Postgres.Workload.{pess_thread, test_data_pess}
use optimistic_locking.Postgres.Server.{Server, World, run_threads}
use optimistic_locking.Postgres.Traces.{
  Stage, searching, changed, deposited, failed, after_call, Earns, Anywhere, Whatever,
  Earns-and_then, Earns-try_catch, Earns-with_destructor, Earns-ask, stages_after,
  run_threads-IsFine, IsDisconnecting,
}
use optimistic_locking.Postgres.Earned.{
  calling, earned, give_up-Earns, report-Earns, read_account-Earns, emplace_threads-Earns,
}

-- The update counts if it has returned: the code does not look at its result.
abbrev pub pess_counts : String → ℕ → Bool
pess_counts name affected = Texts.◌==◌ name "deposit_account"

abbrev pub IsDepositedOrFailed : Stage → Type 0
IsDepositedOrFailed st = (st ≡ deposited) ⊎ (st ≡ failed)

module _ (c : Client) where
  abbrev PessEarns : {A : Type 0} → (A → Stage → Type 0) → Stage → Program c A → Type 0
  PessEarns P =
      Earns c pess_counts IsDepositedOrFailed P (Anywhere c pess_counts IsDepositedOrFailed)

  -- An error that is printed.
  printing :
      (st : Stage) (line : String)
      → IsDepositedOrFailed (after_call c pess_counts st (cerr line) (ok tt))
  printing searching line = inr refl
  printing (changed txn) line = inr refl
  printing deposited line = inl refl
  printing failed line = inr refl

  ending :
      (txn : ℕ) (st : Stage) (r : Reply (Unit {0}))
      → IsDepositedOrFailed st
      → IsDepositedOrFailed (after_call c pess_counts st (end_work txn) r)
  ending txn searching r h = h
  ending txn (changed t) r h = h
  ending txn deposited r h = h
  ending txn failed r h = h

  abbrev plain_params : DepositRequest c.Double → Account c.Double → List (Value c.Double)
  plain_params request found = double (c.add found.balance request.amount) ∷ int found.id ∷ []

  abbrev plain_call : ℕ → DepositRequest c.Double → Account c.Double → Call c.Double
  plain_call txn request found = exec_prepared txn "deposit_account" (plain_params request found)

  deposit-Earns :
      (repo : AccountRepositoryPess) (request : DepositRequest c.Double) (st : Stage)
      → PessEarns (λ _ st'. IsDepositedOrFailed st') st (deposit c repo request)
  unfolding deposit modify_balance with_work
  deposit-Earns repo request st =
      Earns-and_then c pess_counts IsDepositedOrFailed
        (calling c pess_counts IsDepositedOrFailed (begin repo.conn) (λ d. d))
        λ txn st1 _.
          Earns-with_destructor c pess_counts IsDepositedOrFailed (end_work txn) (λ d. d)
            (λ _ st' r h. ending txn st' r h)
            (Earns-try_catch c pess_counts IsDepositedOrFailed
              (Earns-and_then c pess_counts IsDepositedOrFailed
                (calling c pess_counts IsDepositedOrFailed
                  (exec_prepared txn "select_account_lock" (text request.username ∷ [])) (λ d. d))
                λ res st2 _.
                  Earns-and_then c pess_counts IsDepositedOrFailed
                    (read_account-Earns c pess_counts IsDepositedOrFailed res.rows st2)
                    λ found st3 _.
                      Earns-and_then c pess_counts IsDepositedOrFailed
                        (Earns-ask c pess_counts IsDepositedOrFailed (plain_call txn request found)
                          (λ r st'.
                            st'
                            ≡ after_call c pess_counts st3 (plain_call txn request found) (ok r))
                          (λ d. absurd d) (λ _. refl))
                        λ updated st4 at.
                          Earns-ask c pess_counts IsDepositedOrFailed (commit txn)
                            (λ _ st'. IsDepositedOrFailed st') (λ d. absurd d)
                            (λ _. rw at (
                              inl (
                                earned c pess_counts IsDepositedOrFailed st3 txn "deposit_account"
                                  (plain_params request found) updated refl))))
              λ what st' _.
                give_up-Earns c pess_counts IsDepositedOrFailed txn what st'
                  (λ _ st2. IsDepositedOrFailed st2) (λ st2. printing st2 ("Error: " ++ what)))

  pess_thread-Earns :
      (i : ℕ) (st : Stage)
      → PessEarns (Whatever c pess_counts IsDepositedOrFailed) st (pess_thread c i)
  unfolding pess_thread with_connection
  pess_thread-Earns i st =
      Earns-try_catch c pess_counts IsDepositedOrFailed
        (Earns-and_then c pess_counts IsDepositedOrFailed
          (calling c pess_counts IsDepositedOrFailed connect (λ d. d))
          λ conn st1 _.
            Earns-with_destructor c pess_counts IsDepositedOrFailed (end_connection conn) (λ d. d)
              (λ _ _ _ _. tt)
              (Earns-and_then c pess_counts IsDepositedOrFailed
                (calling c pess_counts IsDepositedOrFailed (prepare conn _ _) (λ d. d))
                λ _ st2 _.
                  Earns-and_then c pess_counts IsDepositedOrFailed
                    (calling c pess_counts IsDepositedOrFailed (prepare conn _ _) (λ d. d))
                    λ _ st3 _.
                      Earns-and_then c pess_counts IsDepositedOrFailed
                        (deposit-Earns (record { conn = conn }) _ st3)
                        λ _ st4 fine.
                          Earns-ask c pess_counts IsDepositedOrFailed (disconnect conn)
                            (Whatever c pess_counts IsDepositedOrFailed) (λ _. fine) (λ _. tt)))
        λ what st' _. report-Earns c pess_counts IsDepositedOrFailed what st'

module _ {c : Client} (s : Server c) where
  -- Where a thread of the test disconnects next, after a schedule.
  pub test_data_pess-IsDepositedOrFailed :
      (user_count : ℕ) (schedule : List ℕ) (w : World s.Db) (i : ℕ) (thread : Program c (Unit {0}))
      → let pool = test_data_pess c user_count in
        get_elem? (run_threads s schedule pool w).0 i ≡ some thread
        → IsDisconnecting c pess_counts thread
        → IsDepositedOrFailed (stages_after pess_counts s schedule (λ _. searching) pool w i)
  unfolding test_data_pess
  test_data_pess-IsDepositedOrFailed user_count schedule w =
      run_threads-IsFine pess_counts s IsDepositedOrFailed schedule (λ _. searching) _ w
        (emplace_threads-Earns pess_counts s IsDepositedOrFailed (pess_thread c)
          (λ i. pess_thread-Earns c i searching) 0 user_count)
