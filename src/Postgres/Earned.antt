-- ===== src/Postgres/Earned.antt =====
-- postgresql/opt_and_pess_lock.cc: the parts that the threads of both tests share, as to what they have
-- done where they disconnect.
use Prim.Native.String.{String, ◌++◌}
use optimistic_locking.Base.{ℕ, zero, suc, ◌≡◌, refl, Bool, true, ◌==◌, List, [], ◌∷◌, arith}
use optimistic_locking.Postgres.Calls.{
  Client, Call, Value, QueryResult, exec_prepared, commit, abort, lock_mutex, unlock_mutex, cerr,
  ok, Program, ask, and_then,
}
use optimistic_locking.Postgres.{read_row, read_rows, read_account, give_up}
use optimistic_locking.Postgres.Workload.{emplace_threads}
use optimistic_locking.Postgres.Server.{Server}
use optimistic_locking.Postgres.Traces.{
  IsDisconnect, Stage, searching, changed, deposited, failed, after_call, Earns, ret_lem, raise_lem,
  Anywhere, Whatever, Earns-and_then, Earns-from_reply, Earns-ask, EarnsAll, AllEarn,
}

module _ (c : Client) (counts : String → ℕ → Bool) (IsFine : Stage → Type 0) where
  pub read_row-Earns :
      (row : c.Row) (st : Stage)
      → Earns c counts IsFine
          (Whatever c counts IsFine)
          (Anywhere c counts IsFine)
          st
          (read_row c row)
  unfolding read_row
  read_row-Earns row st =
      Earns-and_then c counts IsFine (Earns-from_reply c counts IsFine _) λ id _ _.
        Earns-and_then c counts IsFine (Earns-from_reply c counts IsFine _) λ username _ _.
          Earns-and_then c counts IsFine (Earns-from_reply c counts IsFine _) λ balance _ _.
            Earns-and_then c counts IsFine (Earns-from_reply c counts IsFine _)
              λ version _ _. ret_lem tt

  pub read_rows-Earns :
      (row : c.Row) (rows : List c.Row) (st : Stage)
      → Earns c counts IsFine
          (Whatever c counts IsFine)
          (Anywhere c counts IsFine)
          st
          (read_rows c row rows)
  unfolding read_rows
  read_rows-Earns row [] st = read_row-Earns row st
  read_rows-Earns row (next ∷ rows) st =
      Earns-and_then c counts IsFine (read_row-Earns row st)
        λ _ st' _. read_rows-Earns next rows st'

  pub read_account-Earns :
      (rows : List c.Row) (st : Stage)
      → Earns c counts IsFine
          (Whatever c counts IsFine)
          (Anywhere c counts IsFine)
          st
          (read_account c rows)
  unfolding read_account
  read_account-Earns [] st = raise_lem tt
  read_account-Earns (row ∷ rows) st = read_rows-Earns row rows st

  -- a call that is not `disconnect`
  pub calling :
      {st : Stage} (q : Call c.Double)
      → (IsDisconnect c counts q → ⊥)
      → Earns c counts IsFine (Whatever c counts IsFine) (Anywhere c counts IsFine) st (ask q)
  calling q other =
      Earns-ask c counts IsFine q (Whatever c counts IsFine) (λ d. absurd (other d)) (λ _. tt)

  -- A confirmed commit after the update.
  pub earned :
      (st : Stage) (txn : ℕ) (name : String) (params : List (Value c.Double))
      (res : QueryResult c.Row)
      → counts name res.affected_rows ≡ true
      → after_call c counts
          (after_call c counts st (exec_prepared txn name params) (ok res))
          (commit txn)
          (ok tt)
        ≡ deposited
  earned deposited txn name params res counted = refl
  earned searching txn name params res counted =
      let own : (txn == txn) ≡ true = ground arith in rw (counted, own) refl
  earned (changed t) txn name params res counted =
      let own : (txn == txn) ≡ true = ground arith in rw (counted, own) refl
  earned failed txn name params res counted =
      let own : (txn == txn) ≡ true = ground arith in rw (counted, own) refl

  pub give_up-Earns :
      (txn : ℕ) (what : String) (st : Stage) (P : Unit {0} → Stage → Type 0)
      → ((st' : Stage) → P tt (after_call c counts st' (cerr ("Error: " ++ what)) (ok tt)))
      → Earns c counts IsFine P (Anywhere c counts IsFine) st (give_up c txn what)
  unfolding give_up
  give_up-Earns txn what st P then_ =
      Earns-and_then c counts IsFine (calling (abort txn) (λ d. d)) λ _ st' _.
        Earns-ask c counts IsFine (cerr ("Error: " ++ what)) P (λ d. absurd d) (λ _. then_ st')

  -- the handler of the threads
  pub report-Earns :
      (what : String) (st : Stage)
      → Earns c counts IsFine (Whatever c counts IsFine) (Anywhere c counts IsFine) st (
          and_then
            (ask lock_mutex)
            (λ _. and_then (ask (cerr ("Error: " ++ what))) (λ _. ask unlock_mutex)))
  report-Earns what st = Earns-and_then c counts IsFine (calling lock_mutex (λ d. d)) λ _ _ _.
      Earns-and_then c counts IsFine (calling (cerr ("Error: " ++ what)) (λ d. d))
        λ _ _ _. calling unlock_mutex (λ d. d)

-- All threads of a test start with nothing done.
module _ {c : Client} (counts : String → ℕ → Bool) (s : Server c) (IsFine : Stage → Type 0)
    (body : ℕ → Program c (Unit {0}))
    (earns : (i : ℕ) → EarnsAll counts s IsFine searching (body i)) where
  pub emplace_threads-Earns :
      (first left : ℕ)
      → AllEarn counts s IsFine (λ _. searching) (emplace_threads c body first left)
  unfolding emplace_threads
  emplace_threads-Earns first zero i thread found = cc
  emplace_threads-Earns first (suc left) zero thread found =
      let same : body first ≡ thread = cc in rw (← same) (earns first)
  emplace_threads-Earns first (suc left) (suc i) thread found =
      emplace_threads-Earns (suc first) left i thread found
