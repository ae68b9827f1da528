-- ===== src/Postgres/LockCalls.antt =====
-- What each call that a thread of `testDataPess` may make does, as the database answers it.
use optimistic_locking.Base.{ℕ, ◌≡◌, refl, sym, [], ◌∷◌}
use optimistic_locking.Postgres.Calls.{
  Client, int, text, double, Call, prepare, begin, exec_prepared, commit, abort, end_work, cout,
  cerr, lock_mutex, unlock_mutex, Answer, Reply,
}
use optimistic_locking.Postgres.Statements.{pess_statements}
use optimistic_locking.Postgres.Server.{Server, World, serve}
use optimistic_locking.Postgres.Table.{Rows, Same}
use optimistic_locking.Postgres.Locks.{RowLocks, ObeysLocks, IsPlain, SameHolders, StillOpen}
use optimistic_locking.Postgres.Holding.{
  Standing, outside, inside, holding, Owns, Allowed, plain, preparing, beginning, locking, updating,
  committing, aborting, ending, next, Told,
}
use optimistic_locking.Postgres.Guarded.{IsGuarded, Knows}
use optimistic_locking.Postgres.LockSteps.{Step, plain-Step, closed-Step}
use optimistic_locking.Postgres.LockEffects.{commit-Step, update-Step, select-Step, Begun-Step}
use optimistic_locking.Postgres.Effects.{confirmed}

module _ {c : Client} (s : Server c) (rows : Rows c s.Db) (locks : RowLocks s.Db)
    (obeys : ObeysLocks s rows locks pess_statements) (F : ℕ → ℕ → c.Double) where
  abbrev pub after : Call c.Double → World s.Db → s.Db
  after q w = (serve s q w).1.db

  serve_plain :
      (q : Call c.Double) (w : World s.Db)
      → IsPlain q
      → Same rows w.db (after q w)
        × SameHolders rows locks w.db (after q w)
        × StillOpen rows locks w.db (after q w)
  unfolding serve
  serve_plain (cout line) w h = ((λ _. refl, λ _ _. refl), λ _. refl, λ _ o. o)
  serve_plain (cerr line) w h = ((λ _. refl, λ _ _. refl), λ _. refl, λ _ o. o)
  serve_plain lock_mutex w h = ((λ _. refl, λ _ _. refl), λ _. refl, λ _ o. o)
  serve_plain unlock_mutex w h = ((λ _. refl, λ _ _. refl), λ _. refl, λ _ o. o)
  serve_plain q w h = obeys.quiet_law q h w.db

  confirmed_plain :
      (q : Call c.Double) (id : ℕ) (r : Reply (Answer c q)) (d : s.Db)
      → IsPlain q
      → confirmed s rows id q r d ≡ 0
  confirmed_plain (commit txn) id r d h = absurd h
  confirmed_plain q id r d h = refl

  owned_open :
      (k : Standing c.Row) (txn : ℕ) (d : s.Db)
      → Knows rows locks k d
      → Owns k txn
      → locks.IsOpen d txn
  owned_open outside txn d knows own = absurd own
  owned_open (inside t) txn d knows own = rw own at knows
  owned_open (holding t held) txn d knows own = rw own at knows.0

  abbrev pub Stepped : Standing c.Row → Standing c.Row → Call c.Double → World s.Db → Type 0
  Stepped k k' q w =
      Step rows locks F k k' (λ id. confirmed s rows id q (serve s q w).0 w.db) w.db (after q w)

  pub serve-Step :
      (k : Standing c.Row) (q : Call c.Double) (a : Allowed c F k q) (w : World s.Db)
      → IsGuarded F rows locks w.db
      → Knows rows locks k w.db
      → Told c F a (serve s q w).0 × Stepped k (next c F a (serve s q w).0) q w
  unfolding serve
  serve-Step k q (plain h) w sound knows =
      let (same, holders, still) = serve_plain q w h in
      let step = plain-Step rows locks F w.db (after q w) sound k knows same holders still in
      (
        tt,
        record {
          sound = step.sound;
          knows = step.knows;
          grown = λ id. rw (confirmed_plain q id (serve s q w).0 w.db h) (step.grown id);
          others = step.others;
        },
      )
  serve-Step k _ (preparing conn name statement known) w sound knows =
      let (same, holders, still) = obeys.prepare_law conn name statement known w.db in
      (
        tt,
        plain-Step rows locks F w.db (s.answer (prepare conn name statement) w.db).1 sound k knows
            same holders still,
      )
  serve-Step _ _ (beginning conn) w sound knows =
      let (begun, same, holders, still) = obeys.begin_law conn w.db in
      (
        tt,
        Begun-Step s rows locks F w.db sound conn (s.answer (begin conn) w.db) begun same holders
            still,
      )
  serve-Step _ _ (locking txn username) w sound knows =
      let (done, same, acquired, still) = obeys.select_law refl txn username w.db in
      select-Step s rows locks F w.db sound txn username
        (s.answer (exec_prepared txn "select_account_lock" (text username ∷ [])) w.db) knows done
        same acquired still
  serve-Step _ _ (updating txn id version old balance held reads worth) w sound knows =
      let (done, acquired, still) = obeys.update_law refl txn id balance w.db in
      (
        tt,
        update-Step s rows locks F w.db sound txn id version old balance held reads worth
            (s.answer (exec_prepared txn "deposit_account" (double balance ∷ int id ∷ [])) w.db)
            knows done acquired still,
      )
  serve-Step k _ (committing txn own) w sound knows =
      let (done, released, still) = obeys.commit_law txn w.db in
      (
        tt,
        commit-Step s rows locks F w.db sound txn k (s.answer (commit txn) w.db) own done released
            still (owned_open k txn w.db knows own),
      )
  serve-Step k _ (aborting txn own) w sound knows =
      let (rolled, released, still) = obeys.abort_law txn w.db in
      (
        tt,
        closed-Step rows locks F w.db (s.answer (abort txn) w.db).1 sound txn k (inside txn) own
            rolled released (λ t _. still t) (still txn (owned_open k txn w.db knows own))
            (λ t e. sym e),
      )
  serve-Step k _ (ending txn own) w sound knows =
      let (rolled, released, still) = obeys.end_work_law txn w.db in
      (
        tt,
        closed-Step rows locks F w.db (s.answer (end_work txn) w.db).1 sound txn k outside own
            rolled released still tt (λ t e. absurd e),
      )
