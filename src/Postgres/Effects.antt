-- ===== src/Postgres/Effects.antt =====
-- What each call that a thread of `testDataOpt` may make does to the table.
use Prim.Native.String.{String}
use optimistic_locking.Base.{
  ℕ, suc, ◌≡◌, refl, inl, inr, List, [], ◌∷◌, All, ◌==◌, Bool-cases, arith,
}
use optimistic_locking.Postgres.Calls.{
  Client, int, text, double, QueryResult, Call, exec_prepared, commit, abort, end_work, cout, cerr,
  lock_mutex, unlock_mutex, Answer, Reply, ok, threw,
}
use optimistic_locking.Postgres.Statements.{opt_statements}
use optimistic_locking.Postgres.Server.{Server, World, serve}
use optimistic_locking.Postgres.Keeps.{
  Follows, IsQuiet, IsClosing, Allowed, quiet, closing, preparing, selecting, updating, Told,
}
use optimistic_locking.Postgres.Table.{
  Rows, Obeys, Same, IsSeen, Wrote, Selected, Updated, Committed,
}
use optimistic_locking.Postgres.Ledger.{
  IsFair, Grown, one_if_some, Same-IsFair, Kept-IsFair, Applied-IsFair, Applied-Grown, Wrote-IsFair,
  IsSeen-Follows, Same-Grown,
}

module _ {c : Client} (s : Server c) (rows : Rows c s.Db) (id : ℕ) where
  -- Whether a call has committed a deposit to the row, as its answer confirms.
  abbrev pub confirmed : (q : Call c.Double) → Reply (Answer c q) → s.Db → ℕ
  confirmed (commit txn) (ok _) d = one_if_some (rows.written d txn id)
  confirmed _ _ d = 0

module _ {c : Client} (s : Server c) (rows : Rows c s.Db) (F : ℕ → ℕ → c.Double) where
  module _ (d : s.Db) (fair : IsFair F rows d) where
    pub commit-IsFair :
        (txn : ℕ) (o : Reply (Unit {0}) × s.Db) → Committed rows txn d o → IsFair F rows o.1
    commit-IsFair txn (ok _, d') (applied, clear) = Applied-IsFair F rows fair txn applied clear
    commit-IsFair txn (threw _, d') (either, clear) = elim either [
      | inl applied ↦ Applied-IsFair F rows fair txn applied clear
      | inr same ↦ Kept-IsFair F rows fair txn same clear
    ]

    pub commit-Grown :
        (txn id : ℕ) (o : Reply (Unit {0}) × s.Db)
        → Committed rows txn d o
        → Grown F rows id (confirmed s rows id (commit txn) o.0 d) d o.1
    commit-Grown txn id (ok _, d') (applied, clear) = Applied-Grown F rows fair txn id applied
    commit-Grown txn id (threw _, d') (either, clear) = elim either [
      | inl applied ↦ λ e h.
          let (e', held, le) = Applied-Grown F rows fair txn id applied e h in
          (e', held, omega arith)
      | inr same ↦ Same-Grown F rows id same
    ]

module _ {c : Client} (s : Server c) (rows : Rows c s.Db) (obeys : Obeys s rows opt_statements)
    (F : ℕ → ℕ → c.Double) where
  serve-Same : (q : Call c.Double) (w : World s.Db) → IsQuiet q → Same rows w.db (serve s q w).1.db
  unfolding serve
  serve-Same (cout line) w h = (λ _. refl, λ _ _. refl)
  serve-Same (cerr line) w h = (λ _. refl, λ _ _. refl)
  serve-Same lock_mutex w h = (λ _. refl, λ _ _. refl)
  serve-Same unlock_mutex w h = (λ _. refl, λ _ _. refl)
  serve-Same q w h = obeys.quiet_law q h w.db

  confirmed_quiet :
      (q : Call c.Double) (id : ℕ) (r : Reply (Answer c q)) (d : s.Db)
      → IsQuiet q
      → confirmed s rows id q r d ≡ 0
  confirmed_quiet (commit txn) id r d h = absurd h
  confirmed_quiet q id r d h = refl

  -- What a call that the threads may make does to the table, and tells the thread.
  pub record Effect (q : Call c.Double) (a : Allowed c F q) (w : World s.Db) : Type 0 where
    pub fair : IsFair F rows (serve s q w).1.db
    pub told : Told c F a (serve s q w).0
    pub grown :
        (id : ℕ)
        → Grown F rows id (confirmed s rows id q (serve s q w).0 w.db) w.db (serve s q w).1.db

  module _ (d : s.Db) (fair : IsFair F rows d) where
    selected_follow :
        (txn : ℕ) (seen : List c.Row) → All (IsSeen rows txn d) seen → All (Follows c F) seen
    selected_follow txn [] all = tt
    selected_follow txn (row ∷ seen) all =
        (IsSeen-Follows F rows fair txn row all.0, selected_follow txn seen all.1)

    Updated-IsFair :
        (txn id version : ℕ) (balance : c.Double) (o : Reply (QueryResult c.Row) × s.Db)
        → balance ≡ F id (suc version)
        → Updated rows txn id version balance d o
        → IsFair F rows o.1 × ((i : ℕ) → Grown F rows i 0 d o.1)
    Updated-IsFair txn id version balance (threw _, d') worth same =
        (Same-IsFair F rows fair same, λ i. Same-Grown F rows i same.0)
    Updated-IsFair txn id version balance (ok res, d') worth done =
        elim (Bool-cases (res.affected_rows == 0)) [
          | inl none_affected ↦
              let same : Same rows d d' = rw none_affected at done in
              (Same-IsFair F rows fair same, λ i. Same-Grown F rows i same.0)
          | inr affected ↦
              let wrote : Wrote rows txn id version balance d d' = rw affected at done in
              (
                Wrote-IsFair F rows fair txn id version balance worth wrote,
                λ i. Same-Grown F rows i wrote.2,
              )
        ]

    Selected-IsFair :
        (txn : ℕ) (username : String) (o : Reply (QueryResult c.Row) × s.Db)
        → Selected rows txn d o
        → IsFair F rows o.1
          × Told c F (selecting txn username) o.0
          × ((i : ℕ) → Grown F rows i 0 d o.1)
    Selected-IsFair txn username (threw _, d') same =
        (Same-IsFair F rows fair same, tt, λ i. Same-Grown F rows i same.0)
    Selected-IsFair txn username (ok res, d') (same, seen) = (
      Same-IsFair F rows fair same,
      selected_follow txn res.rows seen,
      λ i. Same-Grown F rows i same.0,
    )

  closing_Effect :
      (q : Call c.Double) (h : IsClosing q) (w : World s.Db)
      → IsFair F rows w.db
      → Effect q (closing h) w
  unfolding serve
  closing_Effect (commit txn) h w fair = record {
    fair =
        commit-IsFair s rows F w.db fair txn (s.answer (commit txn) w.db)
          (obeys.commit_law txn w.db);
    told = tt;
    grown = λ id.
        commit-Grown s rows F w.db fair txn id (s.answer (commit txn) w.db)
          (obeys.commit_law txn w.db);
  }
  closing_Effect (abort txn) h w fair =
      let (same, clear) = obeys.abort_law txn w.db in
      record {
        fair = Kept-IsFair F rows fair txn same clear;
        told = tt;
        grown = λ id. Same-Grown F rows id same;
      }
  closing_Effect (end_work txn) h w fair =
      let (same, clear) = obeys.end_work_law txn w.db in
      record {
        fair = Kept-IsFair F rows fair txn same clear;
        told = tt;
        grown = λ id. Same-Grown F rows id same;
      }
  closing_Effect q h w fair = absurd h

  pub serve-Effect :
      (q : Call c.Double) (a : Allowed c F q) (w : World s.Db) → IsFair F rows w.db → Effect q a w
  unfolding serve
  serve-Effect q (quiet h) w fair = record {
    fair = Same-IsFair F rows fair (serve-Same q w h);
    told = tt;
    grown = λ id.
        rw (confirmed_quiet q id (serve s q w).0 w.db h)
          (Same-Grown F rows id (serve-Same q w h).0);
  }
  serve-Effect q (closing h) w fair = closing_Effect q h w fair
  serve-Effect _ (preparing conn name statement known) w fair =
      let same = obeys.prepare_law conn name statement known w.db in
      record {
        fair = Same-IsFair F rows fair same;
        told = tt;
        grown = λ id. Same-Grown F rows id same.0;
      }
  serve-Effect _ (selecting txn username) w fair =
      let (fair', told, grown) =
        Selected-IsFair w.db fair txn username
          (s.answer (exec_prepared txn "select_account_by_username" (text username ∷ [])) w.db)
          (obeys.select_law refl txn username w.db) in
      record { fair = fair'; told = told; grown = grown }
  serve-Effect _ (updating txn id version balance worth) w fair =
      let (fair', grown) =
        Updated-IsFair w.db fair txn id version balance
          (s.answer
            (exec_prepared txn "deposit_account_opt" (double balance ∷ int id ∷ int version ∷ []))
            w.db)
          worth (obeys.update_law refl txn id version balance w.db) in
      record { fair = fair'; told = tt; grown = grown }
