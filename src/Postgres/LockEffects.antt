-- ===== src/Postgres/LockEffects.antt =====
-- What each call that a thread of `testDataPess` may make does to the table.
use Prim.Native.String.{String}
use optimistic_locking.Base.{
  ℕ, suc, ◌≡◌, ◌≢◌, refl, sym, ap, ◌∙◌, inl, inr, some, List, [], ◌∷◌, All, ◌==◌, Bool-cases, arith,
}
use optimistic_locking.Postgres.Calls.{
  Client, text, QueryResult, begin, exec_prepared, commit, Reply, ok, threw,
}
use optimistic_locking.Postgres.Server.{Server}
use optimistic_locking.Postgres.Keeps.{Follows}
use optimistic_locking.Postgres.Table.{
  Entry, or_else, Rows, Same, IsSeen, Wrote, Committed, Cleared,
}
use optimistic_locking.Postgres.Ledger.{Same-Grown, IsSeen-Follows}
use optimistic_locking.Postgres.Effects.{confirmed, commit-IsFair, commit-Grown}
use optimistic_locking.Postgres.Locks.{
  RowLocks, SameHolders, StillOpen, Acquired, Released, Begun, IsHeld, LockSelected, LockUpdated,
}
use optimistic_locking.Postgres.Holding.{
  Standing, outside, inside, holding, Owns, Reads, Allowed, beginning, locking, next, Told,
}
use optimistic_locking.Postgres.Guarded.{
  IsGuarded, IsHeldRow, Knows, KeptFor, Wrote-KeptFor, RolledBack-KeptFor, Applied-KeptFor,
  Cleared-guarded, Wrote-IsGuarded,
}
use optimistic_locking.Postgres.LockSteps.{
  Step, nothing, kept-Apart, plain-Step, begin-Step, locked-Step,
}

module _ {c : Client} (s : Server c) (rows : Rows c s.Db) (locks : RowLocks s.Db)
    (F : ℕ → ℕ → c.Double) where
  Reads-held :
      (txn id version : ℕ) (balance : c.Double) (held : List c.Row) (d : s.Db)
      → All (IsHeldRow rows locks txn d) held
      → Reads c F id version balance held
      → or_else (rows.written d txn id) (rows.committed d id)
        ≡ some (record { balance = balance; version = version })
  Reads-held txn id version balance [] d all reads = absurd reads
  Reads-held txn id version balance (row ∷ held) d all (inl (f, g, h)) =
      (all.0).0 id version balance f g h
  Reads-held txn id version balance (row ∷ held) d all (inr reads) =
      Reads-held txn id version balance held d all.1 reads

  module _ (d : s.Db) (sound : IsGuarded F rows locks d) where
    pub commit-Step :
        (txn : ℕ) (k : Standing c.Row) (o : Reply (Unit {0}) × s.Db)
        → Owns k txn
        → Committed rows txn d o
        → Released rows locks txn d o.1
        → StillOpen rows locks d o.1
        → Knows rows locks (inside txn) d
        → Step rows locks F k (inside txn) (λ id. confirmed s rows id (commit txn) o.0 d) d o.1
    commit-Step txn k o own done released still open_ = record {
      sound = record {
        fair = commit-IsFair s rows F d sound.fair txn o done;
        guarded = Cleared-guarded rows locks F sound txn (cleared o done) released;
      };
      knows = still txn open_;
      grown = λ id. commit-Grown s rows F d sound.fair txn id o done;
      others =
          kept-Apart rows locks F txn d o.1 k own (λ t ne. (kept t ne o done released, still t))
            (inside txn) (λ t e. sym e);
    }
      where
        cleared : (o' : Reply (Unit {0}) × s.Db) → Committed rows txn d o' → Cleared rows txn d o'.1
        cleared (ok _, d') (_, clear) = clear
        cleared (threw _, d') (_, clear) = clear

        kept :
            (t : ℕ)
            → t ≢ txn
            → (o' : Reply (Unit {0}) × s.Db) → Committed rows txn d o'
            → Released rows locks txn d o'.1
            → KeptFor rows locks t d o'.1
        kept t ne (ok _, d') (applied, clear) free =
            Applied-KeptFor rows locks F sound txn t ne applied clear free
        kept t ne (threw _, d') (inl applied, clear) free =
            Applied-KeptFor rows locks F sound txn t ne applied clear free
        kept t ne (threw _, d') (inr same, clear) free =
            RolledBack-KeptFor rows locks txn t ne (same, clear) free

    module _ (txn id version : ℕ) (old balance : c.Double) (held : List c.Row)
        (reads : Reads c F id version old held) (worth : balance ≡ F id (suc version)) where
      -- The row is still at the version that the thread has read.
      Wrote-Step :
          (at_version : ℕ) (d' : s.Db)
          → Knows rows locks (holding txn held) d
          → Wrote rows txn id at_version balance d d'
          → locks.holder d' id ≡ some txn
          → Acquired rows locks txn d d'
          → StillOpen rows locks d d'
          → Step rows locks F (holding txn held) (inside txn) (nothing rows locks F) d d'
      Wrote-Step at_version d' (open_, all) wrote taken acquired still =
          let (e, found, is) = wrote.0 in
          let read = Reads-held txn id version old held d all reads in
          let same : e ≡ record { balance = old; version = version } = ground arith in
          let unchanged : at_version ≡ version = sym is ∙ ap (λ x. Entry.version x) same in
          record {
            sound =
                Wrote-IsGuarded rows locks F sound txn id at_version balance (rw unchanged worth)
                  wrote acquired taken;
            knows = still txn open_;
            grown = λ i. Same-Grown F rows i wrote.2;
            others =
                kept-Apart rows locks F txn d d' (holding txn held) refl
                  (λ t ne. (
                    Wrote-KeptFor rows locks txn t id at_version balance ne wrote acquired,
                    still t,
                  ))
                  (inside txn) (λ t e. sym e);
          }

      pub update-Step :
          (o : Reply (QueryResult c.Row) × s.Db)
          → Knows rows locks (holding txn held) d
          → LockUpdated rows locks txn id balance d o
          → Acquired rows locks txn d o.1
          → StillOpen rows locks d o.1
          → Step rows locks F (holding txn held) (inside txn) (nothing rows locks F) d o.1
      update-Step (threw _, d') knows same acquired still =
          locked-Step rows locks F d d' sound txn (holding txn held) (inside txn) refl same acquired
            still (still txn knows.0) (λ t e. sym e)
      update-Step (ok res, d') knows done acquired still =
          elim (Bool-cases (res.affected_rows == 0)) [
            | inl none_affected ↦
                locked-Step rows locks F d d' sound txn (holding txn held) (inside txn) refl
                  (rw none_affected at done) acquired still (still txn knows.0) (λ t e. sym e)
            | inr affected ↦
                let (at_version, wrote, taken) = rw affected at done in
                Wrote-Step at_version d' knows wrote taken acquired still
          ]

    -- The rows that the select shows are locked, and follow `F`.
    selected :
        (txn : ℕ) (d' : s.Db) (seen : List c.Row)
        → Same rows d d'
        → All (λ row. IsSeen rows txn d row × IsHeld rows locks txn d' row) seen
        → All (IsHeldRow rows locks txn d') seen × All (Follows c F) seen
    selected txn d' [] same all = (tt, tt)
    selected txn d' (row ∷ seen) same all =
        let (shown, held) = all.0 in
        let (rest, follow) = selected txn d' seen same all.1 in
        (
          (
            (
              λ id version balance f g h.
                  rw (same.0 id, same.1 txn id) (shown id version balance f g h),
              held,
            ),
            rest,
          ),
          (IsSeen-Follows F rows sound.fair txn row shown, follow),
        )

    pub select-Step :
        (txn : ℕ) (username : String) (o : Reply (QueryResult c.Row) × s.Db)
        → Knows rows locks (inside txn) d
        → LockSelected rows locks txn d o
        → Same rows d o.1
        → Acquired rows locks txn d o.1
        → StillOpen rows locks d o.1
        → let a : Allowed c F
              (inside txn)
              (exec_prepared txn "select_account_lock" (text username ∷ [])) =
            locking txn username in
          Told c F a o.0
          × Step rows locks F (inside txn) (next c F a o.0) (nothing rows locks F) d o.1
    select-Step txn username (threw _, d') open_ done same acquired still = (
      tt,
      locked-Step rows locks F d d' sound txn (inside txn) (inside txn) refl same acquired still
          (still txn open_) (λ t e. sym e),
    )
    select-Step txn username (ok res, d') open_ done same acquired still =
        let (held, follow) = selected txn d' res.rows same done in
        (
          follow,
          locked-Step rows locks F d d' sound txn (inside txn) (holding txn res.rows) refl same
              acquired still (still txn open_, held) (λ t e. sym e),
        )

    pub Begun-Step :
        (conn : ℕ) (o : Reply ℕ × s.Db)
        → Begun rows locks d o
        → Same rows d o.1
        → SameHolders rows locks d o.1
        → StillOpen rows locks d o.1
        → let a : Allowed c F outside (begin conn) = beginning conn in
          Step rows locks F outside (next c F a o.0) (nothing rows locks F) d o.1
    Begun-Step conn (ok txn, d') (fresh, begun) same holders still =
        begin-Step rows locks F d d' sound txn fresh begun same holders still
    Begun-Step conn (threw _, d') _ same holders still =
        plain-Step rows locks F d d' sound outside tt same holders still
