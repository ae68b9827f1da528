-- ===== src/Postgres/LockedUpdates.antt =====
-- The threads of `testDataPess`, interleaved in any order: no deposit is lost.
use optimistic_locking.Base.{
  ℕ, zero, suc, ◌+◌, ◌≡◌, ◌≢◌, ◌≤◌, refl, sym, ◌∙◌, inl, inr, some, List, [], ◌∷◌, Bool-cases,
  Option-cases, get_elem?, set, get_elem?-set_self, get_elem?-set_other, update, update_elim,
}
use optimistic_locking.Postgres.Calls.{Client, Program, call}
use optimistic_locking.Postgres.Statements.{pess_statements}
use optimistic_locking.Postgres.Server.{Server, World, serve, blocked, move, run_threads}
use optimistic_locking.Postgres.Table.{Entry, Rows}
use optimistic_locking.Postgres.Locks.{RowLocks, ObeysLocks}
use optimistic_locking.Postgres.Holding.{
  Standing, outside, next, Keeps, ret_lem, raise_lem, unfinished_lem, call_lem, IsOutside,
}
use optimistic_locking.Postgres.Guarded.{IsGuarded, Knows}
use optimistic_locking.Postgres.LockSteps.{Apart, Step}
use optimistic_locking.Postgres.LockCalls.{serve-Step}
use optimistic_locking.Postgres.Ledger.{Grown, Same-Grown}
use optimistic_locking.Postgres.LostUpdates.{deposit_in, deposits_done, Grown-trans}
use optimistic_locking.Postgres.Pessimistic.{pess_thread-Keeps}
use optimistic_locking.Postgres.Traces.{searching, stages_after, IsDisconnecting}
use optimistic_locking.Postgres.PessEarned.{
  pess_counts, IsDepositedOrFailed, test_data_pess-IsDepositedOrFailed,
}
use optimistic_locking.Postgres.Workload.{pess_thread, emplace_threads, test_data_pess}

module _ {c : Client} (s : Server c) (rows : Rows c s.Db) (locks : RowLocks s.Db)
    (obeys : ObeysLocks s rows locks pess_statements) (F : ℕ → ℕ → c.Double) where
  abbrev Thread : Type 0
  Thread = Program c (Unit {0})

  abbrev KeepsAt : Standing c.Row → Thread → Type 0
  KeepsAt k thread = Keeps c F (IsOutside c F) (λ k'. k' ≡ outside) k thread

  -- What one move of a thread does.
  record Moved (k : Standing c.Row) (thread : Thread) (w : World s.Db) : Type 0 where
    then_ : Standing c.Row
    keeps : KeepsAt then_ (move s thread w).0
    step :
        Step rows locks F k then_ (λ id. deposit_in s rows id thread w) w.db (move s thread w).1.db

  stays :
      (k : Standing c.Row) (thread : Thread) (w : World s.Db)
      → KeepsAt k thread
      → IsGuarded F rows locks w.db
      → Knows rows locks k w.db
      → move s thread w ≡ (thread, w)
      → ((id : ℕ) → deposit_in s rows id thread w ≡ 0)
      → Moved k thread w
  stays k thread w keeps sound knows same none_done = record {
    then_ = k;
    keeps = rw same keeps;
    step = record {
      sound = rw same sound;
      knows = rw same knows;
      grown = λ id. rw (same, none_done id) (Same-Grown F rows id (λ _. refl));
      others = λ k0 known apart. rw same (known, apart);
    };
  }

  thread-Moved :
      (k : Standing c.Row) {thread : Thread} (w : World s.Db)
      → KeepsAt k thread
      → IsGuarded F rows locks w.db
      → Knows rows locks k w.db
      → Moved k thread w
  unfolding move
  thread-Moved k w (ret_lem p) sound knows = stays k _ w (ret_lem p) sound knows refl (λ _. refl)
  thread-Moved k w (raise_lem x) sound knows =
      stays k _ w (raise_lem x) sound knows refl (λ _. refl)
  thread-Moved k w unfinished_lem sound knows =
      stays k _ w unfinished_lem sound knows refl (λ _. refl)
  thread-Moved k w (call_lem {q = q} {f = f} a h) sound knows = elim (Bool-cases (blocked s q w)) [
    | inl waits ↦
        stays k (call q f) w (call_lem a h) sound knows (rw waits refl) (λ _. rw waits refl)
    | inr goes ↦
        let (told, step) = serve-Step s rows locks obeys F k q a w sound knows in
        record {
          then_ = next c F a (serve s q w).0;
          keeps = rw goes (h _ told);
          step = rw goes step;
        }
  ]

  -- Each thread of the pool is somewhere, knows what is true of the table, and no two are in one
  -- transaction.
  record IsReady (place : ℕ → Standing c.Row) (pool : List Thread) (w : World s.Db) : Type 0 where
    sound : IsGuarded F rows locks w.db
    knows : (i : ℕ) → Knows rows locks (place i) w.db
    apart : (i j : ℕ) → i ≢ j → Apart (place i) (place j)
    keeps : (i : ℕ) (thread : Thread) → get_elem? pool i ≡ some thread → KeepsAt (place i) thread

  Moved-IsReady :
      (place : ℕ → Standing c.Row) (pool : List Thread) (i : ℕ) (thread : Thread) (w : World s.Db)
      → IsReady place pool w
      → get_elem? pool i ≡ some thread
      → (m : Moved (place i) thread w)
      → IsReady (update place i m.then_) (set pool i (move s thread w).0) (move s thread w).1
  Moved-IsReady place pool i thread w ready present m = record {
    sound = (m.step).sound;
    knows = λ j.
        update_elim (λ k. Knows rows locks k (move s thread w).1.db) place i m.then_ j
          (λ _. (m.step).knows) (λ other. (kept j other).0);
    apart = λ j l ne.
        update_elim (λ k. Apart k (update place i m.then_ l)) place i m.then_ j
          (λ own.
            update_elim (λ k. Apart m.then_ k) place i m.then_ l
              (λ own'. absurd (ne (sym own ∙ own'))) (λ other t a b. away l other t b a))
          (λ other.
            update_elim (λ k. Apart (place j) k) place i m.then_ l (λ _. away j other)
              (λ _. ready.apart j l ne));
    keeps = λ j thread' found.
        update_elim (λ k. KeepsAt k thread') place i m.then_ j
          (λ own.
            let set_self = get_elem?-set_self pool i (move s thread w).0 present in
            let same : (move s thread w).0 ≡ thread' = let found' = rw (← own) at found in cc in
            rw (← same) m.keeps)
          (λ other.
            ready.keeps j thread'
              (sym (get_elem?-set_other pool i j (move s thread w).0 other) ∙ found));
  }
    where
      kept :
          (j : ℕ)
          → i ≢ j
          → Knows rows locks (place j) (move s thread w).1.db × Apart (place j) m.then_
      kept j other =
          (m.step).others (place j) (ready.knows j) (ready.apart j i (λ e. other (sym e)))

      away : (j : ℕ) → i ≢ j → Apart (place j) m.then_
      away j other = (kept j other).1

  run_threads-Grown :
      (id : ℕ) (schedule : List ℕ) (place : ℕ → Standing c.Row) (pool : List Thread)
      (w : World s.Db)
      → IsReady place pool w
      → let w' = (run_threads s schedule pool w).1 in
        IsGuarded F rows locks w'.db
        × Grown F rows id (deposits_done s rows id schedule pool w) w.db w'.db
  unfolding run_threads deposits_done
  run_threads-Grown id [] place pool w ready = (ready.sound, Same-Grown F rows id (λ _. refl))
  run_threads-Grown id (i ∷ schedule) place pool w ready = elim (Option-cases (get_elem? pool i)) [
    | inl absent ↦
        rw (absent, run_threads, deposits_done) (run_threads-Grown id schedule place pool w ready)
    | inr (thread, present) ↦
        let m =
          thread-Moved (place i) w (ready.keeps i thread present) ready.sound (ready.knows i) in
        let (sound, later) =
          run_threads-Grown id schedule (update place i m.then_) (set pool i (move s thread w).0)
            (move s thread w).1 (Moved-IsReady place pool i thread w ready present m) in
        rw (present, run_threads, deposits_done)
          (sound, Grown-trans rows F id _ _ w.db _ _ ((m.step).grown id) later)
  ]

module _ (c : Client) (F : ℕ → ℕ → c.Double)
    (grows : (id version : ℕ) → F id (suc version) ≡ c.add (F id version) (c.literal 1000)) where
  -- Each thread starts in no transaction.
  emplace_threads-Keeps :
      (first left i : ℕ) (thread : Program c (Unit {0}))
      → get_elem? (emplace_threads c (pess_thread c) first left) i ≡ some thread
      → Keeps c F (IsOutside c F) (λ k. k ≡ outside) outside thread
  unfolding emplace_threads
  emplace_threads-Keeps first zero i thread found = cc
  emplace_threads-Keeps first (suc left) zero thread found =
      let same : pess_thread c first ≡ thread = cc in
      rw (← same) (pess_thread-Keeps c F grows first)
  emplace_threads-Keeps first (suc left) (suc i) thread found =
      emplace_threads-Keeps (suc first) left i thread found

-- The threads of `testDataPess` run in any order, any of them between two calls of another, against
-- a database that runs the statements of `pess_statements` as PostgreSQL does, by the text that each
-- name stands for, with its row locks, and to which nobody else writes. Let the table be guarded at
-- the start: a row at version `v` holds the balance `F id v`, where `F` adds 1000 with each version,
-- and what a transaction has written, if any is open, is of this kind, newer than what is committed,
-- and locked by it. Then after any schedule a row that was there is there, its version has grown by
-- the number of deposits to it that commits have confirmed or by more, and its balance is the one of
-- its version, though the update does not look at the version. And no thread gets to its
-- `disconnect` before, in one transaction, its update has returned and then its commit was confirmed,
-- or else it has printed an error.
pub no_locked_deposit_lost :
    {c : Client} (s : Server c) (rows : Rows c s.Db) (locks : RowLocks s.Db)
    → ObeysLocks s rows locks pess_statements
    → (F : ℕ → ℕ → c.Double)
    → ((id version : ℕ) → F id (suc version) ≡ c.add (F id version) (c.literal 1000))
    → (user_count : ℕ) (schedule : List ℕ) (w : World s.Db) → IsGuarded F rows locks w.db
    → (id : ℕ) (e : Entry c.Double) → rows.committed w.db id ≡ some e
    → let pool = test_data_pess c user_count in
      let (pool', w') = run_threads s schedule pool w in
      ((e' : Entry c.Double) × (rows.committed w'.db id ≡ some e')
        × (e.version + deposits_done s rows id schedule pool w ≤ e'.version)
        × (e'.balance ≡ F id e'.version))
      × ((i : ℕ) (thread : Program c (Unit {0}))
          → get_elem? pool' i ≡ some thread
          → IsDisconnecting c pess_counts thread
          → IsDepositedOrFailed (stages_after pess_counts s schedule (λ _. searching) pool w i))
unfolding test_data_pess
no_locked_deposit_lost {c} s rows locks obeys F grows user_count schedule w sound id e held =
    let ready : IsReady s rows locks obeys F (λ _. outside) (test_data_pess c user_count) w =
      record {
        sound = sound;
        knows = λ _. tt;
        apart = λ _ _ _ _ no _. no;
        keeps = emplace_threads-Keeps c F grows 0 user_count;
      } in
    let (sound', grown) =
      run_threads-Grown s rows locks obeys F id schedule (λ _. outside)
        (test_data_pess c user_count) w ready in
    let (e', held', le) = grown e held in
    (
      (e', held', le, (sound'.fair).balances id e' held'),
      test_data_pess-IsDepositedOrFailed s user_count schedule w,
    )
