-- ===== src/Postgres/Traces.antt =====
-- postgresql/opt_and_pess_lock.cc: how far a thread of a test has come with its deposit, by the calls that
-- it has made and their answers.
use Prim.Native.String.{String}
use optimistic_locking.Base.{
  ℕ, ◌≡◌, sym, ◌∙◌, inl, inr, Bool, ◌==◌, some, none, List, [], ◌∷◌, if◌then◌else◌, Bool-cases,
  Option-cases, get_elem?, set, get_elem?-set_self, get_elem?-set_other, update, update_elim,
}
use optimistic_locking.Postgres.Calls.{
  Client, Call, begin, exec_prepared, commit, abort, disconnect, cerr, Answer, Reply, ok, threw,
  Program, ret, raise, unfinished, call, and_then, from_reply, ask, try_catch, with_destructor,
}
use optimistic_locking.Postgres.Server.{Server, World, serve, blocked, move, run_threads}

-- `changed txn`: an update of this transaction has done what the test asks of it. `deposited`: then its
-- commit was confirmed. `failed`: an error was printed, and no transaction has begun since.
pub data Stage : Type 0 where
  searching : Stage
  changed : ℕ → Stage
  deposited : Stage
  failed : Stage

abbrev committed_at : Stage → ℕ → Stage
committed_at (changed t) u = if t == u then deposited else searching
committed_at st u = searching

-- `counts` says whether a statement, by its name and the number of rows that it affected, is the update.
module _ (c : Client) (counts : String → ℕ → Bool) where
  abbrev next_stage : Stage → (q : Call c.Double) → Reply (Answer c q) → Stage
  next_stage st (begin conn) r = searching
  next_stage st (exec_prepared txn name params) (ok res) =
      if counts name res.affected_rows then changed txn else st
  next_stage st (commit txn) (ok _) = committed_at st txn
  next_stage st (commit txn) (threw _) = searching
  next_stage st (abort txn) r = searching
  next_stage st (cerr line) r = failed
  next_stage st _ r = st

  abbrev pub after_call : Stage → (q : Call c.Double) → Reply (Answer c q) → Stage
  after_call deposited q r = deposited
  after_call searching q r = next_stage searching q r
  after_call (changed txn) q r = next_stage (changed txn) q r
  after_call failed q r = next_stage failed q r

  abbrev pub IsDisconnect : Call c.Double → Type 0
  IsDisconnect (disconnect conn) = Unit
  IsDisconnect _ = ⊥

  -- The next call of a thread is `disconnect`.
  abbrev pub IsDisconnecting : Program c (Unit {0}) → Type 0
  IsDisconnecting (call q k) = IsDisconnect q
  IsDisconnecting _ = ⊥

  module _ (IsFine : Stage → Type 0) where
    -- A program that disconnects where its stage is fine.
    pub data Earns {A : Type 0} (P : A → Stage → Type 0) (X : Stage → Type 0)
        : Stage → Program c A → Type 0 where
      ret_lem : {st : Stage} {a : A} → P a st → Earns P X st (ret a)
      raise_lem : {st : Stage} {e : String} → X st → Earns P X st (raise e)
      unfinished_lem : {st : Stage} → Earns P X st unfinished
      call_lem :
          {st : Stage} {q : Call c.Double} {f : Reply (Answer c q) → Program c A}
          → (IsDisconnect q → IsFine st)
          → ((r : Reply (Answer c q)) → Earns P X (after_call st q r) (f r))
          → Earns P X st (call q f)

    abbrev pub Anywhere : Stage → Type 0
    Anywhere _ = Unit {0}

    abbrev pub Whatever : {A : Type 0} → A → Stage → Type 0
    Whatever _ _ = Unit {0}

    pub Earns-and_then :
        {A B : Type 0} {P : A → Stage → Type 0} {Q : B → Stage → Type 0} {X : Stage → Type 0}
        {st : Stage} {m : Program c A} {f : A → Program c B}
        → Earns P X st m
        → ((a : A) (st' : Stage) → P a st' → Earns Q X st' (f a))
        → Earns Q X st (and_then m f)
    unfolding and_then
    Earns-and_then (ret_lem p) then_ = then_ _ _ p
    Earns-and_then (raise_lem x) then_ = raise_lem x
    Earns-and_then unfinished_lem then_ = unfinished_lem
    Earns-and_then (call_lem fine h) then_ = call_lem fine λ r. Earns-and_then (h r) then_

    pub Earns-try_catch :
        {A : Type 0} {P : A → Stage → Type 0} {X Y : Stage → Type 0} {st : Stage} {m : Program c A}
        {handler : String → Program c A}
        → Earns P X st m
        → ((e : String) (st' : Stage) → X st' → Earns P Y st' (handler e))
        → Earns P Y st (try_catch m handler)
    unfolding try_catch
    Earns-try_catch (ret_lem p) then_ = ret_lem p
    Earns-try_catch (raise_lem {e = e} x) then_ = then_ e _ x
    Earns-try_catch unfinished_lem then_ = unfinished_lem
    Earns-try_catch (call_lem fine h) then_ = call_lem fine λ r. Earns-try_catch (h r) then_

    pub Earns-with_destructor :
        {A : Type 0} {P : A → Stage → Type 0} (q : Call c.Double) {st : Stage} {m : Program c A}
        → (IsDisconnect q → ⊥)
        → ((a : A) (st' : Stage) (r : Reply (Answer c q)) → P a st' → P a (after_call st' q r))
        → Earns P Anywhere st m
        → Earns P Anywhere st (with_destructor m q)
    unfolding with_destructor
    Earns-with_destructor q other keeps (ret_lem p) =
        call_lem (λ d. absurd (other d)) λ r. ret_lem (keeps _ _ r p)
    Earns-with_destructor q other keeps (raise_lem x) =
        call_lem (λ d. absurd (other d)) λ r. raise_lem tt
    Earns-with_destructor q other keeps unfinished_lem = unfinished_lem
    Earns-with_destructor q other keeps (call_lem fine h) =
        call_lem fine λ r. Earns-with_destructor q other keeps (h r)

    pub Earns-from_reply :
        {A : Type 0} {st : Stage} (r : Reply A) → Earns Whatever Anywhere st (from_reply r)
    unfolding from_reply
    Earns-from_reply (ok a) = ret_lem tt
    Earns-from_reply (threw e) = raise_lem tt

    pub Earns-ask :
        {st : Stage} (q : Call c.Double) (P : Answer c q → Stage → Type 0)
        → (IsDisconnect q → IsFine st)
        → ((v : Answer c q) → P v (after_call st q (ok v)))
        → Earns P Anywhere st (ask q)
    unfolding ask from_reply
    Earns-ask {st} q P fine then_ = call_lem fine answered
      where
        answered : (r : Reply (Answer c q)) → Earns P Anywhere (after_call st q r) (from_reply r)
        answered (ok v) = ret_lem (then_ v)
        answered (threw e) = raise_lem tt

-- The stage of each thread along a schedule.
module _ {c : Client} (counts : String → ℕ → Bool) (s : Server c) where
  abbrev pub stage_move : Stage → Program c (Unit {0}) → World s.Db → Stage
  stage_move st (call q k) w =
      if blocked s q w then st else after_call c counts st q (serve s q w).0
  stage_move st _ w = st

  unfoldable pub stages_after :
      List ℕ → (ℕ → Stage) → List (Program c (Unit {0})) → World s.Db → ℕ → Stage
  stages_after [] stages pool w = stages
  stages_after (i ∷ schedule) stages pool w = elim (get_elem? pool i) [
    | none ↦ stages_after schedule stages pool w
    | some thread ↦
        let (thread', w') = move s thread w in
        stages_after schedule (update stages i (stage_move (stages i) thread w))
          (set pool i thread') w'
  ]

  module _ (IsFine : Stage → Type 0) where
    -- a whole thread
    abbrev pub EarnsAll : Stage → Program c (Unit {0}) → Type 0
    EarnsAll st thread =
        Earns c counts IsFine (Whatever c counts IsFine) (Anywhere c counts IsFine) st thread

    move-Earns :
        (st : Stage) {thread : Program c (Unit {0})} (w : World s.Db)
        → EarnsAll st thread
        → EarnsAll (stage_move st thread w) (move s thread w).0
    unfolding move
    move-Earns st w (ret_lem p) = ret_lem tt
    move-Earns st w (raise_lem x) = raise_lem tt
    move-Earns st w unfinished_lem = unfinished_lem
    move-Earns st w (call_lem {q = q} {f = f} fine h) = elim (Bool-cases (blocked s q w)) [
      | inl waits ↦ rw waits (call_lem fine h)
      | inr goes ↦ rw goes (h _)
    ]

    abbrev Pool : Type 0
    Pool = List (Program c (Unit {0}))

    abbrev pub AllEarn : (ℕ → Stage) → Pool → Type 0
    AllEarn stages pool =
        (i : ℕ) (thread : Program c (Unit {0}))
        → get_elem? pool i ≡ some thread
        → EarnsAll (stages i) thread

    set-AllEarn :
        (stages : ℕ → Stage) (pool : Pool) (i : ℕ) (old thread : Program c (Unit {0})) (st : Stage)
        → AllEarn stages pool
        → get_elem? pool i ≡ some old
        → EarnsAll st thread
        → AllEarn (update stages i st) (set pool i thread)
    set-AllEarn stages pool i old thread st all present earns j thread' found =
        update_elim (λ k. EarnsAll k thread') stages i st j
          (λ own.
            let set_self = get_elem?-set_self pool i thread present in
            let same : thread ≡ thread' = let found' = rw (← own) at found in cc in
            rw (← same) earns)
          (λ other. all j thread' (sym (get_elem?-set_other pool i j thread other) ∙ found))

    run_threads-Earns :
        (schedule : List ℕ) (stages : ℕ → Stage) (pool : Pool) (w : World s.Db)
        → AllEarn stages pool
        → AllEarn (stages_after schedule stages pool w) (run_threads s schedule pool w).0
    unfolding run_threads stages_after
    run_threads-Earns [] stages pool w all = all
    run_threads-Earns (i ∷ schedule) stages pool w all = elim (Option-cases (get_elem? pool i)) [
      | inl absent ↦
          rw (absent, run_threads, stages_after) (run_threads-Earns schedule stages pool w all)
      | inr (thread, present) ↦
          rw (present, run_threads, stages_after)
            (run_threads-Earns schedule (update stages i (stage_move (stages i) thread w))
              (set pool i (move s thread w).0) (move s thread w).1
              (set-AllEarn stages pool i thread (move s thread w).0 (stage_move (stages i) thread w)
                all present (move-Earns (stages i) w (all i thread present))))
    ]

    Earns-IsFine :
        (st : Stage) {thread : Program c (Unit {0})}
        → EarnsAll st thread
        → IsDisconnecting c counts thread
        → IsFine st
    Earns-IsFine st (ret_lem p) d = absurd d
    Earns-IsFine st (raise_lem x) d = absurd d
    Earns-IsFine st unfinished_lem d = absurd d
    Earns-IsFine st (call_lem fine h) d = fine d

    pub run_threads-IsFine :
        (schedule : List ℕ) (stages : ℕ → Stage) (pool : Pool) (w : World s.Db)
        → AllEarn stages pool
        → (i : ℕ) (thread : Program c (Unit {0}))
        → get_elem? (run_threads s schedule pool w).0 i ≡ some thread
        → IsDisconnecting c counts thread
        → IsFine (stages_after schedule stages pool w i)
    run_threads-IsFine schedule stages pool w all i thread found d =
        Earns-IsFine (stages_after schedule stages pool w i)
          (run_threads-Earns schedule stages pool w all i thread found) d
