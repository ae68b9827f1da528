-- ===== src/Postgres/Holding.antt =====
-- What a thread of `testDataPess` may ask of the database, and what it knows of the rows that its
-- transaction has locked, as a predicate on programs.
use Prim.Native.String.{String}
use optimistic_locking.Base.{ℕ, suc, ◌≡◌, refl, some, List, [], ◌∷◌, All, ◌⊎◌}
use optimistic_locking.Postgres.Calls.{
  Client, int, text, double, Call, prepare, begin, exec_prepared, commit, abort, end_work, Answer,
  Reply, ok, threw, Program, ret, raise, unfinished, call, and_then, from_reply, ask, try_catch,
  with_destructor,
}
use optimistic_locking.Postgres.Statements.{pess_statements}
use optimistic_locking.Postgres.Keeps.{Follows}
use optimistic_locking.Postgres.Locks.{IsPlain}

-- Where the thread is: in no transaction, in one, or in one that has locked these rows.
pub data Standing (R : Type 0) : Type 0 where
  outside : Standing R
  inside : ℕ → Standing R
  holding : ℕ → List R → Standing R

abbrev pub Owns : {R : Type 0} → Standing R → ℕ → Type 0
Owns outside t = ⊥
Owns (inside u) t = u ≡ t
Owns (holding u rows) t = u ≡ t

module _ (c : Client) (F : ℕ → ℕ → c.Double) where
  -- Some row reads so.
  abbrev pub Reads : ℕ → ℕ → c.Double → List c.Row → Type 0
  Reads id version balance [] = ⊥
  Reads id version balance (row ∷ rows) =
      ((c.as_int row "id" ≡ ok id)
        × (c.as_double row "balance" ≡ ok balance)
        × (c.as_int row "version" ≡ ok version))
      ⊎ Reads id version balance rows

  pub data Allowed : Standing c.Row → Call c.Double → Type 0 where
    plain : {k : Standing c.Row} {q : Call c.Double} → IsPlain q → Allowed k q
    preparing :
        {k : Standing c.Row} (conn : ℕ) (name statement : String)
        → pess_statements name ≡ some statement
        → Allowed k (prepare conn name statement)
    beginning : (conn : ℕ) → Allowed outside (begin conn)
    locking :
        (txn : ℕ) (username : String)
        → Allowed (inside txn) (exec_prepared txn "select_account_lock" (text username ∷ []))
    updating :
        (txn id version : ℕ) (old balance : c.Double) (rows : List c.Row)
        → Reads id version old rows
        → balance ≡ F id (suc version)
        → Allowed
            (holding txn rows)
            (exec_prepared txn "deposit_account" (double balance ∷ int id ∷ []))
    committing : {k : Standing c.Row} (txn : ℕ) → Owns k txn → Allowed k (commit txn)
    aborting : {k : Standing c.Row} (txn : ℕ) → Owns k txn → Allowed k (abort txn)
    ending : {k : Standing c.Row} (txn : ℕ) → Owns k txn → Allowed k (end_work txn)

  -- Where the answer leaves the thread.
  abbrev pub next :
      {k : Standing c.Row} {q : Call c.Double} → Allowed k q → Reply (Answer c q) → Standing c.Row
  next (plain {k} h) r = k
  next (preparing {k} conn name statement known) r = k
  next (beginning conn) (ok txn) = inside txn
  next (beginning conn) (threw e) = outside
  next (locking txn username) (ok res) = holding txn res.rows
  next (locking txn username) (threw e) = inside txn
  next (updating txn id version old balance rows reads worth) r = inside txn
  next (committing txn own) r = inside txn
  next (aborting txn own) r = inside txn
  next (ending txn own) r = outside

  abbrev pub Told :
      {k : Standing c.Row} {q : Call c.Double} → Allowed k q → Reply (Answer c q) → Type 0
  Told (locking txn username) (ok res) = All (Follows c F) res.rows
  Told _ _ = Unit

  pub data Keeps {A : Type 0} (P : A → Standing c.Row → Type 0) (X : Standing c.Row → Type 0)
      : Standing c.Row → Program c A → Type 0 where
    ret_lem : {k : Standing c.Row} {a : A} → P a k → Keeps P X k (ret a)
    raise_lem : {k : Standing c.Row} {e : String} → X k → Keeps P X k (raise e)
    unfinished_lem : {k : Standing c.Row} → Keeps P X k unfinished
    call_lem :
        {k : Standing c.Row} {q : Call c.Double} {f : Reply (Answer c q) → Program c A}
        (a : Allowed k q)
        → ((r : Reply (Answer c q)) → Told a r → Keeps P X (next a r) (f r))
        → Keeps P X k (call q f)

  module _ {A B : Type 0} {P : A → Standing c.Row → Type 0} {Q : B → Standing c.Row → Type 0}
      {X : Standing c.Row → Type 0} where
    pub Keeps-and_then :
        {k : Standing c.Row} {m : Program c A} {f : A → Program c B}
        → Keeps P X k m
        → ((a : A) (k' : Standing c.Row) → P a k' → Keeps Q X k' (f a))
        → Keeps Q X k (and_then m f)
    unfolding and_then
    Keeps-and_then (ret_lem p) then_ = then_ _ _ p
    Keeps-and_then (raise_lem x) then_ = raise_lem x
    Keeps-and_then unfinished_lem then_ = unfinished_lem
    Keeps-and_then (call_lem a h) then_ = call_lem a λ r told. Keeps-and_then (h r told) then_

  module _ {A : Type 0} {P : A → Standing c.Row → Type 0} {X : Standing c.Row → Type 0} where
    pub Keeps-try_catch :
        {Y : Standing c.Row → Type 0} {k : Standing c.Row} {m : Program c A}
        {handler : String → Program c A}
        → Keeps P X k m
        → ((e : String) (k' : Standing c.Row) → X k' → Keeps P Y k' (handler e))
        → Keeps P Y k (try_catch m handler)
    unfolding try_catch
    Keeps-try_catch (ret_lem p) then_ = ret_lem p
    Keeps-try_catch (raise_lem {e = e} x) then_ = then_ e _ x
    Keeps-try_catch unfinished_lem then_ = unfinished_lem
    Keeps-try_catch (call_lem a h) then_ = call_lem a λ r told. Keeps-try_catch (h r told) then_

    -- The destructor of a connection.
    pub Keeps-with_destructor :
        (q : Call c.Double) {k : Standing c.Row} {m : Program c A}
        → Keeps P X k m
        → IsPlain q
        → Keeps P X k (with_destructor m q)
    unfolding with_destructor
    Keeps-with_destructor q (ret_lem p) h = call_lem (plain h) λ r told. ret_lem p
    Keeps-with_destructor q (raise_lem x) h = call_lem (plain h) λ r told. raise_lem x
    Keeps-with_destructor q unfinished_lem h = unfinished_lem
    Keeps-with_destructor q (call_lem a g) h =
        call_lem a λ r told. Keeps-with_destructor q (g r told) h

  pub Keeps-ask :
      {k : Standing c.Row} (q : Call c.Double) (P : Answer c q → Standing c.Row → Type 0)
      (X : Standing c.Row → Type 0) (a : Allowed k q)
      → ((v : Answer c q) → Told a (ok v) → P v (next a (ok v)))
      → ((e : String) → X (next a (threw e)))
      → Keeps P X k (ask q)
  unfolding ask from_reply
  Keeps-ask {k} q P X a ok_lem threw_lem = call_lem a λ r told. answered r told
    where
      answered : (r : Reply (Answer c q)) → Told a r → Keeps P X (next a r) (from_reply r)
      answered (ok v) told = ret_lem (ok_lem v told)
      answered (threw e) told = raise_lem (threw_lem e)

  abbrev pub IsOutside : {A : Type 0} → A → Standing c.Row → Type 0
  IsOutside _ k = k ≡ outside

  -- The destructor of a transaction.
  pub Keeps-end_work :
      {A : Type 0} {txn : ℕ} {k : Standing c.Row} {m : Program c A}
      → Keeps (λ _ k'. Owns k' txn) (λ k'. Owns k' txn) k m
      → Keeps IsOutside (λ k'. k' ≡ outside) k (with_destructor m (end_work txn))
  unfolding with_destructor
  Keeps-end_work {txn = txn} (ret_lem own) = call_lem (ending txn own) λ r told. ret_lem refl
  Keeps-end_work {txn = txn} (raise_lem own) = call_lem (ending txn own) λ r told. raise_lem refl
  Keeps-end_work unfinished_lem = unfinished_lem
  Keeps-end_work (call_lem a g) = call_lem a λ r told. Keeps-end_work (g r told)
