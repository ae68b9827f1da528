-- ===== src/Postgres/Keeps.antt =====
-- What a program may ask of the database and rely on, as a predicate on programs.
use Prim.Native.String.{String}
use optimistic_locking.Base.{ℕ, suc, ◌≡◌, refl, some, [], ◌∷◌, All}
use optimistic_locking.Postgres.Statements.{opt_statements}
use optimistic_locking.Postgres.Calls.{
  Client, int, text, double, Call, connect, prepare, begin, exec, exec_prepared, commit, abort,
  end_work, Answer, Reply, ok, threw, Program, ret, raise, unfinished, call, and_then, from_reply,
  ask, try_catch, with_destructor, with_connection, with_work,
}

module _ {D : Type 0} where
  -- calls that leave the table, and what a transaction has written to it, as they are
  abbrev pub IsQuiet : Call D → Type 0
  IsQuiet (prepare _ _ _) = ⊥
  IsQuiet (exec _ _) = ⊥
  IsQuiet (exec_prepared _ _ _) = ⊥
  IsQuiet (commit _) = ⊥
  IsQuiet (abort _) = ⊥
  IsQuiet (end_work _) = ⊥
  IsQuiet _ = Unit

  abbrev pub IsClosing : Call D → Type 0
  IsClosing (commit _) = Unit
  IsClosing (abort _) = Unit
  IsClosing (end_work _) = Unit
  IsClosing _ = ⊥

module _ (c : Client) (F : ℕ → ℕ → c.Double) where
  -- The row's columns, where they can be read, hold a balance that is the one of its version.
  abbrev pub Follows : c.Row → Type 0
  Follows row =
      (id version : ℕ) (balance : c.Double)
      → c.as_int row "id" ≡ ok id
      → c.as_double row "balance" ≡ ok balance
      → c.as_int row "version" ≡ ok version
      → balance ≡ F id version

  -- An update may only write the balance that belongs to the version after the one it asks for.
  pub data Allowed : Call c.Double → Type 0 where
    quiet : {q : Call c.Double} → IsQuiet q → Allowed q
    closing : {q : Call c.Double} → IsClosing q → Allowed q
    preparing :
        (conn : ℕ) (name statement : String)
        → opt_statements name ≡ some statement
        → Allowed (prepare conn name statement)
    selecting :
        (txn : ℕ) (username : String)
        → Allowed (exec_prepared txn "select_account_by_username" (text username ∷ []))
    updating :
        (txn id version : ℕ) (balance : c.Double)
        → balance ≡ F id (suc version)
        → Allowed
            (exec_prepared txn "deposit_account_opt" (double balance ∷ int id ∷ int version ∷ []))

  -- What the answer tells: the rows of the select follow `F`.
  abbrev pub Told : {q : Call c.Double} → Allowed q → Reply (Answer c q) → Type 0
  Told (selecting txn username) (ok res) = All Follows res.rows
  Told _ _ = Unit

  pub data Keeps {A : Type 0} (P : A → Type 0) : Program c A → Type 0 where
    ret_lem : {a : A} → P a → Keeps P (ret a)
    raise_lem : {e : String} → Keeps P (raise e)
    unfinished_lem : Keeps P unfinished
    call_lem :
        {q : Call c.Double} {k : Reply (Answer c q) → Program c A} (a : Allowed q)
        → ((r : Reply (Answer c q)) → Told a r → Keeps P (k r))
        → Keeps P (call q k)

  module _ {A B : Type 0} {P : A → Type 0} {Q : B → Type 0} where
    pub Keeps-and_then :
        {m : Program c A} {k : A → Program c B}
        → Keeps P m
        → ((a : A) → P a → Keeps Q (k a))
        → Keeps Q (and_then m k)
    unfolding and_then
    Keeps-and_then (ret_lem p) next = next _ p
    Keeps-and_then raise_lem next = raise_lem
    Keeps-and_then unfinished_lem next = unfinished_lem
    Keeps-and_then (call_lem a h) next = call_lem a λ r told. Keeps-and_then (h r told) next

  module _ {A : Type 0} {P : A → Type 0} where
    pub Keeps-try_catch :
        {m : Program c A} {handler : String → Program c A}
        → Keeps P m
        → ((e : String) → Keeps P (handler e))
        → Keeps P (try_catch m handler)
    unfolding try_catch
    Keeps-try_catch (ret_lem p) next = ret_lem p
    Keeps-try_catch (raise_lem {e}) next = next e
    Keeps-try_catch unfinished_lem next = unfinished_lem
    Keeps-try_catch (call_lem a h) next = call_lem a λ r told. Keeps-try_catch (h r told) next

    pub Keeps-with_destructor :
        {m : Program c A} {q : Call c.Double}
        → Keeps P m
        → Allowed q
        → Keeps P (with_destructor m q)
    unfolding with_destructor
    Keeps-with_destructor (ret_lem p) d = call_lem d λ r told. ret_lem p
    Keeps-with_destructor raise_lem d = call_lem d λ r told. raise_lem
    Keeps-with_destructor unfinished_lem d = unfinished_lem
    Keeps-with_destructor (call_lem a h) d = call_lem a λ r told. Keeps-with_destructor (h r told) d

  abbrev pub Anything : {A : Type 0} → A → Type 0
  Anything _ = Unit {0}

  pub Keeps-from_reply : {A : Type 0} (r : Reply A) → Keeps (λ a. r ≡ ok a) (from_reply r)
  unfolding from_reply
  Keeps-from_reply (ok a) = ret_lem refl
  Keeps-from_reply (threw e) = raise_lem

  from_reply-Keeps : {A : Type 0} (r : Reply A) → Keeps Anything (from_reply r)
  unfolding from_reply
  from_reply-Keeps (ok a) = ret_lem tt
  from_reply-Keeps (threw e) = raise_lem

  -- A call whose answer tells nothing of the table.
  pub Keeps-ask : (q : Call c.Double) → Allowed q → Keeps Anything (ask q)
  unfolding ask
  Keeps-ask q a = call_lem a λ r told. from_reply-Keeps r

  pub Keeps-with_work :
      (conn : ℕ) {A : Type 0} {P : A → Type 0} {body : ℕ → Program c A}
      → ((txn : ℕ) → Keeps P (body txn))
      → Keeps P (with_work conn body)
  unfolding with_work
  Keeps-with_work conn h =
      Keeps-and_then (Keeps-ask (begin conn) (quiet tt))
        λ txn _. Keeps-with_destructor (h txn) (closing tt)

  pub Keeps-with_connection :
      {A : Type 0} {P : A → Type 0} {body : ℕ → Program c A}
      → ((conn : ℕ) → Keeps P (body conn))
      → Keeps P (with_connection body)
  unfolding with_connection
  Keeps-with_connection h =
      Keeps-and_then (Keeps-ask connect (quiet tt))
        λ conn _. Keeps-with_destructor (h conn) (quiet tt)
