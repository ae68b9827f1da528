-- ===== src/Postgres/Calls.antt =====
-- What postgresql/opt_and_pess_lock.cc uses of libpqxx and of C++: calls that the database and the
-- runtime answer, exceptions with their text, destructors, and threads that run between two calls.
use Prim.Native.Char.{Char}
use Prim.Native.String.{String, ◌++◌}
use Prim.Native.String as Text
use optimistic_locking.Base.{
  ℕ, zero, suc, ◌/◌, ◌%◌, Bool, none, some, List, [], ◌∷◌, ltb, if◌then◌else◌, get_elem?,
}

-- Numbers of the type `double`, and the rows of libpqxx with `row[name].as<T>()`, which may throw.
pub data Reply (A : Type 0) : Type 0 where
  ok : A → Reply A
  threw : String → Reply A

pub record Client : Type 1 where
  pub Double : Type 0
  pub add : Double → Double → Double
  pub literal : ℕ → Double
  pub Row : Type 0
  pub as_int : Row → String → Reply ℕ
  pub as_string : Row → String → Reply String
  pub as_double : Row → String → Reply Double

pub data Value (D : Type 0) : Type 0 where
  int : ℕ → Value D
  text : String → Value D
  double : D → Value D

-- `pqxx::result`
pub record QueryResult (R : Type 0) : Type 0 where
  pub rows : List R
  pub affected_rows : ℕ

-- Connections and transactions go by numbers.
pub data Call (D : Type 0) : Type 0 where
  connect : Call D
  is_open : ℕ → Call D
  dbname : ℕ → Call D
  prepare : ℕ → String → String → Call D
  begin : ℕ → Call D  -- `pqxx::work txn(conn)`
  exec : ℕ → String → Call D
  exec_prepared : ℕ → String → List (Value D) → Call D
  commit : ℕ → Call D
  abort : ℕ → Call D
  end_work : ℕ → Call D  -- the destructor of `pqxx::work`
  disconnect : ℕ → Call D
  end_connection : ℕ → Call D  -- the destructor of `pqxx::connection`
  random : ℕ → ℕ → Call D
  sleep_for : ℕ → Call D
  now : Call D
  lock_mutex : Call D
  unlock_mutex : Call D
  cout : String → Call D
  cerr : String → Call D

module _ (c : Client) where
  abbrev pub Answer : Call c.Double → Type 0
  Answer connect = ℕ
  Answer (is_open _) = Bool
  Answer (dbname _) = String
  Answer (begin _) = ℕ
  Answer (exec _ _) = QueryResult c.Row
  Answer (exec_prepared _ _ _) = QueryResult c.Row
  Answer (random _ _) = ℕ
  Answer now = ℕ
  Answer _ = Unit {0}

  -- A program: it has ended, with a value or an exception, or not within the rounds that its loop
  -- was given; or it makes a call and goes on with the answer.
  pub data Program (A : Type 0) : Type 0 where
    ret : A → Program A
    raise : String → Program A
    unfinished : Program A
    call : (q : Call c.Double) → (Reply (Answer q) → Program A) → Program A

module _ {c : Client} where
  unfoldable pub and_then : {A B : Type 0} → Program c A → (A → Program c B) → Program c B
  and_then (ret a) k = k a
  and_then (raise e) k = raise e
  and_then unfinished k = unfinished
  and_then (call q f) k = call q (λ r. and_then (f r) k)

  infixl 5 ◌>>=◌ ◌>>◌
  abbrev pub ◌>>=◌ : {A B : Type 0} → Program c A → (A → Program c B) → Program c B
  m >>= k = and_then m k

  abbrev pub ◌>>◌ : {B : Type 0} → Program c (Unit {0}) → Program c B → Program c B
  m >> k = and_then m (λ _. k)

  unfoldable pub from_reply : {A : Type 0} → Reply A → Program c A
  from_reply (ok a) = ret a
  from_reply (threw e) = raise e

  unfoldable pub ask : (q : Call c.Double) → Program c (Answer c q)
  unfolding from_reply
  ask q = call q from_reply

  -- `try { m } catch (const std::exception &e) { h }`
  unfoldable pub try_catch : {A : Type 0} → Program c A → (String → Program c A) → Program c A
  try_catch (ret a) h = ret a
  try_catch (raise e) h = h e
  try_catch unfinished h = unfinished
  try_catch (call q f) h = call q (λ r. try_catch (f r) h)

  -- The end of a scope: the destructor's call `d` comes after the body, also after an exception.
  unfoldable pub with_destructor : {A : Type 0} → Program c A → Call c.Double → Program c A
  with_destructor (ret a) d = call d (λ _. ret a)
  with_destructor (raise e) d = call d (λ _. raise e)
  with_destructor unfinished d = unfinished
  with_destructor (call q f) d = call q (λ r. with_destructor (f r) d)

  unfoldable pub with_connection : {A : Type 0} → (ℕ → Program c A) → Program c A
  unfolding and_then ask from_reply with_destructor
  with_connection body = do conn ← ask connect; with_destructor (body conn) (end_connection conn)

  unfoldable pub with_work : {A : Type 0} → ℕ → (ℕ → Program c A) → Program c A
  unfolding and_then ask from_reply with_destructor
  with_work conn body = do txn ← ask (begin conn); with_destructor (body txn) (end_work txn)

-- `std::to_string`
abbrev digit : ℕ → Char
digit n =
    elim (get_elem? {A = Char} ("0" ∷ "1" ∷ "2" ∷ "3" ∷ "4" ∷ "5" ∷ "6" ∷ "7" ∷ "8" ∷ "9" ∷ []) n) [
      | none ↦ "?"
      | some d ↦ d
    ]

digits : ℕ → ℕ → String → String
digits zero n acc = acc
digits (suc rounds) n acc =
    let longer = Text.◌∷◌ (digit (n % 10)) acc in
    let rest = digits rounds (n / 10) longer in if ltb n 10 then longer else rest

unfoldable pub to_string : ℕ → String
unfolding digits
to_string n = digits (suc n) n ""
