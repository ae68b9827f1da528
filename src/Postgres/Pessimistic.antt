-- ===== src/Postgres/Pessimistic.antt =====
-- postgresql/opt_and_pess_lock.cc: what a thread of `testDataPess` asks of the database and writes.
use Prim.Native.String.{String, ◌++◌}
use optimistic_locking.Base.{ℕ, suc, ◌+◌, ◌≡◌, refl, sym, some, List, [], ◌∷◌, All, ◌⊎◌, inl, inr}
use optimistic_locking.Postgres.Calls.{
  Client, Call, int, double, begin, exec_prepared, prepare, commit, abort, disconnect, connect,
  end_connection, lock_mutex, unlock_mutex, cerr, Reply, ok, threw, Program, ret, raise, from_reply,
  ask, and_then, with_work, with_connection, to_string,
}
use optimistic_locking.Postgres.Keeps.{Follows}
use optimistic_locking.Postgres.Statements.{pess_statements}
use optimistic_locking.Postgres.Locks.{IsPlain}
use optimistic_locking.Postgres.Holding.{
  Standing, outside, inside, holding, Owns, Reads, plain, preparing, beginning, locking, updating,
  committing, aborting, Keeps, raise_lem, Keeps-and_then, Keeps-try_catch, Keeps-with_destructor,
  Keeps-ask, IsOutside, Keeps-end_work,
}
use optimistic_locking.Postgres.{
  Account, AccountRepositoryPess, read_row, read_rows, read_account, modify_balance, give_up,
  deposit,
}
use optimistic_locking.Postgres.Workload.{pess_thread}

Reply-cases : {A : Type 0} (r : Reply A) → ((a : A) × (r ≡ ok a)) ⊎ ((e : String) × (r ≡ threw e))
Reply-cases (ok a) = inl (a, refl)
Reply-cases (threw e) = inr (e, refl)

module _ (c : Client) (F : ℕ → ℕ → c.Double) where
  -- The program is an account that some row reads as, or an exception.
  abbrev IsRead : List c.Row → Program c (Account c.Double) → Type 0
  IsRead rows p =
      ((a : Account c.Double) × (p ≡ ret a) × Reads c F a.id a.version a.balance rows)
      ⊎ ((e : String) × (p ≡ raise e))

  read_row-IsRead : (row : c.Row) (rows : List c.Row) → IsRead (row ∷ rows) (read_row c row)
  unfolding read_row and_then from_reply
  read_row-IsRead row rows = elim (Reply-cases (c.as_int row "id")) [
    | inr (e, f) ↦ inr (e, rw f refl)
    | inl (id, f) ↦ elim (Reply-cases (c.as_string row "username")) [
      | inr (e, g) ↦ inr (e, rw (f, g) refl)
      | inl (username, g) ↦ elim (Reply-cases (c.as_double row "balance")) [
        | inr (e, h) ↦ inr (e, rw (f, g, h) refl)
        | inl (balance, h) ↦ elim (Reply-cases (c.as_int row "version")) [
          | inr (e, k) ↦ inr (e, rw (f, g, h, k) refl)
          | inl (version, k) ↦ inl (
            record { id = id; username = username; balance = balance; version = version },
            rw (f, g, h, k) refl,
            inl (f, h, k),
          )
        ]
      ]
    ]
  ]

  read_rows-IsRead : (row : c.Row) (rows : List c.Row) → IsRead (row ∷ rows) (read_rows c row rows)
  unfolding read_rows and_then
  read_rows-IsRead row [] = read_row-IsRead row []
  read_rows-IsRead row (next ∷ rows) = elim (read_row-IsRead row []) [
    | inr (e, f) ↦ inr (e, rw f refl)
    | inl (a, f, _) ↦ elim (read_rows-IsRead next rows) [
      | inr (e, g) ↦ inr (e, rw (f, g) refl)
      | inl (b, g, reads) ↦ inl (b, rw (f, g) refl, inr reads)
    ]
  ]

  read_account-IsRead : (rows : List c.Row) → IsRead rows (read_account c rows)
  unfolding read_account
  read_account-IsRead [] = inr ("Account not found", refl)
  read_account-IsRead (row ∷ rows) = read_rows-IsRead row rows

  Reads-Follows :
      (rows : List c.Row) (id version : ℕ) (balance : c.Double)
      → All (Follows c F) rows
      → Reads c F id version balance rows
      → balance ≡ F id version
  Reads-Follows [] id version balance all reads = absurd reads
  Reads-Follows (row ∷ rows) id version balance all (inl (f, h, k)) = all.0 id version balance f h k
  Reads-Follows (row ∷ rows) id version balance all (inr reads) =
      Reads-Follows rows id version balance all.1 reads

  -- The body of a transaction keeps it.
  abbrev InWork : ℕ → {A : Type 0} → A → Standing c.Row → Type 0
  InWork txn _ k = Owns k txn

  give_up-Keeps :
      (txn : ℕ) (what : String) (k : Standing c.Row)
      → Owns k txn
      → Keeps c F (InWork txn) (λ k'. Owns k' txn) k (give_up c txn what)
  unfolding give_up
  give_up-Keeps txn what k own =
      Keeps-and_then c F
        (Keeps-ask c F (abort txn) (λ _ k'. k' ≡ inside txn) (λ k'. Owns k' txn) (aborting txn own)
          (λ _ _. refl) (λ _. refl))
        λ _ k' at. rw at (
          Keeps-ask c F (cerr ("Error: " ++ what)) (InWork txn) (λ k'. Owns k' txn) (plain tt)
            (λ _ _. refl) (λ _. refl))

  module _ (amount : c.Double)
      (grows : (id version : ℕ) → F id (suc version) ≡ c.add (F id version) amount) where
    -- The update writes the next balance of a row that is locked.
    write_back-Keeps :
        (txn : ℕ) (rows : List c.Row) (a : Account c.Double)
        → All (Follows c F) rows
        → Reads c F a.id a.version a.balance rows
        → Keeps c F
            (InWork txn)
            (λ k. Owns k txn)
            (holding txn rows)
            (and_then
              (ask (
                exec_prepared txn "deposit_account"
                  (double (c.add a.balance amount) ∷ int a.id ∷ [])))
              (λ _. ask (commit txn)))
    write_back-Keeps txn rows a follow reads =
        let worth = Reads-Follows rows a.id a.version a.balance follow reads in
        Keeps-and_then c F
          (Keeps-ask c F _ (λ _ k. k ≡ inside txn) (λ k. Owns k txn)
            (updating txn a.id a.version a.balance (c.add a.balance amount) rows reads
              (rw worth (sym (grows a.id a.version))))
            (λ _ _. refl) (λ _. refl))
          λ _ k at. rw at (
            Keeps-ask c F (commit txn) (InWork txn) (λ k'. Owns k' txn) (committing txn refl)
              (λ _ _. refl) (λ _. refl))

    deposit-Keeps :
        (repo : AccountRepositoryPess) (username : String)
        → Keeps c F
            (IsOutside c F)
            (λ k. k ≡ outside)
            outside
            (deposit c repo (record { username = username; amount = amount }))
    unfolding deposit modify_balance with_work and_then
    deposit-Keeps repo username =
        Keeps-and_then c F
          (Keeps-ask c F (begin repo.conn) (λ txn k. k ≡ inside txn) (λ k. k ≡ outside)
            (beginning repo.conn) (λ _ _. refl) (λ _. refl))
          λ txn k at. rw at (
            Keeps-end_work c F (
              Keeps-try_catch c F {X = λ k'. Owns k' txn}
                (Keeps-and_then c F
                  (Keeps-ask c F _
                    (λ res k'. (k' ≡ holding txn res.rows) × All (Follows c F) res.rows)
                    (λ k'. Owns k' txn) (locking txn username) (λ res told. (refl, told))
                    (λ _. refl))
                  λ res k' (at', follow). rw at' (elim (read_account-IsRead res.rows) [
                    | inl (a, e, reads) ↦ rw e (write_back-Keeps txn res.rows a follow reads)
                    | inr (e, f) ↦ rw f (raise_lem refl)
                  ]))
                λ e k' own. give_up-Keeps txn e k' own))

-- A thread of `testDataPess`.
pub pess_thread-Keeps :
    (c : Client) (F : ℕ → ℕ → c.Double)
    → ((id version : ℕ) → F id (suc version) ≡ c.add (F id version) (c.literal 1000))
    → (i : ℕ) → Keeps c F (IsOutside c F) (λ k. k ≡ outside) outside (pess_thread c i)
unfolding pess_thread with_connection
pess_thread-Keeps c F grows i =
    Keeps-try_catch c F
      (Keeps-and_then c F (quietly connect tt) λ conn k at. rw at (
        Keeps-with_destructor c F (end_connection conn)
          (Keeps-and_then c F
            (prepared conn "select_account_lock"
              "SELECT * FROM account WHERE username = $1 LIMIT 1 FOR NO KEY UPDATE" refl)
            λ _ k1 at1. rw at1 (
              Keeps-and_then c F
                (prepared conn "deposit_account"
                  "UPDATE account SET balance = $1, version = version+1 WHERE id = $2" refl)
                λ _ k2 at2. rw at2 (
                  Keeps-and_then c F
                    (deposit-Keeps c F (c.literal 1000) grows (record { conn = conn })
                      (to_string (i + 1)))
                    λ _ k3 at3. rw at3 (quietly (disconnect conn) tt))))
          tt))
      λ what k at. rw at (
        Keeps-and_then c F (quietly lock_mutex tt) λ _ k1 at1. rw at1 (
          Keeps-and_then c F (quietly (cerr ("Error: " ++ what)) tt)
            λ _ k2 at2. rw at2 (quietly unlock_mutex tt)))
  where
    quietly :
        (q : Call c.Double)
        → IsPlain q
        → Keeps c F (IsOutside c F) (λ k. k ≡ outside) outside (ask q)
    quietly q h =
        Keeps-ask c F q (IsOutside c F) (λ k. k ≡ outside) (plain h) (λ _ _. refl) (λ _. refl)

    prepared :
        (conn : ℕ) (name statement : String)
        → pess_statements name ≡ some statement
        → Keeps c F (IsOutside c F) (λ k. k ≡ outside) outside (ask (prepare conn name statement))
    prepared conn name statement known =
        Keeps-ask c F (prepare conn name statement) (IsOutside c F) (λ k. k ≡ outside)
          (preparing conn name statement known) (λ _ _. refl) (λ _. refl)
