-- ===== src/Postgres/LockSteps.antt =====
-- How the table goes on with a call of a thread of `testDataPess`: what the thread knows of it then, and
-- what the others know.
use optimistic_locking.Base.{ℕ, ◌≡◌, ◌≢◌, sym, ◌∙◌}
use optimistic_locking.Postgres.Calls.{Client}
use optimistic_locking.Postgres.Table.{Rows, Same, RolledBack}
use optimistic_locking.Postgres.Ledger.{Grown, Same-Grown, Kept-IsFair}
use optimistic_locking.Postgres.Locks.{RowLocks, SameHolders, StillOpen, Acquired, Released}
use optimistic_locking.Postgres.Holding.{Standing, outside, inside, holding, Owns}
use optimistic_locking.Postgres.Guarded.{
  IsGuarded, Knows, KeptFor, Knows-kept, Same-KeptFor, SameHolders-Acquired, RolledBack-KeptFor,
  Same-IsGuarded, Cleared-guarded,
}

-- No transaction belongs to both.
abbrev pub Apart : {R : Type 0} → Standing R → Standing R → Type 0
Apart k0 k = (t : ℕ) → Owns k0 t → Owns k t → ⊥

module _ {c : Client} {D : Type 0} (rows : Rows c D) (locks : RowLocks D)
    (F : ℕ → ℕ → c.Double) where
  -- From `d` to `d'`, where the thread goes from `k` to `k'`, and `n` deposits to a row are
  -- confirmed.
  pub record Step (k k' : Standing c.Row) (n : ℕ → ℕ) (d d' : D) : Type 0 where
    pub sound : IsGuarded F rows locks d'
    pub knows : Knows rows locks k' d'
    pub grown : (id : ℕ) → Grown F rows id (n id) d d'
    pub others :
        (k0 : Standing c.Row)
        → Knows rows locks k0 d
        → Apart k0 k
        → Knows rows locks k0 d' × Apart k0 k'

  abbrev pub nothing : ℕ → ℕ
  nothing _ = 0

  -- What the others know is kept by a step of the transaction `txn`.
  pub kept-Apart :
      (txn : ℕ) (d d' : D) (k : Standing c.Row)
      → Owns k txn
      → ((t : ℕ) → t ≢ txn → KeptFor rows locks t d d' × (locks.IsOpen d t → locks.IsOpen d' t))
      → (k' : Standing c.Row) → ((t : ℕ) → Owns k' t → t ≡ txn)
      → (k0 : Standing c.Row) → Knows rows locks k0 d
      → Apart k0 k
      → Knows rows locks k0 d' × Apart k0 k'
  kept-Apart txn d d' k own kept k' only k0 knows apart =
      let ne : (t : ℕ) → Owns k0 t → t ≢ txn = λ t mine e. apart t mine (rw e own) in
      (
        Knows-kept rows locks k0 (λ t mine. kept t (ne t mine)) knows,
        λ t mine theirs. ne t mine (only t theirs),
      )

  module _ (d d' : D) (sound : IsGuarded F rows locks d) where
    -- a call that leaves the table alone
    pub plain-Step :
        (k : Standing c.Row)
        → Knows rows locks k d
        → Same rows d d'
        → SameHolders rows locks d d'
        → StillOpen rows locks d d'
        → Step k k nothing d d'
    plain-Step k knows same holders still =
        let acquired = SameHolders-Acquired rows locks 0 holders in
        let keeps : (k0 : Standing c.Row) → Knows rows locks k0 d → Knows rows locks k0 d' =
          λ k0 known.
            Knows-kept rows locks k0 (λ t _. (Same-KeptFor rows locks 0 t same acquired, still t))
              known in
        record {
          sound = Same-IsGuarded rows locks F sound 0 same acquired;
          knows = keeps k knows;
          grown = λ id. Same-Grown F rows id same.0;
          others = λ k0 known apart. (keeps k0 known, apart);
        }

    pub begin-Step :
        (txn : ℕ)
        → (locks.IsOpen d txn → ⊥)
        → locks.IsOpen d' txn
        → Same rows d d'
        → SameHolders rows locks d d'
        → StillOpen rows locks d d'
        → Step outside (inside txn) nothing d d'
    begin-Step txn fresh begun same holders still =
        let step = plain-Step outside tt same holders still in
        record {
          sound = step.sound;
          knows = begun;
          grown = step.grown;
          others = λ k0 known apart.
              ((step.others k0 known apart).0, λ t mine e. not_mine k0 t known mine (sym e));
        }
      where
        not_mine : (k0 : Standing c.Row) (t : ℕ) → Knows rows locks k0 d → Owns k0 t → t ≡ txn → ⊥
        not_mine outside t known mine e = mine
        not_mine (inside u) t known mine e = let is : u ≡ txn = mine ∙ e in fresh (rw is at known)
        not_mine (holding u held) t known mine e =
            let is : u ≡ txn = mine ∙ e in fresh (rw is at known.0)

    pub locked-Step :
        (txn : ℕ) (k k' : Standing c.Row)
        → Owns k txn
        → Same rows d d'
        → Acquired rows locks txn d d'
        → StillOpen rows locks d d'
        → Knows rows locks k' d'
        → ((t : ℕ) → Owns k' t → t ≡ txn)
        → Step k k' nothing d d'
    locked-Step txn k k' own same acquired still knows only = record {
      sound = Same-IsGuarded rows locks F sound txn same acquired;
      knows = knows;
      grown = λ id. Same-Grown F rows id same.0;
      others =
          kept-Apart txn d d' k own (λ t _. (Same-KeptFor rows locks txn t same acquired, still t))
            k' only;
    }

    pub closed-Step :
        (txn : ℕ) (k k' : Standing c.Row)
        → Owns k txn
        → RolledBack rows txn d d'
        → Released rows locks txn d d'
        → ((t : ℕ) → t ≢ txn → locks.IsOpen d t → locks.IsOpen d' t)
        → Knows rows locks k' d'
        → ((t : ℕ) → Owns k' t → t ≡ txn)
        → Step k k' nothing d d'
    closed-Step txn k k' own (same, clear) released still knows only = record {
      sound = record {
        fair = Kept-IsFair F rows sound.fair txn same clear;
        guarded = Cleared-guarded rows locks F sound txn clear released;
      };
      knows = knows;
      grown = λ id. Same-Grown F rows id same;
      others =
          kept-Apart txn d d' k own
            (λ t ne. (RolledBack-KeptFor rows locks txn t ne (same, clear) released, still t ne)) k'
            only;
    }
