-- ===== src/Postgres/Guarded.antt =====
-- What a thread of `testDataPess` knows of the rows that it has locked, and how long that stays true.
use optimistic_locking.Base.{
  ℕ, suc, ◌≡◌, ◌≢◌, refl, sym, ◌∙◌, inl, inr, false, ◌&&◌, Option, none, some, List, [], ◌∷◌, All,
  ◌==◌, Bool-cases, Option-cases, arith,
}
use optimistic_locking.Postgres.Calls.{Client}
use optimistic_locking.Postgres.Table.{
  Entry, or_else, Rows, Same, Applied, Cleared, IsSeen, Wrote, RolledBack,
}
use optimistic_locking.Postgres.Ledger.{IsFair, Same-IsFair, Wrote-IsFair}
use optimistic_locking.Postgres.Locks.{RowLocks, Acquired, Released, SameHolders, IsHeld}
use optimistic_locking.Postgres.Holding.{Standing, outside, inside, holding, Owns}

module _ {c : Client} {D : Type 0} (F : ℕ → ℕ → c.Double) (rows : Rows c D)
    (locks : RowLocks D) where
  -- What is written is locked by the transaction that has written it.
  pub record IsGuarded (d : D) : Type 0 where
    pub fair : IsFair F rows d
    pub guarded :
        (t id : ℕ) (e : Entry c.Double) → rows.written d t id ≡ some e → locks.holder d id ≡ some t

module _ {c : Client} {D : Type 0} (rows : Rows c D) (locks : RowLocks D) where
  abbrev current : D → ℕ → ℕ → Option (Entry c.Double)
  current d t id = or_else (rows.written d t id) (rows.committed d id)

  -- The row reads as the transaction would find it, which has locked it.
  abbrev pub IsHeldRow : ℕ → D → c.Row → Type 0
  IsHeldRow t d row = IsSeen rows t d row × IsHeld rows locks t d row

  abbrev pub Knows : Standing c.Row → D → Type 0
  Knows outside d = Unit
  Knows (inside t) d = locks.IsOpen d t
  Knows (holding t held) d = locks.IsOpen d t × All (IsHeldRow t d) held

  -- The rows that a transaction has locked stay as they are for it.
  abbrev pub KeptFor : ℕ → D → D → Type 0
  KeptFor t d d' =
      (id : ℕ)
      → locks.holder d id ≡ some t
      → (locks.holder d' id ≡ some t) × (current d' t id ≡ current d t id)

  module _ {d d' : D} where
    IsHeldRow-kept : (t : ℕ) (row : c.Row) → KeptFor t d d' → IsHeldRow t d row → IsHeldRow t d' row
    IsHeldRow-kept t row kept (seen, held) = (
      λ id version balance f g h. (kept id (held id f)).1 ∙ seen id version balance f g h,
      λ id f. (kept id (held id f)).0,
    )

    All-kept :
        (t : ℕ) (held : List c.Row)
        → KeptFor t d d'
        → All (IsHeldRow t d) held
        → All (IsHeldRow t d') held
    All-kept t [] kept all = tt
    All-kept t (row ∷ held) kept all = (IsHeldRow-kept t row kept all.0, All-kept t held kept all.1)

    pub Knows-kept :
        (k : Standing c.Row)
        → ((t : ℕ) → Owns k t → KeptFor t d d' × (locks.IsOpen d t → locks.IsOpen d' t))
        → Knows k d
        → Knows k d'
    Knows-kept outside kept knows = tt
    Knows-kept (inside t) kept knows = (kept t refl).1 knows
    Knows-kept (holding t held) kept (open_, all) =
        ((kept t refl).1 open_, All-kept t held (kept t refl).0 all)

    Acquired-holder :
        (txn t id : ℕ)
        → Acquired rows locks txn d d'
        → locks.holder d id ≡ some t
        → locks.holder d' id ≡ some t
    Acquired-holder txn t id acquired h = elim (acquired id) [
      | inl same ↦ same ∙ h
      | inr (free, _) ↦ cc
    ]

    pub Same-KeptFor : (txn t : ℕ) → Same rows d d' → Acquired rows locks txn d d' → KeptFor t d d'
    Same-KeptFor txn t (same, same') acquired id h =
        (Acquired-holder txn t id acquired h, rw (same id, same' t id) refl)

    pub SameHolders-Acquired :
        (txn : ℕ) → SameHolders rows locks d d' → Acquired rows locks txn d d'
    SameHolders-Acquired txn same id = inl (same id)

    pub Wrote-KeptFor :
        (txn t id version : ℕ) (balance : c.Double)
        → t ≢ txn
        → Wrote rows txn id version balance d d'
        → Acquired rows locks txn d d'
        → KeptFor t d d'
    Wrote-KeptFor txn t id version balance other wrote acquired i h =
        let test : (t == txn) ≡ false = ground arith in
        let same : rows.written d' t i ≡ rows.written d t i = rw test at (wrote.3 t i) in
        (Acquired-holder txn t i acquired h, rw (wrote.2 i, same) refl)

    Cleared-other :
        (txn t id : ℕ)
        → t ≢ txn
        → Cleared rows txn d d'
        → rows.written d' t id ≡ rows.written d t id
    Cleared-other txn t id other clear =
        let test : (t == txn) ≡ false = ground arith in rw test at (clear t id)

    pub RolledBack-KeptFor :
        (txn t : ℕ)
        → t ≢ txn
        → RolledBack rows txn d d'
        → Released rows locks txn d d'
        → KeptFor t d d'
    RolledBack-KeptFor txn t other (same, clear) released id h =
        (released t id other h, rw (same id, Cleared-other txn t id other clear) refl)

  module _ (F : ℕ → ℕ → c.Double) {d d' : D} (sound : IsGuarded F rows locks d) where
    pub Applied-KeptFor :
        (txn t : ℕ)
        → t ≢ txn
        → Applied rows txn d d'
        → Cleared rows txn d d'
        → Released rows locks txn d d'
        → KeptFor t d d'
    Applied-KeptFor txn t other applied clear released id h =
        let none_written : rows.written d txn id ≡ none =
          elim (Option-cases (rows.written d txn id)) [
            | inl is_none ↦ is_none
            | inr (e, k) ↦
                let own = sound.guarded txn id e k in
                let same : t ≡ txn = ground arith in absurd (other same)
          ] in
        (
          released t id other h,
          rw (applied id, Cleared-other txn t id other clear, none_written) refl,
        )

    pub Same-IsGuarded :
        (txn : ℕ) → Same rows d d' → Acquired rows locks txn d d' → IsGuarded F rows locks d'
    Same-IsGuarded txn same acquired = record {
      fair = Same-IsFair F rows sound.fair same;
      guarded = λ t id e h.
          Acquired-holder txn t id acquired (sound.guarded t id e (sym (same.1 t id) ∙ h));
    }

    -- what a transaction has written goes with its locks
    pub Cleared-guarded :
        (txn : ℕ)
        → Cleared rows txn d d'
        → Released rows locks txn d d'
        → (t id : ℕ) (e : Entry c.Double) → rows.written d' t id ≡ some e
        → locks.holder d' id ≡ some t
    Cleared-guarded txn clear released t id e h = elim (Bool-cases (t == txn)) [
      | inl own ↦ let gone = rw own at (clear t id) in cc
      | inr other ↦
          let ne : t ≢ txn = ground arith in
          released t id ne (sound.guarded t id e (sym (Cleared-other txn t id ne clear) ∙ h))
    ]

    pub Wrote-IsGuarded :
        (txn id version : ℕ) (balance : c.Double)
        → balance ≡ F id (suc version)
        → Wrote rows txn id version balance d d'
        → Acquired rows locks txn d d'
        → locks.holder d' id ≡ some txn
        → IsGuarded F rows locks d'
    Wrote-IsGuarded txn id version balance worth wrote acquired held = record {
      fair = Wrote-IsFair F rows sound.fair txn id version balance worth wrote;
      guarded = λ t i e h. elim (Bool-cases (t == txn && i == id)) [
        | inl own ↦
            let same : t ≡ txn = ground arith in
            let same_id : i ≡ id = ground arith in rw (same, same_id) held
        | inr other ↦
            let old : rows.written d' t i ≡ rows.written d t i = rw other at (wrote.3 t i) in
            Acquired-holder txn t i acquired (sound.guarded t i e (sym old ∙ h))
      ];
    }
