-- ===== src/Postgres/Ledger.antt =====
-- The invariant of the table under what a transaction of `testDataOpt` does to it.
use optimistic_locking.Base.{
  ℕ, suc, ◌+◌, ◌≡◌, ◌≤◌, ◌<◌, refl, sym, ap, ◌∙◌, ◌⊎◌, inl, inr, Bool, true, false, ◌&&◌, Option,
  none, some, ◌==◌, if◌then◌else◌, Bool-cases, Option-cases, arith,
}
use optimistic_locking.Postgres.Calls.{Client}
use optimistic_locking.Postgres.Table.{
  Entry, or_else, Rows, SameCommitted, Same, Applied, Cleared, IsSeen, Wrote,
}
use optimistic_locking.Postgres.Keeps.{Follows}

module _ {A : Type 0} where
  not_cleared :
      (b : Bool) {o w : Option A} {e : A}
      → w ≡ (if b then none else o)
      → w ≡ some e
      → (b ≡ false) × (o ≡ some e)
  not_cleared true h k = cc
  not_cleared false h k = (refl, sym h ∙ k)

  written_or_old :
      (b : Bool) {o w : Option A} {new e : A}
      → w ≡ (if b then some new else o)
      → w ≡ some e
      → ((b ≡ true) × (new ≡ e)) ⊎ ((b ≡ false) × (o ≡ some e))
  written_or_old true h k = inl (refl, cc)
  written_or_old false h k = inr (refl, sym h ∙ k)

  or_else-some :
      (o : Option A) {p : Option A} {e : A} → or_else o p ≡ some e → (o ≡ some e) ⊎ (p ≡ some e)
  or_else-some none h = inr h
  or_else-some (some a) h = inl h

  abbrev pub one_if_some : Option A → ℕ
  one_if_some none = 0
  one_if_some (some _) = 1

module _ {c : Client} {D : Type 0} (F : ℕ → ℕ → c.Double) (rows : Rows c D) where
  -- Each row has the balance that belongs to its version, what is written is newer than what is
  -- committed, and no two transactions have written the same row.
  pub record IsFair (d : D) : Type 0 where
    pub balances :
        (id : ℕ) (e : Entry c.Double) → rows.committed d id ≡ some e → e.balance ≡ F id e.version
    pub written_balances :
        (t id : ℕ) (e : Entry c.Double) → rows.written d t id ≡ some e → e.balance ≡ F id e.version
    pub newer :
        (t id : ℕ) (e : Entry c.Double)
        → rows.written d t id ≡ some e
        → (e0 : Entry c.Double) × (rows.committed d id ≡ some e0) × (e0.version < e.version)
    pub alone :
        (t u id : ℕ) (e f : Entry c.Double)
        → rows.written d t id ≡ some e
        → rows.written d u id ≡ some f
        → t ≡ u

  -- A row stays, and its version has grown by `n` or more.
  abbrev pub Grown : ℕ → ℕ → D → D → Type 0
  Grown id n d d' =
      (e : Entry c.Double)
      → rows.committed d id ≡ some e
      → (e' : Entry c.Double) × (rows.committed d' id ≡ some e') × (e.version + n ≤ e'.version)

  -- What a select shows follows `F`.
  pub IsSeen-Follows :
      {d : D} → IsFair d → (txn : ℕ) (row : c.Row) → IsSeen rows txn d row → Follows c F row
  IsSeen-Follows {d} fair txn row seen id version balance e f g =
      elim (or_else-some (rows.written d txn id) (seen id version balance e f g)) [
        | inl own ↦ fair.written_balances txn id _ own
        | inr old ↦ fair.balances id _ old
      ]

  pub Same-Grown : {d d' : D} (id : ℕ) → SameCommitted rows d d' → Grown id 0 d d'
  Same-Grown id same e h = (e, same id ∙ h, omega arith)

  module _ {d d' : D} (fair : IsFair d) where
    pub Same-IsFair : Same rows d d' → IsFair d'
    Same-IsFair (same, same') = record {
      balances = λ id e h. fair.balances id e (sym (same id) ∙ h);
      written_balances = λ t id e h. fair.written_balances t id e (sym (same' t id) ∙ h);
      newer = λ t id e h.
          let (e0, held, lt) = fair.newer t id e (sym (same' t id) ∙ h) in (e0, same id ∙ held, lt);
      alone = λ t u id e f h k. fair.alone t u id e f (sym (same' t id) ∙ h) (sym (same' u id) ∙ k);
    }

    pub Kept-IsFair : (txn : ℕ) → SameCommitted rows d d' → Cleared rows txn d d' → IsFair d'
    Kept-IsFair txn same clear = record {
      balances = λ id e h. fair.balances id e (sym (same id) ∙ h);
      written_balances =
          λ t id e h. fair.written_balances t id e (not_cleared (t == txn) (clear t id) h).1;
      newer = λ t id e h.
          let (e0, held, lt) = fair.newer t id e (not_cleared (t == txn) (clear t id) h).1 in
          (e0, same id ∙ held, lt);
      alone = λ t u id e f h k.
          fair.alone t u id e f (not_cleared (t == txn) (clear t id) h).1
            (not_cleared (u == txn) (clear u id) k).1;
    }

    -- a row that another open transaction has written is committed as it was
    Applied-other :
        (txn t id : ℕ) (e : Entry c.Double)
        → Applied rows txn d d'
        → (t == txn) ≡ false
        → rows.written d t id ≡ some e
        → rows.committed d' id ≡ rows.committed d id
    Applied-other txn t id e applied other h = elim (Option-cases (rows.written d txn id)) [
      | inl none_written ↦ applied id ∙ ap (λ o. or_else o (rows.committed d id)) none_written
      | inr (f, k) ↦ let same : t ≡ txn = fair.alone t txn id e f h k in absurd (ground arith)
    ]

    pub Applied-IsFair : (txn : ℕ) → Applied rows txn d d' → Cleared rows txn d d' → IsFair d'
    Applied-IsFair txn applied clear = record {
      balances = λ id e h. elim (or_else-some (rows.written d txn id) (sym (applied id) ∙ h)) [
        | inl own ↦ fair.written_balances txn id e own
        | inr old ↦ fair.balances id e old
      ];
      written_balances =
          λ t id e h. fair.written_balances t id e (not_cleared (t == txn) (clear t id) h).1;
      newer = λ t id e h.
          let (other, old) = not_cleared (t == txn) (clear t id) h in
          let (e0, held, lt) = fair.newer t id e old in
          (e0, Applied-other txn t id e applied other old ∙ held, lt);
      alone = λ t u id e f h k.
          fair.alone t u id e f (not_cleared (t == txn) (clear t id) h).1
            (not_cleared (u == txn) (clear u id) k).1;
    }

    -- How many deposits to a row a confirmed commit adds at least.
    pub Applied-Grown :
        (txn id : ℕ) → Applied rows txn d d' → Grown id (one_if_some (rows.written d txn id)) d d'
    Applied-Grown txn id applied e h = elim (Option-cases (rows.written d txn id)) [
      | inl none_written ↦ (
        e,
        applied id ∙ ap (λ o. or_else o (rows.committed d id)) none_written ∙ h,
        rw none_written (omega arith),
      )
      | inr (f, k) ↦
          let (e0, held, lt) = fair.newer txn id f k in
          let same : e0 ≡ e = cc in
          (
            f,
            applied id ∙ ap (λ o. or_else o (rows.committed d id)) k,
            let below : e.version < f.version = rw same at lt in rw k (omega arith),
          )
    ]

    module _ (txn id version : ℕ) (balance : c.Double) (worth : balance ≡ F id (suc version))
        (wrote : Wrote rows txn id version balance d d') where
      new_entry : Entry c.Double
      new_entry = record { balance = balance; version = suc version }

      -- Who has written a row after the update.
      writer :
          (t i : ℕ) (e : Entry c.Double)
          → rows.written d' t i ≡ some e
          → ((t ≡ txn) × (i ≡ id) × (new_entry ≡ e)) ⊎ (rows.written d t i ≡ some e)
      unfolding new_entry
      writer t i e h = elim (written_or_old (t == txn && i == id) (wrote.3 t i) h) [
        | inl (own, same) ↦ inl (ground arith, ground arith, same)
        | inr (_, old) ↦ inr old
      ]

      newer_new :
          (e0 : Entry c.Double) × (rows.committed d id ≡ some e0) × (e0.version < suc version)
      newer_new =
          let (e, current, at_version) = wrote.0 in
          elim (Option-cases (rows.written d txn id)) [
            | inl none_written ↦ (e, rw none_written at current, omega arith)
            | inr (f, k) ↦
                let (e0, held, lt) = fair.newer txn id f k in
                let same : f ≡ e = let seen : some f ≡ some e = rw k at current in cc in
                let before : e0.version < e.version = rw same at lt in (e0, held, omega arith)
          ]

      only_writer : (u : ℕ) (f : Entry c.Double) → rows.written d u id ≡ some f → u ≡ txn
      only_writer u f h = elim (Bool-cases (u == txn)) [
        | inl own ↦ ground arith
        | inr other ↦ let gone = wrote.1 u (ground arith) in cc
      ]

      pub Wrote-IsFair : IsFair d'
      unfolding new_entry
      Wrote-IsFair = record {
        balances = λ i e h. fair.balances i e (sym (wrote.2 i) ∙ h);
        written_balances = λ t i e h. elim (writer t i e h) [
          | inl (_, same_id, same) ↦ rw (← same, same_id) worth
          | inr old ↦ fair.written_balances t i e old
        ];
        newer = λ t i e h. elim (writer t i e h) [
          | inl (_, same_id, same) ↦
              let (e0, held, lt) = newer_new in (e0, wrote.2 i ∙ rw same_id held, rw (← same) lt)
          | inr old ↦ let (e0, held, lt) = fair.newer t i e old in (e0, wrote.2 i ∙ held, lt)
        ];
        alone = λ t u i e f h k. elim (writer t i e h) [
          | inl (own, same_id, _) ↦ elim (writer u i f k) [
            | inl (own', _, _) ↦ own ∙ sym own'
            | inr old ↦ own ∙ sym (only_writer u f (rw same_id at old))
          ]
          | inr old ↦ elim (writer u i f k) [
            | inl (own', same_id, _) ↦ only_writer t e (rw same_id at old) ∙ sym own'
            | inr old' ↦ fair.alone t u i e f old old'
          ]
        ];
      }
