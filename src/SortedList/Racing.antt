-- ===== src/SortedList/Racing.antt =====
-- src/list/list.cc: the loop of `OptimisticSortedList::LookUp` while other threads move, and what is
-- asked of those.
pub mod Loads
pub mod Loop
pub mod Scope
pub mod Epochs
pub mod Attempt
pub mod Writers
use optimistic_locking.Base.{
  ℕ, zero, suc, ◌≤◌, ◌≡◌, ◌≢◌, refl, sym, ap, ◌∙◌, inl, inr, Bool, true, false, Option, none, some,
  List, [], ◌∷◌, ltb, ◌==◌, All, Bool-cases, Option-cases, arith,
}
use optimistic_locking.Machine.{
  Memory, Turn, World, Outcome, ok, thrown, aborted, running, and_then, advance, after,
}
use optimistic_locking.Lock.Word.{exclusive, lock_state, version}
use optimistic_locking.SortedList.{Node, null, Heap, load_node, look_up_loop}
use optimistic_locking.SortedList.Shared.{Shared, racing, back}
use optimistic_locking.SortedList.Alone.{is_some}
use optimistic_locking.SortedList.Optimistic.{racing_look_up}

-- How a run ends, if it returns or throws.
abbrev pub Ensures : {W A : Type 0} → (A → W → Type 0) → (W → Type 0) → Outcome W A → Type 0
Ensures P Q (ok a w) = P a w
Ensures P Q (thrown e w) = Q w
Ensures P Q aborted = Unit
Ensures P Q running = Unit

pub Ensures-weaken :
    {W A : Type 0} (P P' : A → W → Type 0) (Q : W → Type 0) (x : Outcome W A)
    → Ensures P Q x
    → ((a : A) (w : W) → P a w → P' a w)
    → Ensures P' Q x
Ensures-weaken P P' Q (ok a w) h more = more a w h
Ensures-weaken P P' Q (thrown e w) h more = h
Ensures-weaken P P' Q aborted h more = tt
Ensures-weaken P P' Q running h more = tt

pub Ensures-weaken_exit :
    {W A : Type 0} (P : A → W → Type 0) (Q Q' : W → Type 0) (x : Outcome W A)
    → Ensures P Q x
    → ((w : W) → Q w → Q' w)
    → Ensures P Q' x
Ensures-weaken_exit P Q Q' (ok a w) h more = h
Ensures-weaken_exit P Q Q' (thrown e w) h more = more w h
Ensures-weaken_exit P Q Q' aborted h more = tt
Ensures-weaken_exit P Q Q' running h more = tt

pub Ensures-and_then :
    {W A B : Type 0} (P : A → W → Type 0) (P' : B → W → Type 0) (Q : W → Type 0) (x : Outcome W A)
    (k : A → W → Outcome W B)
    → Ensures P Q x
    → ((a : A) (w : W) → P a w → Ensures P' Q (k a w))
    → Ensures P' Q (and_then x k)
Ensures-and_then P P' Q (ok a w) k h then_ = then_ a w h
Ensures-and_then P P' Q (thrown e w) k h then_ = h
Ensures-and_then P P' Q aborted k h then_ = tt
Ensures-and_then P P' Q running k h then_ = tt

abbrev pub heap_of : {T : Type 0} → World (Shared T) → Heap T
heap_of w = ((w.mem).rest).heap

module _ {T : Type 0} (lock : ℕ) where
  abbrev pub word : Memory (Shared T) → ℕ
  word m = m.cells lock

  -- What the threads may do to memory: the version does not go back, a writer that gives the lock up
  -- counts it up, and the nodes change under a writer alone.
  pub record Evolves (m m' : Memory (Shared T)) : Type 0 where
    pub versions : version (word m) ≤ version (word m')
    pub held :
        version (word m) ≡ version (word m')
        → lock_state (word m) ≡ exclusive
        → lock_state (word m') ≡ exclusive
    pub nodes_same :
        version (word m) ≡ version (word m')
        → lock_state (word m') ≢ exclusive
        → (m'.rest).heap ≡ (m.rest).heap

  pub Evolves_refl : (m : Memory (Shared T)) → Evolves m m
  Evolves_refl m = record { versions = omega arith; held = λ _ h. h; nodes_same = λ _ _. refl }

  -- what the thread itself writes elsewhere
  pub Evolves_elsewhere :
      (m : Memory (Shared T)) (s : Shared T)
      → s.heap ≡ (m.rest).heap
      → Evolves m (record m { rest = s })
  Evolves_elsewhere m s same = record {
    versions = omega arith;
    held = λ _ h. h;
    nodes_same = λ _ _. same;
  }

  -- Since `m` no writer has come by, and none is there now.
  abbrev pub Settled : Memory (Shared T) → Memory (Shared T) → Type 0
  Settled m m' = (version (word m) ≡ version (word m')) × (lock_state (word m') ≢ exclusive)

  module _ {m m1 m2 : Memory (Shared T)} (one : Evolves m m1) (two : Evolves m1 m2) where
    same_versions :
        version (word m) ≡ version (word m2)
        → (version (word m) ≡ version (word m1)) × (version (word m1) ≡ version (word m2))
    same_versions e = let a = one.versions in let b = two.versions in (omega arith, omega arith)

    pub Evolves_trans : Evolves m m2
    Evolves_trans = record {
      versions = let a = one.versions in let b = two.versions in omega arith;
      held = λ e h. let (e1, e2) = same_versions e in two.held e2 (one.held e1 h);
      nodes_same = λ e open_.
          let (e1, e2) = same_versions e in
          two.nodes_same e2 open_ ∙ one.nodes_same e1 (λ h. open_ (two.held e2 h));
    }

    pub Settled-first : Settled m m2 → Settled m m1
    Settled-first (e, open_) = let (e1, e2) = same_versions e in (e1, λ h. open_ (two.held e2 h))

    pub Settled-second : Settled m m2 → Settled m1 m2
    Settled-second (e, open_) = ((same_versions e).1, open_)

  -- A turn of the others does that, and leaves the variable for the result alone.
  abbrev pub IsFairTurn : Turn (Shared T) → Type 0
  IsFairTurn t =
      (m : Memory (Shared T))
      → Evolves m (t.interfere m) × (((t.interfere m).rest).result ≡ (m.rest).result)

  abbrev pub AreFair : World (Shared T) → Type 0
  AreFair w = All IsFairTurn w.turns

  abbrev pub Later : World (Shared T) → World (Shared T) → Type 0
  Later w w' = AreFair w' × Evolves w.mem w'.mem

  after-Later :
      (ts : List (Turn (Shared T))) (m : Memory (Shared T))
      → All IsFairTurn ts
      → (All IsFairTurn ((after ts m).turns) × Evolves m (after ts m).mem)
        × ((((after ts m).mem).rest).result ≡ (m.rest).result)
  after-Later [] m fair = ((tt, Evolves_refl m), refl)
  after-Later (t ∷ ts) m fair = let (moved, same) = fair.0 m in ((fair.1, moved), same)

  pub advance-Later :
      (w : World (Shared T))
      → AreFair w
      → Later w (advance w) × ((((advance w).mem).rest).result ≡ ((w.mem).rest).result)
  advance-Later w fair = after-Later w.turns w.mem fair
