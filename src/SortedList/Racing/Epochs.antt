-- ===== src/SortedList/Racing/Epochs.antt =====
-- src/sync/epoch.cc: the accesses of the handler round the search, while other threads move.
use optimistic_locking.Base.{ℕ, ◌≡◌, refl, inl, inr, Bool, Option, Option-cases}
use optimistic_locking.Machine.{
  World, Exception, Outcome, ok, thrown, aborted, running, pure, advance,
}
use optimistic_locking.Epoch.{EpochHandler}
use optimistic_locking.SortedList.{Heap}
use optimistic_locking.SortedList.Shared.{Shared, on_epoch, leave, rethrow}
use optimistic_locking.SortedList.Racing.{
  Ensures, Ensures-weaken, Ensures-weaken_exit, Ensures-and_then, Evolves_trans, Evolves_elsewhere,
  AreFair, Later, advance-Later,
}
use optimistic_locking.SortedList.Racing.Loads.{Later-compose}
use optimistic_locking.SortedList.Racing.Scope.{Seen, Holds-same}

module _ {T : Type 0} (lock : ℕ) where
  on_epoch-Later :
      (f : EpochHandler → Option EpochHandler) (w : World (Shared T))
      → AreFair lock w
      → Ensures
          (λ _ w'. Later lock w w' × (((w'.mem).rest).result ≡ ((w.mem).rest).result))
          (λ _. ⊥)
          (on_epoch f w)
  on_epoch-Later f w fair =
      let w1 = advance w in
      let (one, same) = advance-Later lock w fair in
      elim (Option-cases (f ((w1.mem).rest).epoch)) [
        | inl missing ↦ rw missing tt
        | inr (e, there) ↦ rw there (
          (
            one.0,
            Evolves_trans lock one.1
                (Evolves_elsewhere lock w1.mem (record ((w1.mem).rest) { epoch = e }) refl),
          ),
          same,
        )
      ]

  pub entered-Later :
      (f : EpochHandler → Option EpochHandler) (w w1 : World (Shared T))
      → Later lock w w1
      → Ensures (λ _ w2. Later lock w w2) (Later lock w) (on_epoch f w1)
  entered-Later f w w1 one =
      Ensures-weaken_exit (λ (_ : Unit {0}) w2. Later lock w w2) (λ _. ⊥) (Later lock w)
        (on_epoch f w1)
        (Ensures-weaken _ (λ _ w2. Later lock w w2) (λ _. ⊥) (on_epoch f w1)
          (on_epoch-Later f w1 one.0) λ _ w2 two. Later-compose lock w w1 w2 one two.0)
        (λ _ no. absurd no)

  module _ (search : Heap T → Outcome (Heap T) (Option T)) where
    Seen-Later :
        (w w1 w2 : World (Shared T)) (b : Bool)
        → Later lock w w1
        → Seen lock search w1 b w2
        → Seen lock search w b w2
    Seen-Later w w1 w2 b later seen = record {
      at = seen.at;
      fair = seen.fair;
      after = Evolves_trans lock later.1 seen.after;
      before = seen.before;
      open_ = seen.open_;
      found = seen.found;
      search_is = seen.search_is;
      answer_is = seen.answer_is;
      result_is = seen.result_is;
    }

    Seen-past :
        (w w1 w2 : World (Shared T)) (b : Bool)
        → Seen lock search w b w1
        → Later lock w1 w2
        → ((w2.mem).rest).result ≡ ((w1.mem).rest).result
        → Seen lock search w b w2
    Seen-past w w1 w2 b seen later same = record {
      at = seen.at;
      fair = later.0;
      after = seen.after;
      before = Evolves_trans lock seen.before later.1;
      open_ = seen.open_;
      found = seen.found;
      search_is = seen.search_is;
      answer_is = seen.answer_is;
      result_is = Holds-same lock seen.found w1 w2 same seen.result_is;
    }

    pub Seen-weaken :
        (w w1 : World (Shared T)) (x : Outcome (World (Shared T)) Bool)
        → Later lock w w1
        → Ensures (Seen lock search w1) (Later lock w1) x
        → Ensures (Seen lock search w) (Later lock w) x
    Seen-weaken w w1 (ok b w2) later seen = Seen-Later w w1 w2 b later seen
    Seen-weaken w w1 (thrown e w2) later more = Later-compose lock w w1 w2 later more
    Seen-weaken w w1 aborted later h = tt
    Seen-weaken w w1 running later h = tt

    rethrow-Later :
        (e : Exception) (w w1 : World (Shared T)) (x : Outcome (World (Shared T)) (Unit {0}))
        → Later lock w w1
        → Ensures
            (λ _ w'. Later lock w1 w' × (((w'.mem).rest).result ≡ ((w1.mem).rest).result))
            (λ _. ⊥)
            x
        → Ensures (Seen lock search w) (Later lock w) (rethrow e x)
    rethrow-Later e w w1 (ok _ w2) one h = Later-compose lock w w1 w2 one h.0
    rethrow-Later e w w1 (thrown e' w2) one h = tt
    rethrow-Later e w w1 aborted one h = tt
    rethrow-Later e w w1 running one h = tt

    pub leave_epoch-Seen :
        (f : EpochHandler → Option EpochHandler) (w : World (Shared T))
        (x : Outcome (World (Shared T)) Bool)
        → Ensures (Seen lock search w) (Later lock w) x
        → Ensures (Seen lock search w) (Later lock w) (leave (on_epoch f) x)
    leave_epoch-Seen f w (ok b w1) seen =
        Ensures-and_then
          (λ _ w'. Later lock w1 w' × (((w'.mem).rest).result ≡ ((w1.mem).rest).result))
          (Seen lock search w) (Later lock w) (on_epoch f w1) (λ _. pure b)
          (Ensures-weaken_exit
            (λ (_ : Unit {0}) w'.
              Later lock w1 w' × (((w'.mem).rest).result ≡ ((w1.mem).rest).result))
            (λ _. ⊥) (Later lock w) (on_epoch f w1) (on_epoch-Later f w1 seen.fair)
            (λ _ no. absurd no))
          λ _ w2 (later, same). Seen-past w w1 w2 b seen later same
    leave_epoch-Seen f w (thrown e w1) later =
        rethrow-Later e w w1 (on_epoch f w1) later (on_epoch-Later f w1 later.0)
    leave_epoch-Seen f w aborted h = tt
    leave_epoch-Seen f w running h = tt
