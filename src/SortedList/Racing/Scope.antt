-- ===== src/SortedList/Racing/Scope.antt =====
-- src/sync/guard.cc: an optimistic guard round a body, while other threads move.
use optimistic_locking.Base.{
  ℕ, zero, suc, ◌≡◌, ◌≢◌, refl, sym, ◌∙◌, inl, inr, Bool, ◌==◌, Option, none, some, Bool-cases,
  arith,
}
use optimistic_locking.Machine.{
  Memory, World, Outcome, ok, thrown, aborted, running, pure, advance, M,
}
use optimistic_locking.Lock.Word.{exclusive, lock_state, version}
use optimistic_locking.Guard.{
  HybridGuard, optimistic, Self, made, hybrid_guard, destroy_guard, wait_while_exclusive,
  load_state, validate_optimistic_lock, must_restart,
}
use optimistic_locking.SortedList.Shared.{Shared, leave}
use optimistic_locking.SortedList.Optimistic.{with_hybrid_guard, forget}
use optimistic_locking.SortedList.Racing.{
  Ensures, Ensures-weaken_exit, Settled-first, heap_of, Ensures-and_then, Evolves, Evolves_refl,
  Evolves_trans, Settled, word, AreFair, Later, advance-Later,
}
use optimistic_locking.SortedList.Racing.Loads.{Later-compose}
use optimistic_locking.SortedList.Racing.Loop.{Holds, Answered}
use optimistic_locking.SortedList.Alone.{is_some}
use optimistic_locking.SortedList.{Heap}

module _ {T : Type 0} (lock : ℕ) where
  abbrev pub guard_at : World (Shared T) → HybridGuard
  guard_at w = record { lock = lock; mode = optimistic; state = word lock w.mem }

  -- The guard has seen the word of `w'`, which no writer holds.
  abbrev pub Made : World (Shared T) → HybridGuard → World (Shared T) → Type 0
  Made w g w' = Later lock w w' × (g ≡ guard_at w') × (lock_state (word lock w'.mem) ≢ exclusive)

  wait_while_exclusive-Made :
      (rounds : ℕ) (w w' : World (Shared T))
      → Later lock w w'
      → Ensures (λ _ s. Made w s.0 s.1) (λ _. ⊥) (wait_while_exclusive rounds (guard_at w', w'))
  unfolding wait_while_exclusive load_state
  wait_while_exclusive-Made zero w w' later = tt
  wait_while_exclusive-Made (suc rounds) w w' later =
      elim (Bool-cases (lock_state (word lock w'.mem) == exclusive)) [
        | inl held ↦ rw held (
            wait_while_exclusive-Made rounds w (advance w')
              (Later-compose lock w w' (advance w') later (advance-Later lock w' later.0).0))
        | inr open_ ↦ rw open_ (later, refl, ground arith)
      ]

  made-Made :
      (w : World (Shared T)) (x : Outcome (Self (Shared T)) (Unit {0}))
      → Ensures (λ _ s. Made w s.0 s.1) (λ _. ⊥) x
      → Ensures (Made w) (λ _. ⊥) (made x)
  made-Made w (ok _ s) h = h
  made-Made w (thrown e s) h = h
  made-Made w aborted h = tt
  made-Made w running h = tt

  hybrid_guard-Made :
      (rounds : ℕ) (w : World (Shared T))
      → AreFair lock w
      → Ensures (Made w) (λ _. ⊥) (hybrid_guard rounds lock optimistic w)
  unfolding hybrid_guard load_state
  hybrid_guard-Made rounds w fair =
      made-Made w _ (wait_while_exclusive-Made rounds w (advance w) (advance-Later lock w fair).0)

  -- The destructor returns only where the guard's word is still that of a lock without a writer.
  abbrev pub Validated : World (Shared T) → ℕ → World (Shared T) → Type 0
  Validated w state w' =
      Later lock w w'
      × (lock_state (word lock w'.mem) ≢ exclusive)
      × (version (word lock w'.mem) ≡ version state)
      × (((w'.mem).rest).result ≡ ((w.mem).rest).result)

  destroy_guard-Validated :
      (rounds state : ℕ) (w : World (Shared T))
      → AreFair lock w
      → Ensures
          (λ _ s. Validated w state s.1)
          (λ s. Later lock w s.1)
          (destroy_guard rounds (record { lock = lock; mode = optimistic; state = state }, w))
  unfolding destroy_guard validate_optimistic_lock must_restart
  destroy_guard-Validated rounds state w fair =
      let latest = word lock (advance w).mem in
      let (later, same) = advance-Later lock w fair in
      elim (Bool-cases (must_restart latest state)) [
        | inl restart ↦ rw restart later
        | inr fine ↦ rw fine (later, ground arith, ground arith, same)
      ]

module _ {T : Type 0} (lock : ℕ) where
  -- `b` and the variable for the result are what a search of the list says, of the list as it was
  -- at some moment between `w` and `w'`, when no writer had the lock.
  pub record Seen (search : Heap T → Outcome (Heap T) (Option T)) (w : World (Shared T)) (b : Bool)
      (w' : World (Shared T)) : Type 0 where
    pub at : Memory (Shared T)
    pub fair : AreFair lock w'
    pub after : Evolves lock w.mem at
    pub before : Evolves lock at w'.mem
    pub open_ : lock_state (word lock at) ≢ exclusive
    pub found : Option T
    pub search_is : search (at.rest).heap ≡ ok found (at.rest).heap
    pub answer_is : b ≡ is_some found
    pub result_is : Holds found w'

  pub Holds-same :
      (o : Option T) (w w' : World (Shared T))
      → ((w'.mem).rest).result ≡ ((w.mem).rest).result
      → Holds o w
      → Holds o w'
  Holds-same none w w' same h = tt
  Holds-same (some v) w w' same h = same ∙ h

  forget-Ensures :
      (P : World (Shared T) → Type 0) (Q : World (Shared T) → Type 0)
      (x : Outcome (Self (Shared T)) (Unit {0}))
      → Ensures (λ _ s. P s.1) (λ s. Q s.1) x
      → Ensures (λ _ w. P w) Q (forget x)
  forget-Ensures P Q (ok _ s) h = h
  forget-Ensures P Q (thrown e s) h = h
  forget-Ensures P Q aborted h = tt
  forget-Ensures P Q running h = tt

  module _ (key : T → ℕ) (value : T) (search : Heap T → Outcome (Heap T) (Option T)) where
    Validated-Seen :
        (w w1 w2 w3 : World (Shared T)) (b : Bool)
        → Later lock w w1
        → Answered key lock value search w1 b w2
        → Validated lock w2 (word lock w1.mem) w3
        → Seen search w b w3
    Validated-Seen w w1 w2 w3 b made_ (later, answer) (last, open_, version_same, same) =
        let span = Evolves_trans lock later.1 last.1 in
        let settled : Settled lock w1.mem w3.mem = (sym version_same, open_) in
        let (o, found, is, holds) = answer (Settled-first lock later.1 last.1 settled) in
        let nodes : heap_of w3 ≡ heap_of w1 = span.nodes_same settled.0 open_ in
        record {
          at = w3.mem;
          fair = last.0;
          after = Evolves_trans lock made_.1 span;
          before = Evolves_refl lock w3.mem;
          open_ = open_;
          found = o;
          search_is = rw nodes found;
          answer_is = is;
          result_is = Holds-same o w2 w3 same holds;
        }

    leave-Seen :
        (rounds : ℕ) (w w1 w2 : World (Shared T)) (b : Bool)
        → Later lock w w1
        → Answered key lock value search w1 b w2
        → Ensures
            (Seen search w)
            (Later lock w)
            (leave (λ u. forget (destroy_guard rounds (guard_at lock w1, u))) (ok b w2))
    leave-Seen rounds w w1 w2 b made_ (later, answer) =
        Ensures-and_then (λ _ w3. Validated lock w2 (word lock w1.mem) w3) (Seen search w)
          (Later lock w) (forget (destroy_guard rounds (guard_at lock w1, w2))) (λ _. pure b)
          (Ensures-weaken_exit {A = Unit {0}} (λ _ w3. Validated lock w2 (word lock w1.mem) w3)
            (Later lock w2) (Later lock w) (forget (destroy_guard rounds (guard_at lock w1, w2)))
            (forget-Ensures (λ w3. Validated lock w2 (word lock w1.mem) w3) (Later lock w2) _
              (destroy_guard-Validated lock rounds (word lock w1.mem) w2 later.0))
            (λ w3. Later-compose lock w w2 w3 (Later-compose lock w w1 w2 made_ later)))
          λ _ w3 valid. Validated-Seen w w1 w2 w3 b made_ (later, answer) valid

    leave-Answered :
        (rounds : ℕ) (w w1 : World (Shared T)) (x : Outcome (World (Shared T)) Bool)
        → Later lock w w1
        → Ensures (Answered key lock value search w1) (λ _. ⊥) x
        → Ensures
            (Seen search w)
            (Later lock w)
            (leave (λ u. forget (destroy_guard rounds (guard_at lock w1, u))) x)
    leave-Answered rounds w w1 (ok b w2) made_ h = leave-Seen rounds w w1 w2 b made_ h
    leave-Answered rounds w w1 (thrown e w2) made_ h = absurd h
    leave-Answered rounds w w1 aborted made_ h = tt
    leave-Answered rounds w w1 running made_ h = tt

    -- A scope with an optimistic guard round a body that answers as the search does.
    pub with_hybrid_guard-Seen :
        (rounds : ℕ) (body : M (World (Shared T)) Bool) (w : World (Shared T))
        → ((u : World (Shared T))
            → AreFair lock u
            → Ensures (Answered key lock value search u) (λ _. ⊥) (body u))
        → AreFair lock w
        → Ensures (Seen search w) (Later lock w) (with_hybrid_guard rounds lock optimistic body w)
    unfolding with_hybrid_guard
    with_hybrid_guard-Seen rounds body w answers fair =
        Ensures-and_then (Made lock w) _ (Later lock w) (hybrid_guard rounds lock optimistic w) _
          (Ensures-weaken_exit (Made lock w) (λ _. ⊥) (Later lock w)
            (hybrid_guard rounds lock optimistic w) (hybrid_guard-Made lock rounds w fair)
            (λ _ no. absurd no))
          λ g w1 (later, e, _).
            rw e (leave-Answered rounds w w1 (body w1) later (answers w1 later.0))
