-- ===== src/SortedList/Total/Scope.antt =====
-- src/sync/guard.cc: an optimistic guard round a body that ends.
use optimistic_locking.Base.{
  ℕ, zero, suc, ◌+◌, ◌≤◌, ◌<◌, ◌≡◌, ◌≢◌, refl, inl, inr, Bool, true, List, [], ◌∷◌, ◌==◌,
  Bool-cases, length, arith,
}
use optimistic_locking.Machine.{
  World, Outcome, ok, thrown, aborted, running, advance, M, pure, Turn, Memory,
}
use optimistic_locking.Lock.Word.{exclusive, lock_state}
use optimistic_locking.Guard.{
  optimistic, Self, made, hybrid_guard, destroy_guard, wait_while_exclusive, load_state,
  validate_optimistic_lock, must_restart, HybridGuard,
}
use optimistic_locking.SortedList.Alone.{must_restart_self}
use optimistic_locking.SortedList.Shared.{Shared, leave}
use optimistic_locking.SortedList.Optimistic.{with_hybrid_guard, forget}
use optimistic_locking.SortedList.Racing.{word}
use optimistic_locking.SortedList.Racing.Scope.{guard_at}
use optimistic_locking.SortedList.Total.{
  Ends, Ends-and_then, turns_left, Safe, EndsOpen, Onward, Onward-compose, Onward-fewer,
  advance-Onward,
}
use optimistic_locking.SortedList.Total.Loop.{Ended}

module _ {T : Type 0} (lock tid n : ℕ) where
  open_at_end :
      (ts : List (Turn (Shared T))) (m : Memory (Shared T))
      → EndsOpen lock tid n ts m
      → length ts ≡ 0
      → lock_state (word lock m) ≢ exclusive
  open_at_end [] m open_ end = open_
  open_at_end (t ∷ ts) m open_ end = absurd (omega (arith, end))

  -- The guard has seen the word of `w'`, which no writer holds.
  abbrev Made : World (Shared T) → HybridGuard → World (Shared T) → Type 0
  Made w g w' =
      Onward lock tid n 0 w w'
      × (g ≡ guard_at lock w')
      × (lock_state (word lock w'.mem) ≢ exclusive)

  pub Onward-on :
      (k j : ℕ) (w w1 w2 : World (Shared T))
      → Onward lock tid n k w w1
      → Onward lock tid n j w1 w2
      → Onward lock tid n 0 w w2
  Onward-on k j w w1 w2 one two =
      Onward-fewer lock tid n (k + j) 0 w w2 (omega arith)
        (Onward-compose lock tid n k j w w1 w2 one two)

  wait_while_exclusive-Ends :
      (rounds : ℕ) (w w' : World (Shared T))
      → Onward lock tid n 0 w w'
      → turns_left w' < rounds
      → Ends (λ _ s. Made w s.0 s.1) (λ _. ⊥) (wait_while_exclusive rounds (guard_at lock w', w'))
  unfolding wait_while_exclusive load_state
  wait_while_exclusive-Ends zero w w' on many = absurd (omega arith)
  wait_while_exclusive-Ends (suc rounds) w w' on many =
      elim (Bool-cases (lock_state (word lock w'.mem) == exclusive)) [
        | inl held ↦
            let next = advance-Onward lock tid n w' on.safe in
            let fewer = next.fewer in
            let some_left : turns_left w' ≢ 0 =
              λ e. open_at_end w'.turns w'.mem (on.safe).ends_open e (ground arith) in
            rw held (
              wait_while_exclusive-Ends rounds w (advance w')
                (Onward-on 0 1 w w' (advance w') on next) (omega arith))
        | inr open_ ↦ rw open_ (on, refl, ground arith)
      ]

  made-Ends :
      (w : World (Shared T)) (x : Outcome (Self (Shared T)) (Unit {0}))
      → Ends (λ _ s. Made w s.0 s.1) (λ _. ⊥) x
      → Ends (Made w) (λ _. ⊥) (made x)
  made-Ends w (ok _ s) h = h
  made-Ends w (thrown e s) h = h
  made-Ends w aborted h = h
  made-Ends w running h = h

  hybrid_guard-Ends :
      (rounds : ℕ) (w : World (Shared T))
      → Safe lock tid n w
      → turns_left w < rounds
      → Ends (Made w) (λ _. ⊥) (hybrid_guard rounds lock optimistic w)
  unfolding hybrid_guard load_state
  hybrid_guard-Ends rounds w safe many =
      let on = advance-Onward lock tid n w safe in
      let fewer = on.fewer in
      made-Ends w _ (
        wait_while_exclusive-Ends rounds w (advance w)
          (Onward-fewer lock tid n 1 0 w (advance w) (omega arith) on) (omega arith))

  -- The destructor asks for a restart only where the word is not as the guard has seen it.
  abbrev Restarted : ℕ → World (Shared T) → World (Shared T) → Type 0
  Restarted state w w' = Onward lock tid n 1 w w' × (must_restart (word lock w'.mem) state ≡ true)

  destroy_guard-Ends :
      (rounds : ℕ) (w1 w : World (Shared T))
      → Safe lock tid n w
      → Ends
          (λ _. Onward lock tid n 1 w)
          (Restarted (word lock w1.mem) w)
          (forget (destroy_guard rounds (guard_at lock w1, w)))
  unfolding destroy_guard validate_optimistic_lock
  destroy_guard-Ends rounds w1 w safe =
      let on = advance-Onward lock tid n w safe in
      elim (Bool-cases (must_restart (word lock (advance w).mem) (word lock w1.mem))) [
        | inl restart ↦ rw restart (refl, (on, restart))
        | inr fine ↦ rw fine on
      ]

  -- A restart is for a turn that was taken.
  abbrev pub GivenUp : World (Shared T) → World (Shared T) → Type 0
  GivenUp w w' = Onward lock tid n 1 w w' × (turns_left w ≢ 0)

  Restarted-GivenUp :
      (w w1 w2 w3 : World (Shared T))
      → Onward lock tid n 0 w w1
      → lock_state (word lock w1.mem) ≢ exclusive
      → Onward lock tid n 0 w1 w2
      → Restarted (word lock w1.mem) w2 w3
      → GivenUp w w3
  Restarted-GivenUp w w1 w2 w3 one open_ two (three, restart) =
      let span = Onward-on 0 1 w1 w2 w3 two three in
      let fewer = one.fewer in
      (
        Onward-compose lock tid n 0 1 w w2 w3 (Onward-on 0 0 w w1 w2 one two) three,
        λ none_left.
            let (_, same) = span.still (omega arith) in
            let no = must_restart_self (word lock w1.mem) open_ in
            let yes_ = rw same at restart in cc,
      )

  leave-Ends :
      (rounds : ℕ) (w w1 : World (Shared T)) (x : Outcome (World (Shared T)) Bool)
      → Onward lock tid n 0 w w1
      → lock_state (word lock w1.mem) ≢ exclusive
      → Ends (Ended lock tid n w1) (λ _. ⊥) x
      → Ends
          (Ended lock tid n w)
          (GivenUp w)
          (leave (λ u. forget (destroy_guard rounds (guard_at lock w1, u))) x)
  leave-Ends rounds w w1 (ok b w2) one open_ two =
      Ends-and_then (λ _. Onward lock tid n 1 w2) (Ended lock tid n w)
        (Restarted (word lock w1.mem) w2) (GivenUp w)
        (forget (destroy_guard rounds (guard_at lock w1, w2))) (λ _. pure b)
        (destroy_guard-Ends rounds w1 w2 two.safe)
        (λ w3 three. Restarted-GivenUp w w1 w2 w3 one open_ two three)
        λ _ w3 three. Onward-on 0 1 w w2 w3 (Onward-on 0 0 w w1 w2 one two) three
  leave-Ends rounds w w1 (thrown e w2) one open_ h = absurd h.1
  leave-Ends rounds w w1 aborted one open_ h = absurd h
  leave-Ends rounds w w1 running one open_ h = absurd h

  pub with_hybrid_guard-Ends :
      (rounds : ℕ) (body : M (World (Shared T)) Bool) (w : World (Shared T))
      → Safe lock tid n w
      → turns_left w < rounds
      → ((u : World (Shared T))
          → Safe lock tid n u
          → turns_left u ≤ turns_left w
          → Ends (Ended lock tid n u) (λ _. ⊥) (body u))
      → Ends (Ended lock tid n w) (GivenUp w) (with_hybrid_guard rounds lock optimistic body w)
  unfolding with_hybrid_guard
  with_hybrid_guard-Ends rounds body w safe many ends =
      Ends-and_then (Made w) (Ended lock tid n w) (λ _. ⊥) (GivenUp w)
        (hybrid_guard rounds lock optimistic w) _ (hybrid_guard-Ends rounds w safe many)
        (λ _ no. absurd no)
        λ g w1 (on, e, open_). rw e (
          leave-Ends rounds w w1 (body w1) on open_
            (ends w1 on.safe (let fewer = on.fewer in omega arith)))
