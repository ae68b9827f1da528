-- ===== src/SortedList/Total/Attempt.antt =====
-- src/list/list.cc: `OptimisticSortedList::LookUp` returns.
use optimistic_locking.Base.{
  ℕ, zero, suc, ◌+◌, ◌<◌, ◌≡◌, refl, inl, Bool, some, set, get_elem?-set_self, arith,
}
use optimistic_locking.Machine.{
  World, Outcome, ok, thrown, aborted, running, advance, M, pure, ◌>>=◌,
}
use optimistic_locking.Guard.{optimistic}
use optimistic_locking.Epoch.{EpochHandler, max_value, store_epoch, destroy_epoch_guard}
use optimistic_locking.SortedList.{look_up}
use optimistic_locking.SortedList.Shared.{Shared, racing, root_of, on_epoch, leave, rethrow}
use optimistic_locking.SortedList.Optimistic.{
  OptimisticSortedList, with_hybrid_guard, with_epoch_guard, racing_look_up, look_up_attempt,
  catch_restart, optimistic_look_up,
}
use optimistic_locking.SortedList.Racing.{AreFair, heap_of}
use optimistic_locking.SortedList.Racing.Scope.{Seen}
use optimistic_locking.SortedList.Racing.Attempt.{optimistic_look_up-Seen}
use optimistic_locking.SortedList.Total.{
  Ends, Ends-weaken, Ends-and_then, turns_left, Safe, Onward, Onward-compose, Onward-fewer,
  advance-Onward, Onward-elsewhere,
}
use optimistic_locking.SortedList.Total.Loop.{Ended, racing_look_up-Ends}
use optimistic_locking.SortedList.Total.Scope.{Onward-on, GivenUp, with_hybrid_guard-Ends}

module _ {T : Type 0} (lock tid n : ℕ) where
  store_epoch-Ends :
      (e : ℕ) (w : World (Shared T))
      → Safe lock tid n w
      → Ends (λ _. Onward lock tid n 1 w) (λ _. ⊥) (on_epoch (store_epoch tid e) w)
  store_epoch-Ends e w safe =
      let w1 = advance w in
      let on = advance-Onward lock tid n w safe in
      let epochs = ((w1.mem).rest).epoch in
      let (old, slot) = (on.safe).sound.slot in
      let epochs1 : EpochHandler = record epochs { local_epoch = set epochs.local_epoch tid e } in
      let s : Shared T = record ((w1.mem).rest) { epoch = epochs1 } in
      let stores : store_epoch tid e epochs ≡ some epochs1 = rw (store_epoch, slot) refl in
      rw (Ends, stores)
        (Onward-compose lock tid n 1 0 w w1 _ on (
          Onward-elsewhere lock tid n w1 s on.safe refl e
            (get_elem?-set_self epochs.local_epoch tid e slot)))

  leave_epoch-Ends :
      (w w1 : World (Shared T)) (x : Outcome (World (Shared T)) Bool)
      → Onward lock tid n 0 w w1
      → Ends (Ended lock tid n w1) (GivenUp lock tid n w1) x
      → Ends
          (Ended lock tid n w)
          (GivenUp lock tid n w)
          (leave (on_epoch (store_epoch tid max_value)) x)
  leave_epoch-Ends w w1 (ok b w2) one two =
      Ends-and_then (λ _. Onward lock tid n 1 w2) (Ended lock tid n w) (λ _. ⊥)
        (GivenUp lock tid n w) (on_epoch (store_epoch tid max_value) w2) (λ _. pure b)
        (store_epoch-Ends max_value w2 two.safe) (λ _ no. absurd no)
        λ _ w3 three.
          Onward-on lock tid n 0 1 w w2 w3 (Onward-on lock tid n 0 0 w w1 w2 one two) three
  leave_epoch-Ends w w1 (thrown e w2) one (is, (two, taken)) =
      thrown_on (on_epoch (store_epoch tid max_value) w2) (store_epoch-Ends max_value w2 two.safe)
    where
      thrown_on :
          (y : Outcome (World (Shared T)) (Unit {0}))
          → Ends (λ _. Onward lock tid n 1 w2) (λ _. ⊥) y
          → Ends (Ended lock tid n w) (GivenUp lock tid n w) (rethrow e y)
      thrown_on (ok _ w3) three =
          let fewer = one.fewer in
          (
            is,
            (
              Onward-fewer lock tid n 2 1 w w3 (omega arith) (
                  Onward-compose lock tid n 1 1 w w2 w3
                    (Onward-compose lock tid n 0 1 w w1 w2 one two) three),
              λ none_left. taken (omega arith),
            ),
          )
      thrown_on (thrown e' w3) h = h.1
      thrown_on aborted h = h
      thrown_on running h = h
  leave_epoch-Ends w w1 aborted one h = h
  leave_epoch-Ends w w1 running one h = h

module _ {T : Type 0} (key : T → ℕ) (list : OptimisticSortedList) (tid n : ℕ) (value : T)
    (rounds : ℕ) where
  abbrev lock : ℕ
  lock = list.lock

  -- what the guards are round
  abbrev inner : M (World (Shared T)) Bool
  inner = racing root_of >>= λ first. racing_look_up key rounds value first

  inner-Ends :
      (w : World (Shared T))
      → Safe list.lock tid n w
      → turns_left w + n < rounds
      → Ends (Ended list.lock tid n w) (λ _. ⊥) (inner w)
  inner-Ends w safe many =
      let w1 = advance w in
      let on = advance-Onward lock tid n w safe in
      let fewer = on.fewer in
      Ends-weaken (Ended lock tid n w1) (Ended lock tid n w) (λ _. ⊥) (λ _. ⊥)
        (racing_look_up key rounds value (heap_of w1).root w1)
        (racing_look_up-Ends lock tid n key value rounds (heap_of w1).root w1 on.safe
          (on.safe).sound.rooted (inl (omega arith)))
        (λ b w2 two. Onward-on lock tid n 1 0 w w1 w2 on two) (λ _ no. no)

  look_up_attempt-Ends :
      (w : World (Shared T))
      → Safe list.lock tid n w
      → turns_left w + n < rounds
      → Ends
          (Ended list.lock tid n w)
          (GivenUp list.lock tid n w)
          (look_up_attempt key rounds list tid value w)
  unfolding look_up_attempt with_epoch_guard destroy_epoch_guard
  look_up_attempt-Ends w safe many =
      let w1 = advance w in
      let on = advance-Onward lock tid n w safe in
      let e = (((w1.mem).rest).epoch).global_epoch in
      let guarded = with_hybrid_guard rounds list.lock optimistic inner in
      Ends-and_then (λ _. Onward lock tid n 1 w1) (Ended lock tid n w) (λ _. ⊥)
        (GivenUp lock tid n w) (on_epoch (store_epoch tid e) w1)
        (λ _ w2. leave (on_epoch (store_epoch tid max_value)) (guarded w2))
        (store_epoch-Ends lock tid n e w1 on.safe) (λ _ no. absurd no)
        λ _ w2 two.
          let entered = Onward-on lock tid n 1 1 w w1 w2 on two in
          let fewer = entered.fewer in
          leave_epoch-Ends lock tid n w w2 (guarded w2) entered (
            with_hybrid_guard-Ends lock tid n rounds inner w2 two.safe (omega arith)
              λ u safe_u le. inner-Ends u safe_u (omega arith))

  catch_restart-Ends :
      (again : M (World (Shared T)) Bool) (w : World (Shared T))
      (x : Outcome (World (Shared T)) Bool)
      → Ends (Ended list.lock tid n w) (GivenUp list.lock tid n w) x
      → ((w1 : World (Shared T))
          → GivenUp list.lock tid n w w1
          → (b : Bool) × (w' : World (Shared T)) × (again w1 ≡ ok b w'))
      → (b : Bool) × (w' : World (Shared T)) × (catch_restart key again x ≡ ok b w')
  catch_restart-Ends again w (ok b w') h then_ = (b, w', refl)
  catch_restart-Ends again w (thrown e w1) (is, gone) then_ = rw is (then_ w1 gone)
  catch_restart-Ends again w aborted h then_ = absurd h
  catch_restart-Ends again w running h then_ = absurd h

  attempts_return :
      (tries : ℕ) (w : World (Shared T))
      → Safe list.lock tid n w
      → turns_left w < tries
      → turns_left w + n < rounds
      → (b : Bool) × (w' : World (Shared T)) × (optimistic_look_up key tries rounds list tid value w
          ≡ ok b w')
  unfolding optimistic_look_up
  attempts_return zero w safe left many = absurd (omega arith)
  attempts_return (suc tries) w safe left many =
      catch_restart-Ends (optimistic_look_up key tries rounds list tid value) w
        (look_up_attempt key rounds list tid value w) (look_up_attempt-Ends w safe many)
        λ w1 (on, some_left).
          let fewer = on.fewer in attempts_return tries w1 on.safe (omega arith) (omega arith)

  -- Let `w` have any number of turns of other threads to come, before each access one, and let them
  -- be fair, as for the answer of `LookUp` to be that of some moment, and safe: the list has at most
  -- `n` nodes at any time, no turn frees a node from which a chain of nodes leads to the null
  -- pointer, this thread has a slot in the handler, and the last turn leaves no writer on the lock.
  -- Then `LookUp` returns, within one attempt more than there are turns, and in each loop within one
  -- round more than turns and nodes: it does not abort, and no exception leaves it. Its answer is
  -- that of a search at a moment between its call and its return, with no writer.
  pub optimistic_look_up_returns :
      (tries : ℕ) (w : World (Shared T))
      → AreFair list.lock w
      → Safe list.lock tid n w
      → turns_left w < tries
      → turns_left w + n < rounds
      → (b : Bool) × (w' : World (Shared T)) × (optimistic_look_up key tries rounds list tid value w
          ≡ ok b w')
        × Seen list.lock (look_up key rounds value) w b w'
  optimistic_look_up_returns tries w fair safe left many =
      let (b, w', run) = attempts_return tries w safe left many in
      (b, w', run, optimistic_look_up-Seen key list tid value rounds tries w w' b fair run)
