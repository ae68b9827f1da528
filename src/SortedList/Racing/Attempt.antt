-- ===== src/SortedList/Racing/Attempt.antt =====
-- src/list/list.cc: `OptimisticSortedList::LookUp` while other threads move.
use optimistic_locking.Base.{ℕ, zero, suc, ◌≡◌, Bool, Option}
use optimistic_locking.Machine.{
  World, Outcome, ok, thrown, aborted, running, restart_exception, logic_error, runtime_error,
  advance, ◌>>=◌, M,
}
use optimistic_locking.Guard.{optimistic}
use optimistic_locking.Epoch.{store_epoch, destroy_epoch_guard}
use optimistic_locking.SortedList.{Heap, look_up}
use optimistic_locking.SortedList.Shared.{Shared, racing, root_of, on_epoch, leave}
use optimistic_locking.SortedList.Optimistic.{
  OptimisticSortedList, with_hybrid_guard, with_epoch_guard, racing_look_up, look_up_attempt,
  catch_restart, optimistic_look_up,
}
use optimistic_locking.SortedList.Racing.{
  Ensures, Ensures-weaken, Ensures-and_then, Settled-first, Settled-second, heap_of, AreFair, Later,
  advance-Later,
}
use optimistic_locking.SortedList.Racing.Loads.{Later-compose}
use optimistic_locking.SortedList.Racing.Loop.{Answered, racing_look_up-Answered}
use optimistic_locking.SortedList.Racing.Epochs.{entered-Later, Seen-weaken, leave_epoch-Seen}
use optimistic_locking.SortedList.Racing.Scope.{Seen, with_hybrid_guard-Seen}

module _ {T : Type 0} (key : T → ℕ) (lock : ℕ) (value : T) where
  -- what the guards are round
  abbrev inner : ℕ → M (World (Shared T)) Bool
  inner rounds = do first ← racing root_of; racing_look_up key rounds value first

  inner-Answered :
      (rounds : ℕ) (w : World (Shared T))
      → AreFair lock w
      → Ensures (Answered key lock value (look_up key rounds value) w) (λ _. ⊥) (inner rounds w)
  unfolding look_up
  inner-Answered rounds w fair =
      let w1 = advance w in
      let (one, _) = advance-Later lock w fair in
      Ensures-weaken _ (Answered key lock value (look_up key rounds value) w) (λ _. ⊥) _
        (racing_look_up-Answered key lock value rounds (heap_of w1).root w1 one.0)
        λ b w' (two, answer). (
          Later-compose lock w w1 w' one two,
          λ s.
              let first = Settled-first lock one.1 two.1 s in
              let same : heap_of w1 ≡ heap_of w = (one.1).nodes_same first.0 first.1 in
              rw same at answer (Settled-second lock one.1 two.1 s),
        )

module _ {T : Type 0} (key : T → ℕ) (list : OptimisticSortedList) (tid : ℕ) (value : T)
    (rounds : ℕ) where
  abbrev lock : ℕ
  lock = list.lock

  abbrev search : Heap T → Outcome (Heap T) (Option T)
  search = look_up key rounds value

  look_up_attempt-Seen :
      (w : World (Shared T))
      → AreFair list.lock w
      → Ensures
          (Seen list.lock search w)
          (Later list.lock w)
          (look_up_attempt key rounds list tid value w)
  unfolding look_up_attempt with_epoch_guard
  look_up_attempt-Seen w fair =
      let w1 = advance w in
      let enter = store_epoch tid (((w1.mem).rest).epoch).global_epoch in
      let guarded = with_hybrid_guard rounds list.lock optimistic (inner key lock value rounds) in
      Ensures-and_then (λ _ w2. Later lock w w2) (Seen lock search w) (Later lock w)
        (on_epoch enter w1) (λ _ w2. leave (on_epoch (destroy_epoch_guard tid)) (guarded w2))
        (entered-Later lock enter w w1 (advance-Later lock w fair).0)
        λ _ w2 two. leave_epoch-Seen lock search (destroy_epoch_guard tid) w (guarded w2) (
          Seen-weaken lock search w w2 (guarded w2) two (
            with_hybrid_guard-Seen lock key value search rounds (inner key lock value rounds) w2
              (inner-Answered key lock value rounds) two.0))

  catch_restart-Seen :
      (again : M (World (Shared T)) Bool) (w : World (Shared T))
      (x : Outcome (World (Shared T)) Bool)
      → Ensures (Seen lock search w) (Later lock w) x
      → ((w1 : World (Shared T))
          → AreFair lock w1
          → Ensures (Seen lock search w1) (Later lock w1) (again w1))
      → Ensures (Seen lock search w) (Later lock w) (catch_restart key again x)
  catch_restart-Seen again w (thrown restart_exception w1) later then_ =
      Seen-weaken lock search w w1 (again w1) later (then_ w1 later.0)
  catch_restart-Seen again w (thrown logic_error w1) later then_ = later
  catch_restart-Seen again w (thrown runtime_error w1) later then_ = later
  catch_restart-Seen again w (ok b w1) seen then_ = seen
  catch_restart-Seen again w aborted h then_ = tt
  catch_restart-Seen again w running h then_ = tt

  attempts-Seen :
      (tries : ℕ) (w : World (Shared T))
      → AreFair lock w
      → Ensures
          (Seen lock search w)
          (Later lock w)
          (optimistic_look_up key tries rounds list tid value w)
  unfolding optimistic_look_up
  attempts-Seen zero w fair = tt
  attempts-Seen (suc tries) w fair =
      catch_restart-Seen (optimistic_look_up key tries rounds list tid value) w
        (look_up_attempt key rounds list tid value w) (look_up_attempt-Seen w fair)
        (attempts-Seen tries)

  -- While other threads move before each access, never take the version back, count it up whenever a
  -- writer gives the lock up, change the nodes only under a writer, and leave this thread's variable
  -- for the result alone: where `LookUp` returns, after any number of attempts, there was a moment
  -- between its call and its return when no writer had the lock, and its answer and the value in
  -- `result` are what a search of the list says that runs on the nodes of that moment alone.
  pub optimistic_look_up-Seen :
      (tries : ℕ) (w w' : World (Shared T)) (b : Bool)
      → AreFair lock w
      → optimistic_look_up key tries rounds list tid value w ≡ ok b w'
      → Seen lock search w b w'
  optimistic_look_up-Seen tries w w' b fair run = rw run at (attempts-Seen tries w fair)
