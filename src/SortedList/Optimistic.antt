-- ===== src/SortedList/Optimistic.antt =====
-- include/list/list.h, src/list/list.cc: `OptimisticSortedList`. Under the exclusive guard the body
-- runs at once, since the others do not touch the nodes then; under the optimistic guard other
-- threads take a turn before each access of a node.
use optimistic_locking.Base.{
  ℕ, zero, suc, Bool, true, false, not, Option, none, some, ltb, ◌==◌, if◌then◌else◌,
}
use optimistic_locking.Machine.{
  restart_exception, Outcome, ok, thrown, aborted, running, M, pure, and_then, assert, World, ◌>>=◌,
  ◌>>◌,
}
use optimistic_locking.Lock.{hybrid_lock}
use optimistic_locking.Guard.{GuardMode, optimistic, exclusively, Self, hybrid_guard, destroy_guard}
use optimistic_locking.Epoch.{EpochGuard, store_epoch, defer_free_pointer, destroy_epoch_guard}
use optimistic_locking.SortedList.{null, load_node, insert, delete_loop, destroy_list}
use optimistic_locking.SortedList.Shared.{
  Shared, on_heap, racing, set_result, on_epoch, load_global_epoch, root_of, leave,
}

-- `lock_`, by its address. `root_` and `epoch_` are in what the threads share.
pub record OptimisticSortedList : Type 0 where
  pub lock : ℕ

module _ {T : Type 0} where
  -- the constructor, on a fresh list
  unfoldable pub optimistic_sorted_list : ℕ → M (World (Shared T)) OptimisticSortedList
  optimistic_sorted_list lock = do
    on_heap (λ h. ok tt (record h { root = null }))
    hybrid_lock lock
    pure (record { lock = lock })

  abbrev pub forget : Outcome (Self (Shared T)) (Unit {0}) → Outcome (World (Shared T)) (Unit {0})
  forget (ok _ (g, w)) = ok tt w
  forget (thrown e (g, w)) = thrown e w
  forget aborted = aborted
  forget running = running

  -- a `HybridGuard`, the body, and the guard's destructor
  unfoldable pub with_hybrid_guard :
      {A : Type 0} → ℕ → ℕ → GuardMode → M (World (Shared T)) A → M (World (Shared T)) A
  with_hybrid_guard rounds lock mode body w =
      and_then (hybrid_guard rounds lock mode w)
        λ g w'. leave (λ u. forget (destroy_guard rounds (g, u))) (body w')

  -- An `EpochGuard` for the slot of the thread `tid`, the body, and the guard's destructor. The code
  -- does not check the index `tid`; past the end of the vector its behaviour is undefined, and stands
  -- here as `aborted`.
  unfoldable pub with_epoch_guard :
      {A : Type 0} → ℕ → M (World (Shared T)) A → M (World (Shared T)) A
  with_epoch_guard tid body w =
      let guard : EpochGuard = record { epoch = tid } in
      and_then ((load_global_epoch >>= λ e. on_epoch (store_epoch guard.epoch e)) w)
        λ _ w'. leave (on_epoch (destroy_epoch_guard guard.epoch)) (body w')

  -- the end of `Delete`
  unfoldable pub defer_found : ℕ → Option ℕ → M (World (Shared T)) Bool
  defer_found tid none = pure false
  defer_found tid (some current) = do
    assert (not (current == null))
    on_epoch (defer_free_pointer tid current)
    pure true

module _ {T : Type 0} (key : T → ℕ) where
  unfoldable pub optimistic_insert :
      ℕ → OptimisticSortedList → ℕ → T → M (World (Shared T)) (Unit {0})
  unfolding with_hybrid_guard insert
  optimistic_insert rounds list fresh value =
      with_hybrid_guard rounds list.lock exclusively (on_heap (insert key rounds fresh value))

  unfoldable pub optimistic_delete : ℕ → OptimisticSortedList → ℕ → T → M (World (Shared T)) Bool
  unfolding with_hybrid_guard delete_loop defer_found
  optimistic_delete rounds list tid value =
      with_hybrid_guard rounds list.lock exclusively (do
        found ← on_heap (λ h. delete_loop key rounds value null h.root h)
        defer_found tid found)

  -- The loop of `LookUp`, which reads the value of a node up to three times.
  unfoldable pub racing_look_up : ℕ → T → ℕ → M (World (Shared T)) Bool
  racing_look_up zero value current = λ _. running
  racing_look_up (suc rounds) value current = if current == null then pure false else do
    first ← racing (load_node current)
    if ltb (key value) (key first.value) then pure false else do
      second ← racing (load_node current)
      if key second.value == key value
          then (do third ← racing (load_node current); set_result third.value; pure true)
          else do n ← racing (load_node current); racing_look_up rounds value n.next

  -- what is inside the `try` of `LookUp`
  unfoldable pub look_up_attempt : ℕ → OptimisticSortedList → ℕ → T → M (World (Shared T)) Bool
  unfolding with_epoch_guard with_hybrid_guard racing_look_up
  look_up_attempt rounds list tid value = with_epoch_guard tid (
      with_hybrid_guard rounds list.lock optimistic
        (do first ← racing root_of; racing_look_up rounds value first))

  abbrev pub catch_restart :
      M (World (Shared T)) Bool → Outcome (World (Shared T)) Bool → Outcome (World (Shared T)) Bool
  catch_restart again (thrown restart_exception w) = again w
  catch_restart again o = o

  -- The loop of `LookUp` over its attempts. `T`s that it finds go to `result`, also in an attempt
  -- that is then given up.
  unfoldable pub optimistic_look_up :
      ℕ → ℕ → OptimisticSortedList → ℕ → T → M (World (Shared T)) Bool
  unfolding look_up_attempt
  optimistic_look_up zero rounds list tid value w = running
  optimistic_look_up (suc tries) rounds list tid value w =
      catch_restart (optimistic_look_up tries rounds list tid value)
        (look_up_attempt rounds list tid value w)

-- The destructor takes no lock.
unfoldable pub destroy_optimistic_list : {T : Type 0} → ℕ → M (World (Shared T)) (Unit {0})
unfolding destroy_list
destroy_optimistic_list rounds = on_heap (destroy_list rounds)
