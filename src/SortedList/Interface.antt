-- ===== src/SortedList/Interface.antt =====
-- include/list/list.h: the class `SortedList`, which both lists implement. `A` is what `LookUp` leaves
-- behind; the address that `malloc` returns, and the rounds of the loops, come with the call.
use optimistic_locking.Base.{ℕ, Bool, Option}
use optimistic_locking.Machine.{M, World}
use optimistic_locking.SortedList.{new_node}
use optimistic_locking.SortedList.Shared.{Shared, on_heap}
use optimistic_locking.SortedList.Mutex.{
  MutexSortedList, unlocked_by, mutex_insert, mutex_look_up, mutex_delete,
}
use optimistic_locking.SortedList.Optimistic.{
  OptimisticSortedList, optimistic_insert, optimistic_look_up, optimistic_delete,
}

pub record SortedList (W T A : Type 0) : Type 0 where
  pub new_node : ℕ → T → ℕ → M W ℕ
  pub insert : ℕ → T → M W (Unit {0})
  pub look_up : T → M W A
  pub delete : T → M W Bool

module _ {T : Type 0} (key : T → ℕ) where
  abbrev pub mutex_list : ℕ → SortedList (MutexSortedList T) T (Option T)
  mutex_list rounds = record {
    new_node = λ fresh value next l. unlocked_by (λ m. m) l.lock (new_node fresh value next l.heap);
    insert = mutex_insert key rounds;
    look_up = mutex_look_up key rounds;
    delete = mutex_delete key rounds;
  }

  abbrev pub optimistic_list :
      ℕ → ℕ → OptimisticSortedList → ℕ → SortedList (World (Shared T)) T Bool
  optimistic_list tries rounds list tid = record {
    new_node = λ fresh value next. on_heap (new_node fresh value next);
    insert = optimistic_insert key rounds list;
    look_up = optimistic_look_up key tries rounds list tid;
    delete = optimistic_delete key rounds list tid;
  }
