-- ===== src/SortedList/Mutex.antt =====
-- include/list/list.h, src/list/list.cc: `MutexSortedList`. Its `std::shared_mutex` has a writer or a
-- number of readers; a `lock` that would wait does not return, since one thread runs here.
use optimistic_locking.Base.{ℕ, ◌+◌, ◌-◌, Bool, true, false, not, ◌&&◌, ◌==◌, Option, if◌then◌else◌}
use optimistic_locking.Machine.{Outcome, ok, thrown, aborted, running, M}
use optimistic_locking.SortedList.{Node, null, Heap, insert, look_up, delete, destroy_list}

pub record SharedMutex : Type 0 where
  pub writer : Bool
  pub readers : ℕ

pub record MutexSortedList (T : Type 0) : Type 0 where
  pub heap : Heap T
  pub lock : SharedMutex

-- the constructor
abbrev pub free_mutex : SharedMutex
free_mutex = record { writer = false; readers = 0 }

module _ {T : Type 0} where
  unfoldable pub mutex_sorted_list : (ℕ → Option (Node T)) → MutexSortedList T
  mutex_sorted_list nodes = record {
    heap = record { root = null; nodes = nodes };
    lock = free_mutex;
  }

  abbrev pub unlocked_by :
      {A : Type 0}
      → (SharedMutex → SharedMutex)
      → SharedMutex
      → Outcome (Heap T) A
      → Outcome (MutexSortedList T) A
  unlocked_by release m (ok a h) = ok a (record { heap = h; lock = release m })
  unlocked_by release m (thrown e h) = thrown e (record { heap = h; lock = release m })
  unlocked_by release m aborted = aborted
  unlocked_by release m running = running

  -- `std::unique_lock guard(lock_)`, the body, and the guard's destructor
  unfoldable pub with_unique_lock : {A : Type 0} → M (Heap T) A → M (MutexSortedList T) A
  with_unique_lock body l =
      if not (l.lock).writer && (l.lock).readers == 0
      then unlocked_by (λ m. record m { writer = false }) (record (l.lock) { writer = true })
          (body l.heap)
      else running

  -- the same for `std::shared_lock`
  unfoldable pub with_shared_lock : {A : Type 0} → M (Heap T) A → M (MutexSortedList T) A
  with_shared_lock body l =
      if not (l.lock).writer
      then unlocked_by (λ m. record m { readers = m.readers - 1 })
          (record (l.lock) { readers = (l.lock).readers + 1 }) (body l.heap)
      else running

module _ {T : Type 0} (key : T → ℕ) where
  unfoldable pub mutex_insert : ℕ → ℕ → T → M (MutexSortedList T) (Unit {0})
  unfolding with_unique_lock insert
  mutex_insert rounds fresh value = with_unique_lock (insert key rounds fresh value)

  unfoldable pub mutex_look_up : ℕ → T → M (MutexSortedList T) (Option T)
  unfolding with_shared_lock look_up
  mutex_look_up rounds value = with_shared_lock (look_up key rounds value)

  unfoldable pub mutex_delete : ℕ → T → M (MutexSortedList T) Bool
  unfolding with_unique_lock delete
  mutex_delete rounds value = with_unique_lock (delete key rounds value)

-- The destructor takes no lock.
unfoldable pub destroy_mutex_list : {T : Type 0} → ℕ → M (MutexSortedList T) (Unit {0})
unfolding destroy_list
destroy_mutex_list rounds l = unlocked_by (λ m. m) l.lock (destroy_list rounds l.heap)
