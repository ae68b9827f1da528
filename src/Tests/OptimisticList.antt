-- ===== src/Tests/OptimisticList.antt =====
-- The optimistic list of two numbers, its lock at address 0, with a handler for two threads.
use optimistic_locking.Base.{
  ℕ, ◌+◌, ◌*◌, ◌^◌, ◌<◌, ◌≡◌, ◌≢◌, refl, false, true, none, some, [], ◌∷◌, get_elem?, ℕ_discrete,
  arith,
}
use optimistic_locking.Machine.{Memory, Turn, World, ok, quiet}
use optimistic_locking.Lock.Word.{lock_state, version}
use optimistic_locking.Lock.WordLaws.{HasFields}
use optimistic_locking.Epoch.{advance_global_epoch, epoch_handler, EpochHandler, max_value}
use optimistic_locking.Workers.{Workers, initialize_threads}
use optimistic_locking.SortedList.{load_node}
use optimistic_locking.SortedList.Chain.{Chain, IsSorted}
use optimistic_locking.SortedList.Remove.{Avoids, IsDistinct}
use optimistic_locking.SortedList.Place.{insert_sorted}
use optimistic_locking.SortedList.Mutex.{mutex_look_up}
use optimistic_locking.SortedList.Shared.{Shared}
use optimistic_locking.SortedList.Optimistic.{
  OptimisticSortedList, optimistic_look_up, optimistic_delete, optimistic_insert,
}
use optimistic_locking.SortedList.Alone.{found_in, at_epoch}
use optimistic_locking.SortedList.Waiting.{waiting, writers_wait}
use optimistic_locking.SortedList.Undisturbed.{approach}
use optimistic_locking.SortedList.Interleaved.{optimistic_insert_undisturbed}
use optimistic_locking.SortedList.Deferring.{handler_of, optimistic_delete_undisturbed}
use optimistic_locking.SortedList.Racing.{heap_of}
use optimistic_locking.SortedList.Ids.{last_thread_has_no_slot}
use optimistic_locking.SortedList.Agree.{look_ups_agree}
use optimistic_locking.SortedList.Destroy.{Freed, destroy_list-Freed}
use optimistic_locking.SortedList.Interface.{optimistic_list}
use optimistic_locking.SortedList.RoundTrip.{in_and_out}
use optimistic_locking.SortedList.RoundTrip.Optimistic.{in_and_out-optimistic_list}
use optimistic_locking.Tests.SortedList.{key, heap, heap-Chain}

abbrev pub handler : EpochHandler
handler = record {
  no_threads = 2;
  global_epoch = 4;
  local_epoch = max_value ∷ 3 ∷ [];
  to_free_ptr = [] ∷ [] ∷ [];
}

abbrev pub shared_list : Memory (Shared ℕ)
shared_list = record {
  cells = λ _. 0;
  rest = record { heap = heap; epoch = handler; result = none };
}

abbrev pub list : OptimisticSortedList
list = record { lock = 0 }

new_lock_free : lock_state 0 ≡ 0
unfolding lock_state
new_lock_free = refl

new_lock_version : version 0 ≡ 0
unfolding version
new_lock_version = refl

found :
    mutex_look_up key 3 40 (record { heap = heap; lock = record { writer = false; readers = 0 } })
    ≡ ok (some 40) (record { heap = heap; lock = record { writer = false; readers = 0 } })
unfolding mutex_look_up load_node ℕ_discrete
found = refl

last_thread_has_no_slot_example :
    let w : Workers = record { worker_atomic_int = 0; thread_id = 0 } in
    ((i : ℕ) → i < 128 → get_elem? (initialize_threads 128 w) i ≡ some (i + 1))
    × (get_elem? (epoch_handler 128).local_epoch 128 ≡ none)
    × (get_elem? (epoch_handler 128).to_free_ptr 128 ≡ none)
last_thread_has_no_slot_example = last_thread_has_no_slot 128 (omega arith)

look_ups_agree_example :
    optimistic_look_up key 1 3 list 1 40 (quiet shared_list)
    ≡ found_in (at_epoch shared_list 1 max_value) (some 40)
look_ups_agree_example =
    look_ups_agree key 40 shared_list 0 2 list 1 3 (record { writer = false; readers = 0 })
      (some 40) (record { heap = heap; lock = record { writer = false; readers = 0 } })
      (omega (arith, new_lock_free)) refl refl found

destroy_list-Freed_example : Freed 3 heap ((5, 30) ∷ (6, 40) ∷ [])
destroy_list-Freed_example =
    destroy_list-Freed 3 heap heap-Chain ((λ e. omega arith, tt), (tt, tt)) (omega arith)

in_and_out-optimistic_list_example :
    (m' : Memory (Shared ℕ)) × (in_and_out (optimistic_list key 1 4 list 1) 7 35 (quiet shared_list)
      ≡ ok (true, true, false) (quiet m'))
    × Chain (m'.rest).heap ((m'.rest).heap).root ((5, 30) ∷ (6, 40) ∷ [])
    × HasFields (m'.cells 0) (version 0 + 2) 0
    × ((m'.rest).result ≡ some 35)
    × (get_elem? ((m'.rest).epoch).local_epoch 1 ≡ some max_value)
    × (get_elem? ((m'.rest).epoch).to_free_ptr 1
        ≡ some (record { ptr = 7; epoch = max_value } ∷ []))
    × ((q : ℕ)
        → q ≢ 7
        → Avoids {T = ℕ} q ((5, 30) ∷ (6, 40) ∷ [])
        → ((m'.rest).heap).nodes q ≡ heap.nodes q)
in_and_out-optimistic_list_example =
    in_and_out-optimistic_list key 7 35 list shared_list new_lock_free
      (omega (arith, new_lock_version)) 0 3 1 3 [] (omega arith) refl refl (omega arith) heap-Chain
      ((λ e. omega arith, tt), (tt, tt)) ((omega arith, tt), (tt, tt)) refl (omega arith)

-- a writer holds the lock, and the list is empty as yet
abbrev written : Memory (Shared ℕ)
written = record {
  cells = λ _. 255 * 2 ^ 56;
  rest = record { heap = record heap { root = 0 }; epoch = handler; result = none };
}

written_state : lock_state (255 * 2 ^ 56) ≡ 255
unfolding lock_state
written_state = refl

writers_wait_example :
    (optimistic_insert key 4 list 7 35 (waiting written (written ∷ written ∷ []) shared_list)
      ≡ optimistic_insert key 4 list 7 35 (quiet shared_list))
    × (optimistic_delete key 4 list 1 35 (waiting written (written ∷ written ∷ []) shared_list)
        ≡ optimistic_delete key 4 list 1 35 (quiet shared_list))
writers_wait_example =
    let busy : (255 * 2 ^ 56 < 2 ^ 64) × (lock_state (255 * 2 ^ 56) ≢ 0) =
      (omega arith, λ e. omega (arith, written_state)) in
    writers_wait key list shared_list new_lock_free 4 written (written ∷ written ∷ [])
      (busy, (busy, tt)) (omega arith) 7 1 35

-- another thread advances the global epoch
abbrev advancing : Turn (Shared ℕ)
advancing = record {
  interfere =
      λ m. record m { rest = record (m.rest) { epoch = advance_global_epoch (m.rest).epoch } };
  spurious = false;
}

optimistic_insert_undisturbed_example :
    (w' : World (Shared ℕ)) × (optimistic_insert key 4 list 7 35
        (approach written (written ∷ []) shared_list shared_list (advancing ∷ advancing ∷ []))
      ≡ ok tt w')
    × HasFields ((w'.mem).cells 0) (version 0 + 1) 0
    × Chain (heap_of w') (heap_of w').root (insert_sorted key 7 35 ((5, 30) ∷ (6, 40) ∷ []))
    × IsSorted key (insert_sorted key 7 35 ((5, 30) ∷ (6, 40) ∷ []))
    × IsDistinct (insert_sorted key 7 35 ((5, 30) ∷ (6, 40) ∷ []))
    × ((q : ℕ)
        → q ≢ 7
        → Avoids {T = ℕ} q ((5, 30) ∷ (6, 40) ∷ [])
        → (heap_of w').nodes q ≡ heap.nodes q)
optimistic_insert_undisturbed_example =
    optimistic_insert_undisturbed key 35 list written (written ∷ []) shared_list shared_list
      (advancing ∷ advancing ∷ []) 4 7 ((omega arith, λ e. omega (arith, written_state)), tt)
      new_lock_free (omega (arith, new_lock_version)) refl
      (λ m e. (refl, refl), (λ m e. (refl, refl), tt)) (omega arith) (omega arith) (omega arith)
      (omega arith) heap-Chain ((λ e. omega arith, tt), (tt, tt)) ((omega arith, tt), (tt, tt))
      (omega arith)

optimistic_delete_undisturbed_example :
    (w' : World (Shared ℕ)) × (optimistic_delete key 4 list 1 40
        (approach written (written ∷ []) shared_list shared_list (advancing ∷ advancing ∷ []))
      ≡ ok true w')
    × HasFields ((w'.mem).cells 0) (version 0 + 1) 0
    × Chain (heap_of w') (heap_of w').root ((5, 30) ∷ [])
    × ((q : ℕ) → Avoids {T = ℕ} q ((5, 30) ∷ (6, 40) ∷ []) → (heap_of w').nodes q ≡ heap.nodes q)
    × (get_elem? (handler_of w'.mem).to_free_ptr 1 ≡ some (record { ptr = 6; epoch = 3 } ∷ []))
unfolding advance_global_epoch
optimistic_delete_undisturbed_example =
    optimistic_delete_undisturbed key 40 list written (written ∷ []) shared_list shared_list
      (advancing ∷ advancing ∷ []) 4 1 3 [] ((omega arith, λ e. omega (arith, written_state)), tt)
      new_lock_free (omega (arith, new_lock_version)) refl
      (λ m e. (refl, refl), (λ m e. (refl, refl), tt)) (λ m. (refl, refl), (λ m. (refl, refl), tt))
      (omega arith) (omega arith) refl refl heap-Chain ((λ e. omega arith, tt), (tt, tt))
      ((omega arith, tt), (tt, tt)) (λ e. cc)
