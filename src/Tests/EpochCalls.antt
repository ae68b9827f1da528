-- ===== src/Tests/EpochCalls.antt =====
-- Two threads that make calls of one handler: thread 1 reads while thread 0 defers and reclaims.
use optimistic_locking.Base.{
  ℕ, ◌≡◌, refl, some, List, [], ◌∷◌, ◌++◌, arith, get_elem?, count, set, none, ℕ_discrete,
}
use optimistic_locking.Epoch.{
  max_value, ToFreePointer, EpochHandler, epoch_handler, free_outdated_ptr, defer_free_pointer,
  destroy_handler, epoch_guard, destroy_epoch_guard, advance_global_epoch, pointers, min_epoch,
}
use optimistic_locking.Epoch.Calls.{
  Call, advance, load, enter, leave, defer, reclaim, perform, Event, Run, done, made, deferred_by,
  freed_for, all_freed, all_deferred,
}
use optimistic_locking.Epoch.Calls.Conserved.{Run-first_in_first_out, freed_as_often_as_deferred}
use optimistic_locking.Epoch.Calls.Ordered.{below, not_below}
use optimistic_locking.Epoch.Calls.Exact.{bracketed_outdated_all_freed}
use optimistic_locking.Epoch.Calls.Blocked.{deferred_outside_guard_blocks}
use optimistic_locking.Epoch.Calls.Unused.{unused_slot_leaves_all}
use optimistic_locking.Epoch.Calls.Protected.{staying_reader_protects}

abbrev entry : ℕ → ℕ → ToFreePointer
entry p e = record { ptr = p; epoch = e }

-- Thread 0 has deferred two pointers; thread 1 is in a guard at epoch 5.
abbrev handler : ℕ → List ToFreePointer → EpochHandler
handler epoch entries = record {
  no_threads = 2;
  global_epoch = 6;
  local_epoch = epoch ∷ 5 ∷ [];
  to_free_ptr = entries ∷ [] ∷ [];
}

abbrev event : Call → List ℕ → Event
event c freed = record { call = c; freed = freed }

abbrev two : List ToFreePointer
two = entry 100 2 ∷ entry 101 4 ∷ []

-- Thread 0 enters, defers a third pointer, leaves and reclaims.
abbrev calls : List Event
calls =
    event (load 0) []
    ∷ event (enter 0 6) []
    ∷ event (defer 0 102) []
    ∷ event (leave 0) []
    ∷ event (reclaim 0) (100 ∷ 101 ∷ [])
    ∷ []

calls_run : Run (λ _. none) (handler max_value two) calls (handler max_value (entry 102 6 ∷ []))
unfolding ℕ_discrete perform free_outdated_ptr defer_free_pointer epoch_guard destroy_epoch_guard
calls_run = made (load 0) [] _ tt refl (
    made (enter 0 6) [] _ refl refl (
      made (defer 0 102) [] _ tt refl
        (made (leave 0) [] _ tt refl (made (reclaim 0) (100 ∷ 101 ∷ []) [] tt refl done))))

Run-first_in_first_out_example :
    (q' : List ToFreePointer) × (get_elem? (handler max_value (entry 102 6 ∷ [])).to_free_ptr 0
      ≡ some q')
    × (pointers two ++ deferred_by 0 calls ≡ freed_for 0 calls ++ pointers q')
Run-first_in_first_out_example =
    Run-first_in_first_out 0 (λ _. none) (handler max_value two)
      (handler max_value (entry 102 6 ∷ [])) calls two refl calls_run

staying_reader_protects_example :
    (kept : List ℕ) × (q' : List ToFreePointer) × (get_elem?
        (handler max_value (entry 102 6 ∷ [])).to_free_ptr
        0
      ≡ some q')
    × (pointers two ≡ freed_for 0 calls ++ kept)
    × (pointers q' ≡ kept ++ deferred_by 0 calls)
staying_reader_protects_example =
    staying_reader_protects 1 5 0 (λ _. none) (handler max_value two)
      (handler max_value (entry 102 6 ∷ [])) calls two
      (record {
        slot = refl;
        least = (omega arith, (omega arith, tt));
        still = omega arith;
        loaded = λ t v e. cc;
      })
      (tt, (omega arith, (tt, (omega arith, (tt, tt))))) (omega arith) refl calls_run

abbrev ended : EpochHandler
ended = record {
  no_threads = 2;
  global_epoch = 1;
  local_epoch = max_value ∷ 1 ∷ [];
  to_free_ptr = [] ∷ (entry 8 1 ∷ []) ∷ [];
}

abbrev from_start : List Event
from_start =
    event (load 0) []
    ∷ event (enter 0 0) []
    ∷ event (defer 0 7) []
    ∷ event (leave 0) []
    ∷ event advance []
    ∷ event (load 1) []
    ∷ event (enter 1 1) []
    ∷ event (defer 1 8) []
    ∷ event (reclaim 0) (7 ∷ [])
    ∷ []

from_start_run : Run (λ _. none) (epoch_handler 2) from_start ended
unfolding ℕ_discrete epoch_handler perform free_outdated_ptr defer_free_pointer epoch_guard
    destroy_epoch_guard advance_global_epoch
from_start_run = made (load 0) [] _ tt refl (
    made (enter 0 0) [] _ refl refl (
      made (defer 0 7) [] _ tt refl (
        made (leave 0) [] _ tt refl (
          made advance [] _ tt refl (
            made (load 1) [] _ tt refl (
              made (enter 1 1) [] _ refl refl
                (made (defer 1 8) [] _ tt refl (made (reclaim 0) (7 ∷ []) [] tt refl done))))))))

freed_as_often_as_deferred_example :
    count 8 (all_freed from_start ++ destroy_handler ended.to_free_ptr)
    ≡ count 8 (all_deferred from_start)
freed_as_often_as_deferred_example =
    freed_as_often_as_deferred 2 8 (λ _. none) from_start ended from_start_run

-- Thread 0 has left its guard with one pointer deferred; thread 1 is in its guard at epoch 1.
abbrev bracketed : List Event
bracketed =
    event (load 0) []
    ∷ event (enter 0 0) []
    ∷ event (defer 0 7) []
    ∷ event (leave 0) []
    ∷ event advance []
    ∷ event (load 1) []
    ∷ event (enter 1 1) []
    ∷ event (defer 1 8) []
    ∷ []

abbrev waiting : EpochHandler
waiting = record {
  no_threads = 2;
  global_epoch = 1;
  local_epoch = max_value ∷ 1 ∷ [];
  to_free_ptr = (entry 7 0 ∷ []) ∷ (entry 8 1 ∷ []) ∷ [];
}

bracketed_run : Run (λ _. none) (epoch_handler 2) bracketed waiting
unfolding ℕ_discrete epoch_handler perform defer_free_pointer epoch_guard destroy_epoch_guard
    advance_global_epoch
bracketed_run = made (load 0) [] _ tt refl (
    made (enter 0 0) [] _ refl refl (
      made (defer 0 7) [] _ tt refl (
        made (leave 0) [] _ tt refl (
          made advance [] _ tt refl (
            made (load 1) [] _ tt refl
              (made (enter 1 1) [] _ refl refl (made (defer 1 8) [] [] tt refl done)))))))

bracketed_outdated_all_freed_example :
    let least = min_epoch max_value waiting.local_epoch in
    (q : List ToFreePointer) × (get_elem? waiting.to_free_ptr 0 ≡ some q)
    × (free_outdated_ptr 0 waiting
        ≡ some (
          pointers (below least q),
          record waiting { to_free_ptr = set waiting.to_free_ptr 0 (not_below least q) },
        ))
bracketed_outdated_all_freed_example =
    bracketed_outdated_all_freed 2 0 waiting bracketed (omega arith)
      (tt, (tt, (λ _. refl, (tt, (tt, (tt, (tt, (λ same. absurd (omega arith), tt))))))))
      (omega arith) bracketed_run

-- Thread 0 has deferred a third pointer, outside of a guard.
abbrev blocked : EpochHandler
blocked = handler max_value (two ++ entry 9 max_value ∷ [])

abbrev still_blocked : EpochHandler
still_blocked = handler max_value (entry 9 max_value ∷ entry 102 6 ∷ [])

blocked_run : Run (λ _. none) blocked calls still_blocked
unfolding ℕ_discrete perform free_outdated_ptr defer_free_pointer epoch_guard destroy_epoch_guard
blocked_run = made (load 0) [] _ tt refl (
    made (enter 0 6) [] _ refl refl (
      made (defer 0 102) [] _ tt refl
        (made (leave 0) [] _ tt refl (made (reclaim 0) (100 ∷ 101 ∷ []) [] tt refl done))))

deferred_outside_guard_blocks_example :
    (kept : List ℕ) × (q' : List ToFreePointer) × (get_elem? still_blocked.to_free_ptr 0 ≡ some q')
    × (pointers two ≡ freed_for 0 calls ++ kept)
    × (pointers q' ≡ kept ++ (9 ∷ deferred_by 0 calls))
unfolding defer_free_pointer
deferred_outside_guard_blocks_example =
    deferred_outside_guard_blocks 0 9 (λ _. none) (handler max_value two) blocked still_blocked
      calls two refl refl refl blocked_run

-- The only thread has id 1: nobody uses slot 0.
abbrev of_thread_1 : List Event
of_thread_1 =
    event (load 1) []
    ∷ event (enter 1 0) []
    ∷ event (defer 1 8) []
    ∷ event (leave 1) []
    ∷ event advance []
    ∷ event (reclaim 1) []
    ∷ []

abbrev kept_all : EpochHandler
kept_all = record {
  no_threads = 2;
  global_epoch = 1;
  local_epoch = 0 ∷ max_value ∷ [];
  to_free_ptr = [] ∷ (entry 8 0 ∷ []) ∷ [];
}

of_thread_1_run : Run (λ _. none) (epoch_handler 2) of_thread_1 kept_all
unfolding ℕ_discrete epoch_handler perform free_outdated_ptr defer_free_pointer epoch_guard
    destroy_epoch_guard advance_global_epoch
of_thread_1_run = made (load 1) [] _ tt refl (
    made (enter 1 0) [] _ refl refl (
      made (defer 1 8) [] _ tt refl (
        made (leave 1) [] _ tt refl
          (made advance [] _ tt refl (made (reclaim 1) [] [] tt refl done)))))

unused_slot_leaves_all_example :
    (all_freed of_thread_1 ≡ [])
    × (count 8 (destroy_handler kept_all.to_free_ptr) ≡ count 8 (all_deferred of_thread_1))
unused_slot_leaves_all_example =
    unused_slot_leaves_all 2 0 8 (λ _. none) of_thread_1 kept_all (omega arith)
      (tt, (λ same. absurd (omega arith), (tt, (λ same. absurd (omega arith), (tt, (tt, tt))))))
      of_thread_1_run

-- Thread 0 loads the epoch 6, the epoch advances and thread 1 enters at 7; then thread 0 stores the 6,
-- defers a pointer, and has it freed, while thread 1 is in its guard still.
late_store_run :
    Run
      (λ _. none)
      (handler max_value [])
      (event (load 0) []
        ∷ event advance []
        ∷ event (load 1) []
        ∷ event (enter 1 7) []
        ∷ event (enter 0 6) []
        ∷ event (defer 0 9) []
        ∷ event (leave 0) []
        ∷ event (reclaim 0) (9 ∷ [])
        ∷ [])
      (record {
        no_threads = 2;
        global_epoch = 7;
        local_epoch = max_value ∷ 7 ∷ [];
        to_free_ptr = [] ∷ [] ∷ [];
      })
unfolding ℕ_discrete perform free_outdated_ptr defer_free_pointer epoch_guard destroy_epoch_guard
    advance_global_epoch
late_store_run = made (load 0) [] _ tt refl (
    made advance [] _ tt refl (
      made (load 1) [] _ tt refl (
        made (enter 1 7) [] _ refl refl (
          made (enter 0 6) [] _ refl refl (
            made (defer 0 9) [] _ tt refl
              (made (leave 0) [] _ tt refl (made (reclaim 0) (9 ∷ []) [] tt refl done)))))))
