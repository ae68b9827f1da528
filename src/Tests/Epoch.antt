-- ===== src/Tests/Epoch.antt =====
-- Two threads and their epochs.
use optimistic_locking.Base.{ℕ, ◌≡◌, refl, some, List, [], ◌∷◌, arith}
use optimistic_locking.Epoch.{
  max_value, ToFreePointer, EpochHandler, free_outdated_ptr, epoch_handler, destroy_handler,
}
use optimistic_locking.Epoch.Reclaim.{Reclaimed, free_outdated_ptr-Reclaimed}
use optimistic_locking.Epoch.Hazards.{late_reader, late_reader_unprotected}

abbrev entry : ℕ → ℕ → ToFreePointer
entry p e = record { ptr = p; epoch = e }

-- Thread 0 has deferred three pointers; the other is at epoch `e`.
abbrev handler : ℕ → List ToFreePointer → EpochHandler
handler e entries = record {
  no_threads = 2;
  global_epoch = 6;
  local_epoch = max_value ∷ e ∷ [];
  to_free_ptr = entries ∷ [] ∷ [];
}

abbrev three : List ToFreePointer
three = entry 100 2 ∷ entry 101 4 ∷ entry 102 5 ∷ []

free_outdated_ptr-Reclaimed_example :
    Reclaimed 0 (handler 5 three) (handler 5 (entry 102 5 ∷ [])) (100 ∷ 101 ∷ [])
unfolding free_outdated_ptr
free_outdated_ptr-Reclaimed_example =
    free_outdated_ptr-Reclaimed 0 (handler 5 three) (handler 5 (entry 102 5 ∷ [])) (100 ∷ 101 ∷ [])
      refl

late_reader_unprotected_example :
    late_reader 4 100
    ≡ some (
      100 ∷ [],
      record {
        no_threads = 2;
        global_epoch = 5;
        local_epoch = max_value ∷ 5 ∷ [];
        to_free_ptr = [] ∷ [] ∷ [];
      },
    )
late_reader_unprotected_example = late_reader_unprotected 4 100 (omega arith)

new_handler : (epoch_handler 2).local_epoch ≡ 0 ∷ 0 ∷ []
unfolding epoch_handler
new_handler = refl

destroyed : destroy_handler (three ∷ (entry 7 1 ∷ []) ∷ []) ≡ 100 ∷ 101 ∷ 102 ∷ 7 ∷ []
unfolding destroy_handler
destroyed = refl
