-- ===== src/SortedList/Ids.antt =====
-- src/common/utils.cc and src/sync/epoch.cc: which slots of the handler the threads use.
use optimistic_locking.Base.{
  ℕ, zero, suc, ◌+◌, ◌^◌, ◌≤◌, ◌<◌, ◌≡◌, refl, ap, ◌∙◌, none, some, List, [], ◌∷◌, length,
  replicate, get_elem?, arith,
}
use Prim.Native.Nat.{min}
use optimistic_locking.Workers.{Workers, fresh_thread, initialize_thread, initialize_threads}
use optimistic_locking.Epoch.{ToFreePointer, max_number_of_worker, epoch_handler}

get_elem?-none : {A : Type 0} (xs : List A) (i : ℕ) → length xs ≤ i → get_elem? xs i ≡ none
get_elem?-none [] i h = refl
get_elem?-none (x ∷ xs) zero h = absurd (omega arith)
get_elem?-none (x ∷ xs) (suc i) h = get_elem?-none xs i (omega arith)

-- Of `n` threads that call `InitializeThread` one after the other, while the counter does not wrap,
-- each gets the next number: the ids are different.
initialize_threads-get_elem? :
    (n i : ℕ) (w : Workers)
    → i < n
    → w.worker_atomic_int + n < 2 ^ 32
    → get_elem? (initialize_threads n w) i ≡ some (w.worker_atomic_int + i + 1)
unfolding initialize_threads initialize_thread
initialize_threads-get_elem? zero i w h small = absurd (omega arith)
initialize_threads-get_elem? (suc n) zero w h small = ground arith
initialize_threads-get_elem? (suc n) (suc i) w h small =
    initialize_threads-get_elem? n i (initialize_thread (fresh_thread w)) (omega arith)
      (omega arith)
    ∙ ap some (omega arith)

length-replicate : {A : Type 0} (n : ℕ) (a : A) → length (replicate n a) ≡ n
length-replicate zero a = refl
length-replicate (suc n) a = omega (arith, length-replicate n a)

-- The threads count from 0 at first, and fewer than 2 ^ 32 are initialised. The `i`-th of them has
-- the id `i + 1`; so all are different, and the last of `n` has the id `n`, which is past the end of
-- both vectors of a handler that is made for `n` threads.
pub last_thread_has_no_slot :
    (n : ℕ)
    → n < 2 ^ 32
    → let w : Workers = record { worker_atomic_int = 0; thread_id = 0 } in
      ((i : ℕ) → i < n → get_elem? (initialize_threads n w) i ≡ some (i + 1))
      × (get_elem? (epoch_handler n).local_epoch n ≡ none)
      × (get_elem? (epoch_handler n).to_free_ptr n ≡ none)
unfolding epoch_handler
last_thread_has_no_slot n small = (
  λ i below. initialize_threads-get_elem? n i _ below (omega arith) ∙ ap some (omega arith),
  get_elem?-none (replicate (min n max_number_of_worker) 0) n
      (omega (arith, length-replicate {A = ℕ} (min n max_number_of_worker) 0)),
  get_elem?-none (replicate (min n max_number_of_worker) []) n
      (omega (arith, length-replicate {A = List ToFreePointer} (min n max_number_of_worker) [])),
)
