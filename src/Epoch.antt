-- ===== src/Epoch.antt =====
-- include/sync/epoch.h, src/sync/epoch.cc: `EpochHandler` and `EpochGuard`. A pointer is its address.
-- An operation returns the pointers that it frees, in order; `none` is an index past the end of a
-- vector.
pub mod Reclaim
pub mod Hazards
pub mod Calls
use Prim.Native.Nat.{min}
use optimistic_locking.Base.{
  ℕ, suc, ◌+◌, ◌-◌, ◌%◌, ◌^◌, Option, none, some, List, [], ◌∷◌, ◌++◌, map, leb, if◌then◌else◌,
  get_elem?, set, take, drop, replicate,
}

abbrev pub max_value : ℕ
max_value = 2 ^ 64 - 1

abbrev pub max_number_of_worker : ℕ
max_number_of_worker = 128

pub record ToFreePointer : Type 0 where
  pub ptr : ℕ
  pub epoch : ℕ

pub record EpochHandler : Type 0 where
  pub no_threads : ℕ
  pub global_epoch : ℕ
  pub local_epoch : List ℕ
  pub to_free_ptr : List (List ToFreePointer)

-- the constructor
unfoldable pub epoch_handler : ℕ → EpochHandler
epoch_handler no_threads =
    let n = min no_threads max_number_of_worker in
    record {
      no_threads = n;
      global_epoch = 0;
      local_epoch = replicate n 0;
      to_free_ptr = replicate n [];
    }

abbrev pub pointers : List ToFreePointer → List ℕ
pointers = map (λ e. e.ptr)

-- the destructor, with all that it frees
unfoldable pub destroy_handler : List (List ToFreePointer) → List ℕ
destroy_handler [] = []
destroy_handler (ptr_list ∷ rest) = pointers ptr_list ++ destroy_handler rest

unfoldable pub advance_global_epoch : EpochHandler → EpochHandler
advance_global_epoch h = record h { global_epoch = (h.global_epoch + 1) % 2 ^ 64 }

-- The first loop of `FreeOutdatedPtr`.
unfoldable pub min_epoch : ℕ → List ℕ → ℕ
min_epoch least [] = least
min_epoch least (epoch ∷ rest) = min_epoch (min least epoch) rest

-- The second loop: the value of `idx` at its end. The pointers before it have been freed.
unfoldable pub outdated : ℕ → List ToFreePointer → ℕ
outdated least [] = 0
outdated least (e ∷ rest) = if leb least e.epoch then 0 else suc (outdated least rest)

unfoldable pub free_outdated_ptr : ℕ → EpochHandler → Option (List ℕ × EpochHandler)
unfolding min_epoch outdated
free_outdated_ptr tid h = elim (get_elem? h.to_free_ptr tid) [
  | none ↦ none
  | some entries ↦
      let idx = outdated (min_epoch max_value h.local_epoch) entries in
      some (
        pointers (take idx entries),
        record h { to_free_ptr = set h.to_free_ptr tid (drop idx entries) },
      )
]

abbrev append_entry :
    ℕ → ℕ → EpochHandler → Option (List ToFreePointer) → Option ℕ → Option EpochHandler
append_entry tid ptr h (some entries) (some epoch) = some (record h {
  to_free_ptr = set h.to_free_ptr tid (entries ++ record { ptr = ptr; epoch = epoch } ∷ []);
})
append_entry tid ptr h _ _ = none

unfoldable pub defer_free_pointer : ℕ → ℕ → EpochHandler → Option EpochHandler
defer_free_pointer tid ptr h =
    append_entry tid ptr h (get_elem? h.to_free_ptr tid) (get_elem? h.local_epoch tid)

-- `epoch_->store(v)`, at the address that the guard was given: `&local_epoch[tid]`
abbrev pub store_epoch : ℕ → ℕ → EpochHandler → Option EpochHandler
store_epoch tid v h = elim (get_elem? h.local_epoch tid) [
  | none ↦ none
  | some _ ↦ some (record h { local_epoch = set h.local_epoch tid v })
]

-- `EpochGuard`: the slot that `epoch_` points to
pub record EpochGuard : Type 0 where
  pub epoch : ℕ

-- The constructor of `EpochGuard`, for the slot of a thread: first it loads the global epoch; then it
-- stores what it has loaded. Other threads may run in between.
abbrev pub load_epoch : EpochHandler → ℕ
load_epoch h = h.global_epoch

unfoldable pub epoch_guard : ℕ → ℕ → EpochHandler → Option EpochHandler
epoch_guard tid loaded h = store_epoch tid loaded h

-- the destructor
unfoldable pub destroy_epoch_guard : ℕ → EpochHandler → Option EpochHandler
destroy_epoch_guard tid h = store_epoch tid max_value h
