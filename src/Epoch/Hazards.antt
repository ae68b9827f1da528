-- ===== src/Epoch/Hazards.antt =====
-- What the epochs do not protect, and pointers that are never freed.
use optimistic_locking.Base.{
  ℕ, ◌+◌, ◌<◌, ◌≡◌, Option, none, some, List, [], ◌∷◌, ◌++◌, All, arith, get_elem?,
}
use optimistic_locking.Epoch.{
  max_value, ToFreePointer, EpochHandler, pointers, free_outdated_ptr, defer_free_pointer,
  load_epoch, epoch_guard, destroy_epoch_guard, advance_global_epoch,
}
use optimistic_locking.Epoch.Reclaim.{free_outdated_ptr-Reclaimed}

-- While some thread's local epoch is 0, as it is in a slot that no guard has used, no call of
-- `FreeOutdatedPtr` that returns frees a pointer.
pub unused_slot_blocks :
    (i tid : ℕ) (h h' : EpochHandler) (freed : List ℕ)
    → get_elem? h.local_epoch i ≡ some 0
    → free_outdated_ptr tid h ≡ some (freed, h')
    → (freed ≡ []) × (get_elem? h'.to_free_ptr tid ≡ get_elem? h.to_free_ptr tid)
unused_slot_blocks i tid h h' freed unused e =
    let r = free_outdated_ptr-Reclaimed tid h h' freed e in
    none_below r.gone r.kept (r.outdated i 0 unused) r.freed_is r.before r.after
  where
    none_below :
        (gone kept : List ToFreePointer)
        → All (λ x. x.epoch < 0) gone
        → freed ≡ pointers gone
        → get_elem? h.to_free_ptr tid ≡ some (gone ++ kept)
        → get_elem? h'.to_free_ptr tid ≡ some kept
        → (freed ≡ []) × (get_elem? h'.to_free_ptr tid ≡ get_elem? h.to_free_ptr tid)
    none_below [] kept a f b c = (f, ground arith)
    none_below (x ∷ gone) kept a f b c = absurd (omega arith)

infixl 5 ◌>>=◌
abbrev ◌>>=◌ : {A B : Type 0} → Option A → (A → Option B) → Option B
none >>= k = none
some a >>= k = k a

-- Thread 0 is in a guard that it entered at epoch `g`. The global epoch advances and thread 1 enters
-- a guard; then thread 0 defers a pointer, which thread 1 may have read before, leaves its guard
-- and reclaims.
abbrev pub late_reader : ℕ → ℕ → Option (List ℕ × EpochHandler)
late_reader g ptr = do
  let advanced = advance_global_epoch (record {
    no_threads = 2;
    global_epoch = g;
    local_epoch = g ∷ max_value ∷ [];
    to_free_ptr = [] ∷ [] ∷ [];
  })
  reading ← epoch_guard 1 (load_epoch advanced) advanced
  deferred ← defer_free_pointer 0 ptr reading
  left ← destroy_epoch_guard 0 deferred
  free_outdated_ptr 0 left

-- A pointer is deferred with the local epoch of the thread that defers it. In a handler for two
-- threads, with nothing deferred yet: if thread 0 has entered its guard at an epoch `g`, with
-- `g + 2` below `MAX_VALUE`, and thread 1 enters one an epoch later, before thread 0 defers a
-- pointer, then the pointer is freed while thread 1 is in its guard still, at epoch `g + 1`.
pub late_reader_unprotected :
    (g ptr : ℕ)
    → g + 2 < max_value
    → late_reader g ptr
      ≡ some (
        ptr ∷ [],
        record {
          no_threads = 2;
          global_epoch = g + 1;
          local_epoch = max_value ∷ (g + 1) ∷ [];
          to_free_ptr = [] ∷ [] ∷ [];
        },
      )
unfolding epoch_guard destroy_epoch_guard advance_global_epoch defer_free_pointer free_outdated_ptr
late_reader_unprotected g ptr small = ground arith
