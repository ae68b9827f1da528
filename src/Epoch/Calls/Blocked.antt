-- ===== src/Epoch/Calls/Blocked.antt =====
-- src/sync/epoch.cc: a pointer that a thread defers outside of its guard.
use optimistic_locking.Base.{
  ℕ, ◌≤◌, ◌≡◌, some, List, [], ◌∷◌, ◌++◌, get_elem?, set, get_elem?-set_self, arith,
}
use optimistic_locking.Epoch.{ToFreePointer, EpochHandler, pointers, defer_free_pointer, max_value}
use optimistic_locking.Epoch.Calls.{
  Loads, loads_after, Event, Run, done, made, deferred_by, freed_for,
}
use optimistic_locking.Epoch.Calls.Handled.{Handled, perform-Handled}
use optimistic_locking.Epoch.Calls.Kept.{Guarded, Guarded-none, Guarded-made, Guarded-pointers}

-- The first of `x ∷ new` is never outdated.
Run-Guarded :
    (tid : ℕ) (x : ToFreePointer) (loads : Loads) (h h' : EpochHandler) (es : List Event)
    (old new : List ToFreePointer)
    → max_value ≤ x.epoch
    → get_elem? h.to_free_ptr tid ≡ some (old ++ (x ∷ new))
    → Run loads h es h'
    → Guarded tid h' old (x ∷ new) es
Run-Guarded tid x loads h h' [] old new late found done = Guarded-none tid h old (x ∷ new) found
Run-Guarded tid x loads h h' (_ ∷ _) old new late found (made {h1 = h1} c freed es l call more) =
    let r : Handled tid c freed h h1 =
      perform-Handled tid c h h1 freed (old ++ (x ∷ new)) found call in
    Guarded-made tid max_value c freed es h h1 h' old (x ∷ new) found r r.never late λ rest found1.
      Run-Guarded tid x (loads_after loads c h) h1 h' es rest (new ++ r.new) late found1 more

-- A thread defers a pointer outside of a guard, where its local epoch is `MAX_VALUE`. Neither that
-- pointer nor any that the thread defers later is freed by `FreeOutdatedPtr` again: whatever calls
-- the threads make afterwards, as long as all return, all that is freed for the thread was in its
-- list before, and is taken from the front of it; what is left of that list, then the pointer, and
-- then all that the thread deferred since, in order, is in its list still.
pub deferred_outside_guard_blocks :
    (tid ptr : ℕ) (loads : Loads) (h deferred later : EpochHandler) (es : List Event)
    (q : List ToFreePointer)
    → get_elem? h.local_epoch tid ≡ some max_value
    → get_elem? h.to_free_ptr tid ≡ some q
    → defer_free_pointer tid ptr h ≡ some deferred
    → Run loads deferred es later
    → (kept : List ℕ) × (q' : List ToFreePointer) × (get_elem? later.to_free_ptr tid ≡ some q')
      × (pointers q ≡ freed_for tid es ++ kept)
      × (pointers q' ≡ kept ++ (ptr ∷ deferred_by tid es))
unfolding defer_free_pointer
deferred_outside_guard_blocks tid ptr loads h deferred later es q outside found d run =
    let x : ToFreePointer = record { ptr = ptr; epoch = max_value } in
    let queue : deferred.to_free_ptr ≡ set h.to_free_ptr tid (q ++ x ∷ []) = ground arith in
    let found1 : get_elem? deferred.to_free_ptr tid ≡ some (q ++ x ∷ []) =
      rw queue (get_elem?-set_self h.to_free_ptr tid (q ++ x ∷ []) found) in
    Guarded-pointers tid later q (x ∷ []) es
      (Run-Guarded tid x loads deferred later es q [] (omega arith) found1 run)
