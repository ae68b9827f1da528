-- ===== src/Epoch/Calls/Protected.antt =====
-- src/sync/epoch.cc: what a thread in its guard keeps from being freed.
use optimistic_locking.Base.{
  ℕ, ◌+◌, ◌^◌, ◌<◌, ◌≡◌, sym, ap, ◌∙◌, some, List, [], ◌∷◌, ◌++◌, All, length, get_elem?, arith,
}
use mathlib.Core.List.{append-nil}
use optimistic_locking.Epoch.{ToFreePointer, EpochHandler, pointers}
use optimistic_locking.Epoch.Calls.{
  Loads, loads_after, Event, Run, done, made, deferred_by, freed_for,
}
use optimistic_locking.Epoch.Calls.Handled.{Handled, perform-Handled}
use optimistic_locking.Epoch.Calls.Oldest.{
  StaysIn, Oldest, perform-Oldest, Current, tags-Current, Current-append,
}
use optimistic_locking.Epoch.Reclaim.{StartsAt}
use optimistic_locking.Epoch.Calls.Kept.{Guarded, Guarded-none, Guarded-made, Guarded-pointers}

Current-StartsAt : (e : ℕ) (new : List ToFreePointer) → Current e new → StartsAt e new
Current-StartsAt e [] current = tt
Current-StartsAt e (x ∷ new) current = current.0

Run-Guarded :
    (i e tid : ℕ) (loads : Loads) (h h' : EpochHandler) (es : List Event)
    (old new : List ToFreePointer)
    → Oldest i e loads h
    → All (λ ev. StaysIn i ev.call) es
    → h.global_epoch + length es < 2 ^ 64
    → get_elem? h.to_free_ptr tid ≡ some (old ++ new)
    → Current e new
    → Run loads h es h'
    → Guarded tid h' old new es
Run-Guarded i e tid loads h h' [] old new o stays small found current done =
    Guarded-none tid h old new found
Run-Guarded i e tid loads h h' (_ ∷ _) old new o stays small found current
      (made {h1 = h1} c freed es l call more) =
    let r : Handled tid c freed h h1 = perform-Handled tid c h h1 freed (old ++ new) found call in
    let (o1, global) = perform-Oldest i e loads c h h1 freed stays.0 l (omega arith) call o in
    let tagged = tags-Current e tid h.local_epoch r.new o.least r.tagged in
    Guarded-made tid e c freed es h h1 h' old new found r (r.outdated i e o.slot)
      (Current-StartsAt e new current)
      λ rest found1.
        Run-Guarded i e tid (loads_after loads c h) h1 h' es rest (new ++ r.new) o1 stays.1
          (omega arith) found1 (Current-append e new r.new current tagged) more

-- While thread `i` stays in its guard, at an epoch `e` that at first neither any thread's local epoch
-- is below, nor the global epoch, nor an epoch that a thread making a guard has loaded and not stored
-- as yet, no pointer is freed that any thread defers meanwhile: whatever calls the threads make, as
-- long as all return and the global epoch does not wrap, all that is freed for a thread was in its
-- list at the start, and is taken from the front of it; what is left of that list, and behind it all
-- that the thread deferred, in order, is in its list still.
pub staying_reader_protects :
    (i e tid : ℕ) (loads : Loads) (h h' : EpochHandler) (es : List Event) (q : List ToFreePointer)
    → Oldest i e loads h
    → All (λ ev. StaysIn i ev.call) es
    → h.global_epoch + length es < 2 ^ 64
    → get_elem? h.to_free_ptr tid ≡ some q
    → Run loads h es h'
    → (kept : List ℕ) × (q' : List ToFreePointer) × (get_elem? h'.to_free_ptr tid ≡ some q')
      × (pointers q ≡ freed_for tid es ++ kept)
      × (pointers q' ≡ kept ++ deferred_by tid es)
staying_reader_protects i e tid loads h h' es q o stays small found run =
    Guarded-pointers tid h' q [] es (
      Run-Guarded i e tid loads h h' es q [] o stays small (found ∙ ap some (sym (append-nil q))) tt
        run)
