-- ===== src/Epoch/Calls/Unused.antt =====
-- src/sync/epoch.cc: a slot that no thread uses.
use Prim.Native.Nat.{min}
use optimistic_locking.Base.{
  ℕ, ◌<◌, ◌≡◌, ◌≢◌, refl, sym, ap, ◌∙◌, inl, inr, some, List, [], ◌∷◌, ◌++◌, All, count, get_elem?,
  get_elem?-replicate, get_elem?-set_other, Option-cases, arith,
}
use optimistic_locking.Epoch.{
  EpochHandler, epoch_handler, destroy_handler, store_epoch, defer_free_pointer,
  advance_global_epoch, epoch_guard, destroy_epoch_guard, max_value, max_number_of_worker,
}
use optimistic_locking.Epoch.Reclaim.{free_outdated_ptr-Reclaimed, Reclaimed}
use optimistic_locking.Epoch.Hazards.{unused_slot_blocks}
use optimistic_locking.Epoch.Calls.{
  Loads, loads_after, load, Call, advance, enter, leave, defer, reclaim, perform, quietly, Event,
  Run, done, made, all_freed, all_deferred,
}
use optimistic_locking.Epoch.Calls.Oldest.{StaysIn, defer_free_pointer-epochs}
use optimistic_locking.Epoch.Calls.Stepped.{store_epoch-Stored}
use optimistic_locking.Epoch.Calls.Conserved.{freed_as_often_as_deferred}

abbrev Unused : ℕ → EpochHandler → Type 0
Unused i h = get_elem? h.local_epoch i ≡ some 0

store_epoch-Unused :
    (i t v : ℕ) (h h1 : EpochHandler) (freed : List ℕ)
    → t ≢ i
    → quietly (store_epoch t v h) ≡ some (freed, h1)
    → Unused i h
    → (freed ≡ []) × Unused i h1
store_epoch-Unused i t v h h1 freed other call unused =
    let s = store_epoch-Stored t v h h1 freed call in
    let slot = s.slot in
    (
      ground arith,
      ap (λ l. get_elem? l i) s.locals ∙ get_elem?-set_other h.local_epoch t i v other ∙ unused,
    )

defer_free_pointer-freed :
    (t ptr : ℕ) (h h1 : EpochHandler) (freed : List ℕ)
    → quietly (defer_free_pointer t ptr h) ≡ some (freed, h1)
    → freed ≡ []
defer_free_pointer-freed t ptr h h1 freed e = elim (Option-cases (defer_free_pointer t ptr h)) [
  | inl missing ↦ absurd (ground arith)
  | inr (h2, found) ↦ ground arith
]

perform-Unused :
    (i : ℕ) (c : Call) (h h1 : EpochHandler) (freed : List ℕ)
    → StaysIn i c
    → perform c h ≡ some (freed, h1)
    → Unused i h
    → (freed ≡ []) × Unused i h1
unfolding perform epoch_guard destroy_epoch_guard
perform-Unused i advance h h1 freed stays call unused =
    unfold advance_global_epoch in (ground arith)
perform-Unused i (load t) h h1 freed stays call unused = ground arith
perform-Unused i (enter t v) h h1 freed stays call unused =
    store_epoch-Unused i t v h h1 freed stays call unused
perform-Unused i (leave t) h h1 freed stays call unused =
    store_epoch-Unused i t max_value h h1 freed stays call unused
perform-Unused i (defer t ptr) h h1 freed stays call unused =
    let (locals, global) = defer_free_pointer-epochs t ptr h h1 freed call in
    (defer_free_pointer-freed t ptr h h1 freed call, ap (λ l. get_elem? l i) locals ∙ unused)
perform-Unused i (reclaim t) h h1 freed stays call unused =
    let r : Reclaimed t h h1 freed = free_outdated_ptr-Reclaimed t h h1 freed call in
    (
      (unused_slot_blocks i t h h1 freed unused call).0,
      ap (λ l. get_elem? l i) r.epochs_same.0 ∙ unused,
    )

Run-all_freed :
    (i : ℕ) (loads : Loads) (h h' : EpochHandler) (es : List Event)
    → All (λ ev. StaysIn i ev.call) es
    → Run loads h es h'
    → Unused i h
    → all_freed es ≡ []
unfolding all_freed
Run-all_freed i loads h h' [] stays done unused = refl
Run-all_freed i loads h h' (_ ∷ _) stays (made {h1 = h1} c freed es l call more) unused =
    let (nothing, still) = perform-Unused i c h h1 freed stays.0 call unused in
    rw nothing (Run-all_freed i (loads_after loads c h) h1 h' es stays.1 more still)

-- Let a handler be made and the threads make any calls of it, in any order, that all return. If
-- there is a slot that none of them enters or leaves a guard with, then no call frees a pointer, and
-- the destructor frees each pointer as often as it was deferred.
pub unused_slot_leaves_all :
    (n i p : ℕ) (loads : Loads) (es : List Event) (h' : EpochHandler)
    → i < min n max_number_of_worker
    → All (λ ev. StaysIn i ev.call) es
    → Run loads (epoch_handler n) es h'
    → (all_freed es ≡ []) × (count p (destroy_handler h'.to_free_ptr) ≡ count p (all_deferred es))
unfolding epoch_handler
unused_slot_leaves_all n i p loads es h' slot stays run =
    let nothing : all_freed es ≡ [] =
      Run-all_freed i loads (epoch_handler n) h' es stays run
        (get_elem?-replicate (min n max_number_of_worker) i 0 slot) in
    (
      nothing,
      ap (λ l. count p (l ++ destroy_handler h'.to_free_ptr)) (sym nothing)
          ∙ freed_as_often_as_deferred n p loads es h' run,
    )
