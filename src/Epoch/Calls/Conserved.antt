-- ===== src/Epoch/Calls/Conserved.antt =====
-- src/sync/epoch.cc: where the pointers are that the threads deferred.
use optimistic_locking.Base.{
  ℕ, zero, suc, ◌+◌, ◌≡◌, refl, sym, ap, ◌∙◌, inl, inr, some, List, [], ◌∷◌, ◌++◌, get_elem?, set,
  take, drop, replicate, count, count-append, Option-cases, arith,
}
use Prim.Native.Nat.{min}
use mathlib.Core.List.{append_assoc, append-nil}
use optimistic_locking.Epoch.{
  ToFreePointer, EpochHandler, pointers, destroy_handler, epoch_handler, free_outdated_ptr,
  defer_free_pointer, advance_global_epoch, epoch_guard, destroy_epoch_guard, store_epoch,
  max_value, max_number_of_worker, min_epoch, outdated,
}
use optimistic_locking.Epoch.Reclaim.{take-append-drop}
use optimistic_locking.Epoch.Calls.{
  Loads, loads_after, load, Call, advance, enter, leave, defer, reclaim, perform, quietly, Event,
  Run, done, made, deferred_by, freed_for, all_deferred, all_freed, deferred_in,
}
use optimistic_locking.Epoch.Calls.Handled.{Handled, perform-Handled, store_epoch-to_free_ptr}

pub pointers-append :
    (xs ys : List ToFreePointer) → pointers (xs ++ ys) ≡ pointers xs ++ pointers ys
pointers-append [] ys = refl
pointers-append (x ∷ xs) ys = ap (λ r. x.ptr ∷ r) (pointers-append xs ys)

regroup :
    (gone kept new : List ToFreePointer) (later freed left_ : List ℕ)
    → pointers (kept ++ new) ++ later ≡ freed ++ left_
    → pointers (gone ++ kept) ++ (pointers new ++ later) ≡ (pointers gone ++ freed) ++ left_
regroup gone kept new later freed left_ ih =
    let split : pointers kept ++ (pointers new ++ later) ≡ freed ++ left_ =
      sym (append_assoc (pointers kept) (pointers new) later)
      ∙ ap (λ l. l ++ later) (sym (pointers-append kept new))
      ∙ ih in
    rw (pointers-append gone kept) (simp append_assoc (ap (λ l. pointers gone ++ l) split))

-- After any calls that the threads made of one handler, in any order, that all returned: for each
-- thread, the pointers in its list at the start, followed by those that it deferred, in order, are
-- those that its calls of `FreeOutdatedPtr` freed, in order, followed by those in its list now.
pub Run-first_in_first_out :
    (tid : ℕ) (loads : Loads) (h h' : EpochHandler) (es : List Event) (q : List ToFreePointer)
    → get_elem? h.to_free_ptr tid ≡ some q
    → Run loads h es h'
    → (q' : List ToFreePointer) × (get_elem? h'.to_free_ptr tid ≡ some q')
      × (pointers q ++ deferred_by tid es ≡ freed_for tid es ++ pointers q')
unfolding deferred_by freed_for
Run-first_in_first_out tid loads h h' [] q found done = (q, found, append-nil (pointers q))
Run-first_in_first_out tid loads h h' (_ ∷ _) q found (made {h1 = h1} c freed es l e more) =
    let r : Handled tid c freed h h1 = perform-Handled tid c h h1 freed q found e in
    let (q', now, ih) =
      Run-first_in_first_out tid (loads_after loads c h) h1 h' es (r.kept ++ r.new) r.after more in
    let q_is : q ≡ r.gone ++ r.kept = let b = r.before in ground arith in
    (
      q',
      now,
      rw (q_is, r.removed_is, r.added_is)
          (regroup r.gone r.kept r.new (deferred_by tid es) (freed_for tid es) (pointers q') ih),
    )

destroy_handler-set :
    (p : ℕ) (ls : List (List ToFreePointer)) (t : ℕ) (old new : List ToFreePointer)
    → get_elem? ls t ≡ some old
    → count p (destroy_handler (set ls t new)) + count p (pointers old)
      ≡ count p (destroy_handler ls) + count p (pointers new)
unfolding destroy_handler
destroy_handler-set p [] t old new found = cc
destroy_handler-set p (l ∷ ls) zero old new found = ground (
  arith,
  count-append p (pointers new) (destroy_handler ls),
  count-append p (pointers l) (destroy_handler ls),
)
destroy_handler-set p (l ∷ ls) (suc t) old new found = omega (
  arith,
  destroy_handler-set p ls t old new found,
  count-append p (pointers l) (destroy_handler ls),
  count-append p (pointers l) (destroy_handler (set ls t new)),
)

destroy_handler-replicate : (n : ℕ) → destroy_handler (replicate n []) ≡ []
unfolding destroy_handler
destroy_handler-replicate zero = refl
destroy_handler-replicate (suc n) = destroy_handler-replicate n

abbrev left : ℕ → EpochHandler → ℕ
left p h = count p (destroy_handler h.to_free_ptr)

defer_free_pointer-left :
    (p t ptr : ℕ) (h h1 : EpochHandler) (freed : List ℕ)
    → quietly (defer_free_pointer t ptr h) ≡ some (freed, h1)
    → left p h + count p (ptr ∷ []) ≡ count p freed + left p h1
unfolding defer_free_pointer
defer_free_pointer-left p t ptr h h1 freed e = elim (Option-cases (get_elem? h.to_free_ptr t)) [
  | inl missing ↦ absurd (ground arith)
  | inr (entries, list) ↦ elim (Option-cases (get_elem? h.local_epoch t)) [
    | inl missing ↦ absurd (ground arith)
    | inr (epoch, slot) ↦
        let x : ToFreePointer = record { ptr = ptr; epoch = epoch } in
        let queue : h1.to_free_ptr ≡ set h.to_free_ptr t (entries ++ x ∷ []) = ground arith in
        let none_freed : freed ≡ [] = ground arith in
        rw (queue, none_freed)
          (omega (
            arith,
            destroy_handler-set p h.to_free_ptr t entries (entries ++ x ∷ []) list,
            ap (count p) (pointers-append entries (x ∷ [])),
            count-append p (pointers entries) (ptr ∷ []),
          ))
  ]
]

free_outdated_ptr-left :
    (p t : ℕ) (h h1 : EpochHandler) (freed : List ℕ)
    → free_outdated_ptr t h ≡ some (freed, h1)
    → left p h ≡ count p freed + left p h1
unfolding free_outdated_ptr
free_outdated_ptr-left p t h h1 freed e = elim (Option-cases (get_elem? h.to_free_ptr t)) [
  | inl missing ↦ absurd (ground arith)
  | inr (entries, list) ↦
      let idx = outdated (min_epoch max_value h.local_epoch) entries in
      let queue : h1.to_free_ptr ≡ set h.to_free_ptr t (drop idx entries) = ground arith in
      let freed_is : freed ≡ pointers (take idx entries) = ground arith in
      rw (queue, freed_is)
        (omega (
          arith,
          destroy_handler-set p h.to_free_ptr t entries (drop idx entries) list,
          ap (λ es. count p (pointers es)) (take-append-drop idx entries),
          ap (count p) (pointers-append (take idx entries) (drop idx entries)),
          count-append p (pointers (take idx entries)) (pointers (drop idx entries)),
        ))
]

store_epoch-left :
    (p t v : ℕ) (h h1 : EpochHandler) (freed : List ℕ)
    → quietly (store_epoch t v h) ≡ some (freed, h1)
    → left p h + 0 ≡ count p freed + left p h1
store_epoch-left p t v h h1 freed e = elim (Option-cases (get_elem? h.local_epoch t)) [
  | inl missing ↦ absurd (ground arith)
  | inr (old, slot) ↦
      let none_freed : freed ≡ [] = ground arith in
      rw (store_epoch-to_free_ptr t v h h1 freed e, none_freed) (omega arith)
]

perform-left :
    (p : ℕ) (c : Call) (h h1 : EpochHandler) (freed : List ℕ)
    → perform c h ≡ some (freed, h1)
    → left p h + count p (deferred_in c) ≡ count p freed + left p h1
unfolding perform epoch_guard destroy_epoch_guard
perform-left p advance h h1 freed e = unfold advance_global_epoch in (ground arith)
perform-left p (load t) h h1 freed e = ground arith
perform-left p (enter t v) h h1 freed e = store_epoch-left p t v h h1 freed e
perform-left p (leave t) h h1 freed e = store_epoch-left p t max_value h h1 freed e
perform-left p (defer t ptr) h h1 freed e = defer_free_pointer-left p t ptr h h1 freed e
perform-left p (reclaim t) h h1 freed e = omega (arith, free_outdated_ptr-left p t h h1 freed e)

Run-left :
    (p : ℕ) (loads : Loads) (h h' : EpochHandler) (es : List Event)
    → Run loads h es h'
    → left p h + count p (all_deferred es) ≡ count p (all_freed es) + left p h'
unfolding all_deferred all_freed
Run-left p loads h h' [] done = omega arith
Run-left p loads h h' (_ ∷ _) (made {h1 = h1} c freed es l e more) = omega (
  arith,
  perform-left p c h h1 freed e,
  Run-left p (loads_after loads c h) h1 h' es more,
  count-append p (deferred_in c) (all_deferred es),
  count-append p freed (all_freed es),
)

-- Let a handler be made, the threads make any calls of it, in any order, that all return, and the
-- handler be destroyed. Each pointer is then freed as often as it was deferred: what the calls and
-- the destructor freed, taken together, holds it as often as what was deferred.
pub freed_as_often_as_deferred :
    (n p : ℕ) (loads : Loads) (es : List Event) (h' : EpochHandler)
    → Run loads (epoch_handler n) es h'
    → count p (all_freed es ++ destroy_handler h'.to_free_ptr) ≡ count p (all_deferred es)
unfolding epoch_handler
freed_as_often_as_deferred n p loads es h' run = omega (
  arith,
  Run-left p loads (epoch_handler n) h' es run,
  ap (count p) (destroy_handler-replicate (min n max_number_of_worker)),
  count-append p (all_freed es) (destroy_handler h'.to_free_ptr),
)
