-- ===== src/Epoch/Calls/Oldest.antt =====
-- src/sync/epoch.cc: a thread in its guard, with no other at an older epoch, while calls are made.
use optimistic_locking.Base.{
  ℕ, zero, suc, ◌+◌, ◌%◌, ◌^◌, ◌≤◌, ◌<◌, ◌≡◌, ◌≢◌, inl, inr, Option, none, some, update,
  update_elim, List, [], ◌∷◌, ◌++◌, All, get_elem?, set, get_elem?-set_other, Option-cases, arith,
}
use optimistic_locking.Epoch.{
  ToFreePointer, EpochHandler, defer_free_pointer, store_epoch, advance_global_epoch, epoch_guard,
  destroy_epoch_guard, max_value,
}
use optimistic_locking.Epoch.Reclaim.{free_outdated_ptr-Reclaimed, Reclaimed}
use optimistic_locking.Epoch.Calls.{
  Loads, IsLoaded, loads_after, Call, advance, load, enter, leave, defer, reclaim, perform, quietly,
}

-- The call is no entry to the guard of thread `i`, and does not leave it.
abbrev pub StaysIn : ℕ → Call → Type 0
StaysIn i (enter t loaded) = t ≢ i
StaysIn i (leave t) = t ≢ i
StaysIn i advance = Unit
StaysIn i (load t) = Unit
StaysIn i (defer t ptr) = Unit
StaysIn i (reclaim t) = Unit

-- Thread `i` is in its guard, at epoch `e`, and none is at an older one, nor has one loaded an older
-- one to enter with.
pub record Oldest (i e : ℕ) (loads : Loads) (h : EpochHandler) : Type 0 where
  pub slot : get_elem? h.local_epoch i ≡ some e
  pub least : All (λ x. e ≤ x) h.local_epoch
  pub still : e ≤ h.global_epoch
  pub loaded : (t v : ℕ) → loads t ≡ some v → e ≤ v

All-set :
    (e : ℕ) (xs : List ℕ) (j v : ℕ) → e ≤ v → All (λ x. e ≤ x) xs → All (λ x. e ≤ x) (set xs j v)
All-set e [] j v le a = tt
All-set e (x ∷ xs) zero v le a = (le, a.1)
All-set e (x ∷ xs) (suc j) v le a = (a.0, All-set e xs j v le a.1)

All-get_elem? :
    (e : ℕ) (xs : List ℕ) (j v : ℕ) → All (λ x. e ≤ x) xs → get_elem? xs j ≡ some v → e ≤ v
All-get_elem? e [] j v a found = cc
All-get_elem? e (x ∷ xs) zero v a found = let le = a.0 in ground arith
All-get_elem? e (x ∷ xs) (suc j) v a found = All-get_elem? e xs j v a.1 found

abbrev pub Current : ℕ → List ToFreePointer → Type 0
Current e = All (λ x. e ≤ x.epoch)

pub Current-append :
    (e : ℕ) (xs ys : List ToFreePointer) → Current e xs → Current e ys → Current e (xs ++ ys)
Current-append e [] ys a b = b
Current-append e (x ∷ xs) ys a b = (a.0, Current-append e xs ys a.1 b)

pub tags-Current :
    (e tid : ℕ) (locals : List ℕ) (new : List ToFreePointer)
    → All (λ x. e ≤ x) locals
    → All (λ x. get_elem? locals tid ≡ some x.epoch) new
    → Current e new
tags-Current e tid locals [] least tagged = tt
tags-Current e tid locals (x ∷ new) least tagged = (
  All-get_elem? e locals tid x.epoch least tagged.0,
  tags-Current e tid locals new least tagged.1,
)

store_epoch-Oldest :
    (i e t v : ℕ) (loads : Loads) (h h1 : EpochHandler) (freed : List ℕ)
    → t ≢ i
    → e ≤ v
    → quietly (store_epoch t v h) ≡ some (freed, h1)
    → Oldest i e loads h
    → Oldest i e loads h1 × (h1.global_epoch ≡ h.global_epoch)
store_epoch-Oldest i e t v loads h h1 freed other le call o =
    elim (Option-cases (get_elem? h.local_epoch t)) [
      | inl missing ↦ absurd (ground arith)
      | inr (old, found) ↦
          let locals : h1.local_epoch ≡ set h.local_epoch t v = ground arith in
          let global : h1.global_epoch ≡ h.global_epoch = ground arith in
          (
            record {
              slot = rw (locals, get_elem?-set_other h.local_epoch t i v other) o.slot;
              least = rw locals (All-set e h.local_epoch t v le o.least);
              still = rw global o.still;
              loaded = o.loaded;
            },
            global,
          )
    ]

same_epochs :
    (i e : ℕ) (loads : Loads) (h h1 : EpochHandler)
    → h1.local_epoch ≡ h.local_epoch
    → h1.global_epoch ≡ h.global_epoch
    → Oldest i e loads h
    → Oldest i e loads h1 × (h1.global_epoch ≡ h.global_epoch)
same_epochs i e loads h h1 locals global o = (
  record {
    slot = rw locals o.slot;
    least = rw locals o.least;
    still = rw global o.still;
    loaded = o.loaded;
  },
  global,
)

pub defer_free_pointer-epochs :
    (t ptr : ℕ) (h h1 : EpochHandler) (freed : List ℕ)
    → quietly (defer_free_pointer t ptr h) ≡ some (freed, h1)
    → (h1.local_epoch ≡ h.local_epoch) × (h1.global_epoch ≡ h.global_epoch)
unfolding defer_free_pointer
defer_free_pointer-epochs t ptr h h1 freed e = elim (Option-cases (get_elem? h.to_free_ptr t)) [
  | inl missing ↦ absurd (ground arith)
  | inr (entries, list) ↦ elim (Option-cases (get_elem? h.local_epoch t)) [
    | inl missing ↦ absurd (ground arith)
    | inr (epoch, slot) ↦ (ground arith, ground arith)
  ]
]

-- the same thread, with another's load added or used up
loaded_after :
    (i e t : ℕ) (loads : Loads) (now : Option ℕ) (h : EpochHandler)
    → ((v : ℕ) → now ≡ some v → e ≤ v)
    → Oldest i e loads h
    → Oldest i e (update loads t now) h
loaded_after i e t loads now h le o = record {
  slot = o.slot;
  least = o.least;
  still = o.still;
  loaded = λ u.
      update_elim (λ l. (v : ℕ) → l ≡ some v → e ≤ v) loads t now u (λ _. le) (λ _. o.loaded u);
}

pub perform-Oldest :
    (i e : ℕ) (loads : Loads) (c : Call) (h h1 : EpochHandler) (freed : List ℕ)
    → StaysIn i c
    → IsLoaded loads c
    → h.global_epoch + 1 < 2 ^ 64
    → perform c h ≡ some (freed, h1)
    → Oldest i e loads h
    → Oldest i e (loads_after loads c h) h1 × (h1.global_epoch ≤ h.global_epoch + 1)
unfolding perform epoch_guard destroy_epoch_guard
perform-Oldest i e loads advance h h1 freed stays l small call o =
    let moved : record h { global_epoch = (h.global_epoch + 1) % 2 ^ 64 } ≡ h1 =
      unfold advance_global_epoch in (ground arith) in
    let still = o.still in
    rw (← moved) (
      record { slot = o.slot; least = o.least; still = omega arith; loaded = o.loaded },
      omega arith,
    )
perform-Oldest i e loads (load t) h h1 freed stays l small call o =
    let same : h ≡ h1 = ground arith in
    let still = o.still in
    rw (← same)
      (loaded_after i e t loads (some h.global_epoch) h (λ v is. ground arith) o, omega arith)
perform-Oldest i e loads (enter t v) h h1 freed stays l small call o =
    let (o1, same) = store_epoch-Oldest i e t v loads h h1 freed stays (o.loaded t v l) call o in
    (loaded_after i e t loads none h1 (λ u is. cc) o1, omega arith)
perform-Oldest i e loads (leave t) h h1 freed stays l small call o =
    let still = o.still in
    let (o1, same) =
      store_epoch-Oldest i e t max_value loads h h1 freed stays (omega arith) call o in
    (o1, omega arith)
perform-Oldest i e loads (defer t ptr) h h1 freed stays l small call o =
    let (locals, global) = defer_free_pointer-epochs t ptr h h1 freed call in
    let (o1, same) = same_epochs i e loads h h1 locals global o in (o1, omega arith)
perform-Oldest i e loads (reclaim t) h h1 freed stays l small call o =
    let r : Reclaimed t h h1 freed = free_outdated_ptr-Reclaimed t h h1 freed call in
    let (o1, same) = same_epochs i e loads h h1 r.epochs_same.0 r.epochs_same.1 o in
    (o1, omega arith)
