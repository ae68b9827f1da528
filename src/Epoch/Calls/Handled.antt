-- ===== src/Epoch/Calls/Handled.antt =====
-- src/sync/epoch.cc: one call, and what it does to the list of one thread.
use optimistic_locking.Base.{
  ℕ, ◌<◌, ◌≡◌, ◌≢◌, refl, sym, ap, ◌∙◌, inl, inr, true, false, some, List, [], ◌∷◌, ◌++◌, ◌==◌, All,
  get_elem?, set, drop, get_elem?-set_self, get_elem?-set_other, Option-cases, arith, ℕ_discrete,
}
use mathlib.Core.List.{append-nil}
use optimistic_locking.Epoch.{
  ToFreePointer, EpochHandler, pointers, advance_global_epoch, free_outdated_ptr,
  defer_free_pointer, epoch_guard, destroy_epoch_guard, max_value, store_epoch, outdated, min_epoch,
}
use optimistic_locking.Epoch.Reclaim.{free_outdated_ptr-Reclaimed, Reclaimed}
use optimistic_locking.Epoch.Calls.{
  Call, advance, load, enter, leave, defer, reclaim, quietly, perform, added, removed,
}

-- Of the list of thread `tid`, a call takes a part `gone` from the front and appends `new`.
pub record Handled (tid : ℕ) (c : Call) (freed : List ℕ) (h h1 : EpochHandler) : Type 0 where
  pub gone : List ToFreePointer
  pub kept : List ToFreePointer
  pub new : List ToFreePointer
  pub before : get_elem? h.to_free_ptr tid ≡ some (gone ++ kept)
  pub after : get_elem? h1.to_free_ptr tid ≡ some (kept ++ new)
  pub removed_is : removed tid c freed ≡ pointers gone
  pub added_is : added tid c ≡ pointers new
  pub outdated : (i e : ℕ) → get_elem? h.local_epoch i ≡ some e → All (λ x. x.epoch < e) gone
  pub never : All (λ x. x.epoch < max_value) gone
  pub tagged : All (λ x. get_elem? h.local_epoch tid ≡ some x.epoch) new

untouched :
    (tid : ℕ) (c : Call) (freed : List ℕ) (h h1 : EpochHandler) (q : List ToFreePointer)
    → get_elem? h.to_free_ptr tid ≡ some q
    → get_elem? h1.to_free_ptr tid ≡ get_elem? h.to_free_ptr tid
    → removed tid c freed ≡ []
    → added tid c ≡ []
    → Handled tid c freed h h1
untouched tid c freed h h1 q found same nothing_removed nothing_added = record {
  gone = [];
  kept = q;
  new = [];
  before = found;
  after = same ∙ found ∙ ap some (sym (append-nil q));
  removed_is = nothing_removed;
  added_is = nothing_added;
  outdated = λ i e slot. tt;
  never = tt;
  tagged = tt;
}

-- A store to a local epoch leaves the lists alone.
pub store_epoch-to_free_ptr :
    (i v : ℕ) (h h1 : EpochHandler) (freed : List ℕ)
    → quietly (store_epoch i v h) ≡ some (freed, h1)
    → h1.to_free_ptr ≡ h.to_free_ptr
store_epoch-to_free_ptr i v h h1 freed e = elim (Option-cases (get_elem? h.local_epoch i)) [
  | inl missing ↦ absurd (ground arith)
  | inr (old, found) ↦ ground arith
]

defer_free_pointer-Handled :
    (tid t ptr : ℕ) (h h1 : EpochHandler) (freed : List ℕ) (q : List ToFreePointer)
    → get_elem? h.to_free_ptr tid ≡ some q
    → quietly (defer_free_pointer t ptr h) ≡ some (freed, h1)
    → Handled tid (defer t ptr) freed h h1
unfolding defer_free_pointer
defer_free_pointer-Handled tid t ptr h h1 freed q found e =
    elim (Option-cases (get_elem? h.to_free_ptr t)) [
      | inl missing ↦ absurd (ground arith)
      | inr (entries, list) ↦ elim (Option-cases (get_elem? h.local_epoch t)) [
        | inl missing ↦ absurd (ground arith)
        | inr (epoch, slot) ↦
            let x : ToFreePointer = record { ptr = ptr; epoch = epoch } in
            let queue : h1.to_free_ptr ≡ set h.to_free_ptr t (entries ++ x ∷ []) = ground arith in
            elim (ℕ_discrete t tid) [
              | yes own ↦
                  let same : entries ≡ q = ground arith in
                  let test : (t == tid) ≡ true = ground arith in
                  record {
                    gone = [];
                    kept = q;
                    new = x ∷ [];
                    before = found;
                    after =
                        rw (queue, ← own, ← same)
                          (get_elem?-set_self h.to_free_ptr t (entries ++ x ∷ []) list);
                    removed_is = refl;
                    added_is = rw test;
                    outdated = λ i e slot. tt;
                    never = tt;
                    tagged = (rw own at slot, tt);
                  }
              | no other ↦
                  let test : (t == tid) ≡ false = ground arith in
                  untouched tid (defer t ptr) freed h h1 q found
                    (rw queue (get_elem?-set_other h.to_free_ptr t tid _ other)) refl (rw test)
            ]
      ]
    ]

free_outdated_ptr-to_free_ptr_other :
    (tid t : ℕ) (h h1 : EpochHandler) (freed : List ℕ)
    → t ≢ tid
    → free_outdated_ptr t h ≡ some (freed, h1)
    → get_elem? h1.to_free_ptr tid ≡ get_elem? h.to_free_ptr tid
unfolding free_outdated_ptr
free_outdated_ptr-to_free_ptr_other tid t h h1 freed other e =
    elim (Option-cases (get_elem? h.to_free_ptr t)) [
      | inl missing ↦ absurd (ground arith)
      | inr (entries, list) ↦
          let idx = outdated (min_epoch max_value h.local_epoch) entries in
          let queue : h1.to_free_ptr ≡ set h.to_free_ptr t (drop idx entries) = ground arith in
          rw queue (get_elem?-set_other h.to_free_ptr t tid (drop idx entries) other)
    ]

reclaim-Handled :
    (tid t : ℕ) (h h1 : EpochHandler) (freed : List ℕ) (q : List ToFreePointer)
    → get_elem? h.to_free_ptr tid ≡ some q
    → free_outdated_ptr t h ≡ some (freed, h1)
    → Handled tid (reclaim t) freed h h1
reclaim-Handled tid t h h1 freed q found e = elim (ℕ_discrete t tid) [
  | yes own ↦
      let r : Reclaimed tid h h1 freed =
        free_outdated_ptr-Reclaimed tid h h1 freed (rw (← own) e) in
      let test : (t == tid) ≡ true = ground arith in
      record {
        gone = r.gone;
        kept = r.kept;
        new = [];
        before = r.before;
        after = r.after ∙ ap some (sym (append-nil r.kept));
        removed_is = rw test r.freed_is;
        added_is = refl;
        outdated = r.outdated;
        never = r.never;
        tagged = tt;
      }
  | no other ↦
      let test : (t == tid) ≡ false = ground arith in
      untouched tid (reclaim t) freed h h1 q found
        (free_outdated_ptr-to_free_ptr_other tid t h h1 freed other e) (rw test) refl
]

pub perform-Handled :
    (tid : ℕ) (c : Call) (h h1 : EpochHandler) (freed : List ℕ) (q : List ToFreePointer)
    → get_elem? h.to_free_ptr tid ≡ some q
    → perform c h ≡ some (freed, h1)
    → Handled tid c freed h h1
unfolding perform epoch_guard destroy_epoch_guard
perform-Handled tid advance h h1 freed q found e =
    untouched tid advance freed h h1 q found (unfold advance_global_epoch in (ground arith)) refl
      refl
perform-Handled tid (load t) h h1 freed q found e =
    untouched tid (load t) freed h h1 q found (ground arith) refl refl
perform-Handled tid (enter t v) h h1 freed q found e =
    untouched tid (enter t v) freed h h1 q found
      (ap (λ ls. get_elem? ls tid) (store_epoch-to_free_ptr t v h h1 freed e)) refl refl
perform-Handled tid (leave t) h h1 freed q found e =
    untouched tid (leave t) freed h h1 q found
      (ap (λ ls. get_elem? ls tid) (store_epoch-to_free_ptr t max_value h h1 freed e)) refl refl
perform-Handled tid (defer t ptr) h h1 freed q found e =
    defer_free_pointer-Handled tid t ptr h h1 freed q found e
perform-Handled tid (reclaim t) h h1 freed q found e = reclaim-Handled tid t h h1 freed q found e
