-- ===== src/Epoch/Calls/Kept.antt =====
-- src/sync/epoch.cc: the part of a thread's list that an entry keeps from being freed.
use optimistic_locking.Base.{
  ℕ, ◌<◌, ◌≡◌, refl, sym, ap, ◌∙◌, some, List, [], ◌∷◌, ◌++◌, All, get_elem?, arith,
}
use mathlib.Core.List.{append_assoc, append-nil}
use optimistic_locking.Epoch.{ToFreePointer, EpochHandler, pointers}
use optimistic_locking.Epoch.Calls.{Call, Event, deferred_by, freed_for, removed}
use optimistic_locking.Epoch.Calls.Handled.{Handled}
use optimistic_locking.Epoch.Calls.Conserved.{pointers-append}
use optimistic_locking.Epoch.Reclaim.{StartsAt}

-- Outdated entries before one that is not are taken from the front.
pub outdated_first :
    (e : ℕ) (gone kept old new : List ToFreePointer)
    → gone ++ kept ≡ old ++ new
    → All (λ x. x.epoch < e) gone
    → StartsAt e new
    → (rest : List ToFreePointer) × (old ≡ gone ++ rest) × (kept ≡ rest ++ new)
outdated_first e [] kept old new same outdated current = (old, refl, same)
outdated_first e (x ∷ gone) kept [] [] same outdated current = cc
outdated_first e (x ∷ gone) kept [] (y ∷ new) same outdated current =
    let below = outdated.0 in
    let one : x ≡ y = ground arith in absurd (omega (arith, ap (λ z. z.epoch) one))
outdated_first e (x ∷ gone) kept (y ∷ old) new same outdated current =
    let one : x ≡ y = ground arith in
    let tails : gone ++ kept ≡ old ++ new = ground arith in
    let (rest, old_is, kept_is) = outdated_first e gone kept old new tails outdated.1 current in
    (rest, rw (one, old_is) refl, kept_is)

-- What the calls freed for thread `tid` was in `old`; `new` is in its list still.
pub record Guarded (tid : ℕ) (h' : EpochHandler) (old new : List ToFreePointer) (es : List Event)
    : Type 0 where
  pub kept : List ToFreePointer
  pub more : List ToFreePointer
  pub now : get_elem? h'.to_free_ptr tid ≡ some (kept ++ more)
  pub old_is : pointers old ≡ freed_for tid es ++ pointers kept
  pub more_is : pointers more ≡ pointers new ++ deferred_by tid es

pub Guarded-none :
    (tid : ℕ) (h : EpochHandler) (old new : List ToFreePointer)
    → get_elem? h.to_free_ptr tid ≡ some (old ++ new)
    → Guarded tid h old new []
unfolding deferred_by freed_for
Guarded-none tid h old new found = record {
  kept = old;
  more = new;
  now = found;
  old_is = refl;
  more_is = sym (append-nil (pointers new));
}

-- One call, which frees nothing of `new`, and then others.
pub Guarded-made :
    (tid e : ℕ) (c : Call) (freed : List ℕ) (es : List Event) (h h1 h' : EpochHandler)
    (old new : List ToFreePointer)
    → get_elem? h.to_free_ptr tid ≡ some (old ++ new)
    → (r : Handled tid c freed h h1) → All (λ x. x.epoch < e) r.gone
    → StartsAt e new
    → ((rest : List ToFreePointer)
        → get_elem? h1.to_free_ptr tid ≡ some (rest ++ (new ++ r.new))
        → Guarded tid h' rest (new ++ r.new) es)
    → Guarded tid h' old new (record { call = c; freed = freed } ∷ es)
unfolding deferred_by freed_for
Guarded-made tid e c freed es h h1 h' old new found r below current then_ =
    let same : r.gone ++ r.kept ≡ old ++ new = let b = r.before in ground arith in
    let (rest, old_is, kept_is) = outdated_first e r.gone r.kept old new same below current in
    let g : Guarded tid h' rest (new ++ r.new) es =
      then_ rest (r.after ∙ ap some (ap (λ l. l ++ r.new) kept_is ∙ append_assoc rest new r.new)) in
    record {
      kept = g.kept;
      more = g.more;
      now = g.now;
      old_is =
          ap pointers old_is
          ∙ pointers-append r.gone rest
          ∙ ap (λ l. l ++ pointers rest) (sym r.removed_is)
          ∙ ap (λ l. removed tid c freed ++ l) g.old_is
          ∙ sym (append_assoc (removed tid c freed) (freed_for tid es) (pointers g.kept));
      more_is =
          g.more_is
          ∙ ap (λ l. l ++ deferred_by tid es) (pointers-append new r.new)
          ∙ append_assoc (pointers new) (pointers r.new) (deferred_by tid es)
          ∙ ap (λ l. pointers new ++ (l ++ deferred_by tid es)) (sym r.added_is);
    }

pub Guarded-pointers :
    (tid : ℕ) (h' : EpochHandler) (old new : List ToFreePointer) (es : List Event)
    → Guarded tid h' old new es
    → (kept : List ℕ) × (q' : List ToFreePointer) × (get_elem? h'.to_free_ptr tid ≡ some q')
      × (pointers old ≡ freed_for tid es ++ kept)
      × (pointers q' ≡ kept ++ (pointers new ++ deferred_by tid es))
Guarded-pointers tid h' old new es g = (
  pointers g.kept,
  g.kept ++ g.more,
  g.now,
  g.old_is,
  pointers-append g.kept g.more ∙ ap (λ l. pointers g.kept ++ l) g.more_is,
)
