-- ===== src/Epoch/Reclaim.antt =====
-- What `FreeOutdatedPtr` frees and what it keeps.
use Prim.Native.Nat.{min}
use optimistic_locking.Base.{
  ℕ, zero, suc, ◌≤◌, ◌<◌, ◌≡◌, refl, sym, ◌∙◌, ap, inl, inr, some, List, [], ◌∷◌, ◌++◌, All, arith,
  get_elem?-set_self, get_elem?, set, take, drop, Option-cases,
}
use optimistic_locking.Epoch.{
  max_value, ToFreePointer, EpochHandler, pointers, min_epoch, outdated, free_outdated_ptr,
}

pub take-append-drop : (n : ℕ) (es : List ToFreePointer) → take n es ++ drop n es ≡ es
take-append-drop zero es = refl
take-append-drop (suc n) [] = refl
take-append-drop (suc n) (e ∷ es) = ap (λ r. e ∷ r) (take-append-drop n es)

min_epoch-le_start : (least : ℕ) (es : List ℕ) → min_epoch least es ≤ least
unfolding min_epoch
min_epoch-le_start least [] = omega arith
min_epoch-le_start least (e ∷ es) = omega (arith, min_epoch-le_start (min least e) es)

min_epoch-le :
    (least : ℕ) (es : List ℕ) (i e : ℕ) → get_elem? es i ≡ some e → min_epoch least es ≤ e
unfolding min_epoch
min_epoch-le least [] i e h = cc
min_epoch-le least (x ∷ es) zero e h = ground (arith, min_epoch-le_start (min least x) es)
min_epoch-le least (x ∷ es) (suc i) e h = min_epoch-le (min least x) es i e h

take-outdated :
    (least : ℕ) (es : List ToFreePointer) → All (λ e. e.epoch < least) (take (outdated least es) es)
unfolding outdated
take-outdated least [] = tt
take-outdated least (e ∷ es) = ground (arith, take-outdated least es)

-- No more was to be freed: the first pointer kept is not outdated.
abbrev pub StartsAt : ℕ → List ToFreePointer → Type 0
StartsAt least [] = Unit
StartsAt least (e ∷ _) = least ≤ e.epoch

drop-outdated : (least : ℕ) (es : List ToFreePointer) → StartsAt least (drop (outdated least es) es)
unfolding outdated
drop-outdated least [] = tt
drop-outdated least (e ∷ es) = ground (arith, drop-outdated least es)

All-below :
    (least e : ℕ) (es : List ToFreePointer)
    → least ≤ e
    → All (λ x. x.epoch < least) es
    → All (λ x. x.epoch < e) es
All-below least e [] h a = tt
All-below least e (x ∷ es) h a = (omega arith, All-below least e es h a.1)

-- The list of thread `tid` in `h` is split into what is freed and what it keeps in `h'`.
pub record Reclaimed (tid : ℕ) (h h' : EpochHandler) (freed : List ℕ) : Type 0 where
  pub gone : List ToFreePointer
  pub kept : List ToFreePointer
  pub before : get_elem? h.to_free_ptr tid ≡ some (gone ++ kept)
  pub freed_is : freed ≡ pointers gone
  pub after : get_elem? h'.to_free_ptr tid ≡ some kept
  pub epochs_same : (h'.local_epoch ≡ h.local_epoch) × (h'.global_epoch ≡ h.global_epoch)
  pub outdated : (i e : ℕ) → get_elem? h.local_epoch i ≡ some e → All (λ x. x.epoch < e) gone
  pub never : All (λ x. x.epoch < max_value) gone
  pub maximal : StartsAt (min_epoch max_value h.local_epoch) kept

free_outdated-split :
    (tid : ℕ) (h : EpochHandler) (entries : List ToFreePointer)
    → get_elem? h.to_free_ptr tid ≡ some entries
    → let idx = outdated (min_epoch max_value h.local_epoch) entries in
      Reclaimed tid h
        (record h { to_free_ptr = set h.to_free_ptr tid (drop idx entries) })
        (pointers (take idx entries))
free_outdated-split tid h entries e =
    let least = min_epoch max_value h.local_epoch in
    let idx = outdated least entries in
    record {
      gone = take idx entries;
      kept = drop idx entries;
      before = e ∙ ap some (sym (take-append-drop idx entries));
      freed_is = refl;
      after = get_elem?-set_self h.to_free_ptr tid (drop idx entries) e;
      epochs_same = (refl, refl);
      outdated = λ i e' found.
          All-below least e' _ (min_epoch-le max_value h.local_epoch i e' found)
            (take-outdated least entries);
      never =
          All-below least max_value _ (min_epoch-le_start max_value h.local_epoch)
            (take-outdated least entries);
      maximal = drop-outdated least entries;
    }

-- If `FreeOutdatedPtr` returns, the thread's list was a part `gone` and a part `kept` in this order;
-- what it freed are the pointers of `gone`, in order, and `kept` is left; the epoch of each pointer
-- freed is below `MAX_VALUE` and the local epoch of every thread; that of the first pointer kept is not below the
-- least of the local epochs and `MAX_VALUE`; and the epochs are unchanged.
pub free_outdated_ptr-Reclaimed :
    (tid : ℕ) (h h' : EpochHandler) (freed : List ℕ)
    → free_outdated_ptr tid h ≡ some (freed, h')
    → Reclaimed tid h h' freed
unfolding free_outdated_ptr
free_outdated_ptr-Reclaimed tid h h' freed e = elim (Option-cases (get_elem? h.to_free_ptr tid)) [
  | inl missing ↦ absurd (ground arith)
  | inr (entries, found) ↦
      let split = free_outdated-split tid h entries found in
      let idx = outdated (min_epoch max_value h.local_epoch) entries in
      let h_is : record h { to_free_ptr = set h.to_free_ptr tid (drop idx entries) } ≡ h' =
        ground arith in
      let freed_is : pointers (take idx entries) ≡ freed = ground arith in
      rw (← h_is, ← freed_is) split
]
