-- ===== src/Epoch/Calls/Stepped.antt =====
-- src/sync/epoch.cc: one call, and the epoch of the guard of one thread.
use optimistic_locking.Base.{
  ℕ, ◌+◌, ◌%◌, ◌^◌, ◌≤◌, ◌<◌, ◌≡◌, ◌≢◌, sym, ap, ◌∙◌, inl, inr, Option, none, update, update_elim,
  Bool, true, false, some, List, [], ◌∷◌, ◌==◌, if◌then◌else◌, get_elem?, set, get_elem?-set_self,
  get_elem?-set_other, Option-cases, ℕ_discrete, arith,
}
use optimistic_locking.Epoch.{
  pointers, ToFreePointer, EpochHandler, store_epoch, advance_global_epoch, epoch_guard,
  destroy_epoch_guard, max_value,
}
use optimistic_locking.Epoch.Reclaim.{free_outdated_ptr-Reclaimed, Reclaimed}
use optimistic_locking.Epoch.Calls.{
  Loads, IsLoaded, loads_after, Call, advance, load, enter, leave, defer, reclaim, perform, quietly,
}
use optimistic_locking.Epoch.Calls.Ordered.{At}
use optimistic_locking.Epoch.Calls.Handled.{Handled}
use optimistic_locking.Epoch.Calls.Oldest.{defer_free_pointer-epochs}
use optimistic_locking.Epoch.Calls.Bracketed.{
  IsPending, is_inside, DefersInside, IsTop, nothing-At, tagged-At, IsTop-same, IsTop-slot,
  IsTop-le,
}

-- A store to the local epoch of a thread.
pub record Stored (t v : ℕ) (h h1 : EpochHandler) : Type 0 where
  pub old : ℕ
  pub slot : get_elem? h.local_epoch t ≡ some old
  pub locals : h1.local_epoch ≡ set h.local_epoch t v
  pub global : h1.global_epoch ≡ h.global_epoch

pub store_epoch-Stored :
    (t v : ℕ) (h h1 : EpochHandler) (freed : List ℕ)
    → quietly (store_epoch t v h) ≡ some (freed, h1)
    → Stored t v h h1
store_epoch-Stored t v h h1 freed e = elim (Option-cases (get_elem? h.local_epoch t)) [
  | inl missing ↦ absurd (ground arith)
  | inr (old, found) ↦ record {
    old = old;
    slot = found;
    locals = ground arith;
    global = ground arith;
  }
]

Stored-elsewhere :
    (tid top t v : ℕ) (b : Bool) (h h1 : EpochHandler)
    → t ≢ tid
    → Stored t v h h1
    → IsTop tid b h top
    → IsTop tid b h1 top
Stored-elsewhere tid top t v b h h1 other s is_top =
    let global = s.global in
    IsTop-same tid top b h h1
      (ap (λ l. get_elem? l tid) s.locals ∙ get_elem?-set_other h.local_epoch t tid v other)
      (omega arith) is_top

-- The epoch of the thread's guard behind a call.
pub record Step (tid : ℕ) (b : Bool) (c : Call) (loads : Loads) (h h1 : EpochHandler) (top : ℕ)
    (new : List ToFreePointer) : Type 0 where
  pub next : ℕ
  pub le : top ≤ next
  pub at : At next new
  pub is_top : IsTop tid (is_inside tid b c) h1 next
  pub pending : IsPending tid (loads_after loads c h) next h1
  pub global : h1.global_epoch ≤ h.global_epoch + 1

stays_at :
    (tid top : ℕ) (b : Bool) (c : Call) (loads : Loads) (h h1 : EpochHandler)
    (new : List ToFreePointer)
    → [] ≡ pointers new
    → IsTop tid (is_inside tid b c) h1 top
    → IsPending tid (loads_after loads c h) top h1
    → h1.global_epoch ≤ h.global_epoch + 1
    → Step tid b c loads h h1 top new
stays_at tid top b c loads h h1 new nothing is_top pending global = record {
  next = top;
  le = omega arith;
  at = nothing-At top new nothing;
  is_top = is_top;
  pending = pending;
  global = global;
}

-- Another thread's load, or its own of an epoch that is not older.
update-IsPending :
    (tid top t : ℕ) (loads : Loads) (now : Option ℕ) (h : EpochHandler)
    → (t ≡ tid → (v : ℕ) → now ≡ some v → (top ≤ v) × (v ≤ h.global_epoch))
    → IsPending tid loads top h
    → IsPending tid (update loads t now) top h
update-IsPending tid top t loads now h own pending =
    update_elim (λ l. (v : ℕ) → l ≡ some v → (top ≤ v) × (v ≤ h.global_epoch)) loads t now tid own
      (λ _. pending)

IsPending-le :
    (tid top : ℕ) (loads : Loads) (h h1 : EpochHandler)
    → h.global_epoch ≤ h1.global_epoch
    → IsPending tid loads top h
    → IsPending tid loads top h1
IsPending-le tid top loads h h1 le pending v is = let (a, b) = pending v is in (a, omega arith)

pub perform-Step :
    (tid top : ℕ) (b : Bool) (c : Call) (loads : Loads) (h h1 : EpochHandler) (freed : List ℕ)
    (r : Handled tid c freed h h1)
    → DefersInside tid b c
    → IsLoaded loads c
    → h.global_epoch + 1 < 2 ^ 64
    → perform c h ≡ some (freed, h1)
    → IsTop tid b h top
    → IsPending tid loads top h
    → Step tid b c loads h h1 top r.new
unfolding perform epoch_guard destroy_epoch_guard
perform-Step tid top b advance loads h h1 freed r inside l small call t pending =
    let moved : record h { global_epoch = (h.global_epoch + 1) % 2 ^ 64 } ≡ h1 =
      unfold advance_global_epoch in (ground arith) in
    let global : h1.global_epoch ≡ (h.global_epoch + 1) % 2 ^ 64 =
      ap (λ k. k.global_epoch) (sym moved) in
    stays_at tid top b advance loads h h1 r.new r.added_is
      (IsTop-same tid top b h h1 (ap (λ k. get_elem? k.local_epoch tid) (sym moved)) (omega arith)
        t)
      (IsPending-le tid top loads h h1 (omega arith) pending) (omega arith)
perform-Step tid top b (load t) loads h h1 freed r inside l small call is_top pending =
    let same : h ≡ h1 = ground arith in
    let now : IsPending tid (update loads t (some h.global_epoch)) top h =
      update-IsPending tid top t loads (some h.global_epoch) h
        (λ _ v is. let le = IsTop-le tid top b h is_top in (ground arith, ground arith)) pending in
    stays_at tid top b (load t) loads h h1 r.new r.added_is (rw (← same) is_top) (rw (← same) now)
      (rw (← same) (omega arith))
perform-Step tid top b (enter t v) loads h h1 freed r inside l small call is_top pending =
    let s = store_epoch-Stored t v h h1 freed call in
    let global = s.global in
    elim (ℕ_discrete t tid) [
      | yes own ↦
          let test : (t == tid) ≡ true = ground arith in
          let seen : loads tid ≡ some v = rw (← own) l in
          let recent = (pending v seen).1 in
          record {
            next = v;
            le = (pending v seen).0;
            at = nothing-At v r.new r.added_is;
            is_top = rw test (
              ap (λ l. get_elem? l tid) s.locals
                  ∙ ap (λ i. get_elem? (set h.local_epoch t v) i) (sym own)
                  ∙ get_elem?-set_self h.local_epoch t v s.slot,
              omega arith,
            );
            pending =
                update_elim (λ o. (u : ℕ) → o ≡ some u → (v ≤ u) × (u ≤ h1.global_epoch)) loads t
                  none tid (λ _ u is. cc) (λ other. absurd (other own));
            global = omega arith;
          }
      | no other ↦
          let test : (t == tid) ≡ false = ground arith in
          stays_at tid top b (enter t v) loads h h1 r.new r.added_is
            (rw test (Stored-elsewhere tid top t v b h h1 other s is_top))
            (update-IsPending tid top t loads none h1 (λ _ u is. cc)
              (IsPending-le tid top loads h h1 (omega arith) pending))
            (omega arith)
    ]
perform-Step tid top b (leave t) loads h h1 freed r inside l small call is_top pending =
    let s = store_epoch-Stored t max_value h h1 freed call in
    let global = s.global in
    elim (ℕ_discrete t tid) [
      | yes own ↦
          let test : (t == tid) ≡ true = ground arith in
          stays_at tid top b (leave t) loads h h1 r.new r.added_is
            (rw test (let le = IsTop-le tid top b h is_top in omega arith))
            (IsPending-le tid top loads h h1 (omega arith) pending) (omega arith)
      | no other ↦
          let test : (t == tid) ≡ false = ground arith in
          stays_at tid top b (leave t) loads h h1 r.new r.added_is
            (rw test (Stored-elsewhere tid top t max_value b h h1 other s is_top))
            (IsPending-le tid top loads h h1 (omega arith) pending) (omega arith)
    ]
perform-Step tid top b (defer t ptr) loads h h1 freed r inside l small call is_top pending =
    let (locals, global) = defer_free_pointer-epochs t ptr h h1 freed call in
    record {
      next = top;
      le = omega arith;
      at = elim (ℕ_discrete t tid) [
        | yes own ↦
            tagged-At top tid h.local_epoch r.new (IsTop-slot tid top b h (inside own) is_top)
              r.tagged
        | no other ↦
            let test : (t == tid) ≡ false = ground arith in
            nothing-At top r.new (ap (λ x. if x then ptr ∷ [] else []) (sym test) ∙ r.added_is)
      ];
      is_top = IsTop-same tid top b h h1 (ap (λ l. get_elem? l tid) locals) (omega arith) is_top;
      pending = IsPending-le tid top loads h h1 (omega arith) pending;
      global = omega arith;
    }
perform-Step tid top b (reclaim t) loads h h1 freed r inside l small call is_top pending =
    let s : Reclaimed t h h1 freed = free_outdated_ptr-Reclaimed t h h1 freed call in
    let (locals, global) = s.epochs_same in
    stays_at tid top b (reclaim t) loads h h1 r.new r.added_is
      (IsTop-same tid top b h h1 (ap (λ l. get_elem? l tid) locals) (omega arith) is_top)
      (IsPending-le tid top loads h h1 (omega arith) pending) (omega arith)
