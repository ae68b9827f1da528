-- ===== src/Epoch/Calls/Bracketed.antt =====
-- src/sync/epoch.cc: a thread that defers pointers in its guard alone.
use optimistic_locking.Base.{
  ℕ, ◌≤◌, ◌≡◌, ◌∙◌, Bool, true, false, some, List, [], ◌∷◌, ◌++◌, ◌==◌, if◌then◌else◌, All,
  get_elem?, arith,
}
use optimistic_locking.Epoch.{ToFreePointer, EpochHandler, pointers}
use optimistic_locking.Epoch.Calls.{Loads, load, Call, advance, enter, leave, defer, reclaim, Event}
use optimistic_locking.Epoch.Calls.Ordered.{
  IsOrdered, AtMost, At, AtMost-le, AtMost-append_right, IsOrdered-append_right, append-IsOrdered,
}
use optimistic_locking.Epoch.Calls.Handled.{Handled}

-- Whether a thread is in its guard after a call.
abbrev pub is_inside : ℕ → Bool → Call → Bool
is_inside tid b (load t) = b
is_inside tid b (enter t loaded) = if t == tid then true else b
is_inside tid b (leave t) = if t == tid then false else b
is_inside tid b advance = b
is_inside tid b (defer t ptr) = b
is_inside tid b (reclaim t) = b

-- The thread defers pointers in its guard alone.
abbrev pub DefersInside : ℕ → Bool → Call → Type 0
DefersInside tid b (defer t ptr) = t ≡ tid → b ≡ true
DefersInside tid b _ = Unit

abbrev pub IsBracketed : ℕ → Bool → List Event → Type 0
IsBracketed tid b [] = Unit
IsBracketed tid b (e ∷ es) = DefersInside tid b e.call × IsBracketed tid (is_inside tid b e.call) es

-- `top` is the epoch of the thread's guard, or past the last guard.
abbrev pub IsTop : ℕ → Bool → EpochHandler → ℕ → Type 0
IsTop tid true h top = (get_elem? h.local_epoch tid ≡ some top) × (top ≤ h.global_epoch)
IsTop tid false h top = top ≤ h.global_epoch

-- An epoch that the thread has loaded is not older than its guard's, and not past the global one.
abbrev pub IsPending : ℕ → Loads → ℕ → EpochHandler → Type 0
IsPending tid loads top h = (v : ℕ) → loads tid ≡ some v → (top ≤ v) × (v ≤ h.global_epoch)

-- The epochs in the list of the thread do not go down.
pub record Ordered (tid : ℕ) (b : Bool) (loads : Loads) (h : EpochHandler) : Type 0 where
  pub queue : List ToFreePointer
  pub top : ℕ
  pub found : get_elem? h.to_free_ptr tid ≡ some queue
  pub ordered : IsOrdered queue
  pub at_most : AtMost top queue
  pub is_top : IsTop tid b h top
  pub pending : IsPending tid loads top h

pub nothing-At : (top : ℕ) (new : List ToFreePointer) → [] ≡ pointers new → At top new
nothing-At top [] e = tt
nothing-At top (x ∷ new) e = cc

pub tagged-At :
    (top tid : ℕ) (locals : List ℕ) (new : List ToFreePointer)
    → get_elem? locals tid ≡ some top
    → All (λ x. get_elem? locals tid ≡ some x.epoch) new
    → At top new
tagged-At top tid locals [] slot a = tt
tagged-At top tid locals (x ∷ new) slot a =
    let here = a.0 in (ground arith, tagged-At top tid locals new slot a.1)

pub IsTop-same :
    (tid top : ℕ) (b : Bool) (h h1 : EpochHandler)
    → get_elem? h1.local_epoch tid ≡ get_elem? h.local_epoch tid
    → h.global_epoch ≤ h1.global_epoch
    → IsTop tid b h top
    → IsTop tid b h1 top
IsTop-same tid top true h h1 same le t = (same ∙ t.0, let u = t.1 in omega arith)
IsTop-same tid top false h h1 same le t = omega arith

pub IsTop-le :
    (tid top : ℕ) (b : Bool) (h : EpochHandler) → IsTop tid b h top → top ≤ h.global_epoch
IsTop-le tid top true h t = t.1
IsTop-le tid top false h t = t

pub IsTop-slot :
    (tid top : ℕ) (b : Bool) (h : EpochHandler)
    → b ≡ true
    → IsTop tid b h top
    → get_elem? h.local_epoch tid ≡ some top
IsTop-slot tid top true h inside t = t.0
IsTop-slot tid top false h inside t = cc

-- The list behind a call, whose new entries have the epoch `top`.
pub behind :
    (tid top : ℕ) (b b1 : Bool) (c : Call) (freed : List ℕ) (loads loads1 : Loads)
    (h h1 : EpochHandler) (o : Ordered tid b loads h) (r : Handled tid c freed h h1)
    → o.top ≤ top
    → At top r.new
    → IsTop tid b1 h1 top
    → IsPending tid loads1 top h1
    → Ordered tid b1 loads1 h1
behind tid top b b1 c freed loads loads1 h h1 o r le at is_top pending =
    let same : o.queue ≡ r.gone ++ r.kept = let f = o.found in let g = r.before in ground arith in
    let ordered : IsOrdered r.kept = IsOrdered-append_right r.gone r.kept (rw (← same) o.ordered) in
    let at_most : AtMost o.top r.kept =
      AtMost-append_right o.top r.gone r.kept (rw (← same) o.at_most) in
    let (ordered', at_most') =
      append-IsOrdered top r.kept r.new ordered (AtMost-le o.top top r.kept le at_most) at in
    record {
      queue = r.kept ++ r.new;
      top = top;
      found = r.after;
      ordered = ordered';
      at_most = at_most';
      is_top = is_top;
      pending = pending;
    }
