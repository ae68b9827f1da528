-- ===== src/Threads/Invariant.antt =====
-- The invariant is true at the start and kept by every step, while no version has come round.
use optimistic_locking.Base.{
  ℕ, ◌+◌, ◌^◌, ◌≤◌, ◌<◌, ◌≡◌, ◌≢◌, refl, total, total-update, le-total, add-le-total_of_ne,
  update_elim, dec_lt, total-eq_zero, update, arith,
}
use optimistic_locking.Lock.Word.{unlocked, same_version_new_state}
use optimistic_locking.Lock.WordLaws.{same_version_new_state-HasFields, version-mod}
use optimistic_locking.Lock.{hybrid_lock}
use optimistic_locking.Machine.{Memory, World, ok, quiet}
use optimistic_locking.Threads.{Pc, idle, Shared, Move, System, pick, Reach, start, later}
use optimistic_locking.Threads.Defs.{holds_exclusive, holds_shared, IsSound, Inv}
use optimistic_locking.Threads.Moves.{Mover, Move-Counted}
use optimistic_locking.Threads.Effects.{Move-Effect, Effect-IsSound, Move-IsSound}

-- The versions only grow.
Move-bumps :
    {D : Type 0} {lock : ℕ} {s t : Shared D} {p p' : Pc D} → Move lock s p t p' → s.bumps ≤ t.bumps
Move-bumps Move.store_unlocked = omega arith
Move-bumps Move.store_shared = omega arith
Move-bumps _ = omega arith

module _ {D : Type 0} {lock n : ℕ} where
  module _ {s : Shared D} {pc : ℕ → Pc D} (inv : Inv lock n s pc) (i : ℕ) (lt : i < n) where
    mover :
        (p' : Pc D)
        → Mover lock s
            (total holds_exclusive n pc)
            (total holds_shared n pc)
            (total holds_exclusive n (update pc i p'))
            (total holds_shared n (update pc i p'))
            (pc i)
            p'
    mover p' = record {
      counted = inv.counted;
      own = inv.sound i;
      exclusively = le-total holds_exclusive n pc i lt;
      shared = le-total holds_shared n pc i lt;
      exclusive_after = total-update holds_exclusive n pc i p' lt;
      shared_after = total-update holds_shared n pc i p' lt;
    }

    besides :
        (j : ℕ)
        → i ≢ j
        → holds_exclusive (pc i) + holds_exclusive (pc j) ≤ total holds_exclusive n pc
    besides j ne = elim (dec_lt j n) [
      | yes in_range ↦ add-le-total_of_ne holds_exclusive n pc i j ne lt in_range
      | no above ↦
          rw (inv.outside j (omega arith)) (omega (arith, le-total holds_exclusive n pc i lt))
    ]

    Move-Inv :
        {p' : Pc D} {t : Shared D}
        → Move lock s (pc i) t p'
        → t.bumps < 2 ^ 56
        → Inv lock n t (update pc i p')
    Move-Inv {p'} {t} mv small = record {
      counted = Move-Counted mv (mover p') small;
      sound = λ j.
          update_elim (IsSound lock t) pc i p' j (λ _. Move-IsSound mv (mover p'))
            (λ ne.
              Effect-IsSound (pc i) inv.counted (Move-Effect mv (mover p')) (pc j) (besides j ne)
                (inv.sound j));
      outside = λ j above.
          update_elim (λ p. p ≡ idle) pc i p' j (λ e. absurd (omega arith))
            (λ _. inv.outside j above);
    }

  Inv-start :
      (m : Memory D) (w : World D)
      → hybrid_lock lock (quiet m) ≡ ok tt w
      → Inv lock n (record { mem = w.mem; bumps = 0 }) (λ _. idle)
  unfolding hybrid_lock
  Inv-start m w h = record {
    counted =
        let none_exclusive = total-eq_zero (holds_exclusive {D = D}) n (λ _. idle) (λ _. refl) in
        let none_shared = total-eq_zero (holds_shared {D = D}) n (λ _. idle) (λ _. refl) in
        let new_word : (w.mem).cells lock ≡ same_version_new_state 0 unlocked = ground arith in
        rw (none_exclusive, none_shared)
          (ground (arith, same_version_new_state-HasFields 0 unlocked, version-mod 0));
    sound = λ _. tt;
    outside = λ _ _. refl;
  }

  -- Every state reached before the versions come round keeps the invariant.
  pub Reach-Inv :
      {s : System D} → Reach lock n s → (s.shared).bumps < 2 ^ 56 → Inv lock n s.shared s.pc
  Reach-Inv (start m {w} h) small = Inv-start m w h
  Reach-Inv (later r (pick i lt mv)) small =
      Move-Inv (Reach-Inv r (omega (arith, Move-bumps mv))) i lt mv small
