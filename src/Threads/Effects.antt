-- ===== src/Threads/Effects.antt =====
-- What a move of one thread does to what the others rely on.
use optimistic_locking.Base.{ℕ, suc, ◌+◌, ◌≤◌, ◌≡◌, ◌≢◌, refl, sym, ◌∙◌, true, false, List, arith}
use optimistic_locking.Lock.Word.{exclusive, lock_state}
use optimistic_locking.Threads.{Pc, Shared, word, Move}
use optimistic_locking.Threads.Defs.{holds_exclusive, Counted, Observed, IsSound}
use optimistic_locking.Threads.Moves.{Mover, held_exclusive, held_shared}
use optimistic_locking.Threads.Swaps.{
  try_lock_exclusive-Swapped, try_lock_exclusive_failed, try_lock_shared-Swapped,
  try_lock_shared_failed, upgrade_lock-Swapped, upgrade_lock_failed, release_shared-Swapped,
  release_shared_failed,
}

pub data Effect {D : Type 0} (lock : ℕ) (s t : Shared D) (p : Pc D) : Type 0 where
  unchanged : t.mem ≡ s.mem → t.bumps ≡ s.bumps → Effect lock s t p
  wrote : holds_exclusive p ≡ 1 → word lock t ≡ word lock s → t.bumps ≡ s.bumps → Effect lock s t p
  swapped :
      lock_state (word lock s) ≢ exclusive
      → (t.mem).rest ≡ (s.mem).rest
      → t.bumps ≡ s.bumps
      → Effect lock s t p
  bumped : holds_exclusive p ≡ 1 → t.bumps ≡ suc s.bumps → Effect lock s t p

module _ {D : Type 0} {lock : ℕ} {s : Shared D} {E S E' S' : ℕ} where
  pub Move-Effect :
      {p p' : Pc D} {t : Shared D}
      → Move lock s p t p'
      → Mover lock s E S E' S' p p'
      → Effect lock s t p
  Move-Effect (Move.try_exclusive {old} {b = true} {w} h) f =
      let (free, swap) = try_lock_exclusive-Swapped lock old s.mem w f.own h in
      swapped (omega arith) swap.rest_same refl
  Move-Effect (Move.try_exclusive {old} {b = false} {w} h) f =
      unchanged (try_lock_exclusive_failed lock old s.mem w f.own h) refl
  Move-Effect (Move.write d) f = wrote refl refl refl
  Move-Effect Move.store_unlocked f = bumped refl refl
  Move-Effect Move.store_shared f = bumped refl refl
  Move-Effect (Move.try_shared {old} {b = true} {w} h) f =
      let (free, swap) = try_lock_shared-Swapped lock old s.mem w h in
      swapped (omega arith) swap.rest_same refl
  Move-Effect (Move.try_shared {old} {b = false} {w} h) f =
      unchanged (try_lock_shared_failed lock old s.mem w h) refl
  Move-Effect (Move.upgrade {old} {b = true} {w} spurious h) f =
      let (alone, swap) = upgrade_lock-Swapped lock old s.mem w spurious h in
      swapped (omega arith) swap.rest_same refl
  Move-Effect (Move.upgrade {old} {b = false} {w} spurious h) f =
      unchanged (upgrade_lock_failed lock old s.mem w spurious h) refl
  Move-Effect (Move.unlock_shared {old} {b = true} {w} spurious h) f =
      let swap = release_shared-Swapped lock old s.mem w spurious (f.own).0 (f.own).1 h in
      swapped (omega (arith, f.counted, f.shared)) swap.rest_same refl
  Move-Effect (Move.unlock_shared {old} {b = false} {w} spurious h) f =
      unchanged (release_shared_failed lock old s.mem w spurious (f.own).0 (f.own).1 h) refl
  Move-Effect _ f = unchanged refl refl

-- What another thread, at `q`, knows stays true.
module _ {D : Type 0} {lock : ℕ} {s t : Shared D} {E S : ℕ} (p : Pc D) (c : Counted lock s E S)
    (eff : Effect lock s t p) where
  Effect-word : 1 + holds_exclusive p ≤ E → word lock t ≡ word lock s
  Effect-word both = elim eff [
    | unchanged e f ↦ ground arith
    | wrote x e f ↦ e
    | swapped n e f ↦ absurd (omega (arith, c))
    | bumped x e ↦ absurd (omega (arith, c))
  ]

  Effect-Observed :
      (state : ℕ) (seen : List D)
      → holds_exclusive p ≤ E
      → Observed lock s state seen
      → Observed lock t state seen
  Effect-Observed state seen within o = elim eff [
    | unchanged e f ↦ record {
      snapshot = omega arith;
      same = λ v n. rw e (o.same (omega arith) (ground arith));
    }
    | wrote x e f ↦ record {
      snapshot = omega arith;
      same = λ v n. absurd (n (rw e (omega (arith, c))));
    }
    | swapped n e f ↦ record { snapshot = omega arith; same = λ v _. rw e (o.same (omega arith) n) }
    | bumped x e ↦ record { snapshot = omega arith; same = λ v n. absurd (omega arith) }
  ]

  -- The other thread is an exclusive holder besides `p`, or none.
  pub Effect-IsSound :
      (q : Pc D) → holds_exclusive p + holds_exclusive q ≤ E → IsSound lock s q → IsSound lock t q
  Effect-IsSound (Pc.storing_unlocked v) both h = h ∙ sym (Effect-word (omega arith))
  Effect-IsSound (Pc.storing_shared v) both h = h ∙ sym (Effect-word (omega arith))
  Effect-IsSound (Pc.observing state seen) both h = Effect-Observed state seen (omega arith) h
  Effect-IsSound (Pc.locking_exclusive old) both h = h
  Effect-IsSound (Pc.unlocking_shared old) both h = h
  Effect-IsSound Pc.crashed both h = h
  Effect-IsSound _ both h = tt

-- What the thread that moved knows of its own locals.
module _ {D : Type 0} {lock : ℕ} {s : Shared D} {E S E' S' : ℕ} where
  pub Move-IsSound :
      {p p' : Pc D} {t : Shared D}
      → Move lock s p t p'
      → Mover lock s E S E' S' p p'
      → IsSound lock t p'
  Move-IsSound Move.load_exclusive f = omega (arith, f.counted)
  Move-IsSound (Move.try_exclusive {b = true} h) f = tt
  Move-IsSound (Move.try_exclusive {b = false} h) f = tt
  Move-IsSound (Move.assert_exclusive {b = true} h) f = tt
  Move-IsSound (Move.assert_exclusive {b = false} h) f = cc (held_exclusive f.counted f.exclusively)
  Move-IsSound Move.load_unlocking f = refl
  Move-IsSound (Move.assert_downgrade {b = true} h) f = tt
  Move-IsSound (Move.assert_downgrade {b = false} h) f = cc (held_exclusive f.counted f.exclusively)
  Move-IsSound Move.load_downgrading f = refl
  Move-IsSound (Move.try_shared {b = true} h) f = tt
  Move-IsSound (Move.try_shared {b = false} h) f = tt
  Move-IsSound (Move.upgrade {b = true} spurious h) f = tt
  Move-IsSound (Move.upgrade {b = false} spurious h) f = tt
  Move-IsSound (Move.load_unlocking_shared {b = true} h) f = omega (arith, f.counted, f.shared)
  Move-IsSound (Move.load_unlocking_shared {b = false} h) f = cc (held_shared f.counted f.shared)
  Move-IsSound (Move.unlock_shared {b = true} spurious h) f = tt
  Move-IsSound (Move.unlock_shared {b = false} spurious h) f = tt
  Move-IsSound (Move.start_optimistic h) f = record {
    snapshot = omega (arith, f.counted);
    same = λ _ _. tt;
  }
  Move-IsSound Move.observe f = record {
    snapshot = (f.own).snapshot;
    same = λ v n. (refl, (f.own).same v n);
  }
  Move-IsSound (Move.validate {b = true} h) f = tt
  Move-IsSound (Move.validate {b = false} h) f = tt
  Move-IsSound _ f = tt
