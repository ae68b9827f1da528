-- ===== src/Threads/Moves.antt =====
-- A move of a thread keeps the count of holders, and never fails an assertion.
use optimistic_locking.Base.{ℕ, ◌+◌, ◌^◌, ◌≤◌, ◌<◌, ◌≡◌, true, false, arith}
use optimistic_locking.Machine.{Memory}
use optimistic_locking.Lock.Word.{unlocked, is_exclusively_locked, is_shared_locked}
use optimistic_locking.Lock.WordLaws.{
  next_version_new_state-HasFields, is_exclusively_locked-true, is_shared_locked-true,
}
use optimistic_locking.Threads.{Pc, Shared, word, Move}
use optimistic_locking.Threads.Defs.{holds_exclusive, holds_shared, Counted, IsSound}
use optimistic_locking.Threads.Swaps.{
  try_lock_exclusive-Swapped, try_lock_exclusive_failed, try_lock_shared-Swapped,
  try_lock_shared_failed, upgrade_lock-Swapped, upgrade_lock_failed, release_shared-Swapped,
  release_shared_failed,
}

-- A thread at `p`, which goes on to `p'`, among `E` and `S` holders before and `E'` and `S'` behind.
pub record Mover {D : Type 0} (lock : ℕ) (s : Shared D) (E S E' S' : ℕ) (p p' : Pc D) : Type 0 where
  pub counted : Counted lock s E S
  pub own : IsSound lock s p
  pub exclusively : holds_exclusive p ≤ E
  pub shared : holds_shared p ≤ S
  pub exclusive_after : E' + holds_exclusive p ≡ E + holds_exclusive p'
  pub shared_after : S' + holds_shared p ≡ S + holds_shared p'

module _ {D : Type 0} {lock : ℕ} {s : Shared D} {E S : ℕ} (c : Counted lock s E S) where
  -- The assertions' tests pass for a holder.
  pub held_exclusive : 1 ≤ E → is_exclusively_locked (word lock s) ≡ true
  held_exclusive h = is_exclusively_locked-true (word lock s) (omega arith)

  pub held_shared : 1 ≤ S → is_shared_locked (word lock s) ≡ true
  held_shared h = is_shared_locked-true (word lock s) (omega arith) (omega arith)

  same-Counted :
      (m : Memory D) {E' S' : ℕ}
      → m ≡ s.mem
      → E' ≡ E
      → S' ≡ S
      → Counted lock (record s { mem = m }) E' S'
  same-Counted m e h k = ground arith

module _ {D : Type 0} {lock : ℕ} {s : Shared D} {E S E' S' : ℕ} where
  pub Move-Counted :
      {p p' : Pc D} {t : Shared D}
      → Move lock s p t p'
      → Mover lock s E S E' S' p p'
      → t.bumps < 2 ^ 56
      → Counted lock t E' S'
  Move-Counted Move.load_exclusive f small = omega arith
  Move-Counted (Move.try_exclusive {old} {b = true} {w} h) f small =
      let (free, swap) = try_lock_exclusive-Swapped lock old s.mem w f.own h in
      omega (arith, swap.fields)
  Move-Counted (Move.try_exclusive {old} {b = false} {w} h) f small =
      same-Counted f.counted w.mem (try_lock_exclusive_failed lock old s.mem w f.own h)
        (omega arith) (omega arith)
  Move-Counted (Move.write d) f small = omega arith
  Move-Counted (Move.assert_exclusive {b = true} h) f small = omega arith
  Move-Counted (Move.assert_exclusive {b = false} h) f small =
      absurd (cc (held_exclusive f.counted f.exclusively))
  Move-Counted Move.load_unlocking f small = omega arith
  Move-Counted (Move.store_unlocked {v}) f small =
      ground (arith, next_version_new_state-HasFields v unlocked)
  Move-Counted (Move.assert_downgrade {b = true} h) f small = omega arith
  Move-Counted (Move.assert_downgrade {b = false} h) f small =
      absurd (cc (held_exclusive f.counted f.exclusively))
  Move-Counted Move.load_downgrading f small = omega arith
  Move-Counted (Move.store_shared {v}) f small =
      ground (arith, next_version_new_state-HasFields v 1)
  Move-Counted Move.load_shared f small = omega arith
  Move-Counted (Move.try_shared {old} {b = true} {w} h) f small =
      let (free, swap) = try_lock_shared-Swapped lock old s.mem w h in omega (arith, swap.fields)
  Move-Counted (Move.try_shared {old} {b = false} {w} h) f small =
      same-Counted f.counted w.mem (try_lock_shared_failed lock old s.mem w h) (omega arith)
        (omega arith)
  Move-Counted Move.load_upgrading f small = omega arith
  Move-Counted (Move.upgrade {old} {b = true} {w} spurious h) f small =
      let (alone, swap) = upgrade_lock-Swapped lock old s.mem w spurious h in
      omega (arith, swap.fields)
  Move-Counted (Move.upgrade {old} {b = false} {w} spurious h) f small =
      same-Counted f.counted w.mem (upgrade_lock_failed lock old s.mem w spurious h) (omega arith)
        (omega arith)
  Move-Counted Move.call_unlock_shared f small = omega arith
  Move-Counted (Move.load_unlocking_shared {b = true} h) f small = omega arith
  Move-Counted (Move.load_unlocking_shared {b = false} h) f small =
      absurd (cc (held_shared f.counted f.shared))
  Move-Counted (Move.unlock_shared {old} {b = true} {w} spurious h) f small =
      let swap = release_shared-Swapped lock old s.mem w spurious (f.own).0 (f.own).1 h in
      omega (arith, swap.fields)
  Move-Counted (Move.unlock_shared {old} {b = false} {w} spurious h) f small =
      same-Counted f.counted w.mem
        (release_shared_failed lock old s.mem w spurious (f.own).0 (f.own).1 h) (omega arith)
        (omega arith)
  Move-Counted (Move.wait_optimistic h) f small = omega arith
  Move-Counted (Move.start_optimistic h) f small = omega arith
  Move-Counted Move.observe f small = omega arith
  Move-Counted (Move.validate {b = true} h) f small = omega arith
  Move-Counted (Move.validate {b = false} h) f small = omega arith
  Move-Counted Move.finish f small = omega arith
