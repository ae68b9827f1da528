-- ===== src/Threads/Code/Locks.antt =====
-- src/sync/lock.cc, src/sync/guard.cc: the operations of the lock, and the loops that take it, as moves.
use optimistic_locking.Base.{
  ℕ, zero, suc, ◌+◌, ◌≡◌, refl, inl, inr, Bool, true, false, ◌&&◌, ltb, leb, ◌==◌, if◌then◌else◌,
  Bool-cases,
}
use optimistic_locking.Machine.{
  World, M, Outcome, ok, advance, quiet, paused, fails, set_cell, pure, compare_exchange_strong,
  compare_exchange_weak,
}
use optimistic_locking.Lock.Word.{
  unlocked, max_shared, exclusive, lock_state, is_exclusively_locked, is_shared_locked,
  same_version_new_state,
}
use optimistic_locking.Lock.{
  try_lock_exclusive, try_lock_shared, upgrade_lock, unlock_exclusive, downgrade_lock,
  release_shared, unlock_shared,
}
use optimistic_locking.Guard.{acquire_exclusive, acquire_shared}
use optimistic_locking.Threads.{
  Pc, idle, locking_exclusive, writing, locking_shared, reading, upgrading, releasing,
  unlocking_shared, Move, load_exclusive, try_exclusive, assert_exclusive, load_unlocking,
  store_unlocked, assert_downgrade, load_downgrading, store_shared, load_shared, try_shared,
  upgrade, call_unlock_shared, load_unlocking_shared, unlock_shared as unlock_shared_move, pick_pc,
}
use optimistic_locking.Threads.Code.{
  seen_in, done, silent, access, Follows, Follows-extend, Follows-and_then,
}

abbrev pub same : ℕ → ℕ
same n = n

module _ {D : Type 0} (lock : ℕ) where
  abbrev pub self : World D → World D
  self w = w

  -- A method that throws nothing.
  abbrev pub Does : {A : Type 0} → (A → Pc D) → World D → Pc D → Outcome (World D) A → Type 0
  Does P w p x = Follows self lock (λ a _. P a) idle w p x

  -- An exchange is one access.
  strong-Does :
      (P : Bool → Pc D) (p : Pc D) (old new : ℕ) (w : World D)
      → ((b : Bool) (u : World D)
          → compare_exchange_strong lock old new (quiet (advance w).mem) ≡ ok b u
          → (n : ℕ) → Move lock (seen_in (advance w).mem n) p (seen_in u.mem n) (P b))
      → Does P w p (compare_exchange_strong lock old new w)
  strong-Does P p old new w move = elim (Bool-cases (((advance w).mem).cells lock == old)) [
    | inl hit ↦
        let u = set_cell (quiet (advance w).mem) lock new in
        rw hit (access same (move true u (rw hit refl)) done)
    | inr miss ↦ rw miss (access same (move false (quiet (advance w).mem) (rw miss refl)) done)
  ]

  weak-Does :
      (P : Bool → Pc D) (p : Pc D) (old new : ℕ) (w : World D)
      → ((b : Bool) (u : World D)
          → compare_exchange_weak lock old new (paused (advance w).mem (fails w.turns)) ≡ ok b u
          → (n : ℕ) → Move lock (seen_in (advance w).mem n) p (seen_in u.mem n) (P b))
      → Does P w p (compare_exchange_weak lock old new w)
  weak-Does P p old new w move = elim (Bool-cases (fails w.turns)) [
    | inl spurious ↦
        rw spurious (access same (move false (quiet (advance w).mem) (rw spurious refl)) done)
    | inr other ↦ elim (Bool-cases (((advance w).mem).cells lock == old)) [
      | inl hit ↦
          let u = set_cell (quiet (advance w).mem) lock new in
          rw (other, hit) (access same (move true u (rw (other, hit) refl)) done)
      | inr miss ↦
          rw (other, miss)
            (access same (move false (quiet (advance w).mem) (rw (other, miss) refl)) done)
    ]
  ]

  try_lock_exclusive-Does :
      (old : ℕ) (w : World D)
      → Does (λ b. pick_pc b writing idle) w (locking_exclusive old) (try_lock_exclusive lock old w)
  unfolding try_lock_exclusive
  try_lock_exclusive-Does old w =
      elim (Bool-cases (ltb unlocked (lock_state old) && leb (lock_state old) exclusive)) [
        | inl busy ↦
            let refused : try_lock_exclusive lock old (quiet w.mem) ≡ ok false (quiet w.mem) =
              rw busy refl in
            rw busy (silent (λ n. try_exclusive refused) done)
        | inr free ↦ rw free (
            strong-Does (λ b. pick_pc b writing idle) (locking_exclusive old) old
              (same_version_new_state old exclusive) w λ b u e n. try_exclusive {w = u} (rw free e))
      ]

  try_lock_shared-Does :
      (old : ℕ) (w : World D)
      → Does (λ b. pick_pc b reading idle) w (locking_shared old) (try_lock_shared lock old w)
  unfolding try_lock_shared
  try_lock_shared-Does old w = elim (Bool-cases (ltb (lock_state old) max_shared)) [
    | inl free ↦ rw free (
        strong-Does (λ b. pick_pc b reading idle) (locking_shared old) old
          (same_version_new_state old (lock_state old + 1)) w
          λ b u e n. try_shared {w = u} (rw free e))
    | inr full ↦
        let refused : try_lock_shared lock old (quiet w.mem) ≡ ok false (quiet w.mem) =
          rw full refl in
        rw full (silent (λ n. try_shared refused) done)
  ]

  pub upgrade_lock-Does :
      (old : ℕ) (w : World D)
      → Does (λ b. pick_pc b writing reading) w (upgrading old) (upgrade_lock lock old w)
  unfolding upgrade_lock
  upgrade_lock-Does old w = elim (Bool-cases (lock_state old == 1)) [
    | inl alone ↦ rw alone (
        weak-Does (λ b. pick_pc b writing reading) (upgrading old) old
          (same_version_new_state old exclusive) w
          λ b u e n. upgrade {w = u} (fails w.turns) (rw alone e))
    | inr others ↦
        let refused : upgrade_lock lock old (paused w.mem false) ≡ ok false (paused w.mem false) =
          rw others refl in
        rw others (silent (λ n. upgrade false refused) done)
  ]

  release_shared-Does :
      (old : ℕ) (w : World D)
      → Does (λ b. pick_pc b idle releasing) w (unlocking_shared old) (release_shared lock old w)
  unfolding release_shared
  release_shared-Does old w =
      weak-Does (λ b. pick_pc b idle releasing) (unlocking_shared old) old _ w
        λ b u e n. unlock_shared_move (fails w.turns) e

  -- The methods that release.
  pub unlock_exclusive-Does : (w : World D) → Does (λ _. idle) w writing (unlock_exclusive lock w)
  unfolding unlock_exclusive
  unlock_exclusive-Does w =
      let w1 = advance w in
      elim (Bool-cases (is_exclusively_locked ((w1.mem).cells lock))) [
        | inl held ↦ rw held (
            access same (λ n. assert_exclusive {b = true} held)
              (access same (λ n. load_unlocking) (access suc (λ n. store_unlocked) done)))
        | inr free ↦ rw free (w1, access same (λ n. assert_exclusive {b = false} free) done)
      ]

  pub downgrade_lock-Does : (w : World D) → Does (λ _. reading) w writing (downgrade_lock lock w)
  unfolding downgrade_lock
  downgrade_lock-Does w =
      let w1 = advance w in
      elim (Bool-cases (is_exclusively_locked ((w1.mem).cells lock))) [
        | inl held ↦ rw held (
            access same (λ n. assert_downgrade {b = true} held)
              (access same (λ n. load_downgrading) (access suc (λ n. store_shared) done)))
        | inr free ↦ rw free (w1, access same (λ n. assert_downgrade {b = false} free) done)
      ]

  -- A loop that has not got there goes on.
  or_again :
      (b : Bool) (p q : Pc D) (again : M (World D) (Unit {0})) (w : World D)
      → Does (λ _. p) w q (again w)
      → Does (λ _. p) w (pick_pc b p q) ((if b then pure tt else again) w)
  or_again true p q again w h = done
  or_again false p q again w h = h

  unlock_shared_loop-Does :
      (rounds : ℕ) (w : World D) → Does (λ _. idle) w releasing (unlock_shared rounds lock w)
  unfolding unlock_shared
  unlock_shared_loop-Does zero w = tt
  unlock_shared_loop-Does (suc rounds) w =
      let w1 = advance w in
      let old = (w1.mem).cells lock in
      elim (Bool-cases (is_shared_locked old)) [
        | inl held ↦ rw held (
            Follows-extend self lock idle (λ _ _. idle) w w1 releasing (unlocking_shared old) _
              (access same (λ n. load_unlocking_shared {b = true} held) done)
              (Follows-and_then self lock idle (λ b _. pick_pc b idle releasing) (λ _ _. idle) w1
                (unlocking_shared old) (release_shared lock old w1) _ (release_shared-Does old w1)
                λ b w2.
                  or_again b idle releasing (unlock_shared rounds lock) w2
                    (unlock_shared_loop-Does rounds w2)))
        | inr free ↦ rw free (w1, access same (λ n. load_unlocking_shared {b = false} free) done)
      ]

  pub unlock_shared-Does :
      (rounds : ℕ) (w : World D) → Does (λ _. idle) w reading (unlock_shared rounds lock w)
  unlock_shared-Does rounds w =
      Follows-extend self lock idle (λ _ _. idle) w w reading releasing
        (unlock_shared rounds lock w) (silent (λ n. call_unlock_shared) done)
        (unlock_shared_loop-Does rounds w)

  -- The loops of the guard's constructor.
  pub acquire_exclusive-Does :
      (rounds : ℕ) (w : World D) → Does (λ _. writing) w idle (acquire_exclusive rounds lock w)
  unfolding acquire_exclusive
  acquire_exclusive-Does zero w = tt
  acquire_exclusive-Does (suc rounds) w =
      let w1 = advance w in
      let old = (w1.mem).cells lock in
      Follows-extend self lock idle (λ _ _. writing) w w1 idle (locking_exclusive old) _
        (access same (λ n. load_exclusive) done)
        (Follows-and_then self lock idle (λ b _. pick_pc b writing idle) (λ _ _. writing) w1
          (locking_exclusive old) (try_lock_exclusive lock old w1) _
          (try_lock_exclusive-Does old w1)
          λ b w2.
            or_again b writing idle (acquire_exclusive rounds lock) w2
              (acquire_exclusive-Does rounds w2))

  pub acquire_shared-Does :
      (rounds : ℕ) (w : World D) → Does (λ _. reading) w idle (acquire_shared rounds lock w)
  unfolding acquire_shared
  acquire_shared-Does zero w = tt
  acquire_shared-Does (suc rounds) w =
      let w1 = advance w in
      let old = (w1.mem).cells lock in
      Follows-extend self lock idle (λ _ _. reading) w w1 idle (locking_shared old) _
        (access same (λ n. load_shared) done)
        (Follows-and_then self lock idle (λ b _. pick_pc b reading idle) (λ _ _. reading) w1
          (locking_shared old) (try_lock_shared lock old w1) _ (try_lock_shared-Does old w1)
          λ b w2.
            or_again b reading idle (acquire_shared rounds lock) w2 (acquire_shared-Does rounds w2))
