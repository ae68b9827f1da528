-- ===== src/Threads/Safety.antt =====
-- What holds in every state that threads can reach on one lock, while no version has come round.
use optimistic_locking.Base.{
  ℕ, ◌+◌, ◌*◌, ◌^◌, ◌≤◌, ◌<◌, ◌≡◌, ◌≢◌, refl, ap, ◌∙◌, false, true, List, All, total, le-total,
  total-eq_zero, add-le-total_of_ne, arith, dec_lt,
}
use optimistic_locking.Lock.Word.{
  max_shared, exclusive, lock_state, version, same_version_new_state,
}
use optimistic_locking.Lock.{try_lock_exclusive}
use optimistic_locking.Lock.Attempts.{try_lock_exclusive_free}
use optimistic_locking.Machine.{ok, quiet, set_cell}
use optimistic_locking.Guard.{must_restart}
use optimistic_locking.Threads.{crashed, observing, word, System, Reach}
use optimistic_locking.Threads.Defs.{holds_exclusive, holds_shared, Observed, Inv}
use optimistic_locking.Threads.Invariant.{Reach-Inv}

must_restart-false :
    (latest state : ℕ)
    → must_restart latest state ≡ false
    → (lock_state latest ≢ exclusive) × (version latest ≡ version state)
unfolding must_restart
must_restart-false latest state h = ground arith

module _ {D : Type 0} {lock n : ℕ} {s : System D} (r : Reach lock n s)
    (small : (s.shared).bumps < 2 ^ 56) where
  inv : Inv lock n s.shared s.pc
  inv = Reach-Inv r small

  in_range : (i : ℕ) → holds_exclusive (s.pc i) ≡ 1 → i < n
  in_range i h = elim (dec_lt i n) [
    | yes lt ↦ lt
    | no above ↦ absurd (omega (arith, ap holds_exclusive (inv.outside i (omega arith))))
  ]

  -- In every reachable state with fewer than 2 ^ 56 releases by writers, a thread that holds the lock
  -- exclusively is alone: no other thread holds it exclusively or shared.
  pub mutual_exclusion :
      (i j : ℕ)
      → i ≢ j
      → holds_exclusive (s.pc i) ≡ 1
      → (holds_exclusive (s.pc j) ≡ 0) × (holds_shared (s.pc j) ≡ 0)
  mutual_exclusion i j ne h = elim (dec_lt j n) [
    | yes lt ↦ omega (
      arith,
      inv.counted,
      add-le-total_of_ne holds_exclusive n s.pc i j ne (in_range i h) lt,
      le-total holds_exclusive n s.pc i (in_range i h),
      le-total holds_shared n s.pc j lt,
    )
    | no above ↦ rw (inv.outside j (omega arith)) (refl, refl)
  ]

  -- In every reachable state with fewer than 2 ^ 56 releases by writers, the state in the lock's word
  -- is 255 for each exclusive holder plus 1 for each shared holder; there are at most 254 shared
  -- holders, and none beside an exclusive one; and the version is the number of those releases.
  pub word_counts_holders :
      (lock_state (word lock s.shared)
        ≡ total holds_exclusive n s.pc * exclusive + total holds_shared n s.pc)
      × (total holds_exclusive n s.pc * max_shared + total holds_shared n s.pc ≤ max_shared)
      × (version (word lock s.shared) ≡ (s.shared).bumps)
  word_counts_holders = omega (arith, inv.counted)

  -- In every reachable state with fewer than 2 ^ 56 releases by writers, no thread has failed an
  -- assertion of `UnlockExclusive`, `DowngradeLock` or `UnlockShared`.
  pub assertions_hold : (i : ℕ) → s.pc i ≢ crashed
  assertions_hold i e = rw e at (inv.sound i)

  -- In every reachable state with fewer than 2 ^ 56 releases by writers, if the validation of an
  -- optimistic guard passes, then all that was read under the guard is the data as it is now, and no
  -- writer has released the lock since the guard took its snapshot.
  pub optimistic_read_consistent :
      (i state : ℕ) (seen : List D)
      → s.pc i ≡ observing state seen
      → must_restart (word lock s.shared) state ≡ false
      → All (λ d. d ≡ ((s.shared).mem).rest) seen × (version state ≡ (s.shared).bumps)
  optimistic_read_consistent i state seen e pass =
      let o : Observed lock s.shared state seen = (rw e at (inv.sound i)) in
      let (free, same) = must_restart-false (word lock s.shared) state pass in
      let now : version state ≡ (s.shared).bumps = omega (arith, inv.counted) in
      (o.same now free, now)

  -- In every reachable state with fewer than 2 ^ 56 releases by writers, if no thread holds the lock,
  -- then `TryLockExclusive` on the current word succeeds, and leaves that word with the state 255.
  pub free_lock_is_taken :
      ((i : ℕ) → (holds_exclusive (s.pc i) ≡ 0) × (holds_shared (s.pc i) ≡ 0))
      → try_lock_exclusive lock (word lock s.shared) (quiet (s.shared).mem)
        ≡ ok true (
            set_cell
              (quiet (s.shared).mem)
              lock
              (same_version_new_state (word lock s.shared) exclusive))
  free_lock_is_taken quiet_threads =
      let none_exclusive = total-eq_zero holds_exclusive n s.pc (λ i. (quiet_threads i).0) in
      let none_shared = total-eq_zero holds_shared n s.pc (λ i. (quiet_threads i).1) in
      let free = try_lock_exclusive_free lock (word lock s.shared) (omega (arith, inv.counted)) in
      free (quiet (s.shared).mem) ∙ ground arith
