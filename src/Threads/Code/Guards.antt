-- ===== src/Threads/Code/Guards.antt =====
-- src/sync/guard.cc: the constructor and the destructor of `HybridGuard` as moves of a thread.
use optimistic_locking.Base.{
  ℕ, zero, suc, ◌≡◌, ◌≢◌, inl, inr, true, false, List, [], ◌==◌, Bool-cases, arith,
}
use optimistic_locking.Machine.{World, Outcome, ok, thrown, aborted, running, advance, ◌>>◌}
use optimistic_locking.Lock.Word.{exclusive, lock_state}
use optimistic_locking.Lock.{unlock_shared, unlock_exclusive}
use optimistic_locking.Guard.{
  GuardMode, optimistic, shared, exclusively, moved, HybridGuard, Self, with_guard, made,
  load_state, wait_while_exclusive, validate_optimistic_lock, must_restart, acquire_exclusive,
  acquire_shared, hybrid_guard, unlock, destroy_guard,
}
use optimistic_locking.Threads.{
  Pc, idle, writing, reading, observing, validated, wait_optimistic, start_optimistic, validate,
}
use optimistic_locking.Threads.Code.{done, access, Follows, Follows-extend, Follows-and_then}
use optimistic_locking.Threads.Code.Locks.{
  same, self, acquire_exclusive-Does, acquire_shared-Does, unlock_exclusive-Does,
  unlock_shared-Does,
}

-- Where a thread is that has a guard, having read `seen` under it.
abbrev pub place_of : {D : Type 0} → GuardMode → ℕ → List D → Pc D
place_of optimistic state seen = observing state seen
place_of shared state seen = reading
place_of exclusively state seen = writing
place_of moved state seen = idle

-- and where the guard's destructor leaves it
abbrev pub place_after : {D : Type 0} → GuardMode → List D → Pc D
place_after optimistic seen = validated seen
place_after _ seen = idle

abbrev pub guard_of : ℕ → GuardMode → ℕ → HybridGuard
guard_of lock mode state = record { lock = lock; mode = mode; state = state }

module _ {D : Type 0} (lock : ℕ) where
  abbrev in_guard : Self D → World D
  in_guard s = s.1

  abbrev observing_in : Unit {0} → Self D → Pc D
  observing_in _ s = observing (HybridGuard.state s.0) []

  -- The loads of the constructor of an optimistic guard.
  optimistic_loop-Follows :
      (rounds state : ℕ) (w : World D)
      → Follows in_guard lock observing_in idle w idle
          ((load_state >> wait_while_exclusive rounds) (guard_of lock optimistic state, w))
  unfolding load_state wait_while_exclusive
  optimistic_loop-Follows zero state w = tt
  optimistic_loop-Follows (suc rounds) state w =
      let w1 = advance w in
      let v = (w1.mem).cells lock in
      elim (Bool-cases (lock_state v == exclusive)) [
        | inl held ↦
            let is_held : lock_state v ≡ exclusive = ground arith in
            rw held (
              Follows-extend in_guard lock idle observing_in w w1 idle idle _
                (access same (λ n. wait_optimistic is_held) done)
                (optimistic_loop-Follows rounds v w1))
        | inr free ↦
            let is_free : lock_state v ≢ exclusive = ground arith in
            rw free (access same (λ n. start_optimistic is_free) done)
      ]

  -- Between the methods' own state and the world.
  made-Follows :
      (P : ℕ → Pc D) (w : World D) (p : Pc D) (x : Outcome (Self D) (Unit {0}))
      → Follows in_guard lock (λ _ s. P (HybridGuard.state s.0)) idle w p x
      → Follows (self lock) lock (λ g _. P (HybridGuard.state g)) idle w p (made x)
  made-Follows P w p (ok _ s) h = h
  made-Follows P w p (thrown e s) h = h
  made-Follows P w p aborted h = h
  made-Follows P w p running h = h

  with_guard-Follows :
      {A : Type 0} (g : HybridGuard) (p' : Pc D) (w : World D) (p : Pc D) (x : Outcome (World D) A)
      → Follows (self lock) lock (λ _ _. p') idle w p x
      → Follows in_guard lock (λ _ _. p') idle w p (with_guard g x)
  with_guard-Follows g p' w p (ok _ s) h = h
  with_guard-Follows g p' w p (thrown e s) h = h
  with_guard-Follows g p' w p aborted h = h
  with_guard-Follows g p' w p running h = h

  -- While the others take a turn before each access: the constructor of a guard of any mode makes
  -- the moves of an idle thread, except that nothing is said where the rounds of its loops are used
  -- up. If it returns, they lead to where a thread is with a guard of this mode, and the guard has
  -- kept the word that was seen; a failed assertion would be a crash, and behind an exception the
  -- thread is idle.
  pub hybrid_guard-Follows :
      (rounds : ℕ) (mode : GuardMode) (w : World D)
      → Follows
          (self lock)
          lock
          (λ g _. place_of mode (HybridGuard.state g) [])
          idle
          w
          idle
          (hybrid_guard rounds lock mode w)
  unfolding hybrid_guard
  hybrid_guard-Follows rounds optimistic w =
      made-Follows (λ state. observing state []) w idle _ (optimistic_loop-Follows rounds 0 w)
  hybrid_guard-Follows rounds shared w =
      made-Follows (λ _. reading) w idle _
        (with_guard-Follows (guard_of lock shared 0) reading w idle (acquire_shared rounds lock w)
          (acquire_shared-Does lock rounds w))
  hybrid_guard-Follows rounds exclusively w =
      made-Follows (λ _. writing) w idle _
        (with_guard-Follows (guard_of lock exclusively 0) writing w idle
          (acquire_exclusive rounds lock w) (acquire_exclusive-Does lock rounds w))
  hybrid_guard-Follows rounds moved w = done

  -- While the others take a turn before each access: the destructor of a guard of any mode, with
  -- anything read under it, makes the moves of a thread that has this guard, except that nothing is
  -- said where the rounds of its loops are used up. If it returns, an optimistic guard's reads are validated, and any other thread is idle; behind
  -- an exception the thread is idle; a failed assertion is a crash.
  pub destroy_guard-Follows :
      (rounds state : ℕ) (mode : GuardMode) (seen : List D) (w : World D)
      → Follows in_guard lock
          (λ (_ : Unit {0}) _. place_after mode seen)
          idle
          w
          (place_of mode state seen)
          (destroy_guard rounds (guard_of lock mode state, w))
  unfolding destroy_guard validate_optimistic_lock unlock
  destroy_guard-Follows rounds state optimistic seen w =
      let w1 = advance w in
      elim (Bool-cases (must_restart ((w1.mem).cells lock) state)) [
        | inl restart ↦ rw restart (access same (λ n. validate {b = true} restart) done)
        | inr fine ↦ rw fine (access same (λ n. validate {b = false} fine) done)
      ]
  destroy_guard-Follows rounds state shared seen w =
      Follows-and_then in_guard lock idle (λ _ _. idle) (λ (_ : Unit {0}) _. idle) w reading
        (with_guard (guard_of lock shared state) (unlock_shared rounds lock w)) _
        (with_guard-Follows (guard_of lock shared state) idle w reading
          (unlock_shared rounds lock w) (unlock_shared-Does lock rounds w))
        λ _ u. done
  destroy_guard-Follows rounds state exclusively seen w =
      Follows-and_then in_guard lock idle (λ _ _. idle) (λ (_ : Unit {0}) _. idle) w writing
        (with_guard (guard_of lock exclusively state) (unlock_exclusive lock w)) _
        (with_guard-Follows (guard_of lock exclusively state) idle w writing
          (unlock_exclusive lock w) (unlock_exclusive-Does lock w))
        λ _ u. done
  destroy_guard-Follows rounds state moved seen w = done
