-- ===== src/Tests/Guard.antt =====
-- Guards on a lock at address 0.
use optimistic_locking.Base.{
  ℕ, ◌*◌, ◌+◌, ◌-◌, ◌^◌, ◌≡◌, refl, [], ◌∷◌, false, update, arith, ℕ_discrete,
}
use optimistic_locking.Machine.{
  Memory, ok, thrown, aborted, restart_exception, running, quiet, set_cell, World,
}
use optimistic_locking.Lock.Word.{lock_state, version, exclusive, same_version_new_state}
use optimistic_locking.Lock.WordLaws.{HasFields}
use optimistic_locking.Lock.Wrap.{unlock_exclusive_last_version}
use optimistic_locking.Lock.Retry.{failing, unlock_shared_retries}
use optimistic_locking.Lock.{try_lock_exclusive, unlock_exclusive, unlock_shared}
use optimistic_locking.Guard.Wait.{becomes, acquire_exclusive_first_free}
use optimistic_locking.Guard.{
  HybridGuard, acquire_exclusive, acquire_shared, optimistic, exclusively, moved, hybrid_guard,
  destroy_guard, validate_optimistic_lock, move_assign,
}
use optimistic_locking.Guard.Open.{hybrid_guard_first_open}
use optimistic_locking.Guard.Room.{acquire_shared_first_room}
use optimistic_locking.Guard.Life.{
  exclusive_scope, overtaken_guard_restarts, move_assign_releases_twice, released,
}

abbrev memory : ℕ → Memory ℕ
memory w = record { cells = update (λ _. 0) 0 w; rest = 7 }

-- free, at version 5
abbrev free : Memory ℕ
free = memory 5

-- held exclusively, at version 5
abbrev held : Memory ℕ
held = memory (255 * 2 ^ 56 + 5)

abbrev last : Memory ℕ
last = memory (255 * 2 ^ 56 + 2 ^ 56 - 1)

abbrev guard : HybridGuard
guard = record { lock = 0; mode = optimistic; state = 5 }

abbrev spent : HybridGuard
spent = record { lock = 0; mode = moved; state = 5 }

-- a guard whose lock was released, and the one that it is assigned
abbrev target : HybridGuard
target = record { lock = 1; mode = moved; state = 0 }

abbrev source : HybridGuard
source = record { lock = 0; mode = exclusively; state = 0 }

overtaken_guard_restarts_example :
    (m' : Memory ℕ) × (hybrid_guard 3 0 optimistic (quiet free) ≡ ok guard (quiet free))
    × (exclusive_scope 3 0 (quiet free) ≡ ok tt (quiet m'))
    × (validate_optimistic_lock (guard, quiet m') ≡ thrown restart_exception (spent, quiet m'))
    × (destroy_guard 2 (spent, quiet m') ≡ ok tt (spent, quiet m'))
    × HasFields (m'.cells 0) 6 0
    × (m'.rest ≡ 7)
unfolding lock_state version ℕ_discrete
overtaken_guard_restarts_example = overtaken_guard_restarts 0 free refl (omega arith) 2

move_assign_releases_twice_example :
    (move_assign source (target, quiet held) ≡ ok tt (source, quiet held))
    × (destroy_guard 1 (source, quiet held)
        ≡ ok tt (record source { mode = moved }, quiet (released 0 held)))
    × (destroy_guard 1 (source, quiet (released 0 held)) ≡ aborted)
unfolding lock_state version ℕ_discrete
move_assign_releases_twice_example =
    move_assign_releases_twice 0 0 held target 1 refl refl (omega arith)

unlock_exclusive_last_version_example :
    (m' : Memory ℕ) × (unlock_exclusive 0 (quiet last) ≡ ok tt (quiet m'))
    × HasFields (m'.cells 0) 0 1
    × (try_lock_exclusive 0 (m'.cells 0) (quiet m') ≡ ok false (quiet m'))
unfolding lock_state version ℕ_discrete
unlock_exclusive_last_version_example = unlock_exclusive_last_version 0 last refl refl

-- held shared by three threads, at version 5
abbrev read : Memory ℕ
read = memory (3 * 2 ^ 56 + 5)

unlock_shared_retries_example :
    (unlock_shared 5 0 (failing 4 read)
      ≡ ok tt (set_cell (quiet read) 0 (same_version_new_state (3 * 2 ^ 56 + 5) 2)))
    × (unlock_shared 4 0 (failing 4 read) ≡ running)
unfolding lock_state ℕ_discrete
unlock_shared_retries_example = unlock_shared_retries 0 read (omega arith) (omega arith) 4

-- A writer holds the lock, then three readers do, then nobody.
acquire_exclusive_first_free_example :
    let turns = becomes held ∷ becomes read ∷ becomes free ∷ [] in
    let w : World ℕ = record { mem = memory 1; turns = turns } in
    (acquire_exclusive 3 0 w ≡ ok tt (set_cell (quiet free) 0 (same_version_new_state 5 exclusive)))
    × (acquire_exclusive 2 0 w ≡ running)
unfolding lock_state ℕ_discrete
acquire_exclusive_first_free_example =
    acquire_exclusive_first_free 0 free refl (memory 1) (held ∷ read ∷ []) (omega arith)

-- A writer holds the lock twice, then three readers do.
acquire_shared_first_room_example :
    let turns = becomes held ∷ becomes held ∷ becomes read ∷ [] in
    let w : World ℕ = record { mem = memory 1; turns = turns } in
    (acquire_shared 3 0 w
      ≡ ok tt (set_cell (quiet read) 0 (same_version_new_state (3 * 2 ^ 56 + 5) 4)))
    × (acquire_shared 2 0 w ≡ running)
unfolding lock_state ℕ_discrete
acquire_shared_first_room_example =
    acquire_shared_first_room 0 read (omega arith) (memory 1) (held ∷ held ∷ []) (omega arith)

hybrid_guard_first_open_example :
    let turns = becomes held ∷ becomes held ∷ becomes free ∷ [] in
    let w : World ℕ = record { mem = memory 1; turns = turns } in
    (hybrid_guard 3 0 optimistic w ≡ ok guard (quiet free))
    × (hybrid_guard 2 0 optimistic w ≡ running)
unfolding lock_state ℕ_discrete
hybrid_guard_first_open_example =
    hybrid_guard_first_open 0 free (omega arith) (memory 1) (held ∷ held ∷ []) (refl, (refl, tt))
