-- ===== src/Tests/Racing.antt =====
-- `LookUp` of the optimistic list while another thread deletes a value.
use optimistic_locking.Base.{
  ◌+◌, ◌*◌, ◌^◌, update, ℕ, ◌≡◌, refl, inl, inr, true, false, some, [], ◌∷◌, ◌==◌, if◌then◌else◌,
  Bool-cases, ℕ_discrete, arith,
}
use optimistic_locking.Machine.{Memory, Turn, World, ok, quiet}
use optimistic_locking.Lock.{unlock_exclusive}
use optimistic_locking.Lock.Spec.{Operation}
use optimistic_locking.Lock.Refinement.{run}
use optimistic_locking.SortedList.Racing.Writers.{run-Evolves}
use optimistic_locking.Lock.Word.{
  is_exclusively_locked, next_version_new_state, lock_state, version,
}
use optimistic_locking.Epoch.{max_value, destroy_epoch_guard}
use optimistic_locking.SortedList.{load_node, look_up}
use optimistic_locking.SortedList.Shared.{Shared}
use optimistic_locking.Guard.{
  hybrid_guard, load_state, wait_while_exclusive, destroy_guard, validate_optimistic_lock,
  must_restart,
}
use optimistic_locking.SortedList.Optimistic.{
  optimistic_look_up, look_up_attempt, with_epoch_guard, with_hybrid_guard, racing_look_up,
}
use optimistic_locking.SortedList.Racing.{Evolves, Evolves_refl, IsFairTurn}
use optimistic_locking.SortedList.Racing.Scope.{Seen}
use optimistic_locking.SortedList.Racing.Attempt.{optimistic_look_up-Seen}
use optimistic_locking.Tests.SortedList.{key, heap}
use optimistic_locking.Tests.OptimisticList.{handler, shared_list, list}

-- Another thread deletes 30 in one go, unless the version is past 0: the lock is free then, at the
-- next version.
abbrev deleted_30 : Memory (Shared ℕ) → Memory (Shared ℕ)
deleted_30 m =
    if version (m.cells 0) == 0
    then record {
      cells = λ _. 1;
      rest = record (m.rest) { heap = record ((m.rest).heap) { root = 6 } };
    }
    else m

abbrev overtaking : Turn (Shared ℕ)
overtaking = record { interfere = deleted_30; spurious = false }

abbrev nothing : Turn (Shared ℕ)
nothing = record { interfere = λ m. m; spurious = false }

version_one : version 1 ≡ 1
unfolding version
version_one = refl

-- The others move while the list is searched, so the first attempt is given up.
abbrev racing_world : World (Shared ℕ)
racing_world = record {
  mem = shared_list;
  turns = nothing ∷ nothing ∷ nothing ∷ nothing ∷ overtaking ∷ [];
}

abbrev behind : World (Shared ℕ)
behind = quiet (record {
  cells = λ _. 1;
  rest = record {
    heap = record heap { root = 6 };
    epoch = record handler { local_epoch = max_value ∷ max_value ∷ [] };
    result = some 40;
  };
})

second_attempt : optimistic_look_up key 2 3 list 1 40 racing_world ≡ ok true behind
unfolding optimistic_look_up load_node look_up_attempt with_epoch_guard with_hybrid_guard
    racing_look_up hybrid_guard load_state wait_while_exclusive destroy_guard
    validate_optimistic_lock must_restart destroy_epoch_guard lock_state version ℕ_discrete
second_attempt = refl

overtaking-IsFairTurn : IsFairTurn 0 overtaking
overtaking-IsFairTurn m = elim (Bool-cases (version (m.cells 0) == 0)) [
  | inl old ↦
      let zero_ : version (m.cells 0) ≡ 0 = ground arith in
      rw old (
        record {
          versions = omega (arith, version_one);
          held = λ e _. absurd (omega (arith, version_one));
          nodes_same = λ e _. absurd (omega (arith, version_one));
        },
        refl,
      )
  | inr past ↦ rw past (Evolves_refl 0 m, refl)
]

optimistic_look_up-Seen_example : Seen 0 (look_up key 3 40) racing_world true behind
optimistic_look_up-Seen_example =
    optimistic_look_up-Seen key list 1 40 3 2 racing_world behind true
      (
        (λ m. (Evolves_refl 0 m, refl)),
        (
          (λ m. (Evolves_refl 0 m, refl)),
          (
            (λ m. (Evolves_refl 0 m, refl)),
            ((λ m. (Evolves_refl 0 m, refl)), (overtaking-IsFairTurn, tt)),
          ),
        ),
      )
      second_attempt

-- Another thread holds the lock exclusively at version 5 and releases it.
abbrev writing : Memory (Shared ℕ)
writing = record { cells = λ _. 255 * 2 ^ 56 + 5; rest = shared_list.rest }

abbrev released : Memory (Shared ℕ)
released = record { cells = update (λ _. 255 * 2 ^ 56 + 5) 0 6; rest = shared_list.rest }

release : run 0 Operation.unlock_exclusive (quiet writing) ≡ ok true (quiet released)
unfolding unlock_exclusive is_exclusively_locked lock_state next_version_new_state version
    ℕ_discrete
release = refl

run-Evolves_example : Evolves 0 writing released
unfolding version
run-Evolves_example =
    run-Evolves 0 writing Operation.unlock_exclusive true (quiet released) (omega arith)
      (omega arith) release
