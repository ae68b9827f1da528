-- ===== src/Tests/Code.antt =====
-- The code of a guard between turns of another thread, on a lock at address 0.
use optimistic_locking.Base.{ℕ, false, [], ◌∷◌, update}
use optimistic_locking.Machine.{Memory, Turn, World}
use optimistic_locking.Guard.{
  optimistic, exclusively, HybridGuard, Self, hybrid_guard, destroy_guard,
}
use optimistic_locking.Threads.{idle}
use optimistic_locking.Threads.Code.{Follows}
use optimistic_locking.Threads.Code.Guards.{
  place_of, place_after, guard_of, hybrid_guard-Follows, destroy_guard-Follows,
}

abbrev new_lock : Memory ℕ
new_lock = record { cells = update (λ _. 0) 0 0; rest = 7 }

abbrev looking : Turn ℕ
looking = record { interfere = λ m. m; spurious = false }

-- The other thread only looks, twice.
abbrev between : World ℕ
between = record { mem = new_lock; turns = looking ∷ looking ∷ [] }

hybrid_guard-Follows_example :
    Follows {W = World ℕ}
      (λ w. w)
      0
      (λ g _. place_of exclusively (HybridGuard.state g) [])
      idle
      between
      idle
      (hybrid_guard 1 0 exclusively between)
hybrid_guard-Follows_example = hybrid_guard-Follows 0 1 exclusively between

destroy_guard-Follows_example :
    Follows {W = Self ℕ}
      (λ s. s.1)
      0
      (λ (_ : Unit {0}) _. place_after optimistic (7 ∷ []))
      idle
      between
      (place_of optimistic 0 (7 ∷ []))
      (destroy_guard 1 (guard_of 0 optimistic 0, between))
destroy_guard-Follows_example = destroy_guard-Follows 0 1 0 optimistic (7 ∷ []) between
