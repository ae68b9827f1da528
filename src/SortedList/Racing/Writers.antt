-- ===== src/SortedList/Racing/Writers.antt =====
-- src/sync/lock.cc: the operations of the lock, beside a `LookUp` of another thread.
use optimistic_locking.Base.{
  ℕ, ◌^◌, ◌≤◌, ◌<◌, ◌≡◌, refl, sym, ap, ◌∙◌, Bool, Option, none, some, arith,
}
use optimistic_locking.Machine.{Memory, World, ok, quiet}
use optimistic_locking.Lock.Word.{exclusive, lock_state}
use optimistic_locking.Lock.Spec.{View, Mode, Operation, mode_of, view_of, spec}
use optimistic_locking.Lock.Refinement.{view_operation, Ready, run, Agrees, run-spec}
use optimistic_locking.SortedList.Shared.{Shared}
use optimistic_locking.SortedList.Racing.{Evolves, word}

-- What the specification does to versions and to a writer.
abbrev Onward : View → View → Type 0
Onward v v' =
    (v.version ≤ v'.version)
    × (v.version ≡ v'.version → v.mode ≡ Mode.writer → v'.mode ≡ Mode.writer)

spec-Onward :
    (o : Operation View) (v : View) (b : Bool) (v' : View) → spec o v ≡ some (b, v') → Onward v v'
unfolding spec
spec-Onward (Operation.lock_exclusive seen) v b v' e = ground arith
spec-Onward (Operation.lock_shared seen) v b v' e = ground arith
spec-Onward (Operation.upgrade seen) v b v' e = ground arith
spec-Onward Operation.unlock_exclusive v b v' e = ground arith
spec-Onward Operation.unlock_shared v b v' e = ground arith
spec-Onward Operation.downgrade v b v' e = ground arith

mode_of-exclusive : (n : ℕ) → n ≡ exclusive → mode_of n ≡ Mode.writer
mode_of-exclusive n e = ground arith

mode_of-writer : (n : ℕ) → mode_of n ≡ Mode.writer → n ≡ exclusive
mode_of-writer n e = ground arith

module _ {T : Type 0} (lock : ℕ) where
  Onward-Evolves :
      (m m' : Memory (Shared T))
      → m'.rest ≡ m.rest
      → Onward (view_of (word lock m)) (view_of (word lock m'))
      → Evolves lock m m'
  Onward-Evolves m m' same (versions, held) = record {
    versions = versions;
    held = λ e h.
        mode_of-writer (lock_state (word lock m'))
          (held e (mode_of-exclusive (lock_state (word lock m)) h));
    nodes_same = λ _ _. ap Shared.heap same;
  }

  Agrees-Evolves :
      (o : Operation View) (m : Memory (Shared T)) (b : Bool) (w' : World (Shared T))
      (s : Option (Bool × View))
      → s ≡ spec o (view_of (word lock m))
      → Agrees lock m (ok b w') s
      → Evolves lock m w'.mem
  Agrees-Evolves o m b w' none e h = absurd h
  Agrees-Evolves o m b w' (some (c, v)) e (_, seen, _, kept, _) = Onward-Evolves m w'.mem kept (
      spec-Onward o (view_of (word lock m)) c (view_of (word lock w'.mem))
        (sym e ∙ ap (λ z. some (c, z)) (sym seen)))

  -- Each of the six operations of `HybridLock`, by a thread that runs alone on a word of 64 bits, away
  -- from the last version where a writer releases the lock: where it returns, the version is the
  -- same or more, a writer that had the lock has it still unless the version is more, and the nodes
  -- of the list are the same.
  pub run-Evolves :
      (m : Memory (Shared T)) (o : Operation ℕ) (b : Bool) (w' : World (Shared T))
      → word lock m < 2 ^ 64
      → Ready (word lock m) o
      → run lock o (quiet m) ≡ ok b w'
      → Evolves lock m w'.mem
  run-Evolves m o b w' fits ready done =
      Agrees-Evolves (view_operation o) m b w' (spec (view_operation o) (view_of (word lock m)))
        refl (rw done at (run-spec lock m fits o ready))
