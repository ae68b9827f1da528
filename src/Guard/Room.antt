-- ===== src/Guard/Room.antt =====
-- src/sync/guard.cc: the loop of the constructor that waits for room for a reader.
use optimistic_locking.Base.{
  ℕ, suc, ◌+◌, ◌<◌, ◌≤◌, ◌≡◌, refl, ◌∙◌, List, [], ◌∷◌, ◌++◌, map, All, length, arith,
}
use optimistic_locking.Machine.{Memory, Turn, World, ok, running, quiet, set_cell}
use optimistic_locking.Lock.Word.{max_shared, lock_state, same_version_new_state}
use optimistic_locking.Lock.Attempts.{try_lock_shared_busy, try_lock_shared_free}
use optimistic_locking.Guard.{acquire_shared}
use optimistic_locking.Guard.Wait.{becomes}

-- a writer, or as many readers as the word can count
abbrev pub IsFull : {H : Type 0} → ℕ → Memory H → Type 0
IsFull lock m = max_shared ≤ lock_state (m.cells lock)

-- A round that finds no room goes on with the next.
next_round :
    {H : Type 0} (lock rounds : ℕ) (start m : Memory H) (ts : List (Turn H))
    → IsFull lock m
    → acquire_shared (suc rounds) lock (record { mem = start; turns = becomes m ∷ ts })
      ≡ acquire_shared rounds lock (record { mem = m; turns = ts })
unfolding acquire_shared
next_round lock rounds start m ts full =
    rw (try_lock_shared_busy lock (m.cells lock) (omega arith) (record { mem = m; turns = ts }))

module _ {H : Type 0} (lock : ℕ) (free : Memory H)
    (room : lock_state (free.cells lock) < max_shared) where
  -- The loads of the loop find the words of the memories `full`, each of a writer or of as many
  -- readers as there may be, and then one with room for a reader, and no other thread moves before
  -- the exchange. Then the guard is one reader more in the round of that last load; and it is still in
  -- its loop after the rounds before.
  pub acquire_shared_first_room :
      (start : Memory H) (full : List (Memory H))
      → All (IsFull lock) full
      → let v = free.cells lock in
        let w : World H = record { mem = start; turns = map becomes full ++ becomes free ∷ [] } in
        (acquire_shared (suc (length full)) lock w
          ≡ ok tt (set_cell (quiet free) lock (same_version_new_state v (lock_state v + 1))))
        × (acquire_shared (length full) lock w ≡ running)
  unfolding acquire_shared
  acquire_shared_first_room start [] all =
      (rw (try_lock_shared_free lock (free.cells lock) room) (ground arith), refl)
  acquire_shared_first_room start (m ∷ full) all =
      let (ends, waits) = acquire_shared_first_room m full all.1 in
      let ts : List (Turn H) = map becomes full ++ becomes free ∷ [] in
      (
        next_round lock (suc (length full)) start m ts all.0 ∙ ends,
        next_round lock (length full) start m ts all.0 ∙ waits,
      )
