-- ===== src/Guard/Wait.antt =====
-- src/sync/guard.cc: the loop of the constructor that waits for the lock to be free.
use optimistic_locking.Base.{
  ℕ, suc, ◌^◌, ◌<◌, ◌≡◌, ◌≢◌, refl, ◌∙◌, false, List, [], ◌∷◌, ◌++◌, map, All, length, arith,
}
use optimistic_locking.Machine.{Memory, Turn, World, ok, running, quiet, set_cell}
use optimistic_locking.Lock.Word.{unlocked, exclusive, lock_state, same_version_new_state}
use optimistic_locking.Lock.Attempts.{try_lock_exclusive_busy, try_lock_exclusive_free}
use optimistic_locking.Guard.{acquire_exclusive}

module _ {H : Type 0} where
  -- The other threads leave memory as given.
  abbrev pub becomes : Memory H → Turn H
  becomes m = record { interfere = λ _. m; spurious = false }

  abbrev pub Busy : ℕ → Memory H → Type 0
  Busy lock m = (m.cells lock < 2 ^ 64) × (lock_state (m.cells lock) ≢ unlocked)

-- A round that finds the lock busy goes on with the next.
pub next_round :
    {H : Type 0} (lock rounds : ℕ) (start m : Memory H) (ts : List (Turn H))
    → Busy lock m
    → acquire_exclusive (suc rounds) lock (record { mem = start; turns = becomes m ∷ ts })
      ≡ acquire_exclusive rounds lock (record { mem = m; turns = ts })
unfolding acquire_exclusive
next_round lock rounds start m ts held =
    rw (try_lock_exclusive_busy lock (m.cells lock) held.0 held.1 (record { mem = m; turns = ts }))

module _ {H : Type 0} (lock : ℕ) (free : Memory H)
    (is_free : lock_state (free.cells lock) ≡ unlocked) where
  -- The loads of the loop find the words of the memories `busy`, 64 bits wide and of a lock that is
  -- not free, and then that of a free lock, and no other thread moves before the exchange. Then the
  -- guard takes the lock in the round of that last load; and it is still in its loop after the
  -- rounds before.
  pub acquire_exclusive_first_free :
      (start : Memory H) (busy : List (Memory H))
      → All (Busy lock) busy
      → let w : World H = record { mem = start; turns = map becomes busy ++ becomes free ∷ [] } in
        (acquire_exclusive (suc (length busy)) lock w
          ≡ ok tt (set_cell (quiet free) lock (same_version_new_state (free.cells lock) exclusive)))
        × (acquire_exclusive (length busy) lock w ≡ running)
  unfolding acquire_exclusive
  acquire_exclusive_first_free start [] held =
      (rw (try_lock_exclusive_free lock (free.cells lock) is_free) (ground arith), refl)
  acquire_exclusive_first_free start (m ∷ busy) held =
      let (ends, waits) = acquire_exclusive_first_free m busy held.1 in
      let ts : List (Turn H) = map becomes busy ++ becomes free ∷ [] in
      (
        next_round lock (suc (length busy)) start m ts held.0 ∙ ends,
        next_round lock (length busy) start m ts held.0 ∙ waits,
      )
