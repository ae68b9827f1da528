-- ===== src/Lock/Spec.antt =====
-- What a `HybridLock` promises, without words and bits: who holds it, and how often it was released
-- by a writer.
use optimistic_locking.Base.{
  ℕ, ◌+◌, ◌-◌, Bool, true, false, ◌&&◌, Option, none, some, ltb, ◌==◌, if◌then◌else◌,
}
use optimistic_locking.Lock.Word.{unlocked, max_shared, exclusive, lock_state, version}

pub data Mode : Type 0 where
  free : Mode
  readers : ℕ → Mode
  writer : Mode

pub record View : Type 0 where
  pub mode : Mode
  pub version : ℕ

-- The view of a word.
abbrev pub mode_of : ℕ → Mode
mode_of n = if n == unlocked then free else if n == exclusive then writer else readers n

abbrev pub view_of : ℕ → View
view_of w = record { mode = mode_of (lock_state w); version = version w }

abbrev pub same_mode : Mode → Mode → Bool
same_mode free free = true
same_mode (readers j) (readers k) = j == k
same_mode writer writer = true
same_mode _ _ = false

abbrev pub same_view : View → View → Bool
same_view u v = same_mode u.mode v.mode && u.version == v.version

-- The operations; an attempt names what its caller has seen of the lock before.
pub data Operation (V : Type 0) : Type 0 where
  lock_exclusive : V → Operation V
  lock_shared : V → Operation V
  upgrade : V → Operation V
  unlock_exclusive : Operation V
  unlock_shared : Operation V
  downgrade : Operation V

-- The mode that an operation leads to; none, if it is refused.
abbrev pub lock_exclusive_from : Mode → Option Mode
lock_exclusive_from free = some writer
lock_exclusive_from _ = none

abbrev pub lock_shared_from : Mode → Option Mode
lock_shared_from free = some (readers 1)
lock_shared_from (readers k) = if ltb k max_shared then some (readers (k + 1)) else none
lock_shared_from writer = none

abbrev pub upgrade_from : Mode → Option Mode
upgrade_from (readers k) = if k == 1 then some writer else none
upgrade_from _ = none

abbrev pub unlock_shared_from : Mode → Option Mode
unlock_shared_from (readers k) =
    if k == 0 then none else if k == 1 then some free else some (readers (k - 1))
unlock_shared_from _ = none

-- An attempt that is refused, or that comes too late, changes nothing.
abbrev pub attempt : View → Bool → Option Mode → Bool × View
attempt v true (some m) = (true, record v { mode = m })
attempt v _ _ = (false, v)

-- `none` is a failed assertion. A writer's release counts the version up.
abbrev pub release_writer : View → Mode → Option (Bool × View)
release_writer v m = elim v.mode [
  | writer ↦ some (true, record { mode = m; version = v.version + 1 })
  | _ ↦ none
]

abbrev pub release_reader : View → Option Mode → Option (Bool × View)
release_reader v none = none
release_reader v (some m) = some (true, record v { mode = m })

unfoldable pub spec : Operation View → View → Option (Bool × View)
spec (lock_exclusive seen) v = some (attempt v (same_view seen v) (lock_exclusive_from v.mode))
spec (lock_shared seen) v = some (attempt v (same_view seen v) (lock_shared_from v.mode))
spec (upgrade seen) v = some (attempt v (same_view seen v) (upgrade_from v.mode))
spec unlock_exclusive v = release_writer v free
spec downgrade v = release_writer v (readers 1)
spec unlock_shared v = release_reader v (unlock_shared_from v.mode)
