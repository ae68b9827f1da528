-- ===== src/Lock/Word.antt =====
-- include/sync/lock.h: the 64-bit word of a lock, its state in the top 8 bits and its version in the
-- low 56, and the functions that take it apart and build the next one.
use Prim.Native.Nat.{bit_and, bit_or}
use optimistic_locking.Base.{ℕ, ◌+◌, ◌-◌, ◌*◌, ◌/◌, ◌%◌, ◌^◌, Bool, ◌&&◌, ltb, ◌==◌}

abbrev pub u64_mod : ℕ
u64_mod = 2 ^ 64

abbrev pub u64 : ℕ → ℕ
u64 n = n % u64_mod

-- `<<` and `>>` on uint64_t
abbrev pub shl : ℕ → ℕ → ℕ
shl v k = u64 (v * 2 ^ k)

abbrev pub shr : ℕ → ℕ → ℕ
shr v k = v / 2 ^ k

abbrev pub version_mask : ℕ
version_mask = shl 1 56 - 1

abbrev pub unlocked : ℕ
unlocked = 0

-- number of holders of the shared lock at most
abbrev pub max_shared : ℕ
max_shared = 254

abbrev pub exclusive : ℕ
exclusive = 255

unfoldable pub lock_state : ℕ → ℕ
lock_state v = shr v 56

unfoldable pub version : ℕ → ℕ
version v = bit_and v version_mask

unfoldable pub is_exclusively_locked : ℕ → Bool
is_exclusively_locked v = lock_state v == exclusive

unfoldable pub is_shared_locked : ℕ → Bool
is_shared_locked v = let curr = lock_state v in ltb unlocked curr && ltb curr exclusive

unfoldable pub same_version_new_state : ℕ → ℕ → ℕ
same_version_new_state v new_state = bit_or (shr (shl v 8) 8) (shl new_state 56)

unfoldable pub next_version_new_state : ℕ → ℕ → ℕ
next_version_new_state v new_state = bit_or (u64 (shr (shl v 8) 8 + 1)) (shl new_state 56)
