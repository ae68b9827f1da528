-- ===== src/Lock/WordLaws.antt =====
-- include/sync/lock.h: what the functions on a lock's word compute, in plain arithmetic.
use optimistic_locking.Base.{ℕ, ◌+◌, ◌*◌, ◌/◌, ◌%◌, ◌^◌, ◌<◌, ◌≡◌, refl, true, false, arith, dec_lt}
use optimistic_locking.Base.Bits.{bit_and-ones, bit_or-field}
use optimistic_locking.Lock.Word.{
  unlocked, exclusive, lock_state, version, is_exclusively_locked, is_shared_locked,
  same_version_new_state, next_version_new_state,
}

pub version-mod : (v : ℕ) → version v ≡ v % 2 ^ 56
unfolding version
version-mod v = bit_and-ones 56 v

pub same_version_new_state-add :
    (v s : ℕ) → s < 256 → same_version_new_state v s ≡ version v + s * 2 ^ 56
unfolding same_version_new_state
same_version_new_state-add v s h =
    let low : v * 2 ^ 8 % 2 ^ 64 / 2 ^ 8 ≡ v % 2 ^ 56 = omega arith in
    let high : s * 2 ^ 56 % 2 ^ 64 ≡ s * 2 ^ 56 = omega arith in
    rw (low, high, version-mod) (bit_or-field 56 (v % 2 ^ 56) s (omega arith))

-- Below the last version the next word has the next version.
pub next_version_new_state-add :
    (v s : ℕ)
    → s < 256
    → version v + 1 < 2 ^ 56
    → next_version_new_state v s ≡ version v + 1 + s * 2 ^ 56
unfolding next_version_new_state
next_version_new_state-add v s h fits =
    let low : (v * 2 ^ 8 % 2 ^ 64 / 2 ^ 8 + 1) % 2 ^ 64 ≡ version v + 1 =
      omega (arith, version-mod v) in
    let high : s * 2 ^ 56 % 2 ^ 64 ≡ s * 2 ^ 56 = omega arith in
    rw (low, high) (bit_or-field 56 (version v + 1) s fits)

pub version-lt : (v : ℕ) → version v < 2 ^ 56
version-lt v = omega (arith, version-mod v)

pub lock_state-lt : (v : ℕ) → v < 2 ^ 64 → lock_state v < 256
unfolding lock_state
lock_state-lt v h = omega arith

-- A word is its version and its state.
pub word-eq : (v : ℕ) → v ≡ version v + lock_state v * 2 ^ 56
unfolding lock_state
word-eq v = omega (arith, version-mod v)

-- The fields of a word that is given by its fields.
pub record HasFields (w ver state : ℕ) : Type 0 where
  pub fits : w < 2 ^ 64
  pub state_is : lock_state w ≡ state
  pub version_is : version w ≡ ver

pub add-HasFields :
    (w ver state : ℕ)
    → w ≡ ver + state * 2 ^ 56
    → ver < 2 ^ 56
    → state < 256
    → HasFields w ver state
unfolding lock_state
add-HasFields w ver state e v s = omega (arith, version-mod w)

pub same_version_new_state-HasFields :
    (v s : ℕ) → s < 256 → HasFields (same_version_new_state v s) (version v) s
same_version_new_state-HasFields v s h =
    add-HasFields _ (version v) s (same_version_new_state-add v s h) (version-lt v) h

pub next_version_new_state-HasFields :
    (v s : ℕ)
    → s < 256
    → version v + 1 < 2 ^ 56
    → HasFields (next_version_new_state v s) (version v + 1) s
next_version_new_state-HasFields v s h fits =
    add-HasFields _ (version v + 1) s (next_version_new_state-add v s h fits) fits h

-- At the last version the carry goes into the state: the version is 0 again, and the state 1.
pub next_version_new_state-carry :
    (v s : ℕ) → s < 2 → version v + 1 ≡ 2 ^ 56 → HasFields (next_version_new_state v s) 0 1
unfolding next_version_new_state
next_version_new_state-carry v s h last = elim (dec_lt s 1) [
  | yes p ↦
      let e : s ≡ 0 = omega arith in
      rw (low, e) (add-HasFields _ 0 1 refl (omega arith) (omega arith))
  | no p ↦
      let e : s ≡ 1 = omega arith in
      rw (low, e) (add-HasFields _ 0 1 refl (omega arith) (omega arith))
]
  where
    low : (v * 2 ^ 8 % 2 ^ 64 / 2 ^ 8 + 1) % 2 ^ 64 ≡ 2 ^ 56
    low = omega (arith, version-mod v)

-- The assertions' tests.
pub is_exclusively_locked-true : (v : ℕ) → lock_state v ≡ exclusive → is_exclusively_locked v ≡ true
unfolding is_exclusively_locked
is_exclusively_locked-true v h = ground arith

pub is_exclusively_locked-false :
    (v : ℕ) → lock_state v < exclusive → is_exclusively_locked v ≡ false
unfolding is_exclusively_locked
is_exclusively_locked-false v h = ground arith

pub is_shared_locked-true :
    (v : ℕ) → 0 < lock_state v → lock_state v < exclusive → is_shared_locked v ≡ true
unfolding is_shared_locked
is_shared_locked-true v h k = ground arith

pub is_shared_locked-false : (v : ℕ) → lock_state v ≡ unlocked → is_shared_locked v ≡ false
unfolding is_shared_locked
is_shared_locked-false v h = ground arith

pub is_shared_locked-exclusive : (v : ℕ) → lock_state v ≡ exclusive → is_shared_locked v ≡ false
unfolding is_shared_locked
is_shared_locked-exclusive v h = ground arith
