-- ===== src/Base/Family.antt =====
-- Families `ℕ → A`, of memory cells or of threads: update at one index, sums over the first `n`.
use Prim.Native.Nat.{ℕ, zero, suc, ◌+◌, ◌≤◌, ◌<◌}
use mathlib.Core.Path.{◌≡◌, refl}
use mathlib.Core.Logic.{ite, if_pos, if_neg, ◌≢◌}
use native.Mathlib.Decide.{ℕ_discrete}
use native.Mathlib.Omega.{arith}

abbrev pub update {ℓ} : {A : Type ℓ} → (ℕ → A) → ℕ → A → ℕ → A
update f i a j = ite (ℕ_discrete i j) a (f j)

-- What holds of the new value and of the others holds behind an update.
pub update_elim {ℓ κ} :
    {A : Type ℓ} (P : A → Type κ) (f : ℕ → A) (i : ℕ) (a : A) (j : ℕ)
    → (i ≡ j → P a)
    → (i ≢ j → P (f j))
    → P (update f i a j)
update_elim P f i a j new old = elim (ℕ_discrete i j) [
  | yes e ↦ rw (if_pos _ e) (new e)
  | no n ↦ rw (if_neg _ n) (old n)
]

module _ {ℓ} {A : Type ℓ} where
  pub update_self : (c : ℕ → A) (j : ℕ) (a : A) → update c j a j ≡ a
  update_self c j a = ground arith

  pub update_ne : (c : ℕ → A) (j : ℕ) (a : A) (k : ℕ) → j ≢ k → update c j a k ≡ c k
  update_ne c j a k ne = ground arith

-- How much the members below `n` weigh together.
module _ {ℓ} {A : Type ℓ} (weight : A → ℕ) where
  unfoldable pub total : ℕ → (ℕ → A) → ℕ
  total zero c = 0
  total (suc k) c = weight (c k) + total k c

  pub total-eq_zero : (n : ℕ) (c : ℕ → A) → ((j : ℕ) → weight (c j) ≡ 0) → total n c ≡ 0
  unfolding total
  total-eq_zero zero c light = refl
  total-eq_zero (suc k) c light = rw (light k, total-eq_zero k c light)

  -- A member weighs no more than all, and two members no more than all.
  pub le-total : (n : ℕ) (c : ℕ → A) (j : ℕ) → j < n → weight (c j) ≤ total n c
  unfolding total
  le-total zero c j h = absurd (omega arith)
  le-total (suc k) c j h = elim (ℕ_discrete j k) [
    | yes top ↦ rw top (omega arith)
    | no lower ↦ omega (arith, le-total k c j (omega arith))
  ]

  pub add-le-total_of_ne :
      (n : ℕ) (c : ℕ → A) (i j : ℕ)
      → i ≢ j
      → i < n
      → j < n
      → weight (c i) + weight (c j) ≤ total n c
  unfolding total
  add-le-total_of_ne zero c i j ne hi hj = absurd (omega arith)
  add-le-total_of_ne (suc k) c i j ne hi hj = elim (ℕ_discrete i k) [
    | yes top ↦ rw top (omega (arith, le-total k c j (omega arith)))
    | no lower ↦ elim (ℕ_discrete j k) [
      | yes top ↦ rw top (omega (arith, le-total k c i (omega arith)))
      | no below ↦ omega (arith, add-le-total_of_ne k c i j ne (omega arith) (omega arith))
    ]
  ]

  -- What an update does to the total: nothing beyond the end, else it exchanges one weight.
  untouched : (n : ℕ) (c : ℕ → A) (j : ℕ) (a : A) → n < j + 1 → total n (update c j a) ≡ total n c
  unfolding total
  untouched zero c j a h = refl
  untouched (suc k) c j a h = rw (untouched k c j a (omega arith), update_ne c j a k (omega arith))

  pub total-update :
      (n : ℕ) (c : ℕ → A) (j : ℕ) (a : A)
      → j < n
      → total n (update c j a) + weight (c j) ≡ total n c + weight a
  unfolding total
  total-update zero c j a h = absurd (omega arith)
  total-update (suc k) c j a h = elim (ℕ_discrete j k) [
    | yes top ↦ rw (top, update_self c k a, untouched k c k a (omega arith)) (omega arith)
    | no lower ↦ rw (update_ne c j a k lower) (omega (arith, total-update k c j a (omega arith)))
  ]
