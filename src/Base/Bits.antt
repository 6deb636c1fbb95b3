-- ===== src/Base/Bits.antt =====
-- `&` and `|` on numbers of any width: the step from `a / 2` to `a`, a low mask as a remainder,
-- and a field above a smaller one as a sum.
use Prim.Native.Nat.{
  ℕ, zero, suc, ◌+◌, ◌-◌, ◌*◌, ◌/◌, ◌%◌, ◌^◌, ◌≤◌, ◌<◌, min, max, bit_and, bit_or, digits,
  bit_and-bitwise, bit_or-bitwise,
}
use mathlib.Core.Path.{◌≡◌, refl, sym, ap, ap₂, ◌≡⟨◌⟩◌, ◌∎}
use native.Mathlib.Nat.{pow-suc, mod-lt, div-add-mod'}
use native.Mathlib.Decide.{dec_lt}
use native.Mathlib.Omega.{arith}

-- The recursion on digits takes any fuel from `a` on.
module _ (low : ℕ → ℕ) (op : ℕ → ℕ → ℕ) where
  enough_fuel :
      (a b fuel more : ℕ) → a ≤ more → a ≤ fuel → digits low op fuel a b ≡ digits low op more a b
  enough_fuel (suc a) b (suc fuel) (suc more) h h' =
      let half : digits low op fuel (suc a / 2) (b / 2) ≡ digits low op more (suc a / 2) (b / 2) =
        enough_fuel (suc a / 2) (b / 2) fuel more (omega arith) (omega arith) in
      omega (arith, half)
  enough_fuel zero b (suc fuel) (suc more) h h' = refl
  enough_fuel zero b (suc fuel) zero h h' = refl
  enough_fuel zero b zero (suc more) h h' = refl
  enough_fuel zero b zero zero h h' = refl
  enough_fuel (suc a) b fuel zero h h' = absurd (omega arith)
  enough_fuel (suc a) b zero more h h' = absurd (omega arith)

pub bit_and-step : (a b : ℕ) → bit_and a b ≡ bit_and (a / 2) (b / 2) * 2 + min (a % 2) (b % 2)
bit_and-step zero b = omega (arith, bit_and-bitwise 0 b, bit_and-bitwise 0 (b / 2))
bit_and-step (suc a) b = omega (
  arith,
  bit_and-bitwise (suc a) b,
  bit_and-bitwise (suc a / 2) (b / 2),
  enough_fuel (λ b. zero) min (suc a / 2) (b / 2) a (suc a / 2) (omega arith) (omega arith),
)

pub bit_or-step : (a b : ℕ) → bit_or a b ≡ bit_or (a / 2) (b / 2) * 2 + max (a % 2) (b % 2)
bit_or-step zero b = omega (arith, bit_or-bitwise 0 b, bit_or-bitwise 0 (b / 2))
bit_or-step (suc a) b = omega (
  arith,
  bit_or-bitwise (suc a) b,
  bit_or-bitwise (suc a / 2) (b / 2),
  enough_fuel (λ b. b) max (suc a / 2) (b / 2) a (suc a / 2) (omega arith) (omega arith),
)

bit_and-zero : (n a : ℕ) → a ≤ n → bit_and a 0 ≡ 0
bit_and-zero n zero h = refl
bit_and-zero zero (suc a) h = absurd (omega arith)
bit_and-zero (suc n) (suc a) h =
    omega (arith, bit_and-step (suc a) 0, bit_and-zero n (suc a / 2) (omega arith))

bit_or-zero : (n a : ℕ) → a ≤ n → bit_or a 0 ≡ a
bit_or-zero n zero h = refl
bit_or-zero zero (suc a) h = absurd (omega arith)
bit_or-zero (suc n) (suc a) h =
    omega (arith, bit_or-step (suc a) 0, bit_or-zero n (suc a / 2) (omega arith))

-- A remainder is determined by its bound and its quotient.
mod_unique : (m q r : ℕ) → r < m → (q * m + r) % m ≡ r
mod_unique m q r h = grind arith

pub two-pow-pos : (k : ℕ) → 1 ≤ 2 ^ k
two-pow-pos zero = omega arith
two-pow-pos (suc k) = omega (arith, pow-suc 2 k, two-pow-pos k)

mod_double : (m a : ℕ) → 1 ≤ m → a % (2 * m) ≡ 2 * (a / 2 % m) + a % 2
mod_double m a h =
    let r : ℕ = a / 2 % m in
    a % (2 * m)
    ≡⟨ ap (λ t. t % (2 * m)) regroup ⟩ (a / 2 / m * (2 * m) + (2 * r + a % 2)) % (2 * m)
    ≡⟨ mod_unique (2 * m) (a / 2 / m) (2 * r + a % 2) (omega (arith, mod-lt (a / 2) {m = m} h)) ⟩
      2 * r + a % 2 ∎
  where
    regroup : a ≡ a / 2 / m * (2 * m) + (2 * (a / 2 % m) + a % 2)
    regroup = omega (arith, div-add-mod' (a / 2) m)

-- A mask of `k` ones is the remainder by `2 ^ k`.
pub bit_and_mask : (k a : ℕ) → bit_and a (2 ^ k - 1) ≡ a % 2 ^ k
bit_and_mask zero a = omega (arith, bit_and-zero a a (omega arith))
bit_and_mask (suc k) a =
    let m : ℕ = 2 ^ k in
    bit_and a (2 ^ suc k - 1)
    ≡⟨ ap (λ t. bit_and a (t - 1)) (omega (arith, pow-suc 2 k)) ⟩ bit_and a (2 * m - 1)
    ≡⟨ bit_and-step a (2 * m - 1) ⟩
      bit_and (a / 2) ((2 * m - 1) / 2) * 2 + min (a % 2) ((2 * m - 1) % 2)
    ≡⟨ ap₂ (λ s t. bit_and (a / 2) s * 2 + min (a % 2) t) (omega (arith, two-pow-pos k))
        (omega (arith, two-pow-pos k)) ⟩
      bit_and (a / 2) (m - 1) * 2 + min (a % 2) 1
    ≡⟨ omega (arith, bit_and_mask k (a / 2)) ⟩ 2 * (a / 2 % m) + a % 2
    ≡⟨ sym (mod_double m a (two-pow-pos k)) ⟩ a % (2 * m)
    ≡⟨ ap (λ t. a % t) (omega (arith, pow-suc 2 k)) ⟩ a % 2 ^ suc k ∎

bit_or_double : (m r : ℕ) → bit_or (2 * m) r ≡ bit_or m (r / 2) * 2 + r % 2
bit_or_double m r =
    let half : 2 * m / 2 ≡ m = omega arith in
    let even : 2 * m % 2 ≡ 0 = omega arith in rw (bit_or-step (2 * m) r, half, even) (omega arith)

-- A field shifted above one that fits `k` bits.
pub bit_or_fields : (k q r : ℕ) → r < 2 ^ k → bit_or (q * 2 ^ k) r ≡ q * 2 ^ k + r
bit_or_fields zero q r h = ground (arith, bit_or-zero q q (omega arith))
bit_or_fields (suc k) q r h =
    let m : ℕ = q * 2 ^ k in
    let e : q * 2 ^ suc k ≡ 2 * m = omega (arith, ap (λ (t : ℕ). q * t) (pow-suc 2 k)) in
    rw (e, bit_or_double m r)
      (omega (arith, bit_or_fields k q (r / 2) (omega (arith, pow-suc 2 k))))

-- A number whose bits are disjoint from those of its predecessor is zero or a power of two.
bit_and_self : (n a : ℕ) → a ≤ n → bit_and a a ≡ a
bit_and_self n zero h = refl
bit_and_self zero (suc a) h = absurd (omega arith)
bit_and_self (suc n) (suc a) h =
    omega (arith, bit_and-step (suc a) (suc a), bit_and_self n (suc a / 2) (omega arith))

bit_and_pred_odd : (c : ℕ) → bit_and (2 * c + 1) (2 * c) ≡ 2 * c
bit_and_pred_odd c =
    let half_odd : (2 * c + 1) / 2 ≡ c = omega arith in
    let half : 2 * c / 2 ≡ c = omega arith in
    rw (bit_and-step (2 * c + 1) (2 * c), half_odd, half)
      (omega (arith, bit_and_self c c (omega arith)))

bit_and_pred_even : (c : ℕ) → 1 ≤ c → bit_and (2 * c) (2 * c - 1) ≡ 2 * bit_and c (c - 1)
bit_and_pred_even c h =
    let half : 2 * c / 2 ≡ c = omega arith in
    let half_pred : (2 * c - 1) / 2 ≡ c - 1 = omega arith in
    rw (bit_and-step (2 * c) (2 * c - 1), half, half_pred) (omega arith)

pub two-pow_of_disjoint : (n a : ℕ) → a ≤ n → 1 ≤ a → bit_and a (a - 1) ≡ 0 → (k : ℕ) × (a ≡ 2 ^ k)
two-pow_of_disjoint zero a h pos e = absurd (omega arith)
two-pow_of_disjoint (suc n) a h pos e = elim (dec_lt (a % 2) 1) [
  | yes even ↦
      let c : ℕ = a / 2 in
      let two : a ≡ 2 * c = omega arith in
      let below : bit_and c (c - 1) ≡ 0 =
        omega (arith, bit_and_pred_even c (omega arith), ap₂ bit_and two (ap (λ t. t - 1) two)) in
      let (k, q) = two-pow_of_disjoint n c (omega arith) (omega arith) below in
      (suc k, omega (arith, pow-suc 2 k))
  | no odd ↦
      let c : ℕ = a / 2 in
      let two : a ≡ 2 * c + 1 = omega arith in
      let two_pred : a - 1 ≡ 2 * c = omega arith in
      (0, omega (arith, bit_and_pred_odd c, ap₂ bit_and two two_pred))
]
