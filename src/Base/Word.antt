-- ===== src/Base/Word.antt =====
-- Machine words as native numbers: `std::size_t` and `std::uint32_t` wrap by `%`, and a ring's
-- index is a counter under the mask of its capacity.
use ringio.Base.Tests.{◌==◌, ==_iff}
use ringio.Base.Bits.{bit_and_mask, two-pow-pos, two-pow_of_disjoint}
use Prim.Native.Nat.{ℕ, zero, suc, ◌+◌, ◌-◌, ◌*◌, ◌%◌, ◌^◌, ◌≤◌, ◌<◌, bit_and}
use mathlib.Core.Path.{◌≡◌, refl, ap, sym, ◌∙◌}
use mathlib.Core.Bool.{Bool, true}
use mathlib.Core.Logic.{◌⊎◌, inl, inr, ◌≢◌}
use native.Mathlib.Decide.{dec_lt}
use Prim.Native.Nat.add
use native.Mathlib.Nat.{
  dvd_of_mod-eq-zero, mod-eq_of_lt, mod-eq-sub-mod, mod-add-mod, mod_self, mod-lt, mul-mod_right,
  mul_comm, mul-le-mul_left, le_trans, le_of_eq, pow-suc, mod-mod_of_dvd,
}
use native.Mathlib.Omega.{arith}

-- `std::size_t`, 64 bits.
abbrev pub u64 : ℕ → ℕ
u64 n = n % 2 ^ 64

abbrev pub sub_u64 : ℕ → ℕ → ℕ
sub_u64 a b = (a + 2 ^ 64 - b) % 2 ^ 64

-- `std::uint32_t`.
abbrev pub u32 : ℕ → ℕ
u32 n = n % 2 ^ 32

-- `static_assert((Capacity & (Capacity - 1)) == 0)`.
unfoldable pub is_accepted : ℕ → Bool
is_accepted cap = bit_and cap (sub_u64 cap 1) == 0

-- `pos & kMask`, where `kMask` is `Capacity - 1`.
unfoldable pub slot_index : ℕ → ℕ → ℕ
slot_index cap pos = bit_and pos (sub_u64 cap 1)

-- A capacity that is a power of two and fits a `std::size_t`.
pub record IsCapacity (cap : ℕ) : Type 0 where
  pub exponent : ℕ
  pub fits : exponent < 64
  pub power : cap ≡ 2 ^ exponent

two-pow-add : (m n : ℕ) → 2 ^ (m + n) ≡ 2 ^ m * 2 ^ n
two-pow-add zero n = omega (arith, ap (λ (t : ℕ). 2 ^ t) (add.zero n))
two-pow-add (suc m) n =
    ap (λ (t : ℕ). 2 ^ t) (add.suc m n)
    ∙ omega (arith, pow-suc 2 (m + n), two-pow-add m n, ap (λ (t : ℕ). t * 2 ^ n) (pow-suc 2 m))

two-le-pow : (k : ℕ) → 1 ≤ k → 2 ≤ 2 ^ k
two-le-pow zero h = absurd (omega arith)
two-le-pow (suc k) h = omega (arith, pow-suc 2 k, two-pow-pos k)

module _ {cap : ℕ} (c : IsCapacity cap) where
  open c use {exponent, fits, power}

  pub capacity-pos : 1 ≤ cap
  capacity-pos = omega (arith, power, two-pow-pos exponent)

  spread : 2 ^ 64 ≡ cap * 2 ^ (64 - exponent)
  spread =
      let sum : 64 ≡ exponent + (64 - exponent) = omega arith in
      rw power (ap (λ (t : ℕ). 2 ^ t) sum ∙ two-pow-add exponent (64 - exponent))

  pub capacity-lt : 2 * cap ≤ 2 ^ 64
  capacity-lt = rw spread (
      le_trans (le_of_eq (mul_comm 2 cap))
        (mul-le-mul_left cap (two-le-pow (64 - exponent) (omega arith))))

  -- The mask of the capacity is the remainder by it.
  pub slot_index-mod : (pos : ℕ) → slot_index cap pos ≡ pos % cap
  unfolding slot_index
  slot_index-mod pos =
      let mask : sub_u64 cap 1 ≡ 2 ^ exponent - 1 =
        omega (arith, power, capacity-pos, capacity-lt) in
      rw (mask, power) (bit_and_mask exponent pos)

  pub slot_index-lt : (pos : ℕ) → slot_index cap pos < cap
  slot_index-lt pos = rw (slot_index-mod pos) (mod-lt pos capacity-pos)

  -- Wrapping a counter does not change its slot.
  pub u64_mod : (n : ℕ) → u64 n % cap ≡ n % cap
  u64_mod n = mod-mod_of_dvd cap n (dvd_of_mod-eq-zero cap zero_rest)
    where
      zero_rest : 2 ^ 64 % cap ≡ 0
      zero_rest = rw spread (mul-mod_right cap (2 ^ (64 - exponent)))

-- The assertion accepts every power of two below the range of `std::size_t`.
pub capacity-is_accepted : {cap : ℕ} → IsCapacity cap → is_accepted cap ≡ true
unfolding is_accepted slot_index
capacity-is_accepted {cap} c = (==_iff _ _).1 (slot_index-mod c cap ∙ mod_self cap)

-- A capacity below 2 ^ 64 that the static assertion of the rings accepts is a power of two or
-- zero.
pub is_accepted-cases :
    (cap : ℕ) → cap < 2 ^ 64 → is_accepted cap ≡ true → (cap ≡ 0) ⊎ ((k : ℕ) × (cap ≡ 2 ^ k))
unfolding is_accepted
is_accepted-cases zero h e = inl refl
is_accepted-cases (suc n) h e =
    let mask : sub_u64 (suc n) 1 ≡ suc n - 1 = omega arith in
    let disjoint : bit_and (suc n) (suc n - 1) ≡ 0 = rw mask at ((==_iff _ _).0 e) in
    inr (two-pow_of_disjoint (suc n) (suc n) (omega arith) (omega arith) disjoint)

-- Positions less than a capacity apart have different slots.
pub mod_ne : {cap : ℕ} (p k : ℕ) → 1 ≤ k → k < cap → (p + k) % cap ≢ p % cap
mod_ne {cap} p k pos lt e = elim (dec_lt (p % cap + k) cap) [
  | yes fits ↦ omega (arith, e, mod-add-mod p cap k, mod-eq_of_lt fits)
  | no over ↦ omega (
    arith,
    e,
    mod-add-mod p cap k,
    mod-lt p {m = cap} (omega arith),
    mod-eq-sub-mod {n = p % cap + k} {m = cap} (omega arith),
    mod-eq_of_lt {n = p % cap + k - cap} {m = cap}
        (omega (arith, mod-lt p {m = cap} (omega arith))),
  )
]

pub same_slot : (cap p q : ℕ) → p % cap ≡ q % cap → p ≤ q → q < p + cap → p ≡ q
same_slot cap p q e le lt = elim (dec_lt p q) [
  | yes below ↦
      let sum : p + (q - p) ≡ q = omega arith in
      absurd (
        mod_ne {cap = cap} p (q - p) (omega arith) (omega arith)
          (ap (λ (t : ℕ). t % cap) sum ∙ sym e))
  | no not_below ↦ omega arith
]
