-- ===== src/Base/Int.antt =====
-- Signed integers over the native numbers, as far as the rings use them: the signed reading of a
-- 64-bit word and the sign of a difference.
use ringio.Base.Tests.{ltb, leb, ◌==◌, if◌then◌else◌}
use Prim.Native.Nat.{ℕ, suc, ◌+◌, ◌-◌, ◌^◌, ◌<◌}
use mathlib.Core.Path.{◌≡◌}
use mathlib.Core.Bool.{Bool, true, false}
use native.Mathlib.Omega.{arith}

-- `negsuc n` is -(n + 1).
pub data ℤ : Type 0 where
  pos : ℕ → ℤ
  negsuc : ℕ → ℤ

abbrev pos_part : ℤ → ℕ
pos_part (pos n) = n
pos_part (negsuc n) = 0

abbrev neg_part : ℤ → ℕ
neg_part (pos n) = 0
neg_part (negsuc n) = suc n

infixl 65 ◌-ℤ◌
unfoldable pub ◌-ℤ◌ : ℤ → ℤ → ℤ
a -ℤ b =
    let up = pos_part a + neg_part b in
    let down = neg_part a + pos_part b in
    if leb down up then pos (up - down) else negsuc (down - up - 1)

-- `static_cast<std::intptr_t>` of a 64-bit word.
unfoldable pub to_intptr : ℕ → ℤ
to_intptr w = if ltb w (2 ^ 63) then pos w else negsuc (2 ^ 64 - 1 - w)

-- `d == 0` and `d < 0`.
unfoldable pub is_zero : ℤ → Bool
is_zero (pos n) = n == 0
is_zero (negsuc n) = false

unfoldable pub is_negative : ℤ → Bool
is_negative (pos n) = false
is_negative (negsuc n) = true

-- Below 2 ^ 63 the sign of a difference is the order of the words.
pub zero-diff :
    (a b : ℕ) → a < 2 ^ 63 → b < 2 ^ 63 → is_zero (to_intptr a -ℤ to_intptr b) ≡ (a == b)
unfolding ◌-ℤ◌ to_intptr is_zero
zero-diff a b h k = ground arith

pub negative-diff :
    (a b : ℕ) → a < 2 ^ 63 → b < 2 ^ 63 → is_negative (to_intptr a -ℤ to_intptr b) ≡ ltb a b
unfolding ◌-ℤ◌ to_intptr is_negative
negative-diff a b h k = ground arith

pub eq_of_zero-diff :
    (a b : ℕ) → a < 2 ^ 63 → b < 2 ^ 63 → is_zero (to_intptr a -ℤ to_intptr b) ≡ true → a ≡ b
eq_of_zero-diff a b h k e = ground (arith, zero-diff a b h k)
