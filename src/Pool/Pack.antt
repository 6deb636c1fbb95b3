-- ===== src/Pool/Pack.antt =====
-- The packed head of the free list: a tag above an index, 32 bits each.
use ringio.Base.{ℕ, ◌+◌, ◌-◌, ◌*◌, ◌/◌, ◌^◌, ◌<◌, ◌≡◌, bit_or, arith, ◌∙◌, ap}
use ringio.Base.Word.{u32, u64}
use ringio.Base.Bits.{bit_or_fields}

-- `kInvalidIndex`.
abbrev pub invalid_index : ℕ
invalid_index = 2 ^ 32 - 1

unfoldable pub pack : ℕ → ℕ → ℕ
pack index tag = bit_or (u64 (tag * 2 ^ 32)) index

unfoldable pub unpack_index : ℕ → ℕ
unpack_index packed = u32 packed

unfoldable pub unpack_tag : ℕ → ℕ
unpack_tag packed = u32 (packed / 2 ^ 32)

pack-sum : (index tag : ℕ) → index < 2 ^ 32 → tag < 2 ^ 32 → pack index tag ≡ tag * 2 ^ 32 + index
unfolding pack
pack-sum index tag h k = ap (λ t. bit_or t index) (omega arith) ∙ bit_or_fields 32 tag index h

pub pack-lt : (index tag : ℕ) → index < 2 ^ 32 → tag < 2 ^ 32 → pack index tag < 2 ^ 64
pack-lt index tag h k = omega (arith, pack-sum index tag h k)

-- An index and a tag of 32 bits come back from the packed word unchanged.
pub unpack-pack :
    (index tag : ℕ)
    → index < 2 ^ 32
    → tag < 2 ^ 32
    → (unpack_index (pack index tag) ≡ index) × (unpack_tag (pack index tag) ≡ tag)
unfolding unpack_index unpack_tag
unpack-pack index tag h k = omega (arith, pack-sum index tag h k)

pub unpack_index-lt : (w : ℕ) → unpack_index w < 2 ^ 32
unfolding unpack_index
unpack_index-lt w = omega arith

pub unpack_tag-lt : (w : ℕ) → unpack_tag w < 2 ^ 32
unfolding unpack_tag
unpack_tag-lt w = omega arith
