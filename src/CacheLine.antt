-- ===== src/CacheLine.antt =====
-- include/ringio/detail/cache_line.hpp: the layout of a padded value.
mod Tests
use ringio.Base.{
  ℕ, ◌+◌, ◌-◌, ◌*◌, ◌/◌, ◌%◌, ◌≤◌, ◌<◌, ◌≡◌, ◌≢◌, ◌⊎◌, inl, inr, sym, ap, ◌∙◌, leb, if◌then◌else◌,
  arith,
}
use native.Mathlib.Nat.{
  dvd_of_mod-eq-zero, dvd_iff_mod-eq-zero, dvd_trans, mod-lt, div-add-mod', mul-mod_left,
}

-- `kCacheLineSize`.
abbrev pub cache_line_size : ℕ
cache_line_size = 128

-- `sizeof` and `alignof`.
pub record Layout : Type 0 where
  pub size : ℕ
  pub align : ℕ

-- The least multiple of `align` that is at least `size`.
unfoldable pub round_up : ℕ → ℕ → ℕ
round_up size align = (size + align - 1) / align * align

-- A structure of one member under `alignas(kCacheLineSize)`: an alignment that the member asks for
-- holds if it is stricter, and the size is rounded up to it.
unfoldable pub padded : Layout → Layout
unfolding round_up
padded t =
    let align = if leb t.align cache_line_size then cache_line_size else t.align in
    record { size = round_up t.size align; align = align }

round_up-covers : (size align : ℕ) → 1 ≤ align → size ≤ round_up size align
unfolding round_up
round_up-covers size align h =
    omega (arith, div-add-mod' (size + align - 1) align, mod-lt (size + align - 1) {m = align} h)

round_up_mod : (size align : ℕ) → round_up size align % align ≡ 0
unfolding round_up
round_up_mod size align = mul-mod_left ((size + align - 1) / align) align

-- An alignment is at most 128 or a multiple of it.
module _ (t : Layout) (strict : (t.align ≤ 128) ⊎ (t.align % 128 ≡ 0)) where
  align_of_padded : ((padded t).align % 128 ≡ 0) × (128 ≤ (padded t).align)
  unfolding padded
  align_of_padded = ground (arith, strict)

  covers : t.size ≤ (padded t).size
  unfolding padded
  covers = round_up-covers t.size (padded t).align (omega (arith, align_of_padded))

  whole : (padded t).size % (padded t).align ≡ 0
  unfolding padded
  whole = round_up_mod t.size (padded t).align

  aligned : (n : ℕ) → n % (padded t).align ≡ 0 → n % 128 ≡ 0
  aligned n h = (dvd_iff_mod-eq-zero 128).0 (
      dvd_trans 128 (dvd_of_mod-eq-zero 128 align_of_padded.0)
        (dvd_of_mod-eq-zero (padded t).align h))

  -- Wherever two padded values lie, aligned and one behind the other, no byte of the one value is in
  -- the same pair of cache lines, a block of 128 bytes, as a byte of the other; and the size of a
  -- padded value is a multiple of 128, so that this holds in an array of them too.
  pub padded_apart :
      (a b i j : ℕ)
      → b % (padded t).align ≡ 0
      → a + (padded t).size ≤ b
      → i < t.size
      → j < t.size
      → ((a + i) / 128 ≢ (b + j) / 128) × ((padded t).size % 128 ≡ 0)
  padded_apart a b i j at behind hi hj =
      (omega (arith, aligned b at, covers), aligned (padded t).size whole)
