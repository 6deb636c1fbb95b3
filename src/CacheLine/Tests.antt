-- ===== src/CacheLine/Tests.antt =====
-- The static assertions of include/ringio/detail/cache_line.hpp.
use ringio.Base.{◌+◌, ◌/◌, ◌%◌, ◌≡◌, ◌≢◌, refl, inl, arith}
use ringio.CacheLine.{Layout, padded, padded_apart}

abbrev int_layout : Layout
int_layout = record { size = 4; align = 4 }

padded_int : padded int_layout ≡ record { size = 128; align = 128 }
unfolding padded
padded_int = refl

-- Two counters of eight bytes, side by side.
abbrev counter_layout : Layout
counter_layout = record { size = 8; align = 8 }

padded_apart_example : ((0 + 7) / 128 ≢ (128 + 0) / 128) × ((padded counter_layout).size % 128 ≡ 0)
unfolding padded
padded_apart_example =
    padded_apart counter_layout (inl (omega arith)) 0 128 7 0 refl (omega arith) (omega arith)
      (omega arith)
