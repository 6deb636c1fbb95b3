-- ===== src/Spsc.antt =====
-- include/ringio/detail/spsc_ring.hpp: the single-producer single-consumer ring. `Capacity` is the
-- argument `cap`. A call returns its result beside the new ring; `try_pop` returns what it writes
-- through `out`, and `none` where it returns false and leaves `out` alone.
pub mod Queue
pub mod Refine
pub mod Threads
pub mod Ordered
mod Tests
use ringio.Base.{ℕ, ◌+◌, Bool, true, false, Option, none, some, leb, ◌==◌, if◌then◌else◌, update}
use ringio.Base.Word.{u64, sub_u64, slot_index}

pub record SpscRing {ℓ} (A : Type ℓ) : Type ℓ where
  pub head : ℕ
  pub tail : ℕ
  pub buffer : ℕ → A

module _ {ℓ} {A : Type ℓ} where
  -- `blank` is `T{}`.
  unfoldable pub init : A → SpscRing A
  init blank = record { head = 0; tail = 0; buffer = λ _. blank }

  unfoldable pub try_push : ℕ → SpscRing A → A → Bool × SpscRing A
  try_push cap r value = if leb cap (sub_u64 r.tail r.head) then (false, r) else (
    true,
    record r { buffer = update r.buffer (slot_index cap r.tail) value; tail = u64 (r.tail + 1) },
  )

  unfoldable pub try_pop : ℕ → SpscRing A → Option A × SpscRing A
  try_pop cap r =
      if r.head == r.tail
      then (none, r)
      else (some (r.buffer (slot_index cap r.head)), record r { head = u64 (r.head + 1) })
