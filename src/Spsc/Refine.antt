-- ===== src/Spsc/Refine.antt =====
-- One caller at a time: the ring's calls are the queue's, whatever the counters are, wrapping
-- included.
use ringio.Base.{ℕ, ◌≤◌, ◌<◌, ◌^◌, ◌≡◌, refl, [], arith, update}
use ringio.Base.Word.{sub_u64, slot_index, IsCapacity, capacity-lt}
use ringio.Spsc.{SpscRing, init, try_push, try_pop}
use ringio.Spsc.Queue.{push, pop, contents, length-window, window_of_pos, window-update, window-suc}

-- The counters are words, and their distance is at most the capacity.
pub record IsValid {A : Type 0} (cap : ℕ) (r : SpscRing A) : Type 0 where
  pub head_fits : r.head < 2 ^ 64
  pub tail_fits : r.tail < 2 ^ 64
  pub held : sub_u64 r.tail r.head ≤ cap

module _ {A : Type 0} {cap : ℕ} (c : IsCapacity cap) where
  -- A new ring is valid and empty.
  pub init-IsValid : (blank : A) → IsValid cap (init blank) × (contents cap (init blank) ≡ [])
  unfolding init
  init-IsValid blank = (omega arith, refl)

  pub try_push-IsValid : {r : SpscRing A} (v : A) → IsValid cap r → IsValid cap (try_push cap r v).1
  unfolding try_push
  try_push-IsValid v h = ground (arith, capacity-lt c)

  pub try_pop-IsValid : {r : SpscRing A} → IsValid cap r → IsValid cap (try_pop cap r).1
  unfolding try_pop
  try_pop-IsValid h = ground arith

  -- On a valid ring whose capacity is a power of two, `try_push` returns what a push on a queue of
  -- `cap` places returns, and leaves the ring with that queue's values; the counters may wrap.
  pub try_push_refines :
      {r : SpscRing A} (v : A)
      → IsValid cap r
      → let (done, r') = try_push cap r v in (done, contents cap r') ≡ push cap (contents cap r) v
  unfolding try_push push
  try_push_refines {r} v h =
      let n : ℕ = sub_u64 r.tail r.head in
      let i : ℕ = slot_index cap r.tail in
      ground (
        arith,
        capacity-lt c,
        length-window cap r.buffer r.head n,
        window-suc c (update r.buffer i v) r.head n,
        window-update c r.buffer r.head n i v,
      )

  -- On a valid ring whose capacity is a power of two, `try_pop` returns what a pop on the queue
  -- returns, the oldest value if there is one, and leaves the ring with that queue's values.
  pub try_pop_refines :
      {r : SpscRing A}
      → IsValid cap r
      → let (out, r') = try_pop cap r in (out, contents cap r') ≡ pop (contents cap r)
  unfolding try_pop pop
  try_pop_refines {r} h = ground (arith, window_of_pos cap r.buffer r.head (sub_u64 r.tail r.head))
