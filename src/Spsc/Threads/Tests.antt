-- ===== src/Spsc/Threads/Tests.antt =====
-- A producer and a consumer of include/ringio/detail/spsc_ring.hpp at work.
use ringio.Base.{ℕ, ◌≡◌, ◌↔◌, refl, false, none, [], length, arith}
use ringio.Base.Word.{IsCapacity}
use ringio.Spsc.Queue.{contents}
use ringio.Spsc.Threads.{
  Producer, Consumer, System, produce, consume, start, Reach, here, next, produces, consumes,
  calls_push, calls_pop,
}
use ringio.Spsc.Threads.Fifo.{refused_push_iff_full, refused_pop_iff_empty}
use ringio.Spsc.Threads.Delivery.{pop_calls, all_delivered}

four : IsCapacity 4
four = record { exponent = 2; fits = omega arith; power = refl }

-- A first call of `try_push`, at its first access.
abbrev calling : System ℕ
calling = record (start 4 0) { producer = Producer.load_tail 7 }

abbrev full_check : System ℕ
full_check = produce 4 calling

abbrev holding : System ℕ
holding = produce 4 (produce 4 (produce 4 full_check))

full_check-Reach : Reach 4 0 full_check
unfolding start
full_check-Reach = next (next here (calls_push 7 refl)) produces

holding-Reach : Reach 4 0 holding
unfolding start
holding-Reach = next (next (next full_check-Reach produces) produces) produces

refused_push_iff_full_example :
    ((produce 4 full_check).producer ≡ Producer.returned false)
    ↔ (length (contents 4 full_check.ring) ≡ 4)
unfolding start produce
refused_push_iff_full_example = refused_push_iff_full four full_check-Reach 7 0 refl

abbrev empty_check : System ℕ
empty_check = consume 4 (record (start 4 0) { consumer = Consumer.load_head })

empty_check-Reach : Reach 4 0 empty_check
unfolding start
empty_check-Reach = next (next here (calls_pop refl)) consumes

refused_pop_iff_empty_example :
    ((consume 4 empty_check).consumer ≡ Consumer.returned none) ↔ (contents 4 empty_check.ring ≡ [])
unfolding start consume
refused_pop_iff_empty_example = refused_pop_iff_empty four empty_check-Reach 0 refl

all_delivered_example :
    (pop_calls 4 (length (contents 4 holding.ring)) holding).received ≡ holding.sent
unfolding start produce
all_delivered_example = all_delivered four holding-Reach refl
