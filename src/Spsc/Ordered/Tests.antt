-- ===== src/Spsc/Ordered/Tests.antt =====
-- A ring of capacity 1 of include/ringio/detail/spsc_ring.hpp that goes around, with fresh and with
-- stale loads.
use ringio.Base.{ℕ, ◌≤◌, ◌≡◌, refl, false, ◌++◌, length, arith, ℕ_discrete}
use ringio.Base.Word.{IsCapacity, slot_index}
use ringio.Spsc.Queue.{contents}
use ringio.Spsc.Threads.{Producer, Consumer}
use ringio.Spsc.Ordered.{
  System, Reach, here, next, produces, consumes, calls_push, calls_pop, produce, consume, start,
  ring, produce_at, consume_at,
}
use ringio.Spsc.Ordered.Race.{write_ordered, read_ordered}
use ringio.Spsc.Ordered.Fifo.{ordered_fifo}

one : IsCapacity 1
one = record { exponent = 0; fits = omega arith; power = refl }

-- A push of 7 that has returned.
abbrev pushed : System ℕ
pushed =
    produce 1
      (produce 1
        (produce 1
          (produce 1 (produce 1 (record (start 0) { producer = Producer.load_tail 7 }) 0) 0) 0)
        0)
      0

-- A pop that has seen it.
abbrev reading : System ℕ
reading = consume 1 (consume 1 (record pushed { consumer = Consumer.load_head }) 0) 1

-- The pop has taken it, and another push has begun.
abbrev again : System ℕ
again = produce 1 (record (consume 1 (consume 1 reading 0) 0) { producer = Producer.load_tail 8 }) 1

-- That push sees the pop, or it does not.
abbrev writing : System ℕ
writing = produce 1 again 1

abbrev stale : System ℕ
stale = produce 1 again 0

pushed-Reach : Reach 1 0 pushed
unfolding start produce_at produce slot_index ℕ_discrete
pushed-Reach =
    next
      (next
        (next
          (next (next (next here (calls_push 7 refl)) (produces 0 (omega arith)))
            (produces 0 (omega arith)))
          (produces 0 tt))
        (produces 0 tt))
      (produces 0 tt)

reading-Reach : Reach 1 0 reading
unfolding start produce_at produce consume_at consume slot_index ℕ_discrete
reading-Reach =
    next (next (next pushed-Reach (calls_pop refl)) (consumes 0 (omega arith)))
      (consumes 1 (omega arith))

again-Reach : Reach 1 0 again
unfolding start produce_at produce consume_at consume slot_index ℕ_discrete
again-Reach =
    next (next (next (next reading-Reach (consumes 0 tt)) (consumes 0 tt)) (calls_push 8 refl))
      (produces 1 (omega arith))

writing-Reach : Reach 1 0 writing
unfolding start produce_at produce consume_at consume slot_index ℕ_discrete
writing-Reach = next again-Reach (produces 1 (omega arith))

stale-Reach : Reach 1 0 stale
unfolding start produce_at produce consume_at consume slot_index ℕ_discrete
stale-Reach = next again-Reach (produces 0 (omega arith))

-- The slot has been read once, and the push knows it.
write_ordered_example : writing.read (slot_index 1 1) ≤ writing.producer_view.reads
unfolding start produce_at produce consume_at consume slot_index ℕ_discrete
write_ordered_example = write_ordered one writing-Reach 8 1 refl

read_ordered_example : reading.written (slot_index 1 0) ≤ reading.consumer_view.writes
unfolding start produce_at produce consume_at consume slot_index ℕ_discrete
read_ordered_example = read_ordered one reading-Reach 0 refl

-- A push that has overlooked the pop is refused although the ring is empty, and nothing is lost.
stale_refused : stale.producer ≡ Producer.returned false
unfolding start produce_at produce consume_at consume slot_index ℕ_discrete
stale_refused = refl

ordered_fifo_example :
    (stale.sent ≡ stale.received ++ contents 1 (ring stale))
    × (length (contents 1 (ring stale)) ≤ 1)
ordered_fifo_example = ordered_fifo one stale-Reach
