-- ===== src/Spsc/Ordered/Fifo.antt =====
-- What the consumer of include/ringio/detail/spsc_ring.hpp gets, although its loads may be stale.
use ringio.Base.{ℕ, ◌≤◌, ◌≡◌, ◌++◌, length, arith}
use ringio.Base.Word.{sub_u64, IsCapacity}
use ringio.Spsc.Queue.{contents, length-window}
use ringio.Spsc.Ordered.{System, Reach, ring}
use ringio.Spsc.Ordered.Invariant.{Reach-Inv}
use ringio.Spsc.Ordered.Invariant.Defs.{Inv}

-- In the memory of the C++ standard, whichever stores the loads of a producer and a consumer of a
-- ring whose capacity is a power of two return: what the consumer has received, and what the ring
-- holds by the last stores of its counters, are together what the producer has sent, in the same
-- order, and the ring holds at most its capacity.
pub ordered_fifo :
    {A : Type 0} {cap : ℕ} (c : IsCapacity cap) {blank : A} {s : System A}
    → Reach cap blank s
    → (s.sent ≡ s.received ++ contents cap (ring s)) × (length (contents cap (ring s)) ≤ cap)
ordered_fifo {cap} c {s} r =
    let i : Inv cap s = Reach-Inv c r in
    let m = ring s in
    (
      i.sequential.flow,
      omega (
        arith,
        i.sequential.valid.held,
        length-window cap m.buffer m.head (sub_u64 m.tail m.head),
      ),
    )
