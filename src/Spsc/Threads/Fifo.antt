-- ===== src/Spsc/Threads/Fifo.antt =====
-- What the two threads of include/ringio/detail/spsc_ring.hpp can rely on.
use ringio.Base.{
  ℕ, ◌≤◌, ◌≡◌, ◌≢◌, false, none, [], ◌++◌, arith, length, subst, ◌↔◌, ap, if◌then◌else◌, ◌==◌,
}
use ringio.Base.Word.{sub_u64, slot_index, IsCapacity}
use ringio.Spsc.{SpscRing}
use ringio.Spsc.Refine.{IsValid}
use ringio.Spsc.Queue.{contents, length-window, slot_behind, window}
use ringio.Spsc.Threads.{Producer, Consumer, System, produce, consume, Reach}
use ringio.Spsc.Threads.Invariant.{Inv, ProducerFits, ConsumerFits, Reach-Inv, behind}

-- A pop that is refused has seen equal counters.
refused_held :
    {A : Type 0} {cap : ℕ} (h : ℕ) (r : SpscRing A)
    → h ≡ r.head
    → IsValid cap r
    → ◌≡◌ {A = Consumer A}
        (if h == r.tail then Consumer.returned none else Consumer.read_slot h)
        (Consumer.returned none)
    → sub_u64 r.tail r.head ≡ 0
refused_held h r f v e = ground arith

module _ {A : Type 0} {cap : ℕ} (c : IsCapacity cap) {blank : A} {s : System A}
    (r : Reach cap blank s) where
  -- In every interleaving of a producer and a consumer of a ring whose capacity is a power of two,
  -- what the consumer has received and what the ring holds are together what the producer has
  -- sent, in the same order, and the ring holds at most its capacity.
  pub fifo : (s.sent ≡ s.received ++ contents cap s.ring) × (length (contents cap s.ring) ≤ cap)
  fifo =
      let i : Inv cap s = Reach-Inv c r in
      (
        i.flow,
        omega (
          arith,
          i.valid.held,
          length-window cap s.ring.buffer s.ring.head (sub_u64 s.ring.tail s.ring.head),
        ),
      )

  -- In every interleaving of a producer and a consumer of a ring whose capacity is a power of two,
  -- the slot that the producer is about to write is not the slot that the consumer is about to
  -- read.
  pub slots_disjoint :
      (v : A) (t h : ℕ)
      → s.producer ≡ Producer.write_slot v t
      → s.consumer ≡ Consumer.read_slot h
      → slot_index cap t ≢ slot_index cap h
  slots_disjoint v t h p q =
      let i : Inv cap s = Reach-Inv c r in
      let f : ProducerFits cap s.ring (Producer.write_slot v t) =
        subst (ProducerFits cap s.ring) p i.producing in
      let g : ConsumerFits cap s.ring (Consumer.read_slot h) =
        subst (ConsumerFits cap s.ring) q i.consuming in
      rw (f.0, g.0)
        (slot_behind c s.ring.buffer s.ring.head (sub_u64 s.ring.tail s.ring.head) _ g.1 f.1
          (behind c s.ring i.valid f.1))

  -- In every interleaving of a producer and a consumer of a ring whose capacity is a power of two,
  -- a push that has loaded the tail is refused at its load of the head exactly if the ring holds
  -- its capacity then.
  pub refused_push_iff_full :
      (v : A) (t : ℕ)
      → s.producer ≡ Producer.load_head v t
      → ((produce cap s).producer ≡ Producer.returned false) ↔ (length (contents cap s.ring) ≡ cap)
  unfolding produce
  refused_push_iff_full v t p =
      let i : Inv cap s = Reach-Inv c r in
      let f : ProducerFits cap s.ring (Producer.load_head v t) =
        subst (ProducerFits cap s.ring) p i.producing in
      let n : length (contents cap s.ring) ≡ sub_u64 s.ring.tail s.ring.head =
        length-window cap s.ring.buffer s.ring.head (sub_u64 s.ring.tail s.ring.head) in
      rw (p, produce) (ground (arith, f, n, i.valid.held))

  -- In every interleaving of a producer and a consumer of a ring whose capacity is a power of two,
  -- a pop that has loaded the head is refused at its load of the tail exactly if the ring is empty
  -- then.
  pub refused_pop_iff_empty :
      (h : ℕ)
      → s.consumer ≡ Consumer.load_tail h
      → ((consume cap s).consumer ≡ Consumer.returned none) ↔ (contents cap s.ring ≡ [])
  unfolding consume
  refused_pop_iff_empty h p =
      let i : Inv cap s = Reach-Inv c r in
      let f : ConsumerFits cap s.ring (Consumer.load_tail h) =
        subst (ConsumerFits cap s.ring) p i.consuming in
      let n : length (contents cap s.ring) ≡ sub_u64 s.ring.tail s.ring.head =
        length-window cap s.ring.buffer s.ring.head (sub_u64 s.ring.tail s.ring.head) in
      simp (p, consume)
        (
          λ e. ap (window cap s.ring.buffer s.ring.head) (refused_held h s.ring f i.valid e),
          λ e. ground (arith, f, n, ap length e, i.valid.head_fits, i.valid.tail_fits),
        )
