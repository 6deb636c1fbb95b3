-- ===== src/Spsc/Ordered/Race.antt =====
-- The slots of include/ringio/detail/spsc_ring.hpp are not raced for, by the orders of its counters.
use ringio.Base.{ℕ, ◌+◌, ◌-◌, ◌≤◌, ◌≡◌, ◌∙◌, sym, ap, ◌⊎◌, inl, inr, arith, subst, dec_lt}
use ringio.Base.Word.{u64, slot_index, IsCapacity, same_slot, slot_index-mod}
use ringio.Spsc.Threads.{Producer, Consumer}
use ringio.Spsc.Threads.Invariant as Sequential
use ringio.Spsc.Ordered.{View, System, Reach, ring}
use ringio.Spsc.Ordered.Invariant.{Reach-Inv}
use ringio.Spsc.Ordered.Invariant.Growth.{slot_index-u64}
use ringio.Spsc.Ordered.Invariant.Defs.{Stamp, ProducerSees, ConsumerSees, Inv}

-- An access of a slot of which a later position has its turn was a lap before that position.
lap_before :
    {cap : ℕ} (c : IsCapacity cap) (done pos n : ℕ)
    → Stamp cap done (slot_index cap pos) n
    → done ≤ pos
    → n + cap ≤ pos + 1 ⊎ (n ≡ 0)
lap_before c done pos n (inl e) le = inr e
lap_before {cap} c done pos n (inr (some_access, below, at_slot)) le =
    elim (dec_lt pos (n - 1 + cap)) [
      | yes near ↦ absurd (
          omega (
            arith,
            same_slot cap (n - 1) pos
                (sym (slot_index-mod c (n - 1)) ∙ at_slot ∙ slot_index-mod c pos) (omega arith)
                near,
          ))
      | no far ↦ inl (omega arith)
    ]

-- One of less than a lap behind a position was that position's, or one before it.
same_lap :
    {cap : ℕ} (c : IsCapacity cap) (done pos n : ℕ)
    → Stamp cap done (slot_index cap pos) n
    → done ≤ pos + cap
    → n ≤ pos + 1
same_lap c done pos n (inl e) le = omega arith
same_lap {cap} c done pos n (inr (some_access, below, at_slot)) le = elim (dec_lt (n - 1) pos) [
  | yes before ↦ omega arith
  | no after ↦ omega (
    arith,
    same_slot cap pos (n - 1) (sym (slot_index-mod c pos) ∙ sym at_slot ∙ slot_index-mod c (n - 1))
        (omega arith) (omega arith),
  )
]

reads_seen :
    {A : Type 0} (last : ℕ) (v : View) (x : Consumer A)
    → ConsumerSees last v x
    → last ≤ v.tails
    → v.reads ≤ v.tails
reads_seen last v Consumer.idle sees le = omega arith
reads_seen last v Consumer.load_head sees le = omega arith
reads_seen last v (Consumer.load_tail h) sees le = omega arith
reads_seen last v (Consumer.read_slot h) sees le = omega arith
reads_seen last v (Consumer.store_head x h) sees le = omega arith
reads_seen last v (Consumer.returned out) sees le = omega arith

writes_seen :
    {A : Type 0} (cap last : ℕ) (v : View) (x : Producer A)
    → ProducerSees cap last v x
    → last ≤ v.heads + cap
    → v.writes ≤ v.heads + cap
writes_seen cap last v Producer.idle sees le = omega arith
writes_seen cap last v (Producer.load_tail x) sees le = omega arith
writes_seen cap last v (Producer.load_head x t) sees le = omega arith
writes_seen cap last v (Producer.write_slot x t) sees le = omega arith
writes_seen cap last v (Producer.store_tail x t) sees le = omega arith
writes_seen cap last v (Producer.returned b) sees le = omega arith

module _ {A : Type 0} {cap : ℕ} (c : IsCapacity cap) {blank : A} {s : System A}
    (r : Reach cap blank s) where
  inv : Inv cap s
  inv = Reach-Inv c r

  open inv use {sequential, stores, views, stamps}

  position : (n x k : ℕ) → x ≡ k → k ≡ u64 n → slot_index cap x ≡ slot_index cap n
  position n x k e e' = ap (slot_index cap) (e ∙ e') ∙ slot_index-u64 c n

  -- In the memory of the C++ standard, whichever stores the loads of a producer and a consumer of a
  -- ring whose capacity is a power of two return: when the producer is about to write a slot, every
  -- read of that slot so far happens before the write.
  pub write_ordered :
      (v : A) (t : ℕ)
      → s.producer ≡ Producer.write_slot v t
      → s.read (slot_index cap t) ≤ s.producer_view.reads
  write_ordered v t p =
      let last : ℕ = s.tail.last in
      let fits : Sequential.ProducerFits cap (ring s) (Producer.write_slot v t) =
        subst (Sequential.ProducerFits cap (ring s)) p sequential.producing in
      let sees : ProducerSees cap last s.producer_view (Producer.write_slot v t) =
        subst (ProducerSees cap last s.producer_view) p views.producer_sees in
      let done : s.consumer_view.reads ≤ last = omega (
        arith,
        reads_seen s.head.last s.consumer_view s.consumer views.consumer_sees views.behind,
        views.consumer_known.tails_done,
      ) in
      rw (position last t (s.tail.value last) fits.0 (stores.tail_value last (omega arith))) (
        omega (
          arith,
          lap_before c s.consumer_view.reads last (s.read (slot_index cap last))
              (stamps.read_fits (slot_index cap last)) done,
          sees,
          views.producer_known.after_reads,
        ))

  -- In the memory of the C++ standard, whichever stores the loads of a producer and a consumer of a
  -- ring whose capacity is a power of two return: when the consumer is about to read a slot, every
  -- write of that slot so far happens before the read.
  pub read_ordered :
      (h : ℕ)
      → s.consumer ≡ Consumer.read_slot h
      → s.written (slot_index cap h) ≤ s.consumer_view.writes
  read_ordered h p =
      let last : ℕ = s.head.last in
      let fits : Sequential.ConsumerFits cap (ring s) (Consumer.read_slot h) =
        subst (Sequential.ConsumerFits cap (ring s)) p sequential.consuming in
      let sees : ConsumerSees {A = A} last s.consumer_view (Consumer.read_slot h) =
        subst (ConsumerSees last s.consumer_view) p views.consumer_sees in
      let done : s.producer_view.writes ≤ last + cap = omega (
        arith,
        writes_seen cap s.tail.last s.producer_view s.producer views.producer_sees views.room,
        views.producer_known.heads_done,
      ) in
      rw (position last h (s.head.value last) fits.0 (stores.head_value last (omega arith))) (
        omega (
          arith,
          same_lap c s.producer_view.writes last (s.written (slot_index cap last))
              (stamps.written_fits (slot_index cap last)) done,
          sees,
          views.consumer_known.after_writes,
        ))
