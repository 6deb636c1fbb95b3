-- ===== src/Spsc/Threads/Invariant.antt =====
-- The invariant of the two threads of include/ringio/detail/spsc_ring.hpp, and that every access
-- keeps it.
use ringio.Base.{
  ℕ, suc, ◌∙◌, ap, sym, update_ne, update_self, ◌+◌, ◌-◌, ◌≤◌, ◌<◌, ◌≡◌, refl, [], ◌∷◌, ◌++◌, arith,
  update, append_assoc,
}
use ringio.Base.Word.{u64, sub_u64, slot_index, IsCapacity, capacity-lt}
use ringio.Spsc.{SpscRing}
use ringio.Spsc.Queue.{contents, window, window_of_pos, window-update, window-suc, slot_behind}
use ringio.Spsc.Refine.{IsValid, init-IsValid}
use ringio.Spsc.Threads.{
  Producer, Consumer, System, produce, produce_at, consume, consume_at, Step, produces, consumes,
  calls_push, calls_pop, start, Reach, here, next,
}

module _ {A : Type 0} (cap : ℕ) where
  -- What the producer's locals say about the ring.
  abbrev pub ProducerFits : SpscRing A → Producer A → Type 0
  ProducerFits r Producer.idle = Unit
  ProducerFits r (Producer.load_tail v) = Unit
  ProducerFits r (Producer.load_head v t) = t ≡ r.tail
  ProducerFits r (Producer.write_slot v t) = (t ≡ r.tail) × (sub_u64 r.tail r.head < cap)
  ProducerFits r (Producer.store_tail v t) =
      (t ≡ r.tail) × (sub_u64 r.tail r.head < cap) × (r.buffer (slot_index cap t) ≡ v)
  ProducerFits r (Producer.returned b) = Unit

  abbrev pub ConsumerFits : SpscRing A → Consumer A → Type 0
  ConsumerFits r Consumer.idle = Unit
  ConsumerFits r Consumer.load_head = Unit
  ConsumerFits r (Consumer.load_tail h) = h ≡ r.head
  ConsumerFits r (Consumer.read_slot h) = (h ≡ r.head) × (1 ≤ sub_u64 r.tail r.head)
  ConsumerFits r (Consumer.store_head v h) =
      (h ≡ r.head) × (1 ≤ sub_u64 r.tail r.head) × (r.buffer (slot_index cap h) ≡ v)
  ConsumerFits r (Consumer.returned out) = Unit

  -- The ring is valid, it holds what is sent and not yet received, and the locals fit it.
  pub record Inv (s : System A) : Type 0 where
    pub valid : IsValid cap s.ring
    pub flow : s.sent ≡ s.received ++ contents cap s.ring
    pub producing : ProducerFits s.ring s.producer
    pub consuming : ConsumerFits s.ring s.consumer

module _ {A : Type 0} {cap : ℕ} (c : IsCapacity cap) where
  module _ (r : SpscRing A) (h : IsValid cap r) (lt : sub_u64 r.tail r.head < cap) where
    pub behind : slot_index cap r.tail ≡ slot_index cap (u64 (r.head + sub_u64 r.tail r.head))
    behind = ap (slot_index cap) (omega arith)

    -- The slot that the producer fills is not one that the ring holds.
    contents-write :
        (v : A)
        → contents cap (record r { buffer = update r.buffer (slot_index cap r.tail) v })
          ≡ contents cap r
    contents-write v =
        window-update c r.buffer r.head (sub_u64 r.tail r.head) (slot_index cap r.tail) v lt behind

    oldest-write :
        (v : A)
        → 1 ≤ sub_u64 r.tail r.head
        → update r.buffer (slot_index cap r.tail) v (slot_index cap r.head)
          ≡ r.buffer (slot_index cap r.head)
    oldest-write v pos =
        update_ne r.buffer _ _ v
          (slot_behind c r.buffer r.head (sub_u64 r.tail r.head) _ pos lt behind)

    -- Storing the tail appends what stands in its slot.
    held-store : sub_u64 (u64 (r.tail + 1)) r.head ≡ suc (sub_u64 r.tail r.head)
    held-store = omega (arith, capacity-lt c)

    contents-store :
        contents cap (record r { tail = u64 (r.tail + 1) })
        ≡ contents cap r ++ (r.buffer (slot_index cap r.tail) ∷ [])
    contents-store = rw (held-store, behind) (window-suc c r.buffer r.head (sub_u64 r.tail r.head))

  -- Storing the head drops the oldest value.
  contents-take :
      (r : SpscRing A)
      → IsValid cap r
      → 1 ≤ sub_u64 r.tail r.head
      → contents cap r
        ≡ r.buffer (slot_index cap r.head) ∷ contents cap (record r { head = u64 (r.head + 1) })
  contents-take r h pos =
      let shorter : sub_u64 r.tail r.head - 1 ≡ sub_u64 r.tail (u64 (r.head + 1)) = omega arith in
      window_of_pos cap r.buffer r.head (sub_u64 r.tail r.head) pos
      ∙ ap (λ n. r.buffer (slot_index cap r.head) ∷ window cap r.buffer (u64 (r.head + 1)) n)
          shorter

  -- A consumer's locals still fit when the tail moves on and the oldest value stays.
  ConsumerFits-grow :
      (r r' : SpscRing A) (x : Consumer A)
      → ConsumerFits cap r x
      → r'.head ≡ r.head
      → sub_u64 r.tail r.head ≤ sub_u64 r'.tail r'.head
      → (1 ≤ sub_u64 r.tail r.head
          → r'.buffer (slot_index cap r.head) ≡ r.buffer (slot_index cap r.head))
      → ConsumerFits cap r' x
  ConsumerFits-grow r r' Consumer.idle f e le same = tt
  ConsumerFits-grow r r' Consumer.load_head f e le same = tt
  ConsumerFits-grow r r' (Consumer.load_tail h) f e le same = cc
  ConsumerFits-grow r r' (Consumer.read_slot h) f e le same = ground arith
  ConsumerFits-grow r r' (Consumer.store_head v h) f e le same = ground arith
  ConsumerFits-grow r r' (Consumer.returned out) f e le same = tt

  -- A producer's locals still fit when the head moves on.
  ProducerFits-shrink :
      (r r' : SpscRing A) (x : Producer A)
      → ProducerFits cap r x
      → r'.tail ≡ r.tail
      → r'.buffer ≡ r.buffer
      → sub_u64 r'.tail r'.head ≤ sub_u64 r.tail r.head
      → ProducerFits cap r' x
  ProducerFits-shrink r r' Producer.idle f e same le = tt
  ProducerFits-shrink r r' (Producer.load_tail v) f e same le = tt
  ProducerFits-shrink r r' (Producer.load_head v t) f e same le = cc
  ProducerFits-shrink r r' (Producer.write_slot v t) f e same le = ground arith
  ProducerFits-shrink r r' (Producer.store_tail v t) f e same le = ground arith
  ProducerFits-shrink r r' (Producer.returned b) f e same le = tt

  pub produce_at-Inv :
      (s : System A) (p : Producer A)
      → ProducerFits cap s.ring p
      → Inv cap s
      → Inv cap (produce_at cap s p)
  unfolding produce_at
  produce_at-Inv s Producer.idle f i = i
  produce_at-Inv s (Producer.load_tail v) f i = ground arith
  produce_at-Inv s (Producer.load_head v t) f i = ground arith
  produce_at-Inv s (Producer.write_slot v t) (e, lt) i = record {
    valid = omega arith;
    flow = rw e (i.flow ∙ ap (λ q. s.received ++ q) (sym (contents-write s.ring i.valid lt v)));
    producing = (e, lt, update_self s.ring.buffer _ v);
    consuming = rw e (
        ConsumerFits-grow s.ring
          (record (s.ring) { buffer = update s.ring.buffer (slot_index cap s.ring.tail) v })
          s.consumer i.consuming refl (omega arith) (oldest-write s.ring i.valid lt v));
  }
  produce_at-Inv s (Producer.store_tail v t) (e, lt, full) i = record {
    valid = omega (arith, capacity-lt c);
    flow =
        let grown : contents cap s.ring ++ (v ∷ [])
            ≡ contents cap (record (s.ring) { tail = u64 (s.ring.tail + 1) }) =
          rw (contents-store s.ring i.valid lt, ← e, full) in
        rw e (
          ap (λ q. q ++ (v ∷ [])) i.flow
          ∙ append_assoc s.received (contents cap s.ring) (v ∷ [])
          ∙ ap (λ q. s.received ++ q) grown);
    producing = tt;
    consuming = rw e (
        ConsumerFits-grow s.ring (record (s.ring) { tail = u64 (s.ring.tail + 1) }) s.consumer
          i.consuming refl (omega (arith, held-store s.ring i.valid lt)) (λ pos. refl));
  }
  produce_at-Inv s (Producer.returned b) f i = ground arith

  pub consume_at-Inv :
      (s : System A) (p : Consumer A)
      → ConsumerFits cap s.ring p
      → Inv cap s
      → Inv cap (consume_at cap s p)
  unfolding consume_at
  consume_at-Inv s Consumer.idle f i = i
  consume_at-Inv s Consumer.load_head f i = ground arith
  consume_at-Inv s (Consumer.load_tail h) f i = ground arith
  consume_at-Inv s (Consumer.read_slot h) f i = ground arith
  consume_at-Inv s (Consumer.store_head v h) (e, pos, full) i = record {
    valid = omega (arith, capacity-lt c);
    flow =
        rw (e, ← full, e)
          (i.flow
            ∙ ap (λ q. s.received ++ q) (contents-take s.ring i.valid pos)
            ∙ sym (append_assoc s.received _ _));
    producing =
        ProducerFits-shrink s.ring (record (s.ring) { head = u64 (h + 1) }) s.producer i.producing
          refl refl (omega arith);
    consuming = tt;
  }
  consume_at-Inv s (Consumer.returned out) f i = ground arith

  Step-Inv : {s t : System A} → Step cap s t → Inv cap s → Inv cap t
  unfolding produce consume
  Step-Inv {s} produces i = produce_at-Inv s s.producer i.producing i
  Step-Inv {s} consumes i = consume_at-Inv s s.consumer i.consuming i
  Step-Inv (calls_push v e) i = record {
    valid = i.valid;
    flow = i.flow;
    producing = tt;
    consuming = i.consuming;
  }
  Step-Inv (calls_pop e) i = record {
    valid = i.valid;
    flow = i.flow;
    producing = i.producing;
    consuming = tt;
  }

  pub Reach-Inv : {blank : A} {s : System A} → Reach cap blank s → Inv cap s
  unfolding start
  Reach-Inv {blank} here = record {
    valid = (init-IsValid c blank).0;
    flow = sym (init-IsValid c blank).1;
    producing = tt;
    consuming = tt;
  }
  Reach-Inv (next r st) = Step-Inv st (Reach-Inv r)
