-- ===== src/Spsc/Threads.antt =====
-- The two threads of include/ringio/detail/spsc_ring.hpp, an access to shared memory at a time, in
-- a sequentially consistent memory. `produce` and `consume` are the bodies of `try_push` and
-- `try_pop`, cut where they touch what the other thread touches.
pub mod Invariant
pub mod Fifo
pub mod Waitfree
pub mod Delivery
mod Tests
use ringio.Base.{
  ℕ, ◌+◌, ◌≡◌, Bool, true, false, Option, none, some, List, [], ◌∷◌, ◌++◌, leb, ◌==◌, if◌then◌else◌,
  update,
}
use ringio.Base.Word.{u64, sub_u64, slot_index}
use ringio.Spsc.{SpscRing, init}

module _ (A : Type 0) where
  -- Where the producer stands, with the locals that are live there.
  pub data Producer : Type 0 where
    idle : Producer
    load_tail : A → Producer
    load_head : A → (tail : ℕ) → Producer
    write_slot : A → (tail : ℕ) → Producer
    store_tail : A → (tail : ℕ) → Producer
    returned : Bool → Producer

  pub data Consumer : Type 0 where
    idle : Consumer
    load_head : Consumer
    load_tail : (head : ℕ) → Consumer
    read_slot : (head : ℕ) → Consumer
    store_head : A → (head : ℕ) → Consumer
    returned : Option A → Consumer

-- The ring with its threads, what the producer has published and what the consumer has taken.
pub record System (A : Type 0) : Type 0 where
  pub ring : SpscRing A
  pub producer : Producer A
  pub consumer : Consumer A
  pub sent : List A
  pub received : List A

module _ {A : Type 0} (cap : ℕ) where
  unfoldable pub produce_at : System A → Producer A → System A
  produce_at s Producer.idle = s
  produce_at s (Producer.load_tail v) = record s { producer = Producer.load_head v s.ring.tail }
  produce_at s (Producer.load_head v tail) = record s {
    producer =
        if leb cap (sub_u64 tail s.ring.head)
        then Producer.returned false
        else Producer.write_slot v tail;
  }
  produce_at s (Producer.write_slot v tail) = record s {
    ring = record (s.ring) { buffer = update s.ring.buffer (slot_index cap tail) v };
    producer = Producer.store_tail v tail;
  }
  produce_at s (Producer.store_tail v tail) = record s {
    ring = record (s.ring) { tail = u64 (tail + 1) };
    producer = Producer.returned true;
    sent = s.sent ++ (v ∷ []);
  }
  produce_at s (Producer.returned done) = record s { producer = Producer.idle }

  -- The producer's next access.
  unfoldable pub produce : System A → System A
  unfolding produce_at
  produce s = produce_at s s.producer

  unfoldable pub consume_at : System A → Consumer A → System A
  consume_at s Consumer.idle = s
  consume_at s Consumer.load_head = record s { consumer = Consumer.load_tail s.ring.head }
  consume_at s (Consumer.load_tail head) = record s {
    consumer = if head == s.ring.tail then Consumer.returned none else Consumer.read_slot head;
  }
  consume_at s (Consumer.read_slot head) = record s {
    consumer = Consumer.store_head (s.ring.buffer (slot_index cap head)) head;
  }
  consume_at s (Consumer.store_head v head) = record s {
    ring = record (s.ring) { head = u64 (head + 1) };
    consumer = Consumer.returned (some v);
    received = s.received ++ (v ∷ []);
  }
  consume_at s (Consumer.returned out) = record s { consumer = Consumer.idle }

  -- The consumer's next access.
  unfoldable pub consume : System A → System A
  unfolding consume_at
  consume s = consume_at s s.consumer

  -- Either thread moves, or calls the ring again.
  pub data Step (s : System A) : System A → Type 0 where
    produces : Step s (produce s)
    consumes : Step s (consume s)
    calls_push :
        (v : A) → s.producer ≡ Producer.idle → Step s (record s { producer = Producer.load_tail v })
    calls_pop : s.consumer ≡ Consumer.idle → Step s (record s { consumer = Consumer.load_head })

  unfoldable pub start : A → System A
  unfolding init
  start blank = record {
    ring = init blank;
    producer = Producer.idle;
    consumer = Consumer.idle;
    sent = [];
    received = [];
  }

  -- What any interleaving of the two threads leads to.
  pub data Reach (blank : A) : System A → Type 0 where
    here : Reach blank (start blank)
    next : {s t : System A} → Reach blank s → Step s t → Reach blank t
