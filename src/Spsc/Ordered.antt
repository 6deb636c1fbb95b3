-- ===== src/Spsc/Ordered.antt =====
-- The two threads of include/ringio/detail/spsc_ring.hpp in the memory of the C++ standard, with the
-- orders that the code asks for: a load returns any store that the thread need not have overlooked,
-- an acquire load of a release store makes known what happened before it, and two accesses to a slot
-- of which neither happens before the other are a race.
pub mod Invariant
pub mod Race
pub mod Fifo
mod Tests
use ringio.Base.{
  ℕ, ◌+◌, ◌≤◌, ◌≡◌, true, false, none, some, List, [], ◌∷◌, ◌++◌, leb, ◌==◌, if◌then◌else◌, update,
  max,
}
use ringio.Base.Word.{u64, sub_u64, slot_index}
use ringio.Memory.{relaxed, acquire, release, Knowledge, Atomic, initial, loaded, store}
use ringio.Spsc.{SpscRing}
use ringio.Spsc.Threads.{Producer, Consumer}
use ringio.Spsc.Threads

-- What happens before a thread's next access, or before a store: the stores to either counter, by
-- their number, the producer's writes of slots and the consumer's reads of slots.
pub record View : Type 0 where
  pub heads : ℕ
  pub tails : ℕ
  pub writes : ℕ
  pub reads : ℕ

abbrev pub no_view : View
no_view = record { heads = 0; tails = 0; writes = 0; reads = 0 }

abbrev pub join : View → View → View
join a b = record {
  heads = max a.heads b.heads;
  tails = max a.tails b.tails;
  writes = max a.writes b.writes;
  reads = max a.reads b.reads;
}

abbrev pub views : Knowledge View
views = record { nothing = no_view; join = join }

-- `written` and `read` are the numbers of the last write and of the last read of each slot.
pub record System (A : Type 0) : Type 0 where
  pub head : Atomic View
  pub tail : Atomic View
  pub buffer : ℕ → A
  pub written : ℕ → ℕ
  pub read : ℕ → ℕ
  pub producer : Producer A
  pub consumer : Consumer A
  pub producer_view : View
  pub consumer_view : View
  pub sent : List A
  pub received : List A

module _ {A : Type 0} where
  -- The stores that the producer's next load may return: none that it knows to be overwritten.
  abbrev pub MayPush : System A → ℕ → Producer A → Type 0
  MayPush s k (Producer.load_tail v) = (s.producer_view.tails ≤ k) × (k ≤ s.tail.last)
  MayPush s k (Producer.load_head v tail) = (s.producer_view.heads ≤ k) × (k ≤ s.head.last)
  MayPush s k _ = Unit

  abbrev pub MayPop : System A → ℕ → Consumer A → Type 0
  MayPop s k Consumer.load_head = (s.consumer_view.heads ≤ k) × (k ≤ s.head.last)
  MayPop s k (Consumer.load_tail head) = (s.consumer_view.tails ≤ k) × (k ≤ s.tail.last)
  MayPop s k _ = Unit

  module _ (cap : ℕ) where
    -- `k` is the number of the store that a load returns.
    pub produce_at : System A → ℕ → Producer A → System A
    produce_at s k Producer.idle = s
    produce_at s k (Producer.load_tail v) = record s {
      producer = Producer.load_head v (s.tail.value k);
      producer_view = loaded views relaxed (s.tail.view k) (record (s.producer_view) { tails = k });
    }
    produce_at s k (Producer.load_head v tail) = record s {
      producer =
          if leb cap (sub_u64 tail (s.head.value k))
          then Producer.returned false
          else Producer.write_slot v tail;
      producer_view = loaded views acquire (s.head.view k) (record (s.producer_view) { heads = k });
    }
    produce_at s k (Producer.write_slot v tail) =
        let n = s.producer_view.writes + 1 in
        record s {
          buffer = update s.buffer (slot_index cap tail) v;
          written = update s.written (slot_index cap tail) n;
          producer = Producer.store_tail v tail;
          producer_view = record (s.producer_view) { writes = n };
        }
    produce_at s k (Producer.store_tail v tail) =
        let view = record (s.producer_view) { tails = s.tail.last + 1 } in
        record s {
          tail = store views release view (u64 (tail + 1)) s.tail;
          producer = Producer.returned true;
          producer_view = view;
          sent = s.sent ++ (v ∷ []);
        }
    produce_at s k (Producer.returned done) = record s { producer = Producer.idle }

    pub consume_at : System A → ℕ → Consumer A → System A
    consume_at s k Consumer.idle = s
    consume_at s k Consumer.load_head = record s {
      consumer = Consumer.load_tail (s.head.value k);
      consumer_view = loaded views relaxed (s.head.view k) (record (s.consumer_view) { heads = k });
    }
    consume_at s k (Consumer.load_tail head) = record s {
      consumer = if head == s.tail.value k then Consumer.returned none else Consumer.read_slot head;
      consumer_view = loaded views acquire (s.tail.view k) (record (s.consumer_view) { tails = k });
    }
    consume_at s k (Consumer.read_slot head) =
        let n = s.consumer_view.reads + 1 in
        record s {
          read = update s.read (slot_index cap head) n;
          consumer = Consumer.store_head (s.buffer (slot_index cap head)) head;
          consumer_view = record (s.consumer_view) { reads = n };
        }
    consume_at s k (Consumer.store_head v head) =
        let view = record (s.consumer_view) { heads = s.head.last + 1 } in
        record s {
          head = store views release view (u64 (head + 1)) s.head;
          consumer = Consumer.returned (some v);
          consumer_view = view;
          received = s.received ++ (v ∷ []);
        }
    consume_at s k (Consumer.returned out) = record s { consumer = Consumer.idle }

    unfoldable pub produce : System A → ℕ → System A
    unfolding produce_at
    produce s k = produce_at s k s.producer

    unfoldable pub consume : System A → ℕ → System A
    unfolding consume_at
    consume s k = consume_at s k s.consumer

    -- Either thread moves, or calls the ring again.
    pub data Step (s : System A) : System A → Type 0 where
      produces : (k : ℕ) → MayPush s k s.producer → Step s (produce s k)
      consumes : (k : ℕ) → MayPop s k s.consumer → Step s (consume s k)
      calls_push :
          (v : A)
          → s.producer ≡ Producer.idle
          → Step s (record s { producer = Producer.load_tail v })
      calls_pop : s.consumer ≡ Consumer.idle → Step s (record s { consumer = Consumer.load_head })

  unfoldable pub start : A → System A
  start blank = record {
    head = initial views 0;
    tail = initial views 0;
    buffer = λ _. blank;
    written = λ _. 0;
    read = λ _. 0;
    producer = Producer.idle;
    consumer = Consumer.idle;
    producer_view = no_view;
    consumer_view = no_view;
    sent = [];
    received = [];
  }

  -- What any interleaving of the two threads leads to, whichever stores their loads return.
  pub data Reach (cap : ℕ) (blank : A) : System A → Type 0 where
    here : Reach cap blank (start blank)
    next : {s t : System A} → Reach cap blank s → Step cap s t → Reach cap blank t

  -- The ring with the last value of each counter.
  abbrev pub ring : System A → SpscRing A
  ring s = record {
    head = s.head.value s.head.last;
    tail = s.tail.value s.tail.last;
    buffer = s.buffer;
  }

  -- The same threads in a sequentially consistent memory.
  abbrev pub latest : System A → Threads.System A
  latest s = record {
    ring = ring s;
    producer = s.producer;
    consumer = s.consumer;
    sent = s.sent;
    received = s.received;
  }
