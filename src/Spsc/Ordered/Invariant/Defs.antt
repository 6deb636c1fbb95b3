-- ===== src/Spsc/Ordered/Invariant/Defs.antt =====
-- What each view says, and what the stamps of the slots say.
use ringio.Base.{ℕ, ◌+◌, ◌-◌, ◌≤◌, ◌<◌, ◌≡◌, ◌⊎◌}
use ringio.Base.Word.{u64, slot_index}
use ringio.Memory.{Atomic}
use ringio.Spsc.Threads.{Producer, Consumer}
use ringio.Spsc.Threads.Invariant as Sequential
use ringio.Spsc.Ordered.{View, System, latest}

-- A view is not ahead of the threads, and who knows a store knows the access of the slot before it.
pub record Known (heads tails writes reads : ℕ) (v : View) : Type 0 where
  pub heads_done : v.heads ≤ heads
  pub tails_done : v.tails ≤ tails
  pub writes_done : v.writes ≤ writes
  pub reads_done : v.reads ≤ reads
  pub after_reads : v.heads ≤ v.reads
  pub after_writes : v.tails ≤ v.writes

-- Every store of a counter has its number as its value, and carries the access of the slot before it.
pub record Stores (head tail : Atomic View) (writes reads : ℕ) : Type 0 where
  pub head_value : (k : ℕ) → k ≤ head.last → head.value k ≡ u64 k
  pub tail_value : (k : ℕ) → k ≤ tail.last → tail.value k ≡ u64 k
  pub head_carries : (k : ℕ) → k ≤ head.last → k ≤ (head.view k).reads
  pub tail_carries : (k : ℕ) → k ≤ tail.last → k ≤ (tail.view k).writes
  pub head_known : (k : ℕ) → k ≤ head.last → Known head.last tail.last writes reads (head.view k)
  pub tail_known : (k : ℕ) → k ≤ tail.last → Known head.last tail.last writes reads (tail.view k)

-- The accesses of the slots, from number 1 on, go around the ring.
abbrev pub Stamp : ℕ → ℕ → ℕ → ℕ → Type 0
Stamp cap done i n = (n ≡ 0) ⊎ ((1 ≤ n) × (n ≤ done) × (slot_index cap (n - 1) ≡ i))

pub record Stamps (cap writes reads : ℕ) (written read : ℕ → ℕ) : Type 0 where
  pub written_fits : (i : ℕ) → Stamp cap writes i (written i)
  pub read_fits : (i : ℕ) → Stamp cap reads i (read i)

module _ {A : Type 0} where
  abbrev pub Knows : System A → View → Type 0
  Knows s = Known s.head.last s.tail.last s.producer_view.writes s.consumer_view.reads

  -- Where the producer stands, it has written as many slots as it has published, or one more.
  abbrev pub ProducerSees : ℕ → ℕ → View → Producer A → Type 0
  ProducerSees cap last v (Producer.write_slot x t) = (v.writes ≡ last) × (last < v.heads + cap)
  ProducerSees cap last v (Producer.store_tail x t) = (v.writes ≡ last + 1) × (last < v.heads + cap)
  ProducerSees cap last v _ = v.writes ≡ last

  abbrev pub ConsumerSees : ℕ → View → Consumer A → Type 0
  ConsumerSees last v (Consumer.read_slot h) = (v.reads ≡ last) × (last < v.tails)
  ConsumerSees last v (Consumer.store_head x h) = (v.reads ≡ last + 1) × (last < v.tails)
  ConsumerSees last v _ = v.reads ≡ last

  pub record Views (cap : ℕ) (s : System A) : Type 0 where
    pub own_tails : s.producer_view.tails ≡ s.tail.last
    pub own_heads : s.consumer_view.heads ≡ s.head.last
    pub room : s.tail.last ≤ s.producer_view.heads + cap
    pub behind : s.head.last ≤ s.consumer_view.tails
    pub producer_known : Knows s s.producer_view
    pub consumer_known : Knows s s.consumer_view
    pub producer_sees : ProducerSees cap s.tail.last s.producer_view s.producer
    pub consumer_sees : ConsumerSees s.head.last s.consumer_view s.consumer

  pub record Inv (cap : ℕ) (s : System A) : Type 0 where
    pub sequential : Sequential.Inv cap (latest s)
    pub stores : Stores s.head s.tail s.producer_view.writes s.consumer_view.reads
    pub views : Views cap s
    pub stamps : Stamps cap s.producer_view.writes s.consumer_view.reads s.written s.read
