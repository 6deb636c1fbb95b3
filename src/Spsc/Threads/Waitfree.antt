-- ===== src/Spsc/Threads/Waitfree.antt =====
-- Every call of include/ringio/detail/spsc_ring.hpp returns after a fixed number of its own
-- accesses.
use ringio.Base.{
  ℕ, suc, ◌-◌, ◌≤◌, ◌≡◌, ◌≢◌, refl, Bool, true, false, List, [], ◌∷◌, arith, leb, Bool-cases, inl,
  inr, if◌then◌else◌,
}
use ringio.Base.Word.{sub_u64}
use ringio.Spsc.Threads.{Producer, Consumer, System, produce, consume, consume_at}

-- The turns of each thread in a schedule.
abbrev pub turns : Bool → List Bool → ℕ
turns b [] = 0
turns true (true ∷ w) = suc (turns true w)
turns true (false ∷ w) = turns true w
turns false (true ∷ w) = turns false w
turns false (false ∷ w) = suc (turns false w)

module _ {A : Type 0} where
  -- How many accesses the call of a thread still makes, at most.
  abbrev pub pushes_left : Producer A → ℕ
  pushes_left (Producer.load_tail v) = 4
  pushes_left (Producer.load_head v t) = 3
  pushes_left (Producer.write_slot v t) = 2
  pushes_left (Producer.store_tail v t) = 1
  pushes_left Producer.idle = 0
  pushes_left (Producer.returned b) = 0

  abbrev pub pops_left : Consumer A → ℕ
  pops_left Consumer.load_head = 4
  pops_left (Consumer.load_tail h) = 3
  pops_left (Consumer.read_slot h) = 2
  pops_left (Consumer.store_head v h) = 1
  pops_left Consumer.idle = 0
  pops_left (Consumer.returned out) = 0

  module _ (cap : ℕ) where
    -- A turn while both threads are inside a call: `true` is the producer's. A thread whose call
    -- has returned stays there.
    drive_step : System A → Bool → System A
    drive_step s true = if leb 1 (pushes_left s.producer) then produce cap s else s
    drive_step s false = if leb 1 (pops_left s.consumer) then consume cap s else s

    -- A schedule of such turns.
    pub drive : List Bool → System A → System A
    unfolding drive_step
    drive [] s = s
    drive (b ∷ w) s = drive w (drive_step s b)

    consume-producer : (s : System A) (x : Consumer A) → (consume_at cap s x).producer ≡ s.producer
    unfolding consume_at
    consume-producer s Consumer.idle = refl
    consume-producer s Consumer.load_head = refl
    consume-producer s (Consumer.load_tail h) = refl
    consume-producer s (Consumer.read_slot h) = refl
    consume-producer s (Consumer.store_head v h) = refl
    consume-producer s (Consumer.returned out) = refl

    -- A turn of the producer brings its call nearer to its end; one of the consumer leaves it.
    producer-turn :
        (s : System A) (p : Producer A)
        → s.producer ≡ p
        → p ≢ Producer.idle
        → ((drive_step s true).producer ≢ Producer.idle)
          × (pushes_left (drive_step s true).producer ≤ pushes_left p - 1)
    unfolding produce drive_step
    producer-turn s Producer.idle e busy = absurd (busy refl)
    producer-turn s (Producer.load_tail v) e busy = rw (e, produce) (λ q. cc, omega arith)
    producer-turn s (Producer.load_head v t) e busy =
        elim (Bool-cases (leb cap (sub_u64 t s.ring.head))) [
          | inl full ↦ rw (e, produce, full) (λ q. cc, omega arith)
          | inr room ↦ rw (e, produce, room) (λ q. cc, omega arith)
        ]
    producer-turn s (Producer.write_slot v t) e busy = rw (e, produce) (λ q. cc, omega arith)
    producer-turn s (Producer.store_tail v t) e busy = rw (e, produce) (λ q. cc, omega arith)
    producer-turn s (Producer.returned b) e busy = rw (e, produce) (λ q. cc, omega arith)

    -- A turn of the consumer leaves the producer's call.
    producer-wait : (s : System A) → (drive_step s false).producer ≡ s.producer
    unfolding drive_step consume
    producer-wait s = elim (Bool-cases (leb 1 (pops_left s.consumer))) [
      | inl more ↦ rw more (consume-producer s s.consumer)
      | inr none_left ↦ rw none_left
    ]

    finished :
        (p : Producer A)
        → p ≢ Producer.idle
        → pushes_left p ≤ 0
        → (b : Bool) × (p ≡ Producer.returned b)
    finished Producer.idle busy h = absurd (busy refl)
    finished (Producer.load_tail v) busy h = absurd (omega arith)
    finished (Producer.load_head v t) busy h = absurd (omega arith)
    finished (Producer.write_slot v t) busy h = absurd (omega arith)
    finished (Producer.store_tail v t) busy h = absurd (omega arith)
    finished (Producer.returned b) busy h = (b, refl)

    -- A push that is under way has returned as soon as the producer has had four turns, or as many
    -- fewer as it has made accesses already, whatever the consumer does between them.
    pub push_returns :
        (w : List Bool) (s : System A)
        → s.producer ≢ Producer.idle
        → pushes_left s.producer ≤ turns true w
        → (b : Bool) × ((drive w s).producer ≡ Producer.returned b)
    unfolding drive
    push_returns [] s busy h = finished s.producer busy h
    push_returns (true ∷ w) s busy h =
        let (busy', less) = producer-turn s s.producer refl busy in
        push_returns w (drive_step s true) busy' (omega arith)
    push_returns (false ∷ w) s busy h =
        push_returns w (drive_step s false) (rw (producer-wait s) busy) (rw (producer-wait s) h)
