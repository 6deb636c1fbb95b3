-- ===== src/Mpmc.antt =====
-- include/ringio/detail/mpmc_ring.hpp: the multi-producer multi-consumer ring, with any number of
-- threads, an access to shared memory at a time, in a sequentially consistent memory. `Capacity` is
-- the argument `cap`.
pub mod System
pub mod Invariant
pub mod Fifo
pub mod Refusal
pub mod Progress
pub mod Single
pub mod Quiescent
pub mod Ordered
mod Tests
use ringio.Base.{
  ℕ, zero, suc, ◌+◌, Bool, true, false, ◌&&◌, not, Option, none, some, ◌==◌, if◌then◌else◌, update,
}
use ringio.Base.Word.{u64, slot_index}
use ringio.Base.Int.{ℤ, ◌-ℤ◌, to_intptr, is_zero, is_negative}

pub record Slot (A : Type 0) : Type 0 where
  pub sequence : ℕ
  pub value : A

pub record MpmcRing (A : Type 0) : Type 0 where
  pub slots : ℕ → Slot A
  pub enqueue_pos : ℕ
  pub dequeue_pos : ℕ

-- Where a thread stands, with the locals that are live there: the access that it makes next.
pub data Pc (A : Type 0) : Type 0 where
  idle : Pc A
  push_load : A → Pc A
  push_seq : A → (p : ℕ) → Pc A
  push_cas : A → (p : ℕ) → Pc A
  push_write : A → (p : ℕ) → Pc A
  push_store : A → (p : ℕ) → Pc A
  pushed : Bool → Pc A
  pop_load : Pc A
  pop_seq : (p : ℕ) → Pc A
  pop_cas : (p : ℕ) → Pc A
  pop_read : (p : ℕ) → Pc A
  pop_store : A → (p : ℕ) → Pc A
  popped : Option A → Pc A

-- What an access adds to the history: position `p` was claimed for a value, or a value was
-- delivered from it.
pub data Event (A : Type 0) : Type 0 where
  quiet : Event A
  claimed : ℕ → A → Event A
  delivered : ℕ → A → Event A

module _ {A : Type 0} where
  -- The constructor's loop over `slots_`; `blank` is `T{}`.
  pub init_slots : ℕ → A → ℕ → Slot A
  init_slots zero blank = λ _. record { sequence = 0; value = blank }
  init_slots (suc i) blank = update (init_slots i blank) i (record { sequence = i; value = blank })

  unfoldable pub init : ℕ → A → MpmcRing A
  unfolding init_slots
  init cap blank = record { slots = init_slots cap blank; enqueue_pos = 0; dequeue_pos = 0 }

  module _ (cap : ℕ) where
    -- The slot of a position.
    abbrev pub slot : MpmcRing A → ℕ → Slot A
    slot m p = m.slots (slot_index cap p)

    set_slot : MpmcRing A → ℕ → Slot A → MpmcRing A
    set_slot m p x = record m { slots = update m.slots (slot_index cap p) x }

    -- `diff`, as a signed number.
    diff : MpmcRing A → ℕ → ℕ → ℤ
    diff m p expected = to_intptr (slot m p).sequence -ℤ to_intptr expected

    -- One access of a thread inside `try_push` or `try_pop`. `spurious` says that a weak
    -- compare-exchange fails although the values agree.
    unfoldable pub access : Bool → MpmcRing A → Pc A → MpmcRing A × Pc A × Event A
    unfolding set_slot diff
    access spurious m Pc.idle = (m, Pc.idle, Event.quiet)
    access spurious m (Pc.push_load v) = (m, Pc.push_seq v m.enqueue_pos, Event.quiet)
    access spurious m (Pc.push_seq v p) =
        let d = diff m p p in
        if is_zero d
        then (m, Pc.push_cas v p, Event.quiet)
        else if is_negative d
        then (m, Pc.pushed false, Event.quiet)
        else (m, Pc.push_load v, Event.quiet)
    access spurious m (Pc.push_cas v p) =
        if m.enqueue_pos == p && not spurious
        then (record m { enqueue_pos = u64 (p + 1) }, Pc.push_write v p, Event.claimed p v)
        else (m, Pc.push_seq v m.enqueue_pos, Event.quiet)
    access spurious m (Pc.push_write v p) =
        (set_slot m p (record (slot m p) { value = v }), Pc.push_store v p, Event.quiet)
    access spurious m (Pc.push_store v p) =
        (set_slot m p (record (slot m p) { sequence = u64 (p + 1) }), Pc.pushed true, Event.quiet)
    access spurious m (Pc.pushed b) = (m, Pc.idle, Event.quiet)
    access spurious m Pc.pop_load = (m, Pc.pop_seq m.dequeue_pos, Event.quiet)
    access spurious m (Pc.pop_seq p) =
        let d = diff m p (u64 (p + 1)) in
        if is_zero d
        then (m, Pc.pop_cas p, Event.quiet)
        else if is_negative d
        then (m, Pc.popped none, Event.quiet)
        else (m, Pc.pop_load, Event.quiet)
    access spurious m (Pc.pop_cas p) =
        if m.dequeue_pos == p && not spurious
        then (record m { dequeue_pos = u64 (p + 1) }, Pc.pop_read p, Event.quiet)
        else (m, Pc.pop_seq m.dequeue_pos, Event.quiet)
    access spurious m (Pc.pop_read p) = (m, Pc.pop_store (slot m p).value p, Event.quiet)
    access spurious m (Pc.pop_store v p) = (
      set_slot m p (record (slot m p) { sequence = u64 (p + cap) }),
      Pc.popped (some v),
      Event.delivered p v,
    )
    access spurious m (Pc.popped out) = (m, Pc.idle, Event.quiet)
