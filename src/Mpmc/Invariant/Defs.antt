-- ===== src/Mpmc/Invariant/Defs.antt =====
-- What each slot of the ring holds, and what each thread's locals say about it.
use ringio.Base.{ℕ, ◌+◌, ◌-◌, ◌≤◌, ◌<◌, ◌^◌, ◌≡◌, ◌⊎◌, Option, none, some, List, [], ◌∷◌}
use ringio.Mpmc.{
  MpmcRing, Pc, push_seq, push_cas, push_write, push_store, pop_seq, pop_cas, pop_read, pop_store,
  slot,
}
use ringio.Mpmc.System.{System}

module _ {A : Type 0} where
  -- The position that a thread has claimed and not yet handed on.
  abbrev pub push_ticket : Pc A → Option ℕ
  push_ticket (push_write v p) = some p
  push_ticket (push_store v p) = some p
  push_ticket _ = none

  abbrev pub pop_ticket : Pc A → Option ℕ
  pop_ticket (pop_read p) = some p
  pop_ticket (pop_store v p) = some p
  pop_ticket _ = none

  module _ (cap : ℕ) (m : MpmcRing A) (given : ℕ → A) where
    -- Position `t`, among the `cap` that are not behind the dequeue cursor, is free, or published,
    -- or still blocked by the position one lap before, whose value has not been taken out.
    abbrev pub PositionFits : ℕ → Type 0
    PositionFits t =
        ((slot cap m t).sequence ≡ t)
        ⊎ (((slot cap m t).sequence ≡ t + 1)
            × (t < m.enqueue_pos)
            × ((slot cap m t).value ≡ given t))
        ⊎ (((slot cap m t).sequence + cap ≡ t + 1)
            × (cap ≤ t)
            × (m.enqueue_pos ≤ t)
            × ((slot cap m t).value ≡ given (t - cap)))

    pub record RingFits : Type 0 where
      pub fits : m.enqueue_pos + cap < 2 ^ 63
      pub order : m.dequeue_pos ≤ m.enqueue_pos
      pub room : m.enqueue_pos ≤ m.dequeue_pos + cap
      pub bounded : (t : ℕ) → (slot cap m t).sequence ≤ m.enqueue_pos + cap
      pub passed : (t : ℕ) → t < m.dequeue_pos → t < (slot cap m t).sequence
      pub positions : (t : ℕ) → m.dequeue_pos ≤ t → t < m.dequeue_pos + cap → PositionFits t

    -- What is delivered from a position: nothing, or its value, once, after it was claimed and
    -- with its slot handed on.
    abbrev pub TakenFits : (ℕ → List A) → ℕ → Type 0
    TakenFits taken p =
        (taken p ≡ [])
        ⊎ ((taken p ≡ given p ∷ []) × (p < m.dequeue_pos) × (p + cap ≤ (slot cap m p).sequence))

    abbrev pub PushHolds : ℕ → A → Type 0
    PushHolds p v =
        (p < m.enqueue_pos) × (m.dequeue_pos ≤ p) × ((slot cap m p).sequence ≡ p) × (given p ≡ v)

    abbrev pub PopHolds : (ℕ → List A) → ℕ → Type 0
    PopHolds taken p =
        (p < m.dequeue_pos)
        × (m.dequeue_pos ≤ p + cap)
        × ((slot cap m p).sequence ≡ p + 1)
        × ((slot cap m p).value ≡ given p)
        × (taken p ≡ [])

    abbrev pub ThreadFits : (ℕ → List A) → Pc A → Type 0
    ThreadFits taken (push_seq v p) = p ≤ m.enqueue_pos
    ThreadFits taken (push_cas v p) = (p ≤ m.enqueue_pos) × (p ≤ (slot cap m p).sequence)
    ThreadFits taken (push_write v p) = PushHolds p v
    ThreadFits taken (push_store v p) = PushHolds p v × ((slot cap m p).value ≡ v)
    ThreadFits taken (pop_seq p) = p ≤ m.dequeue_pos
    ThreadFits taken (pop_cas p) = (p ≤ m.dequeue_pos) × (p + 1 ≤ (slot cap m p).sequence)
    ThreadFits taken (pop_read p) = PopHolds taken p
    ThreadFits taken (pop_store v p) = PopHolds taken p × (v ≡ given p)
    ThreadFits taken _ = Unit

  -- `n` bounds the positions claimed so far.
  pub record Inv (cap n : ℕ) (s : System A) : Type 0 where
    pub count : s.ring.enqueue_pos ≤ n
    pub ring_fits : RingFits cap s.ring s.given
    pub threads_fit : (i : ℕ) → ThreadFits cap s.ring s.given s.taken (s.threads i)
    pub push_unique :
        (i j p : ℕ)
        → push_ticket (s.threads i) ≡ some p
        → push_ticket (s.threads j) ≡ some p
        → i ≡ j
    pub pop_unique :
        (i j p : ℕ) → pop_ticket (s.threads i) ≡ some p → pop_ticket (s.threads j) ≡ some p → i ≡ j
    pub taken_fits : (p : ℕ) → TakenFits cap s.ring s.given s.taken p
