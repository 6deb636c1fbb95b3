-- ===== src/Memory.antt =====
-- What include/ringio/detail uses of the memory of the C++ standard: atomic variables with the stores
-- that were made to them, and what a load in a given order makes known. `V` is what a thread may
-- know to happen before its next access.
use ringio.Base.{ℕ, ◌+◌, update}

-- The `std::memory_order` of an access.
pub data Order : Type 0 where
  relaxed : Order
  acquire : Order
  release : Order
  acq_rel : Order

-- Nothing known, and what two know together.
pub record Knowledge (V : Type 0) : Type 0 where
  pub nothing : V
  pub join : V → V → V

-- A `std::atomic`: its stores so far, from the initial value with number 0 to the last, each with its
-- value and what a load that acquires it learns.
pub record Atomic (V : Type 0) : Type 0 where
  pub last : ℕ
  pub value : ℕ → ℕ
  pub view : ℕ → V

module _ {V : Type 0} (knowledge : Knowledge V) where
  abbrev pub initial : ℕ → Atomic V
  initial x = record { last = 0; value = λ _. x; view = λ _. knowledge.nothing }

  -- What a thread that knows `v` knows once it has loaded a store that carries `w`.
  abbrev pub loaded : Order → V → V → V
  loaded relaxed w v = v
  loaded acquire w v = knowledge.join v w
  loaded release w v = v
  loaded acq_rel w v = knowledge.join v w

  -- What a store carries.
  abbrev pub carried : Order → V → V
  carried relaxed v = knowledge.nothing
  carried acquire v = knowledge.nothing
  carried release v = v
  carried acq_rel v = v

  abbrev pub store : Order → V → ℕ → Atomic V → Atomic V
  store order v x m = record {
    last = m.last + 1;
    value = update m.value (m.last + 1) x;
    view = update m.view (m.last + 1) (carried order v);
  }
