-- ===== src/Mpmc/Ordered/Invariant/Defs.antt =====
-- The history of each atomic variable, and who knows the last access to a slot's value.
use ringio.Base.{ℕ, ◌+◌, ◌≤◌, ◌<◌, ◌≡◌, ◌⊎◌, Option, none, some}
use ringio.Base.Word.{slot_index}
use ringio.Memory.{Atomic}
use ringio.Mpmc.{Pc, push_cas, push_write, push_store, pop_cas, pop_read, pop_store}
use ringio.Mpmc.Invariant as Sequential
use ringio.Mpmc.Ordered.{View, System, latest}

-- The position whose slot a thread has claimed and not yet handed on.
abbrev pub ticket : {A : Type 0} → Pc A → Option ℕ
ticket (push_write x p) = some p
ticket (push_store x p) = some p
ticket (pop_read p) = some p
ticket (pop_store x p) = some p
ticket _ = none

abbrev pub Increasing : Atomic View → Type 0
Increasing m = (k : ℕ) → k < m.last → m.value k < m.value m.last

abbrev pub NotAbove : Atomic View → Type 0
NotAbove m = (k : ℕ) → k ≤ m.last → m.value k ≤ m.value m.last

-- The last store to a slot's sequence number carries the last access to its value, or a thread has
-- the slot.
abbrev pub Released : {A : Type 0} → ℕ → (ℕ → Atomic View) → (ℕ → ℕ) → (ℕ → Pc A) → ℕ → Type 0
Released cap sequences uses threads i =
    (uses i ≤ ((sequences i).view (sequences i).last).uses i)
    ⊎ ((j : ℕ) × (p : ℕ) × (ticket (threads j) ≡ some p) × (slot_index cap p ≡ i))

-- If the slot of `p` is still as thread found it, with `q`, the thread knows what its last store
-- carries.
abbrev pub Fresh : ℕ → (ℕ → Atomic View) → View → ℕ → Type 0
Fresh i sequences v q =
    (sequences i).value (sequences i).last ≡ q
    → ((sequences i).view (sequences i).last).uses i ≤ v.uses i

abbrev pub Sees : {A : Type 0} → ℕ → (ℕ → Atomic View) → (ℕ → ℕ) → View → Pc A → Type 0
Sees cap sequences uses v (push_cas x p) = Fresh (slot_index cap p) sequences v p
Sees cap sequences uses v (pop_cas p) = Fresh (slot_index cap p) sequences v (p + 1)
Sees cap sequences uses v (push_write x p) = uses (slot_index cap p) ≤ v.uses (slot_index cap p)
Sees cap sequences uses v (push_store x p) = uses (slot_index cap p) ≤ v.uses (slot_index cap p)
Sees cap sequences uses v (pop_read p) = uses (slot_index cap p) ≤ v.uses (slot_index cap p)
Sees cap sequences uses v (pop_store x p) = uses (slot_index cap p) ≤ v.uses (slot_index cap p)
Sees cap sequences uses v _ = Unit

pub record Inv {A : Type 0} (cap n : ℕ) (s : System A) : Type 0 where
  pub sequential : Sequential.Inv cap n (latest s)
  pub increasing : (i : ℕ) → Increasing (s.sequences i)
  pub enqueues : NotAbove s.enqueue_pos
  pub dequeues : NotAbove s.dequeue_pos
  pub released : (i : ℕ) → Released cap s.sequences s.uses s.threads i
  pub sees : (j : ℕ) → Sees cap s.sequences s.uses (s.views_of j) (s.threads j)
