-- ===== src/Mpmc/Ordered.antt =====
-- Any number of threads over one ring of include/ringio/detail/mpmc_ring.hpp in the memory of the C++
-- standard, with the orders that the code asks for: loads may be stale, the cursors order nothing, and
-- two accesses to a slot's value of which neither happens before the other are a race.
pub mod Invariant
pub mod Fifo
mod Tests
use ringio.Base.{
  ℕ, suc, ◌+◌, ◌≤◌, ◌≡◌, Bool, true, false, ◌&&◌, not, none, some, List, [], ◌∷◌, ◌++◌, ◌==◌,
  if◌then◌else◌, update, max,
}
use ringio.Base.Word.{u64, slot_index}
use ringio.Base.Int.{ℤ, ◌-ℤ◌, to_intptr, is_zero, is_negative}
use ringio.Memory.{relaxed, acquire, release, Knowledge, Atomic, initial, loaded, store}
use ringio.Mpmc.{Pc, Slot, MpmcRing, init}
use ringio.Mpmc.System as Sequential

-- What happens before a thread's next access: the stores to the cursors and to each slot's sequence
-- number, by their number, and how many of the accesses to each slot's value.
pub record View : Type 0 where
  pub enqueues : ℕ
  pub dequeues : ℕ
  pub stores : ℕ → ℕ
  pub uses : ℕ → ℕ

abbrev pub no_view : View
no_view = record { enqueues = 0; dequeues = 0; stores = λ _. 0; uses = λ _. 0 }

abbrev pub join : View → View → View
join a b = record {
  enqueues = max a.enqueues b.enqueues;
  dequeues = max a.dequeues b.dequeues;
  stores = λ i. max (a.stores i) (b.stores i);
  uses = λ i. max (a.uses i) (b.uses i);
}

abbrev pub views : Knowledge View
views = record { nothing = no_view; join = join }

-- `uses` counts the accesses to each slot's value, which is also how a view names the last of them:
-- while there is no race, each happens after the one before it.
pub record System (A : Type 0) : Type 0 where
  pub sequences : ℕ → Atomic View
  pub values : ℕ → A
  pub enqueue_pos : Atomic View
  pub dequeue_pos : Atomic View
  pub uses : ℕ → ℕ
  pub threads : ℕ → Pc A
  pub views_of : ℕ → View
  pub given : ℕ → A
  pub taken : ℕ → List A

-- The stores that a load may return: none that the thread knows to be overwritten.
abbrev pub Visible : ℕ → ℕ → Atomic View → Type 0
Visible known k m = (known ≤ k) × (k ≤ m.last)

module _ {A : Type 0} (cap : ℕ) where
  abbrev pub sequence : System A → ℕ → Atomic View
  sequence s p = s.sequences (slot_index cap p)

  -- Thread `i` goes on at `x`, with view `v`.
  abbrev pub goes_on : System A → ℕ → Pc A → View → System A
  goes_on s i x v = record s { threads = update s.threads i x; views_of = update s.views_of i v }

  abbrev pub MayAct : System A → ℕ → View → Pc A → Type 0
  MayAct s k v (Pc.push_load x) = Visible v.enqueues k s.enqueue_pos
  MayAct s k v (Pc.push_seq x p) = Visible (v.stores (slot_index cap p)) k (sequence s p)
  MayAct s k v (Pc.push_cas x p) = Visible v.enqueues k s.enqueue_pos
  MayAct s k v Pc.pop_load = Visible v.dequeues k s.dequeue_pos
  MayAct s k v (Pc.pop_seq p) = Visible (v.stores (slot_index cap p)) k (sequence s p)
  MayAct s k v (Pc.pop_cas p) = Visible v.dequeues k s.dequeue_pos
  MayAct s k v _ = Unit

  -- The acquire load of a slot's sequence number, and what it makes known.
  abbrev pub loaded_sequence : System A → ℕ → View → ℕ → View
  loaded_sequence s k v p =
      loaded views acquire ((sequence s p).view k)
        (record v { stores = update v.stores (slot_index cap p) k })

  abbrev pub diff : System A → ℕ → ℕ → ℕ → ℤ
  diff s k p expected = to_intptr ((sequence s p).value k) -ℤ to_intptr expected

  -- One more access to the value of the slot of a position.
  abbrev pub used : System A → ℕ → View → View
  used s p v = record v { uses = update v.uses (slot_index cap p) (s.uses (slot_index cap p) + 1) }

  abbrev pub stored_view : System A → ℕ → View → View
  stored_view s p v = record v {
    stores = update v.stores (slot_index cap p) ((sequence s p).last + 1);
  }

  abbrev pub store_sequence : System A → ℕ → View → ℕ → ℕ → Atomic View
  store_sequence s p v x =
      update s.sequences (slot_index cap p) (store views release v x (sequence s p))

  -- One access of thread `i`, which knows `v`, inside `try_push` or `try_pop`; `k` is the number of the
  -- store that a load returns, and `spurious` says that a weak compare-exchange fails although the
  -- values agree. A compare-exchange that succeeds has read the last store.
  unfoldable pub access : Bool → ℕ → System A → ℕ → View → Pc A → System A
  access spurious k s i v Pc.idle = goes_on s i Pc.idle v
  access spurious k s i v (Pc.push_load x) =
      goes_on s i (Pc.push_seq x (s.enqueue_pos.value k))
        (loaded views relaxed (s.enqueue_pos.view k) (record v { enqueues = k }))
  access spurious k s i v (Pc.push_seq x p) =
      let d = diff s k p p in
      goes_on s i
        (if is_zero d
          then Pc.push_cas x p
          else if is_negative d
          then Pc.pushed false
          else Pc.push_load x)
        (loaded_sequence s k v p)
  access spurious k s i v (Pc.push_cas x p) =
      if s.enqueue_pos.value s.enqueue_pos.last == p && not spurious
      then (let view = record v { enqueues = s.enqueue_pos.last + 1 } in
          record (goes_on s i (Pc.push_write x p) view) {
            enqueue_pos = store views relaxed view (u64 (p + 1)) s.enqueue_pos;
            given = update s.given p x;
          })
      else goes_on s i (Pc.push_seq x (s.enqueue_pos.value k))
          (loaded views relaxed (s.enqueue_pos.view k) (record v { enqueues = k }))
  access spurious k s i v (Pc.push_write x p) =
      record (goes_on s i (Pc.push_store x p) (used s p v)) {
        values = update s.values (slot_index cap p) x;
        uses = update s.uses (slot_index cap p) (s.uses (slot_index cap p) + 1);
      }
  access spurious k s i v (Pc.push_store x p) =
      record (goes_on s i (Pc.pushed true) (stored_view s p v)) {
        sequences = store_sequence s p (stored_view s p v) (u64 (p + 1));
      }
  access spurious k s i v (Pc.pushed done) = goes_on s i Pc.idle v
  access spurious k s i v Pc.pop_load =
      goes_on s i (Pc.pop_seq (s.dequeue_pos.value k))
        (loaded views relaxed (s.dequeue_pos.view k) (record v { dequeues = k }))
  access spurious k s i v (Pc.pop_seq p) =
      let d = diff s k p (u64 (p + 1)) in
      goes_on s i
        (if is_zero d then Pc.pop_cas p else if is_negative d then Pc.popped none else Pc.pop_load)
        (loaded_sequence s k v p)
  access spurious k s i v (Pc.pop_cas p) =
      if s.dequeue_pos.value s.dequeue_pos.last == p && not spurious
      then (let view = record v { dequeues = s.dequeue_pos.last + 1 } in
          record (goes_on s i (Pc.pop_read p) view) {
            dequeue_pos = store views relaxed view (u64 (p + 1)) s.dequeue_pos;
          })
      else goes_on s i (Pc.pop_seq (s.dequeue_pos.value k))
          (loaded views relaxed (s.dequeue_pos.view k) (record v { dequeues = k }))
  access spurious k s i v (Pc.pop_read p) =
      record (goes_on s i (Pc.pop_store (s.values (slot_index cap p)) p) (used s p v)) {
        uses = update s.uses (slot_index cap p) (s.uses (slot_index cap p) + 1);
      }
  access spurious k s i v (Pc.pop_store x p) =
      record (goes_on s i (Pc.popped (some x)) (stored_view s p v)) {
        sequences = store_sequence s p (stored_view s p v) (u64 (p + cap));
        taken = update s.taken p (s.taken p ++ (x ∷ []));
      }
  access spurious k s i v (Pc.popped out) = goes_on s i Pc.idle v

  unfoldable pub turn : Bool → ℕ → System A → ℕ → System A
  unfolding access
  turn spurious k s i = access spurious k s i (s.views_of i) (s.threads i)

  pub data Step (s : System A) : System A → Type 0 where
    acts :
        (i : ℕ) (spurious : Bool) (k : ℕ)
        → MayAct s k (s.views_of i) (s.threads i)
        → Step s (turn spurious k s i)
    calls_push :
        (i : ℕ) (x : A)
        → s.threads i ≡ Pc.idle
        → Step s (record s { threads = update s.threads i (Pc.push_load x) })
    calls_pop :
        (i : ℕ)
        → s.threads i ≡ Pc.idle
        → Step s (record s { threads = update s.threads i Pc.pop_load })

  -- The constructor's stores are relaxed; it is done before there are threads.
  unfoldable pub start : A → System A
  unfolding init
  start blank = record {
    sequences = λ i. initial views ((init cap blank).slots i).sequence;
    values = λ i. ((init cap blank).slots i).value;
    enqueue_pos = initial views (init cap blank).enqueue_pos;
    dequeue_pos = initial views (init cap blank).dequeue_pos;
    uses = λ _. 0;
    threads = λ _. Pc.idle;
    views_of = λ _. no_view;
    given = λ _. blank;
    taken = λ _. [];
  }

  -- What `n` steps lead to, whichever stores the loads return.
  pub data Reach (blank : A) : ℕ → System A → Type 0 where
    here : Reach blank 0 (start blank)
    next : {n : ℕ} {s t : System A} → Reach blank n s → Step s t → Reach blank (suc n) t

-- The ring with the last value of each atomic variable.
abbrev pub ring : {A : Type 0} → System A → MpmcRing A
ring s = record {
  slots = λ i. record { sequence = (s.sequences i).value (s.sequences i).last; value = s.values i };
  enqueue_pos = s.enqueue_pos.value s.enqueue_pos.last;
  dequeue_pos = s.dequeue_pos.value s.dequeue_pos.last;
}

-- The same threads in a sequentially consistent memory.
abbrev pub latest : {A : Type 0} → System A → Sequential.System A
latest s = record { ring = ring s; threads = s.threads; given = s.given; taken = s.taken }
