-- ===== src/Engine/Mpmc.antt =====
-- The ring of include/ringio/detail/mpmc_ring.hpp as a queue of include/ringio/sqpoll_engine.hpp, while
-- no other thread is inside a call.
use ringio.Base.{
  ℕ, zero, suc, ◌+◌, ◌-◌, ◌≤◌, ◌≡◌, refl, sym, ap, ap₂, ◌∙◌, subst, Bool, false, Option, none, List,
  [], ◌∷◌, length, arith,
}
use ringio.Base.Word.{IsCapacity}
use ringio.Mpmc.{MpmcRing, Pc, push_load, pushed, pop_load, popped, slot}
use ringio.Mpmc.Single.{solo}
use ringio.Mpmc.Single.Refine.{Published, Holds, solo-push_refines, solo-pop_refines}
use ringio.Spsc.Queue.{push, pop}
use ringio.Engine.{Source, Sink}

module _ {A : Type 0} where
  -- What a call that has returned hands out.
  abbrev pub got : Pc A → Option A
  got (popped out) = out
  got _ = none

  abbrev pub accepted : Pc A → Bool
  accepted (pushed done) = done
  accepted _ = false

  module _ (cap : ℕ) where
    abbrev pub slot_values : MpmcRing A → ℕ → ℕ → List A
    slot_values m p zero = []
    slot_values m p (suc n) = (slot cap m p).value ∷ slot_values m (p + 1) n

    -- The values between the cursors.
    abbrev pub held : MpmcRing A → List A
    held m = slot_values m m.dequeue_pos (m.enqueue_pos - m.dequeue_pos)

    abbrev pub pop_alone : MpmcRing A → Option A × MpmcRing A
    pop_alone m = let (m', pc) = solo cap 5 m pop_load in (got pc, m')

    abbrev pub push_alone : MpmcRing A → A → Bool × MpmcRing A
    push_alone m v = let (m', pc) = solo cap 5 m (push_load v) in (accepted pc, m')

    slot_values-Published :
        (m : MpmcRing A) (p : ℕ) (l : List A) → Published cap m p l → slot_values m p (length l) ≡ l
    slot_values-Published m p [] h = refl
    slot_values-Published m p (v ∷ l) (_, e, t) = ap₂ ◌∷◌ e (slot_values-Published m (p + 1) l t)

    pub held-Holds : (k : ℕ) (m : MpmcRing A) (l : List A) → Holds cap k m l → held m ≡ l
    held-Holds k m l h =
        let size : m.enqueue_pos - m.dequeue_pos ≡ length l = omega (arith, h.size) in
        ap (slot_values m m.dequeue_pos) size ∙ slot_values-Published m m.dequeue_pos l h.published

    abbrev pub HoldsOwn : ℕ → MpmcRing A → Type 0
    HoldsOwn k m = Holds cap k m (held m)

    pub own : (k : ℕ) (m : MpmcRing A) (l : List A) → Holds cap k m l → HoldsOwn k m
    own k m l h = subst (Holds cap k m) (sym (held-Holds k m l h)) h

    pub fewer_calls : (j k : ℕ) (m : MpmcRing A) → j ≤ k → HoldsOwn k m → HoldsOwn j m
    fewer_calls j k m le h = record {
      in_range = omega (arith, h.in_range);
      size = h.size;
      room = h.room;
      published = h.published;
      free = h.free;
    }

  module _ {cap : ℕ} (c : IsCapacity cap) (two : 2 ≤ cap) where
    pub pop_alone-Holds :
        (k : ℕ) (m : MpmcRing A)
        → HoldsOwn cap (suc k) m
        → HoldsOwn cap k (pop_alone cap m).1
          × (((pop_alone cap m).0, held cap (pop_alone cap m).1) ≡ pop (held cap m))
    pop_alone-Holds k m h =
        let (e, h') = solo-pop_refines c two k m (held cap m) h in
        let m' : MpmcRing A = (pop_alone cap m).1 in
        (
          own cap k m' (pop (held cap m)).1 h',
          ap₂ (λ (o : Option A) (l : List A). (o, l)) (ap got e)
              (held-Holds cap k m' (pop (held cap m)).1 h'),
        )

    pub push_alone-Holds :
        (k : ℕ) (m : MpmcRing A) (v : A)
        → HoldsOwn cap (suc k) m
        → HoldsOwn cap k (push_alone cap m v).1
          × (((push_alone cap m v).0, held cap (push_alone cap m v).1) ≡ push cap (held cap m) v)
    push_alone-Holds k m v h =
        let (e, h') = solo-push_refines c two k m (held cap m) v h in
        let m' : MpmcRing A = (push_alone cap m v).1 in
        (
          own cap k m' (push cap (held cap m) v).1 h',
          ap₂ (λ (b : Bool) (l : List A). (b, l)) (ap accepted e)
              (held-Holds cap k m' (push cap (held cap m) v).1 h'),
        )

    abbrev pub mpmc_source : Source (MpmcRing A) A
    mpmc_source = record {
      take_one = pop_alone cap;
      held = held cap;
      Holds = HoldsOwn cap;
      fewer = fewer_calls cap;
      take_one-Holds = λ k m h. (pop_alone-Holds k m h).0;
      take_one_refines = λ k m h. (pop_alone-Holds k m h).1;
    }

    abbrev pub mpmc_sink : Sink (MpmcRing A) A
    mpmc_sink = record {
      put_one = push_alone cap;
      kept = held cap;
      Keeps = HoldsOwn cap;
      room = cap;
      fewer = fewer_calls cap;
      put_one-Keeps = λ k m v h. (push_alone-Holds k m v h).0;
      put_one_refines = λ k m v h. (push_alone-Holds k m v h).1;
    }
