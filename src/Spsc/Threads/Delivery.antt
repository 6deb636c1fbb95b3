-- ===== src/Spsc/Threads/Delivery.antt =====
-- Calls of include/ringio/detail/spsc_ring.hpp that the other thread does not interrupt, and what
-- they deliver in the end.
use ringio.Base.{
  ℕ, zero, suc, ◌≡◌, refl, sym, ap, ◌∙◌, Option, none, some, List, [], ◌∷◌, ◌++◌, length,
  Bool-cases, inl, inr, ◌==◌, leb, append-nil,
}
use ringio.Base.Word.{IsCapacity, sub_u64}
use ringio.Spsc.{try_push, try_pop}
use ringio.Spsc.Queue.{contents, pop}
use ringio.Spsc.Refine.{IsValid, try_pop_refines}
use ringio.Spsc.Threads.{
  Producer, Consumer, System, produce, consume, Reach, next, consumes, calls_pop,
}
use ringio.Spsc.Threads.Invariant.{Reach-Inv}

abbrev pub list_of : {A : Type 0} → Option A → List A
list_of none = []
list_of (some v) = v ∷ []

module _ {A : Type 0} (cap : ℕ) where
  -- A whole call, from `idle` to `idle`.
  unfoldable pub push_call : System A → A → System A
  unfolding produce
  push_call s v = produce cap (
      produce cap
        (produce cap (produce cap (produce cap (record s { producer = Producer.load_tail v })))))

  unfoldable pub pop_call : System A → System A
  unfolding consume
  pop_call s = consume cap (
      consume cap
        (consume cap (consume cap (consume cap (record s { consumer = Consumer.load_head })))))

  -- Uninterrupted, the accesses of a call are the function of the source: `try_push` to the ring.
  pub push_call_lem :
      (s : System A) (v : A)
      → ((push_call s v).ring ≡ (try_push cap s.ring v).1)
        × ((push_call s v).producer ≡ Producer.idle)
        × ((push_call s v).received ≡ s.received)
  unfolding push_call try_push
  push_call_lem s v = elim (Bool-cases (leb cap (sub_u64 s.ring.tail s.ring.head))) [
    | inl full ↦ rw full (refl, refl, refl)
    | inr room ↦ rw room (refl, refl, refl)
  ]

  -- The accesses of a pop that the producer does not interrupt do to the ring what `try_pop` does,
  -- deliver what it delivers, leave what was sent, and leave the consumer outside a call.
  pub pop_call_lem :
      (s : System A)
      → ((pop_call s).ring ≡ (try_pop cap s.ring).1)
        × ((pop_call s).received ≡ s.received ++ list_of (try_pop cap s.ring).0)
        × ((pop_call s).consumer ≡ Consumer.idle)
        × ((pop_call s).sent ≡ s.sent)
  unfolding pop_call try_pop
  pop_call_lem s = elim (Bool-cases (s.ring.head == s.ring.tail)) [
    | inl empty ↦ rw empty (refl, sym (append-nil s.received), refl, refl)
    | inr some_value ↦ rw some_value (refl, refl, refl, refl)
  ]

  unfoldable pub pop_calls : ℕ → System A → System A
  pop_calls zero s = s
  pop_calls (suc n) s = pop_calls n (pop_call s)

module _ {A : Type 0} {cap : ℕ} (c : IsCapacity cap) where
  pop_call-Reach :
      {blank : A} (s : System A)
      → s.consumer ≡ Consumer.idle
      → Reach cap blank s
      → Reach cap blank (pop_call cap s)
  unfolding pop_call
  pop_call-Reach s e r =
      next (next (next (next (next (next r (calls_pop e)) consumes) consumes) consumes) consumes)
        consumes

  pop_call-contents :
      (s : System A) (v : A) (l : List A)
      → IsValid cap s.ring
      → contents cap s.ring ≡ v ∷ l
      → contents cap (pop_call cap s).ring ≡ l
  unfolding pop
  pop_call-contents s v l valid e =
      ap (contents cap) (pop_call_lem cap s).0 ∙ ap (λ x. x.1) (try_pop_refines c valid ∙ ap pop e)

  delivered :
      {blank : A} (l : List A) (s : System A)
      → Reach cap blank s
      → s.consumer ≡ Consumer.idle
      → contents cap s.ring ≡ l
      → (pop_calls cap (length l) s).received ≡ s.sent
  unfolding pop_calls
  delivered [] s r e held =
      sym (append-nil s.received) ∙ ap (λ q. s.received ++ q) (sym held) ∙ sym (Reach-Inv c r).flow
  delivered (v ∷ l) s r e held =
      let (ring, received, idle, sent) = pop_call_lem cap s in
      delivered l (pop_call cap s) (pop_call-Reach s e r) idle
        (pop_call-contents s v l (Reach-Inv c r).valid held)
      ∙ sent

  -- From every state that the two threads of a ring whose capacity is a power of two reach, the
  -- consumer being outside a call: as many calls of `try_pop` as the ring holds values, without an
  -- access of the producer between them, deliver everything that the producer has published.
  pub all_delivered :
      {blank : A} {s : System A}
      → Reach cap blank s
      → s.consumer ≡ Consumer.idle
      → (pop_calls cap (length (contents cap s.ring)) s).received ≡ s.sent
  all_delivered {s} r e = delivered (contents cap s.ring) s r e refl
