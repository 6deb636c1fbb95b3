-- ===== src/Mpmc/Invariant/Slots.antt =====
-- What each write to shared memory does to the slots and to the locals of the other threads.
use ringio.Base.{
  ℕ, ◌+◌, ◌≤◌, ◌<◌, ◌^◌, ◌≡◌, ◌≢◌, sym, ◌∙◌, some, List, [], ◌∷◌, arith, update, dec_lt, Bool, true,
  false, ◌==◌, ◌&&◌, not,
}
use ringio.Base.Word.{u64, slot_index, IsCapacity, slot_index-mod, same_slot}
use ringio.Mpmc.{MpmcRing, Pc, idle, push_write, push_store, pop_read, pop_store, slot, set_slot}
use ringio.Mpmc.Invariant.Defs.{push_ticket, pop_ticket, RingFits, PushHolds, PopHolds, ThreadFits}

-- A compare-exchange succeeds only on the value that it expects.
pub cas_hit : (a p : ℕ) (b : Bool) → (a == p && not b) ≡ true → a ≡ p
cas_hit a p true h = ground arith
cas_hit a p false h = ground arith

module _ {cap : ℕ} (c : IsCapacity cap) where
  pub slot_inj : (a b : ℕ) → slot_index cap a ≡ slot_index cap b → a ≤ b → b < a + cap → a ≡ b
  slot_inj a b e = same_slot cap a b (sym (slot_index-mod c a) ∙ e ∙ slot_index-mod c b)

  pub slot_lap : (a : ℕ) → slot_index cap (a + cap) ≡ slot_index cap a
  slot_lap a = rw (slot_index-mod c (a + cap), slot_index-mod c a) (grind arith)

  module _ {A : Type 0} (two : 2 ≤ cap) (m : MpmcRing A) (given : ℕ → A)
      (f : RingFits cap m given) where
    open f use {fits, order, room, bounded, passed, positions}

    -- A push that finds its position's slot not behind it, while the position is the cursor's,
    -- owns a free slot.
    pub claim_free :
        m.enqueue_pos ≤ (slot cap m m.enqueue_pos).sequence
        → (m.enqueue_pos < m.dequeue_pos + cap)
          × ((slot cap m m.enqueue_pos).sequence ≡ m.enqueue_pos)
    claim_free h =
        ground (arith, positions m.enqueue_pos, positions m.dequeue_pos, slot_lap m.dequeue_pos)

    pub claim_full :
        m.dequeue_pos + 1 ≤ (slot cap m m.dequeue_pos).sequence
        → (m.dequeue_pos < m.enqueue_pos)
          × ((slot cap m m.dequeue_pos).sequence ≡ m.dequeue_pos + 1)
          × ((slot cap m m.dequeue_pos).value ≡ given m.dequeue_pos)
    claim_full h = ground (arith, positions m.dequeue_pos)

    -- Two positions of one lap have different slots.
    distinct :
        (a b : ℕ)
        → m.dequeue_pos ≤ a
        → a < m.dequeue_pos + cap
        → m.dequeue_pos ≤ b
        → b < m.dequeue_pos + cap
        → slot_index cap a ≡ slot_index cap b
        → a ≡ b
    distinct a b la ha lb hb e = ground (arith, slot_inj a b e, slot_inj b a (sym e))

    module _ (v : A) (h : m.enqueue_pos ≤ (slot cap m m.enqueue_pos).sequence) where
      -- Claiming the enqueue position.
      unfoldable pub claimed_push : MpmcRing A
      claimed_push = record m { enqueue_pos = u64 (m.enqueue_pos + 1) }

      pub claim_push-RingFits :
          m.enqueue_pos + 1 + cap < 2 ^ 63
          → RingFits cap claimed_push (update given m.enqueue_pos v)
      unfolding claimed_push
      claim_push-RingFits small = record {
        fits = omega arith;
        order = omega arith;
        room = omega (arith, claim_free h);
        bounded = λ t. ground (arith, bounded t);
        passed = λ t lt. ground (arith, passed t);
        positions = λ t lo hi. ground (arith, positions t, claim_free h);
      }

      pub claim_push-ThreadFits :
          m.enqueue_pos + 1 + cap < 2 ^ 63
          → (taken : ℕ → List A) (x : Pc A) → ThreadFits cap m given taken x
          → ThreadFits cap claimed_push (update given m.enqueue_pos v) taken x
      unfolding claimed_push
      claim_push-ThreadFits small taken idle g = tt
      claim_push-ThreadFits small taken (push_write w p) g = ground arith
      claim_push-ThreadFits small taken (push_store w p) g = ground arith
      claim_push-ThreadFits small taken x g = ground arith

    -- Filling a claimed slot.
    module _ (p : ℕ) (v : A) (h : PushHolds cap m given p v) where
      unfoldable pub filled : MpmcRing A
      unfolding set_slot
      filled = set_slot cap m p (record (slot cap m p) { value = v })

      pub fill-RingFits : RingFits cap filled given
      unfolding filled
      fill-RingFits = record {
        fits = fits;
        order = order;
        room = room;
        bounded = λ t. ground (arith, bounded t);
        passed = λ t lt. ground (arith, passed t);
        positions = λ t lo hi. ground (arith, positions t lo hi, distinct p t);
      }

      pub fill-ThreadFits :
          (taken : ℕ → List A) (x : Pc A)
          → ThreadFits cap m given taken x
          → push_ticket x ≢ some p
          → ThreadFits cap filled given taken x
      unfolding filled
      fill-ThreadFits taken idle g apart = tt
      fill-ThreadFits taken (push_store w q) g apart = ground (arith, distinct p q)
      fill-ThreadFits taken (pop_read q) g apart = ground (arith, slot_inj q p)
      fill-ThreadFits taken (pop_store w q) g apart = ground (arith, slot_inj q p)
      fill-ThreadFits taken x g apart = ground arith

      -- Publishing it.
      unfoldable pub published : MpmcRing A
      unfolding set_slot
      published = set_slot cap m p (record (slot cap m p) { sequence = u64 (p + 1) })

      pub publish-RingFits : (slot cap m p).value ≡ v → RingFits cap published given
      unfolding published
      publish-RingFits full = record {
        fits = fits;
        order = order;
        room = room;
        bounded = λ t. ground (arith, bounded t);
        passed = λ t lt. ground (arith, passed t);
        positions = λ t lo hi. ground (arith, positions t lo hi, distinct p t);
      }

      pub publish-ThreadFits :
          (taken : ℕ → List A) (x : Pc A)
          → ThreadFits cap m given taken x
          → push_ticket x ≢ some p
          → ThreadFits cap published given taken x
      unfolding published
      publish-ThreadFits taken idle g apart = tt
      publish-ThreadFits taken (push_write w q) g apart = ground (arith, distinct p q)
      publish-ThreadFits taken (push_store w q) g apart = ground (arith, distinct p q)
      publish-ThreadFits taken (pop_read q) g apart = ground (arith, slot_inj q p)
      publish-ThreadFits taken (pop_store w q) g apart = ground (arith, slot_inj q p)
      publish-ThreadFits taken x g apart = ground arith

    module _ (h : m.dequeue_pos + 1 ≤ (slot cap m m.dequeue_pos).sequence) where
      -- Claiming the dequeue position.
      unfoldable pub claimed_pop : MpmcRing A
      claimed_pop = record m { dequeue_pos = u64 (m.dequeue_pos + 1) }

      pub claim_pop-RingFits : RingFits cap claimed_pop given
      unfolding claimed_pop
      claim_pop-RingFits = record {
        fits = fits;
        order = omega (arith, claim_full h);
        room = omega arith;
        bounded = λ t. ground (arith, bounded t);
        passed = λ t lt. ground (arith, passed t, claim_full h, dec_lt t m.dequeue_pos);
        positions = λ t lo hi. ground (arith, positions t, claim_full h, slot_lap m.dequeue_pos);
      }

      pub claim_pop-ThreadFits :
          (taken : ℕ → List A) (x : Pc A)
          → ThreadFits cap m given taken x
          → ThreadFits cap claimed_pop given taken x
      unfolding claimed_pop
      claim_pop-ThreadFits taken idle g = tt
      claim_pop-ThreadFits taken (push_write w p) g =
          ground (arith, claim_full h, distinct p m.dequeue_pos)
      claim_pop-ThreadFits taken (push_store w p) g =
          ground (arith, claim_full h, distinct p m.dequeue_pos)
      claim_pop-ThreadFits taken (pop_read p) g = ground (arith, claim_full h, slot_lap p)
      claim_pop-ThreadFits taken (pop_store w p) g = ground (arith, claim_full h, slot_lap p)
      claim_pop-ThreadFits taken x g = ground arith

    -- Handing a slot on to the next lap.
    module _ (taken : ℕ → List A) (p : ℕ) (h : PopHolds cap m given taken p) where
      unfoldable pub released : MpmcRing A
      unfolding set_slot
      released = set_slot cap m p (record (slot cap m p) { sequence = u64 (p + cap) })

      pub release-RingFits : RingFits cap released given
      unfolding released
      release-RingFits = record {
        fits = fits;
        order = order;
        room = room;
        bounded = λ t. ground (arith, bounded t);
        passed = λ t lt. ground (arith, passed t);
        positions = λ t lo hi. ground (arith, positions t lo hi, slot_lap p, distinct (p + cap) t);
      }

      pub release-ThreadFits :
          (x : Pc A)
          → ThreadFits cap m given taken x
          → pop_ticket x ≢ some p
          → ThreadFits cap released given (update taken p (given p ∷ [])) x
      unfolding released
      release-ThreadFits idle g apart = tt
      release-ThreadFits (push_write w q) g apart = ground (arith, slot_inj p q)
      release-ThreadFits (push_store w q) g apart = ground (arith, slot_inj p q)
      release-ThreadFits (pop_read q) g apart = ground (arith, slot_inj p q, slot_inj q p)
      release-ThreadFits (pop_store w q) g apart = ground (arith, slot_inj p q, slot_inj q p)
      release-ThreadFits x g apart = ground arith
