-- ===== src/Mpmc/Quiescent/Contents.antt =====
-- What a ring of include/ringio/detail/mpmc_ring.hpp holds when no thread is between its claim and the
-- end of its call.
use ringio.Base.{
  ℕ, zero, suc, ◌+◌, ◌-◌, ◌≤◌, ◌<◌, ◌^◌, ◌≡◌, ◌⊎◌, inl, inr, refl, ap, none, some, List, [], ◌∷◌,
  length, arith, dec_lt,
}
use ringio.Base.Word.{IsCapacity}
use ringio.Mpmc.{MpmcRing, slot}
use ringio.Mpmc.System.{System, Reach}
use ringio.Mpmc.Invariant.{push_ticket, pop_ticket, Inv, Reach-Inv, slot_lap}
use ringio.Mpmc.Quiescent.Owned.{Owned}
use ringio.Mpmc.Quiescent.Steps.{Reach-Owned}
use ringio.Mpmc.Single.Refine.{Published, Holds}

module _ {A : Type 0} where
  -- No thread has claimed a position that it has not handed on.
  abbrev pub IsQuiet : System A → Type 0
  IsQuiet s = (i : ℕ) → (push_ticket (s.threads i) ≡ none) × (pop_ticket (s.threads i) ≡ none)

  -- The values of the `n` positions from `p` on.
  abbrev pub values : (ℕ → A) → ℕ → ℕ → List A
  values given p zero = []
  values given p (suc n) = given p ∷ values given (p + 1) n

  length-values : (given : ℕ → A) (p n : ℕ) → length (values given p n) ≡ n
  length-values given p zero = refl
  length-values given p (suc n) = ap suc (length-values given (p + 1) n)

  Published-values :
      (cap : ℕ) (m : MpmcRing A) (given : ℕ → A) (p n : ℕ)
      → ((t : ℕ)
          → p ≤ t
          → t < p + n
          → ((slot cap m t).sequence ≡ t + 1) × ((slot cap m t).value ≡ given t))
      → Published cap m p (values given p n)
  Published-values cap m given p zero h = tt
  Published-values cap m given p (suc n) h =
      let (e, v) = h p (omega arith) (omega arith) in
      (e, v, Published-values cap m given (p + 1) n (λ t lo hi. h t (omega arith) (omega arith)))

module _ {A : Type 0} {cap : ℕ} (c : IsCapacity cap) (two : 2 ≤ cap) {blank : A} {n : ℕ}
    {s : System A} (small : n + cap < 2 ^ 63) (r : Reach cap blank n s) (quiet : IsQuiet s) where
  inv : Inv cap n s
  inv = Reach-Inv c two small r

  owned : Owned cap s
  owned = Reach-Owned c two small r

  unclaimed : (q i : ℕ) → push_ticket (s.threads i) ≡ some q → ⊥
  unclaimed q i e = cc (e, (quiet i).0)

  untaken : (q i : ℕ) → pop_ticket (s.threads i) ≡ some q → ⊥
  untaken q i e = cc (e, (quiet i).1)

  done : (q : ℕ) → q < s.ring.dequeue_pos → s.taken q ≡ s.given q ∷ []
  done q lt = elim (owned.emptying q lt) [ inl e ↦ e | inr (i, e) ↦ absurd (untaken q i e) ]

  not_free :
      (q : ℕ)
      → s.ring.dequeue_pos ≤ q
      → q < s.ring.enqueue_pos
      → (slot cap s.ring q).sequence ≡ q
      → ⊥
  not_free q lo hi free = let (i, e) = owned.filling q lo hi free in unclaimed q i e

  waiting :
      (q : ℕ)
      → s.ring.dequeue_pos ≤ q
      → q < s.ring.enqueue_pos
      → ((slot cap s.ring q).sequence ≡ q + 1) × ((slot cap s.ring q).value ≡ s.given q)
  waiting q lo hi =
      ground (arith, not_free q lo hi, inv.ring_fits.room, inv.ring_fits.positions q lo)

  open_place :
      (q : ℕ)
      → s.ring.enqueue_pos ≤ q
      → q < s.ring.dequeue_pos + cap
      → (slot cap s.ring q).sequence ≡ q
  open_place q lo hi = ground (
    arith,
    inv.ring_fits.order,
    inv.ring_fits.positions q,
    done (q - cap),
    inv.taken_fits (q - cap),
    slot_lap c (q - cap),
  )

  -- With a capacity that is a power of two and at least two, and after fewer than 2 ^ 63 steps less the
  -- capacity: when no thread is between its claim and the end of its call, nothing is lost. The value
  -- of each claimed position has been delivered, once; or it has not, and is published in its slot.
  pub nothing_lost :
      (p : ℕ)
      → p < s.ring.enqueue_pos
      → ((p < s.ring.dequeue_pos) × (s.taken p ≡ s.given p ∷ []))
        ⊎ ((s.ring.dequeue_pos ≤ p)
            × (s.taken p ≡ [])
            × ((slot cap s.ring p).sequence ≡ p + 1)
            × ((slot cap s.ring p).value ≡ s.given p))
  nothing_lost p lt = elim (dec_lt p s.ring.dequeue_pos) [
    | yes before ↦ inl (before, done p before)
    | no behind ↦
        let (seq, v) = waiting p (omega arith) lt in
        let none_taken : s.taken p ≡ [] = ground (arith, inv.taken_fits p) in
        inr (omega arith, none_taken, seq, v)
  ]

  -- So the ring holds, in order, the values of the positions between its cursors.
  pub quiet-Holds :
      (k : ℕ)
      → n + k + cap < 2 ^ 63
      → Holds cap k s.ring
          (values s.given s.ring.dequeue_pos (s.ring.enqueue_pos - s.ring.dequeue_pos))
  quiet-Holds k near =
      let held : ℕ = s.ring.enqueue_pos - s.ring.dequeue_pos in
      let size : length (values s.given s.ring.dequeue_pos held) ≡ held =
        length-values s.given s.ring.dequeue_pos held in
      record {
        in_range = omega (arith, inv.count);
        size = omega (arith, inv.ring_fits.order, size);
        room = omega (arith, inv.ring_fits.room, size);
        published =
            Published-values cap s.ring s.given s.ring.dequeue_pos held
              (λ t lo hi. waiting t lo (omega arith));
        free = open_place;
      }
