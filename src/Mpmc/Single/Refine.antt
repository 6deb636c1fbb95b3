-- ===== src/Mpmc/Single/Refine.antt =====
-- One thread alone: the calls of include/ringio/detail/mpmc_ring.hpp are those of a queue of `cap`
-- places, until a cursor comes near 2 ^ 63.
use ringio.Base.{
  ℕ, suc, ◌+◌, ◌≤◌, ◌<◌, ◌^◌, ◌≡◌, ◌≢◌, refl, sym, ap, ◌∙◌, true, false, none, some, List, [], ◌∷◌,
  ◌++◌, length, length-append, arith, dec_lt, ltb, mod-eq_of_lt,
}
use ringio.Base.Word.{u64, slot_index, IsCapacity, slot_index-mod, slot_index-lt}
use ringio.Mpmc.{MpmcRing, push_load, pushed, pop_load, popped, slot, init}
use ringio.Mpmc.Invariant.{slot_inj, slot_lap, init_slots-sequence}
use ringio.Mpmc.Single.{solo}
use ringio.Mpmc.Single.Calls.{after_push, after_pop, push_free, push_busy, pop_full, pop_empty}
use ringio.Spsc.Queue.{push, pop}

module _ {A : Type 0} (cap : ℕ) where
  -- The values from position `p` on are published.
  abbrev pub Published : MpmcRing A → ℕ → List A → Type 0
  Published m p [] = Unit
  Published m p (v ∷ l) =
      ((slot cap m p).sequence ≡ p + 1) × ((slot cap m p).value ≡ v) × Published m (p + 1) l

  -- The ring holds `l`, every other position of the lap is free, and `k` more calls are in range.
  pub record Holds (k : ℕ) (m : MpmcRing A) (l : List A) : Type 0 where
    pub in_range : m.enqueue_pos + k + cap < 2 ^ 63
    pub size : m.enqueue_pos ≡ m.dequeue_pos + length l
    pub room : length l ≤ cap
    pub published : Published m m.dequeue_pos l
    pub free : (t : ℕ) → m.enqueue_pos ≤ t → t < m.dequeue_pos + cap → (slot cap m t).sequence ≡ t

module _ {A : Type 0} {cap : ℕ} (c : IsCapacity cap) (two : 2 ≤ cap) where
  Published-same :
      (m m' : MpmcRing A) (p : ℕ) (l : List A)
      → ((t : ℕ) → p ≤ t → t < p + length l → slot cap m' t ≡ slot cap m t)
      → Published cap m p l
      → Published cap m' p l
  Published-same m m' p [] same h = tt
  Published-same m m' p (v ∷ l) same (s, e, t) =
      let kept : slot cap m' p ≡ slot cap m p = same p (omega arith) (omega arith) in
      (
        ap (λ x. x.sequence) kept ∙ s,
        ap (λ x. x.value) kept ∙ e,
        Published-same m m' (p + 1) l (λ t lo hi. same t (omega arith) (omega arith)) t,
      )

  Published-snoc :
      (m : MpmcRing A) (p q : ℕ) (l : List A) (v : A)
      → q ≡ p + length l
      → Published cap m p l
      → (slot cap m q).sequence ≡ q + 1
      → (slot cap m q).value ≡ v
      → Published cap m p (l ++ (v ∷ []))
  Published-snoc m p q [] v e h s w =
      let same : q ≡ p = omega arith in
      (
        ap (λ k. (slot cap m k).sequence) (sym same) ∙ s ∙ ap (λ (k : ℕ). k + 1) same,
        ap (λ k. (slot cap m k).value) (sym same) ∙ w,
        tt,
      )
  Published-snoc m p q (x ∷ l) v e (s', e', t) s w =
      (s', e', Published-snoc m (p + 1) q l v (omega arith) t s w)

  module _ (m : MpmcRing A) where
    after_push_self :
        (v : A)
        → slot cap (after_push cap m v) m.enqueue_pos
          ≡ record { sequence = u64 (m.enqueue_pos + 1); value = v }
    unfolding after_push
    after_push_self v = ground arith

    after_push_ne :
        (v : A) (t : ℕ)
        → slot_index cap m.enqueue_pos ≢ slot_index cap t
        → slot cap (after_push cap m v) t ≡ slot cap m t
    unfolding after_push
    after_push_ne v t ne = ground arith

    after_pop_self : (slot cap (after_pop cap m) m.dequeue_pos).sequence ≡ u64 (m.dequeue_pos + cap)
    unfolding after_pop
    after_pop_self = ground arith

    after_pop_ne :
        (t : ℕ)
        → slot_index cap m.dequeue_pos ≢ slot_index cap t
        → slot cap (after_pop cap m) t ≡ slot cap m t
    unfolding after_pop
    after_pop_ne t ne = ground arith

    after_push_cursors :
        (v : A)
        → ((after_push cap m v).enqueue_pos ≡ u64 (m.enqueue_pos + 1))
          × ((after_push cap m v).dequeue_pos ≡ m.dequeue_pos)
    unfolding after_push
    after_push_cursors v = (refl, refl)

    after_pop_cursors :
        ((after_pop cap m).dequeue_pos ≡ u64 (m.dequeue_pos + 1))
        × ((after_pop cap m).enqueue_pos ≡ m.enqueue_pos)
    unfolding after_pop
    after_pop_cursors = (refl, refl)

  -- A push with room, and a pop with a value.
  push-Holds :
      (k : ℕ) (m : MpmcRing A) (l : List A) (v : A)
      → length l < cap
      → Holds cap (suc k) m l
      → Holds cap k (after_push cap m v) (l ++ (v ∷ []))
  push-Holds k m l v lt h =
      let e : ℕ = m.enqueue_pos in
      let (next, head) = after_push_cursors m v in
      let self : slot cap (after_push cap m v) e ≡ record { sequence = u64 (e + 1); value = v } =
        after_push_self m v in
      let len : length (l ++ (v ∷ [])) ≡ length l + 1 = length-append l (v ∷ []) in
      let word : u64 (e + 1) ≡ e + 1 = omega (arith, h.in_range) in
      let seq : (slot cap (after_push cap m v) e).sequence ≡ e + 1 =
        ap (λ x. x.sequence) self ∙ word in
      record {
        in_range = omega (arith, h.in_range, next, word);
        size = omega (arith, h.size, next, head, len, word);
        room = omega (arith, len);
        published = rw head (
            Published-snoc (after_push cap m v) m.dequeue_pos e l v h.size
              (Published-same m (after_push cap m v) m.dequeue_pos l
                (λ t lo hi.
                  after_push_ne m v t (λ same. omega (arith, slot_inj c t e (sym same), h.size)))
                h.published)
              seq (ap (λ x. x.value) self));
        free = λ t lo hi.
            let other : slot_index cap e ≢ slot_index cap t =
              λ same. omega (arith, slot_inj c e t same, h.size, next, head, word) in
            ap (λ x. x.sequence) (after_push_ne m v t other)
            ∙ h.free t (omega (arith, next, word)) (omega (arith, head));
      }

  pop-Holds :
      (k : ℕ) (m : MpmcRing A) (l : List A) (v : A)
      → Holds cap (suc k) m (v ∷ l)
      → Holds cap k (after_pop cap m) l
  pop-Holds k m l v h =
      let d : ℕ = m.dequeue_pos in
      let (next, tail) = after_pop_cursors m in
      let word : u64 (d + 1) ≡ d + 1 = omega (arith, h.in_range, h.size) in
      let lap : u64 (d + cap) ≡ d + cap = omega (arith, h.in_range, h.size) in
      let start : (after_pop cap m).dequeue_pos ≡ d + 1 = next ∙ word in
      record {
        in_range = omega (arith, h.in_range, tail);
        size = omega (arith, h.size, tail, start);
        room = omega (arith, h.room);
        published = rw start (
            Published-same m (after_pop cap m) (d + 1) l
              (λ t lo hi. after_pop_ne m t (λ same. omega (arith, slot_inj c d t same, h.room)))
              h.published.2);
        free = λ t lo hi. elim (dec_lt t (d + cap)) [
          | yes near ↦
              let other : slot_index cap d ≢ slot_index cap t =
                λ same. omega (arith, slot_inj c d t same, h.size, tail) in
              ap (λ x. x.sequence) (after_pop_ne m t other) ∙ h.free t (omega (arith, tail)) near
          | no far ↦
              let end : d + cap ≡ t = omega (arith, start) in
              ap (λ i. ((after_pop cap m).slots i).sequence)
                (ap (slot_index cap) (sym end) ∙ slot_lap c d)
              ∙ after_pop_self m
              ∙ lap
              ∙ end
        ];
      }

  fewer-Holds : (k : ℕ) (m : MpmcRing A) (l : List A) → Holds cap (suc k) m l → Holds cap k m l
  fewer-Holds k m l h = record {
    in_range = omega (arith, h.in_range);
    size = h.size;
    room = h.room;
    published = h.published;
    free = h.free;
  }

  busy-slot :
      (k : ℕ) (m : MpmcRing A) (l : List A)
      → cap ≤ length l
      → Holds cap (suc k) m l
      → (slot cap m m.enqueue_pos).sequence < m.enqueue_pos
  busy-slot k m [] full h = absurd (omega arith)
  busy-slot k m (v ∷ l) full h =
      let d : ℕ = m.dequeue_pos in
      let lap : d + cap ≡ m.enqueue_pos = omega (arith, h.size, h.room) in
      let same : (slot cap m m.enqueue_pos).sequence ≡ (slot cap m d).sequence =
        ap (λ i. (m.slots i).sequence) (ap (slot_index cap) (sym lap) ∙ slot_lap c d) in
      omega (arith, same, h.published.0)

  -- When the ring holds `l`, and its cursors are in range for one more call, a push of one thread
  -- alone answers as a push on a queue of `cap` places that holds `l`, and leaves the ring with what
  -- that queue holds then.
  pub solo-push_refines :
      (k : ℕ) (m : MpmcRing A) (l : List A) (v : A)
      → Holds cap (suc k) m l
      → ((solo cap 5 m (push_load v)).1 ≡ pushed (push cap l v).0)
        × Holds cap k (solo cap 5 m (push_load v)).0 (push cap l v).1
  unfolding push
  solo-push_refines k m l v h = elim (dec_lt (length l) cap) [
    | yes room ↦
        let open_place : ltb (length l) cap ≡ true = ground arith in
        let e : solo cap 5 m (push_load v) ≡ (after_push cap m v, pushed true) =
          push_free cap m v (omega (arith, h.in_range))
            (h.free m.enqueue_pos (omega arith) (omega (arith, h.size))) in
        rw (e, open_place) (refl, push-Holds k m l v room h)
    | no full ↦
        let no_place : ltb (length l) cap ≡ false = ground arith in
        let e : solo cap 5 m (push_load v) ≡ (m, pushed false) =
          push_busy cap m v (omega (arith, h.in_range)) (busy-slot k m l (omega arith) h) in
        rw (e, no_place) (refl, fewer-Holds k m l h)
  ]

  -- And so does a pop.
  pub solo-pop_refines :
      (k : ℕ) (m : MpmcRing A) (l : List A)
      → Holds cap (suc k) m l
      → ((solo cap 5 m pop_load).1 ≡ popped (pop l).0)
        × Holds cap k (solo cap 5 m pop_load).0 (pop l).1
  unfolding pop
  solo-pop_refines k m [] h =
      let d : ℕ = m.dequeue_pos in
      let seq : (slot cap m d).sequence ≡ d = h.free d (omega (arith, h.size)) (omega arith) in
      let e : solo cap 5 m pop_load ≡ (m, popped none) =
        pop_empty cap m (omega (arith, h.in_range, h.size)) (omega (arith, seq)) in
      rw e (refl, fewer-Holds k m [] h)
  solo-pop_refines k m (v ∷ l) h =
      let e : solo cap 5 m pop_load
          ≡ (after_pop cap m, popped (some (slot cap m m.dequeue_pos).value)) =
        pop_full cap m (omega (arith, h.in_range, h.size)) h.published.0 in
      rw (e, h.published.1) (refl, pop-Holds k m l v h)

  -- A new ring is empty.
  pub init-Holds : (k : ℕ) (blank : A) → k + cap < 2 ^ 63 → Holds cap k (init cap blank) []
  unfolding init
  init-Holds k blank small = record {
    in_range = omega arith;
    size = omega arith;
    room = omega arith;
    published = tt;
    free = λ t lo hi.
        init_slots-sequence cap blank (slot_index cap t) (slot_index-lt c t)
        ∙ slot_index-mod c t
        ∙ mod-eq_of_lt (omega arith);
  }
