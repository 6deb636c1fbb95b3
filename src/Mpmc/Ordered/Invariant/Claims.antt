-- ===== src/Mpmc/Ordered/Invariant/Claims.antt =====
-- The exchanges of include/ringio/detail/mpmc_ring.hpp that succeed keep the invariant: the thread
-- knows the last access to the slot that it claims.
use ringio.Base.{
  ℕ, suc, ◌+◌, ◌≤◌, ◌<◌, ◌^◌, ◌≡◌, ◌≢◌, refl, sym, ap, inl, inr, none, some, arith, subst, update,
  update_self, update_cases, update_both, Bool, ◌&&◌, not, ◌==◌, if_cases,
}
use ringio.Base.Word.{IsCapacity, u64, slot_index}
use ringio.Memory.{Atomic, relaxed, store}
use ringio.Mpmc.{Pc, push_seq, push_cas, push_write, pop_seq, pop_cas, pop_read, slot}
use ringio.Mpmc.Invariant as SequentialInv
use ringio.Mpmc.Invariant.{
  ThreadFits, Keeps, won_push, won_pop, claim_push, claim_pop, claim_free, claim_full, cas_hit,
}
use ringio.Mpmc.Ordered.{View, views, System, ring, latest, goes_on, sequence, access}
use ringio.Mpmc.Ordered.Invariant.Defs.{ticket, NotAbove, Fresh, Sees, Inv}
use ringio.Mpmc.Ordered.Invariant.Tickets.{nobody_pushes, nobody_pops}
use ringio.Mpmc.Ordered.Invariant.Sights.{Released-other}
use ringio.Mpmc.Ordered.Invariant.Quiet.{quiet}

-- One more store to a cursor.
store-NotAbove :
    (m : Atomic View) (v : View) (p : ℕ)
    → NotAbove m
    → m.value m.last ≡ p
    → p + 1 < 2 ^ 64
    → NotAbove (store views relaxed v (u64 (p + 1)) m)
store-NotAbove m v p below e small k le = rw (update_self m.value (m.last + 1) (u64 (p + 1))) (
    update_cases (λ x. x ≤ u64 (p + 1)) m.value (m.last + 1) (u64 (p + 1)) k (λ same. omega arith)
      (λ other. omega (arith, below k (omega arith), e)))

module _ {A : Type 0} {cap : ℕ} (c : IsCapacity cap) (two : 2 ≤ cap) {n : ℕ} {s : System A}
    (small : suc n + cap < 2 ^ 63) (inv : Inv cap n s) (i : ℕ) where
  open inv use {sequential, increasing, enqueues, dequeues, released, sees}

  -- The thread that claims the slot of `p` knows the last access to its value.
  knows_last :
      (p q : ℕ) (v : View)
      → (sequence cap s p).value (sequence cap s p).last ≡ q
      → Fresh (slot_index cap p) s.sequences v q
      → ((j p' : ℕ) → ticket (s.threads j) ≡ some p' → slot_index cap p' ≢ slot_index cap p)
      → s.uses (slot_index cap p) ≤ v.uses (slot_index cap p)
  knows_last p q v still fresh nobody = elim (released (slot_index cap p)) [
    | inl le ↦ omega (arith, le, fresh still)
    | inr (j, p', t, e) ↦ absurd (nobody j p' t e)
  ]

  no_ticket :
      (x : Pc A) (k p : ℕ)
      → s.threads i ≡ x
      → ticket x ≡ none
      → ticket (s.threads i) ≡ some p
      → slot_index cap p ≢ k
  no_ticket x k p e free t same = cc

  win_push :
      (v : View) (x : A) (p : ℕ)
      → s.threads i ≡ push_cas x p
      → ThreadFits cap (ring s) s.given s.taken (push_cas x p)
      → Fresh (slot_index cap p) s.sequences v p
      → s.enqueue_pos.value s.enqueue_pos.last ≡ p
      → let view = record v { enqueues = s.enqueue_pos.last + 1 } in
        Inv cap (suc n) (record (goes_on cap s i (push_write x p) view) {
          enqueue_pos = store views relaxed view (u64 (p + 1)) s.enqueue_pos;
          given = update s.given p x;
        })
  unfolding Keeps won_push
  win_push v x p e fits fresh hit =
      let below : p ≤ (slot cap (ring s) p).sequence = fits.1 in
      let still : (sequence cap s p).value (sequence cap s p).last ≡ p =
        subst (λ q. q ≤ (slot cap (ring s) q).sequence → (slot cap (ring s) q).sequence ≡ q) hit
          (λ le. (claim_free c two (ring s) s.given sequential.ring_fits le).1) below in
      record {
        sequential =
            subst
              (λ m. SequentialInv.Inv cap (suc n) (record (latest s) {
                ring = record (ring s) { enqueue_pos = m };
                threads = update s.threads i (push_write x p);
                given = update s.given p x;
              }))
              (sym (update_self s.enqueue_pos.value (s.enqueue_pos.last + 1) (u64 (p + 1))))
              (claim_push c two small sequential i x p fits hit);
        increasing = increasing;
        enqueues =
            store-NotAbove s.enqueue_pos (record v { enqueues = s.enqueue_pos.last + 1 }) p enqueues
              hit (omega (arith, hit, sequential.ring_fits.fits));
        dequeues = dequeues;
        released = λ k.
            Released-other cap s.sequences s.uses s.sequences s.uses s.threads i (push_write x p) k
              refl refl (λ q. no_ticket (push_cas x p) k q e refl) (released k);
        sees = λ j.
            update_both (Sees cap s.sequences s.uses) s.views_of s.threads i _ (push_write x p) j
              (λ _. knows_last p p v still fresh (λ j' p'.
                subst
                  (λ q.
                    (slot cap (ring s) q).sequence ≡ q
                    → ticket (s.threads j') ≡ some p'
                    → slot_index cap p' ≢ slot_index cap q)
                  hit (nobody_pushes c two sequential j' p') still))
              (λ _. sees j);
      }

  win_pop :
      (v : View) (p : ℕ)
      → s.threads i ≡ pop_cas p
      → ThreadFits cap (ring s) s.given s.taken (pop_cas p)
      → Fresh (slot_index cap p) s.sequences v (p + 1)
      → s.dequeue_pos.value s.dequeue_pos.last ≡ p
      → let view = record v { dequeues = s.dequeue_pos.last + 1 } in
        Inv cap (suc n) (record (goes_on cap s i (pop_read p) view) {
          dequeue_pos = store views relaxed view (u64 (p + 1)) s.dequeue_pos;
        })
  unfolding Keeps won_pop
  win_pop v p e fits fresh hit =
      let below : p + 1 ≤ (slot cap (ring s) p).sequence = fits.1 in
      let still : (sequence cap s p).value (sequence cap s p).last ≡ p + 1 =
        subst (λ q. q + 1 ≤ (slot cap (ring s) q).sequence → (slot cap (ring s) q).sequence ≡ q + 1)
          hit (λ le. (claim_full c two (ring s) s.given sequential.ring_fits le).1) below in
      record {
        sequential =
            subst
              (λ m. SequentialInv.Inv cap (suc n) (record (latest s) {
                ring = record (ring s) { dequeue_pos = m };
                threads = update s.threads i (pop_read p);
              }))
              (sym (update_self s.dequeue_pos.value (s.dequeue_pos.last + 1) (u64 (p + 1))))
              (claim_pop c two small sequential i p fits hit);
        increasing = increasing;
        enqueues = enqueues;
        dequeues =
            store-NotAbove s.dequeue_pos (record v { dequeues = s.dequeue_pos.last + 1 }) p dequeues
              hit (omega (arith, hit, sequential.ring_fits.fits, sequential.ring_fits.order));
        released = λ k.
            Released-other cap s.sequences s.uses s.sequences s.uses s.threads i (pop_read p) k refl
              refl (λ q. no_ticket (pop_cas p) k q e refl) (released k);
        sees = λ j.
            update_both (Sees cap s.sequences s.uses) s.views_of s.threads i _ (pop_read p) j
              (λ _. knows_last p (p + 1) v still fresh (λ j' p'.
                subst
                  (λ q.
                    (slot cap (ring s) q).sequence ≡ q + 1
                    → ticket (s.threads j') ≡ some p'
                    → slot_index cap p' ≢ slot_index cap q)
                  hit (nobody_pops c two sequential j' p') still))
              (λ _. sees j);
      }

  pub cas_push :
      (b : Bool) (k : ℕ) (v : View) (x : A) (p : ℕ)
      → s.threads i ≡ push_cas x p
      → ThreadFits cap (ring s) s.given s.taken (push_cas x p)
      → Fresh (slot_index cap p) s.sequences v p
      → k ≤ s.enqueue_pos.last
      → Inv cap (suc n) (access cap b k s i v (push_cas x p))
  unfolding access
  cas_push b k v x p e fits fresh le =
      if_cases (Inv cap (suc n)) (s.enqueue_pos.value s.enqueue_pos.last == p && not b) _ _
        (λ hit.
          win_push v x p e fits fresh (cas_hit (s.enqueue_pos.value s.enqueue_pos.last) p b hit))
        (λ _.
          quiet c inv i (ap ticket e) (push_seq x (s.enqueue_pos.value k))
            (record v { enqueues = k }) (enqueues k le) refl refl tt)

  pub cas_pop :
      (b : Bool) (k : ℕ) (v : View) (p : ℕ)
      → s.threads i ≡ pop_cas p
      → ThreadFits cap (ring s) s.given s.taken (pop_cas p)
      → Fresh (slot_index cap p) s.sequences v (p + 1)
      → k ≤ s.dequeue_pos.last
      → Inv cap (suc n) (access cap b k s i v (pop_cas p))
  unfolding access
  cas_pop b k v p e fits fresh le =
      if_cases (Inv cap (suc n)) (s.dequeue_pos.value s.dequeue_pos.last == p && not b) _ _
        (λ hit. win_pop v p e fits fresh (cas_hit (s.dequeue_pos.value s.dequeue_pos.last) p b hit))
        (λ _.
          quiet c inv i (ap ticket e) (pop_seq (s.dequeue_pos.value k)) (record v { dequeues = k })
            (dequeues k le) refl refl tt)
