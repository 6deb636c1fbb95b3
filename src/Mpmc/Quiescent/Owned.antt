-- ===== src/Mpmc/Quiescent/Owned.antt =====
-- Who fills and who empties a slot of include/ringio/detail/mpmc_ring.hpp.
use ringio.Base.{
  ℕ, ◌≤◌, ◌<◌, ◌≡◌, ◌≢◌, ◌⊎◌, inl, inr, sym, ap, ◌∙◌, some, [], ◌∷◌, update, update_self, update_ne,
}
use ringio.Mpmc.{Pc, slot}
use ringio.Mpmc.System.{System}
use ringio.Mpmc.Invariant.{push_ticket, pop_ticket}

module _ {A : Type 0} (cap : ℕ) where
  -- A claimed position that is not published yet is a pushing thread's; a position behind the dequeue
  -- cursor has been delivered, or is a popping thread's.
  pub record Owned (s : System A) : Type 0 where
    pub filling :
        (q : ℕ)
        → s.ring.dequeue_pos ≤ q
        → q < s.ring.enqueue_pos
        → (slot cap s.ring q).sequence ≡ q
        → (i : ℕ) × (push_ticket (s.threads i) ≡ some q)
    pub emptying :
        (q : ℕ)
        → q < s.ring.dequeue_pos
        → (s.taken q ≡ s.given q ∷ []) ⊎ ((i : ℕ) × (pop_ticket (s.threads i) ≡ some q))

  -- What is left to show when thread `i` goes to `y` in a new state of the ring: the thread has the
  -- position now, or nothing about it has changed.
  module _ {s : System A} (owned : Owned s) (i : ℕ) where
    pub record Move (t : System A) (y : Pc A) : Type 0 where
      pub filling :
          (q : ℕ)
          → t.ring.dequeue_pos ≤ q
          → q < t.ring.enqueue_pos
          → (slot cap t.ring q).sequence ≡ q
          → (push_ticket y ≡ some q)
            ⊎ ((s.ring.dequeue_pos ≤ q)
                × (q < s.ring.enqueue_pos)
                × ((slot cap s.ring q).sequence ≡ q)
                × (push_ticket (s.threads i) ≢ some q))
      pub emptying :
          (q : ℕ)
          → q < t.ring.dequeue_pos
          → (t.taken q ≡ t.given q ∷ [])
            ⊎ (pop_ticket y ≡ some q)
            ⊎ ((q < s.ring.dequeue_pos)
                × (t.taken q ≡ s.taken q)
                × (t.given q ≡ s.given q)
                × (pop_ticket (s.threads i) ≢ some q))

    pub Move-Owned :
        (t : System A) (y : Pc A) → Move t y → t.threads ≡ update s.threads i y → Owned t
    Move-Owned t y mv e = record {
      filling = λ q lo hi free. elim (mv.filling q lo hi free) [
        | inl own ↦
            (i, ap (λ f. push_ticket (f i)) e ∙ ap push_ticket (update_self s.threads i y) ∙ own)
        | inr (lo', hi', free', apart) ↦
            let (j, has) = owned.filling q lo' hi' free' in
            let ne : i ≢ j = λ same. apart (ap (λ k. push_ticket (s.threads k)) same ∙ has) in
            (j, ap (λ f. push_ticket (f j)) e ∙ ap push_ticket (update_ne s.threads i j y ne) ∙ has)
      ];
      emptying = λ q lt. elim (mv.emptying q lt) [
        | inl done ↦ inl done
        | inr (inl own) ↦
            inr (i, ap (λ f. pop_ticket (f i)) e ∙ ap pop_ticket (update_self s.threads i y) ∙ own)
        | inr (inr (lt', took, gave, apart)) ↦ elim (owned.emptying q lt') [
          | inl done ↦ inl (took ∙ done ∙ ap (λ v. v ∷ []) (sym gave))
          | inr (j, has) ↦
              let ne : i ≢ j = λ same. apart (ap (λ k. pop_ticket (s.threads k)) same ∙ has) in
              inr (
                j,
                ap (λ f. pop_ticket (f j)) e ∙ ap pop_ticket (update_ne s.threads i j y ne) ∙ has,
              )
        ]
      ];
    }
