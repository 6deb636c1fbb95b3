-- ===== src/Mpmc/Invariant/Steps.antt =====
-- The invariant holds in every state that the threads of include/ringio/detail/mpmc_ring.hpp reach,
-- as long as the positions stay below 2 ^ 63.
use ringio.Base.{ℕ, zero, suc, ◌+◌, ◌≤◌, ◌<◌, ◌^◌, ◌≡◌, ◌∙◌, refl, arith, inl, mod-eq_of_lt}
use ringio.Base.Word.{IsCapacity, slot_index, slot_index-mod, slot_index-lt}
use ringio.Mpmc.{push_load, pop_load, init, init_slots}
use ringio.Mpmc.System.{System, turn, start, Step, acts, calls_push, calls_pop, Reach, here, next}
use ringio.Mpmc.Invariant.Defs.{Inv}
use ringio.Mpmc.Invariant.Moves.{quiet-Inv}
use ringio.Mpmc.Invariant.Stays.{Keeps}
use ringio.Mpmc.Invariant.Accesses.{access-Keeps}

-- The constructor numbers the slots.
pub init_slots-sequence :
    {A : Type 0} (n : ℕ) (blank : A) (i : ℕ) → i < n → (init_slots n blank i).sequence ≡ i
unfolding init_slots
init_slots-sequence zero blank i h = absurd (omega arith)
init_slots-sequence (suc n) blank i h = ground (arith, init_slots-sequence n blank i)

module _ {A : Type 0} {cap : ℕ} (c : IsCapacity cap) where
  pub start-Inv : (blank : A) → cap < 2 ^ 63 → Inv cap 0 (start cap blank)
  unfolding start init
  start-Inv blank small = record {
    count = omega arith;
    ring_fits = record {
      fits = omega arith;
      order = omega arith;
      room = omega arith;
      bounded = λ t. omega (
        arith,
        init_slots-sequence cap blank (slot_index cap t) (slot_index-lt c t),
        slot_index-lt c t,
      );
      passed = λ t lt. absurd (omega arith);
      positions = λ t lo hi. inl (
          init_slots-sequence cap blank (slot_index cap t) (slot_index-lt c t)
          ∙ slot_index-mod c t
          ∙ mod-eq_of_lt (omega arith));
    };
    threads_fit = λ i. tt;
    push_unique = λ i j p. cc;
    pop_unique = λ i j p. cc;
    taken_fits = λ p. inl refl;
  }

  Step-Inv :
      {n : ℕ} {s t : System A}
      → 2 ≤ cap
      → suc n + cap < 2 ^ 63
      → Step cap s t
      → Inv cap n s
      → Inv cap (suc n) t
  unfolding turn Keeps
  Step-Inv {s} two small (acts i b) inv =
      access-Keeps c two small inv i b (s.threads i) refl (inv.threads_fit i)
  Step-Inv two small (calls_push i v e) inv = quiet-Inv inv i (push_load v) tt refl refl
  Step-Inv two small (calls_pop i e) inv = quiet-Inv inv i pop_load tt refl refl

  pub Reach-Inv :
      {blank : A} {n : ℕ} {s : System A}
      → 2 ≤ cap
      → n + cap < 2 ^ 63
      → Reach cap blank n s
      → Inv cap n s
  Reach-Inv {blank} two small here = start-Inv blank (omega arith)
  Reach-Inv two small (next r st) = Step-Inv two small st (Reach-Inv two (omega arith) r)
