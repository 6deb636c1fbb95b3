-- ===== src/Mpmc/Ordered/Invariant/Writes.antt =====
-- The ring of include/ringio/detail/mpmc_ring.hpp, by its last stores, after a write of one slot.
use ringio.Base.{ℕ, ◌≡◌, refl, sym, ap, update, fun_ext, ℕ_discrete}
use mathlib.Core.Logic.{ite}
use ringio.Memory.{Atomic}
use ringio.Mpmc.{Slot}
use ringio.Mpmc.Ordered.{View, System, ring}

module _ {A : Type 0} (s : System A) where
  pub written_slots :
      (k : ℕ) (x : A)
      → ◌≡◌ {A = ℕ → Slot A}
          (update (ring s).slots k (record ((ring s).slots k) { value = x }))
          (λ j. record {
            sequence = (s.sequences j).value (s.sequences j).last;
            value = update s.values k x j;
          })
  written_slots k x = fun_ext (λ j.
      elim (ℕ_discrete k j)
        as (λ d.
          ◌≡◌ {A = Slot A} (ite d (record ((ring s).slots k) { value = x }) ((ring s).slots j))
            (record {
              sequence = (s.sequences j).value (s.sequences j).last;
              value = ite d x (s.values j);
            })) [
              | yes same ↦
                  ap
                    (λ q. record {
                      sequence = (s.sequences q).value (s.sequences q).last;
                      value = x;
                    })
                    same
              | no other ↦ refl
            ])

  pub stored_slots :
      (k x : ℕ) (m : Atomic View)
      → m.value m.last ≡ x
      → ◌≡◌ {A = ℕ → Slot A}
          (update (ring s).slots k (record ((ring s).slots k) { sequence = x }))
          (λ j. record {
            sequence = (update s.sequences k m j).value (update s.sequences k m j).last;
            value = s.values j;
          })
  stored_slots k x m e = fun_ext (λ j.
      elim (ℕ_discrete k j)
        as (λ d.
          ◌≡◌ {A = Slot A} (ite d (record ((ring s).slots k) { sequence = x }) ((ring s).slots j))
            (record {
              sequence = (ite d m (s.sequences j)).value (ite d m (s.sequences j)).last;
              value = s.values j;
            })) [
              | yes same ↦ λ t. record { sequence = sym e t; value = ap s.values same t }
              | no other ↦ refl
            ])
