-- ===== src/Spsc/Queue.antt =====
-- What a ring promises: a queue of at most `cap` values, oldest first; and the values that a ring
-- holds, read from its buffer.
use ringio.Base.{
  ℕ, zero, suc, ◌+◌, Bool, true, false, Option, none, some, List, [], ◌∷◌, ◌++◌, ltb, if◌then◌else◌,
  length, ◌<◌, ◌≤◌, ◌-◌, ◌≡◌, ◌≢◌, refl, sym, ap, ap₂, ◌∙◌, arith, update, update_ne, add-zero,
}
use ringio.Base.Word.{u64, sub_u64, slot_index, IsCapacity, slot_index-mod, u64_mod, mod_ne}
use ringio.Spsc.{SpscRing}

module _ {ℓ} {A : Type ℓ} where
  -- Refused when full.
  unfoldable pub push : ℕ → List A → A → Bool × List A
  push cap q v = if ltb (length q) cap then (true, q ++ (v ∷ [])) else (false, q)

  -- Refused when empty.
  unfoldable pub pop : List A → Option A × List A
  pop [] = (none, [])
  pop (v ∷ q) = (some v, q)

  -- The `n` values from position `p` on.
  abbrev pub window : ℕ → (ℕ → A) → ℕ → ℕ → List A
  window cap buffer p zero = []
  window cap buffer p (suc n) = buffer (slot_index cap p) ∷ window cap buffer (u64 (p + 1)) n

  abbrev pub contents : ℕ → SpscRing A → List A
  contents cap r = window cap r.buffer r.head (sub_u64 r.tail r.head)

  pub length-window : (cap : ℕ) (buffer : ℕ → A) (p n : ℕ) → length (window cap buffer p n) ≡ n
  length-window cap buffer p zero = refl
  length-window cap buffer p (suc n) = ap suc (length-window cap buffer (u64 (p + 1)) n)

  -- `window` matches on `suc`, the code compares counters.
  pub window_of_pos :
      (cap : ℕ) (buffer : ℕ → A) (p n : ℕ)
      → 1 ≤ n
      → window cap buffer p n ≡ buffer (slot_index cap p) ∷ window cap buffer (u64 (p + 1)) (n - 1)
  window_of_pos cap buffer p zero h = absurd (omega arith)
  window_of_pos cap buffer p (suc n) h = ap (λ k. window cap buffer p (suc k)) (omega arith)

  module _ {cap : ℕ} (c : IsCapacity cap) (buffer : ℕ → A) where
    -- The slot behind a window is none of the window's.
    slot_ne : (p k : ℕ) → suc k < cap → slot_index cap (u64 (p + suc k)) ≢ slot_index cap p
    slot_ne p k h e =
        mod_ne {cap = cap} p (suc k) (omega arith) h
          (sym (u64_mod c (p + suc k)) ∙ sym (slot_index-mod c _) ∙ e ∙ slot_index-mod c p)

    pub slot_behind :
        (p n i : ℕ) → 1 ≤ n → n < cap → i ≡ slot_index cap (u64 (p + n)) → i ≢ slot_index cap p
    slot_behind p zero i pos h e = absurd (omega arith)
    slot_behind p (suc n) i pos h e = rw e (slot_ne p n h)

    -- A write to the slot behind a window leaves the window alone.
    pub window-update :
        (p n i : ℕ) (v : A)
        → n < cap
        → i ≡ slot_index cap (u64 (p + n))
        → window cap (update buffer i v) p n ≡ window cap buffer p n
    window-update p zero i v h e = refl
    window-update p (suc n) i v h e =
        ap₂ ◌∷◌ (update_ne buffer i _ v (rw e (slot_ne p n h)))
          (window-update (u64 (p + 1)) n i v (omega arith) (e ∙ ap (slot_index cap) (omega arith)))

    -- A window grows by the value in the slot behind it.
    pub window-suc :
        (p n : ℕ)
        → window cap buffer p (suc n)
          ≡ window cap buffer p n ++ (buffer (slot_index cap (u64 (p + n))) ∷ [])
    window-suc p zero =
        ap (λ k. buffer k ∷ []) (slot_index-mod c p ∙ rw (slot_index-mod c, u64_mod c, add-zero))
    window-suc p (suc n) =
        ap (λ w. buffer (slot_index cap p) ∷ w)
          (window-suc (u64 (p + 1)) n
            ∙ ap (λ k. window cap buffer (u64 (p + 1)) n ++ (buffer (slot_index cap k) ∷ []))
                (omega arith))
