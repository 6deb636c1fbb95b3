-- ===== src/Spsc/Ordered/Invariant/Growth.antt =====
-- What one more store, or one more access of a slot, leaves true.
use ringio.Base.{
  ℕ, ◌+◌, ◌-◌, ◌≤◌, ◌<◌, ◌^◌, ◌≡◌, ◌∙◌, ap, sym, inl, inr, arith, update, update_cases,
}
use ringio.Base.Word.{u64, sub_u64, slot_index, IsCapacity, slot_index-mod, u64_mod}
use ringio.Spsc.Ordered.{View}
use ringio.Spsc.Ordered.Invariant.Defs.{Known, Stamp}

pub distance : (a b : ℕ) → b ≤ a → a < b + 2 ^ 64 → sub_u64 (u64 a) (u64 b) ≡ a - b
distance a b le lt = omega arith

-- What is known stays known, and two views together know what each knows.
pub Known-more :
    {h t w r h' t' w' r' : ℕ} {v : View}
    → h ≤ h'
    → t ≤ t'
    → w ≤ w'
    → r ≤ r'
    → Known h t w r v
    → Known h' t' w' r' v
Known-more a b d e k = record {
  heads_done = omega (arith, k.heads_done);
  tails_done = omega (arith, k.tails_done);
  writes_done = omega (arith, k.writes_done);
  reads_done = omega (arith, k.reads_done);
  after_reads = k.after_reads;
  after_writes = k.after_writes;
}

Stamp-more : (cap done i n : ℕ) → Stamp cap done i n → Stamp cap (done + 1) i n
Stamp-more cap done i n (inl e) = inl e
Stamp-more cap done i n (inr (some_access, below, at_slot)) =
    inr (some_access, omega arith, at_slot)

pub slot_index-u64 :
    {cap : ℕ} (c : IsCapacity cap) (n : ℕ) → slot_index cap (u64 n) ≡ slot_index cap n
slot_index-u64 c n = slot_index-mod c (u64 n) ∙ u64_mod c n ∙ sym (slot_index-mod c n)

-- One more access, of the slot behind.
pub Stamp-next :
    {cap : ℕ} (c : IsCapacity cap) (done pos : ℕ) (f : ℕ → ℕ)
    → pos ≡ u64 done
    → ((i : ℕ) → Stamp cap done i (f i))
    → (i : ℕ) → Stamp cap (done + 1) i (update f (slot_index cap pos) (done + 1) i)
Stamp-next {cap} c done pos f e old i =
    let back : done + 1 - 1 ≡ done = omega arith in
    update_cases (Stamp cap (done + 1) i) f (slot_index cap pos) (done + 1) i
      (λ same. inr (
        omega arith,
        omega arith,
        ap (slot_index cap) back ∙ sym (slot_index-u64 c done) ∙ ap (slot_index cap) (sym e) ∙ same,
      ))
      (λ other. Stamp-more cap done i (f i) (old i))
