-- ===== src/Mpmc/Ordered/Invariant/Sights.antt =====
-- What an access leaves of what the threads of include/ringio/detail/mpmc_ring.hpp see.
use ringio.Base.{
  ℕ, ◌+◌, ◌≤◌, ◌<◌, ◌≡◌, ◌≢◌, ◌∙◌, inl, inr, sym, ap, some, arith, update, ℕ_discrete, update_cases,
  update_self, update_ne, subst, refl,
}
use ringio.Base.Word.{slot_index}
use ringio.Memory.{Atomic, release, store}
use ringio.Mpmc.{Pc, idle, push_cas, push_write, push_store, pop_cas, pop_read, pop_store}
use ringio.Mpmc.Ordered.{View, views}
use ringio.Mpmc.Ordered.Invariant.Defs.{ticket, Increasing, Released, Fresh, Sees}

-- One more store, of a greater value.
pub store-Increasing :
    (m : Atomic View) (v : View) (x : ℕ)
    → Increasing m
    → m.value m.last < x
    → Increasing (store views release v x m)
store-Increasing m v x up more k lt =
    rw (update_self m.value (m.last + 1) x, update_ne m.value (m.last + 1) k x (λ e. omega arith))
      (elim (ℕ_discrete k m.last) [
        | yes same ↦ omega (arith, ap m.value same)
        | no other ↦ omega (arith, up k (omega arith))
      ])

pub NotAbove-of_Increasing :
    (m : Atomic View) (k : ℕ) → Increasing m → k ≤ m.last → m.value k ≤ m.value m.last
NotAbove-of_Increasing m k up le = elim (ℕ_discrete k m.last) [
  | yes same ↦ omega (arith, ap m.value same)
  | no other ↦ omega (arith, up k (omega arith))
]

-- One more store to a sequence number is nothing to a thread that has found it smaller.
Fresh-store :
    (sequences : ℕ → Atomic View) (i q : ℕ) (v : View) (k x : ℕ) (w : View)
    → (i ≡ k → q < x)
    → Fresh i sequences v q
    → Fresh i (update sequences k (store views release w x (sequences k))) v q
Fresh-store sequences i q v k x w above fresh =
    update_cases (λ m. m.value m.last ≡ q → (m.view m.last).uses i ≤ v.uses i) sequences k
      (store views release w x (sequences k)) i
      (λ same e. absurd (
        omega
          (arith, above (sym same), e, update_self (sequences k).value ((sequences k).last + 1) x)))
      (λ _. fresh)

abbrev pub Behind : {A : Type 0} → ℕ → Pc A → ℕ → ℕ → Type 0
Behind cap (push_cas w p) k x = slot_index cap p ≡ k → p < x
Behind cap (pop_cas p) k x = slot_index cap p ≡ k → p + 1 < x
Behind cap _ k x = Unit

-- A thread has one ticket.
pub not_at :
    {A : Type 0} (cap : ℕ) (x : Pc A) (p k q : ℕ)
    → ticket x ≡ some p
    → slot_index cap p ≢ k
    → ticket x ≡ some q
    → slot_index cap q ≢ k
not_at cap x p k q t ne t' = subst (λ r. slot_index cap r ≢ k) (same (sym t ∙ t')) ne
  where
    same : some p ≡ some q → p ≡ q
    same e = cc

module _ {A : Type 0} (cap : ℕ) (sequences : ℕ → Atomic View) (uses : ℕ → ℕ) where
  -- A thread that claims or keeps a slot has it.
  pub Released-mine :
      (threads : ℕ → Pc A) (i p : ℕ) (y : Pc A)
      → ticket y ≡ some p
      → Released cap sequences uses (update threads i y) (slot_index cap p)
  Released-mine threads i p y t = inr (i, p, ap ticket (update_self threads i y) ∙ t, refl)

  -- A step of a thread that has not claimed slot `k` leaves what there is to know of it.
  pub Released-other :
      (sequences' : ℕ → Atomic View) (uses' : ℕ → ℕ) (threads : ℕ → Pc A) (i : ℕ) (y : Pc A) (k : ℕ)
      → sequences' k ≡ sequences k
      → uses' k ≡ uses k
      → ((p : ℕ) → ticket (threads i) ≡ some p → slot_index cap p ≢ k)
      → Released cap sequences uses threads k
      → Released cap sequences' uses' (update threads i y) k
  Released-other sequences' uses' threads i y k e e' none_there (inl le) = inl (rw (e, e') le)
  Released-other sequences' uses' threads i y k e e' none_there (inr (j, p, t, at_slot)) =
      let other : i ≢ j = λ same. none_there p (ap (λ q. ticket (threads q)) same ∙ t) at_slot in
      inr (j, p, ap ticket (update_ne threads i j y other) ∙ t, at_slot)

  -- One more access to the value of slot `k` is nothing to a thread with another slot.
  pub Sees-use :
      (x : Pc A) (v : View) (k n : ℕ)
      → ((p : ℕ) → ticket x ≡ some p → slot_index cap p ≢ k)
      → Sees cap sequences uses v x
      → Sees cap sequences (update uses k n) v x
  Sees-use idle v k n apart sees = tt
  Sees-use (push_cas w p) v k n apart sees = sees
  Sees-use (pop_cas p) v k n apart sees = sees
  Sees-use (push_write w p) v k n apart sees =
      rw (update_ne uses k (slot_index cap p) n (λ e. apart p refl (sym e))) sees
  Sees-use (push_store w p) v k n apart sees =
      rw (update_ne uses k (slot_index cap p) n (λ e. apart p refl (sym e))) sees
  Sees-use (pop_read p) v k n apart sees =
      rw (update_ne uses k (slot_index cap p) n (λ e. apart p refl (sym e))) sees
  Sees-use (pop_store w p) v k n apart sees =
      rw (update_ne uses k (slot_index cap p) n (λ e. apart p refl (sym e))) sees
  Sees-use x v k n apart sees = sees

  pub Sees-store :
      (y : Pc A) (v : View) (k x : ℕ) (w : View)
      → Behind cap y k x
      → Sees cap sequences uses v y
      → Sees cap (update sequences k (store views release w x (sequences k))) uses v y
  Sees-store idle v k x w behind sees = tt
  Sees-store (push_cas z p) v k x w behind sees =
      Fresh-store sequences (slot_index cap p) p v k x w behind sees
  Sees-store (pop_cas p) v k x w behind sees =
      Fresh-store sequences (slot_index cap p) (p + 1) v k x w behind sees
  Sees-store (push_write z p) v k x w behind sees = sees
  Sees-store (push_store z p) v k x w behind sees = sees
  Sees-store (pop_read p) v k x w behind sees = sees
  Sees-store (pop_store z p) v k x w behind sees = sees
  Sees-store y v k x w behind sees = sees
