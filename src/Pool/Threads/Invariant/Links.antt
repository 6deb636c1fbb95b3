-- ===== src/Pool/Threads/Invariant/Links.antt =====
-- The list that the links thread through the buffers.
use ringio.Base.{
  ℕ, zero, suc, ◌-◌, ◌≤◌, ◌<◌, ◌^◌, ◌≡◌, ◌⊎◌, inl, inr, refl, List, [], ◌∷◌, arith, update,
  update_ne, ◌∙◌, dec_lt, if◌then◌else◌, ◌==◌,
}
use ringio.Pool.Pack.{invalid_index}
use ringio.Pool.FreeList.{thread_next}
use ringio.Pool.Threads.{countdown}

-- From `h` the links run through `l` and end.
abbrev pub Chain : (ℕ → ℕ) → ℕ → List ℕ → Type 0
Chain next h [] = h ≡ invalid_index
Chain next h (x ∷ l) = (h ≡ x) × Chain next (next x) l

abbrev pub In : ℕ → List ℕ → Type 0
In x [] = ⊥
In x (y ∷ l) = (x ≡ y) ⊎ In x l

-- No buffer stands in the list twice.
abbrev pub Distinct : List ℕ → Type 0
Distinct [] = Unit
Distinct (x ∷ l) = (¬ In x l) × Distinct l

-- A link that starts outside the list may change.
pub Chain-update :
    (next : ℕ → ℕ) (x v h : ℕ) (l : List ℕ)
    → ¬ In x l
    → Chain next h l
    → Chain (update next x v) h l
Chain-update next x v h [] out c = c
Chain-update next x v h (y ∷ l) out (e, c) = (
  e,
  rw (update_ne next x y v (λ q. out (inl q)))
      (Chain-update next x v (next y) l (λ q. out (inr q)) c),
)

pub In-countdown : (n x : ℕ) → x < n → In x (countdown n)
In-countdown zero x h = absurd (omega arith)
In-countdown (suc n) x h = elim (dec_lt x n) [
  | yes lt ↦ inr (In-countdown n x lt)
  | no last ↦ inl (omega arith)
]

pub lt_of_In-countdown : (n x : ℕ) → In x (countdown n) → x < n
lt_of_In-countdown zero x h = absurd h
lt_of_In-countdown (suc n) x (inl e) = omega arith
lt_of_In-countdown (suc n) x (inr h) = omega (arith, lt_of_In-countdown n x h)

pub Distinct-countdown : (n : ℕ) → Distinct (countdown n)
Distinct-countdown zero = tt
Distinct-countdown (suc n) = ((λ h. omega (arith, lt_of_In-countdown n n h)), Distinct-countdown n)

-- The constructor's links run through all buffers, the last first.
pub thread_next-lt : (n i : ℕ) → n ≤ invalid_index → thread_next n i < 2 ^ 32
unfolding thread_next
thread_next-lt zero i h = omega arith
thread_next-lt (suc n) i h = ground (arith, thread_next-lt n i)

thread_next-at :
    (n i : ℕ)
    → i < n
    → n ≤ invalid_index
    → thread_next n i ≡ (if i == 0 then invalid_index else i - 1)
unfolding thread_next
thread_next-at zero i h small = absurd (omega arith)
thread_next-at (suc n) i h small = ground (arith, thread_next-at n i)

pub Chain-thread_next :
    (k n : ℕ) → suc n ≤ k → k ≤ invalid_index → Chain (thread_next k) n (countdown (suc n))
Chain-thread_next k zero h small = (refl, thread_next-at k 0 h small)
Chain-thread_next k (suc n) h small =
    let below : thread_next k (suc n) ≡ n = thread_next-at k (suc n) h small ∙ ground arith in
    (refl, rw below (Chain-thread_next k n (omega arith) small))
