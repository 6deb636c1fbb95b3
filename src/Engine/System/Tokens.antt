-- ===== src/Engine/System/Tokens.antt =====
-- Lists of requests and completions in parts, and how often a token is in them: lemmas for the passes
-- of include/ringio/sqpoll_engine.hpp.
use ringio.Base.{
  ltb, if◌then◌else◌, ℕ, zero, suc, ◌+◌, ◌-◌, ◌≤◌, ◌≡◌, refl, sym, ap, ◌∙◌, List, [], ◌∷◌, ◌++◌,
  take, drop, length, arith, map-append, take-append-drop, length-drop,
}
use ringio.Base.Sort.{count_if, count_if-append}
use ringio.Engine.{IoRequest, IoCompletion}
use ringio.Engine.Tracked.{times, requested, completed}

pub requested_append :
    (t : ℕ) (k l : List IoRequest)
    → times t (requested (k ++ l)) ≡ times t (requested k) + times t (requested l)
requested_append t k l =
    ap (times t) (map-append (λ (x : IoRequest). x.token) k l)
    ∙ count_if-append _ (requested k) (requested l)

pub completed_append :
    (t : ℕ) (k l : List IoCompletion)
    → times t (completed (k ++ l)) ≡ times t (completed k) + times t (completed l)
completed_append t k l =
    ap (times t) (map-append (λ (x : IoCompletion). x.token) k l)
    ∙ count_if-append _ (completed k) (completed l)

-- A list in three parts, the middle one by its length.
drop-drop : {A : Type 0} (n k : ℕ) (l : List A) → drop k (drop n l) ≡ drop (n + k) l
drop-drop zero k l = ap (λ (j : ℕ). drop j l) (omega arith)
drop-drop (suc n) zero [] = let e : suc n ≡ suc n + 0 = omega arith in ap (λ (j : ℕ). drop j []) e
drop-drop (suc n) (suc k) [] =
    let e : suc (n + suc k) ≡ suc n + suc k = omega arith in ap (λ (j : ℕ). drop j []) e
drop-drop (suc n) k (x ∷ l) =
    let e : suc (n + k) ≡ suc n + k = omega arith in
    drop-drop n k l ∙ ap (λ (j : ℕ). drop j (x ∷ l)) e

three_parts :
    {A : Type 0} (n m : ℕ) (l : List A)
    → n ≤ m
    → m ≤ length l
    → take n l ++ (take (length l - n - length (drop m l)) (drop n l) ++ drop m l) ≡ l
three_parts n m l le inside =
    let k : ℕ = length l - n - length (drop m l) in
    let end : n + k ≡ m = omega (arith, length-drop m l) in
    let behind : drop m l ≡ drop k (drop n l) =
      ap (λ j. drop j l) (sym end) ∙ sym (drop-drop n k l) in
    ap (λ r. take n l ++ (take k (drop n l) ++ r)) behind
    ∙ ap (λ r. take n l ++ r) (take-append-drop k (drop n l))
    ∙ take-append-drop n l

pub split_requests :
    (t n m : ℕ) (l rest : List IoRequest)
    → rest ≡ drop m l
    → n ≤ m
    → m ≤ length l
    → times t (requested l)
      ≡ times t (requested (take n l))
        + times t (requested (take (length l - n - length rest) (drop n l)))
        + times t (requested rest)
split_requests t n m l rest e le inside =
    let middle : List IoRequest = take (length l - n - length (drop m l)) (drop n l) in
    rw e (
      omega (
        arith,
        ap (λ k. times t (requested k)) (three_parts n m l le inside),
        requested_append t (take n l) (middle ++ drop m l),
        requested_append t middle (drop m l),
      ))

pub take-take : {A : Type 0} (n w : ℕ) (l : List A) → n ≤ w → take n (take w l) ≡ take n l
take-take zero w l h = refl
take-take (suc n) zero l h = absurd (omega arith)
take-take (suc n) (suc w) [] h = refl
take-take (suc n) (suc w) (x ∷ l) h = ap (λ k. x ∷ k) (take-take n w l (omega arith))

-- A list whose elements are all below `n`, and each in it once at most, is no longer than `n`.
below : ℕ → List ℕ → ℕ
below n l = count_if (λ x. ltb x n) l

below-suc : (n : ℕ) (l : List ℕ) → below (suc n) l ≡ below n l + times n l
unfolding below
below-suc n [] = omega arith
below-suc n (x ∷ l) = ground (arith, below-suc n l)

below-zero : (l : List ℕ) → below 0 l ≡ 0
unfolding below
below-zero [] = refl
below-zero (x ∷ l) = ground (arith, below-zero l)

below-le : (n : ℕ) (l : List ℕ) → ((t : ℕ) → times t l ≤ 1) → below n l ≤ n
below-le zero l h = omega (arith, below-zero l)
below-le (suc n) l h = omega (arith, below-suc n l, below-le n l h, h n)

below_all : (n : ℕ) (l : List ℕ) → ((t : ℕ) → n ≤ t → times t l ≡ 0) → below n l ≡ length l
unfolding below
below_all n [] h = refl
below_all n (x ∷ l) h = ground (arith, h x, below_all n l (λ t big. omega (arith, h t big)))

pub length-le_bound :
    (n : ℕ) (l : List ℕ) → ((t : ℕ) → times t l ≤ (if ltb t n then 1 else 0)) → length l ≤ n
length-le_bound n l h =
    omega
      (arith, below-le n l (λ t. ground (arith, h t)), below_all n l (λ t big. ground (arith, h t)))

pub length-requested : (l : List IoRequest) → length (requested l) ≡ length l
length-requested [] = refl
length-requested (x ∷ l) = ap suc (length-requested l)

pub length-completed : (l : List IoCompletion) → length (completed l) ≡ length l
length-completed [] = refl
length-completed (x ∷ l) = ap suc (length-completed l)
