-- ===== src/Base/Sort.antt =====
-- `std::sort` on numbers, and what it keeps.
use ringio.Base.Tests.{leb, if◌then◌else◌, if_cases}
use ringio.Base.Lists.{length, get_elem?, take, drop}
use Prim.Native.Nat.{ℕ, zero, suc, ◌+◌, ◌≤◌, ◌<◌}
use mathlib.Core.Path.{◌≡◌, refl}
use mathlib.Core.Bool.{Bool}
use mathlib.Core.List.{List, [], ◌∷◌, ◌++◌}
use mathlib.Core.Option.{some}
use native.Mathlib.Omega.{arith}

unfoldable pub insert : ℕ → List ℕ → List ℕ
insert x [] = x ∷ []
insert x (y ∷ l) = if leb x y then x ∷ y ∷ l else y ∷ insert x l

unfoldable pub sort : List ℕ → List ℕ
unfolding insert
sort [] = []
sort (x ∷ l) = insert x (sort l)

-- How many elements pass a test.
abbrev pub count_if : (ℕ → Bool) → List ℕ → ℕ
count_if p [] = 0
count_if p (x ∷ l) = (if p x then 1 else 0) + count_if p l

-- No element is below `b`, nor below one before it.
abbrev pub SortedFrom : ℕ → List ℕ → Type 0
SortedFrom b [] = Unit
SortedFrom b (x ∷ l) = (b ≤ x) × SortedFrom x l

count_if-insert :
    (p : ℕ → Bool) (x : ℕ) (l : List ℕ)
    → count_if p (insert x l) ≡ (if p x then 1 else 0) + count_if p l
unfolding insert
count_if-insert p x [] = refl
count_if-insert p x (y ∷ l) = ground (arith, count_if-insert p x l)

pub count_if-sort : (p : ℕ → Bool) (l : List ℕ) → count_if p (sort l) ≡ count_if p l
unfolding sort
count_if-sort p [] = refl
count_if-sort p (x ∷ l) = omega (arith, count_if-insert p x (sort l), count_if-sort p l)

length-insert : (x : ℕ) (l : List ℕ) → length (insert x l) ≡ suc (length l)
unfolding insert
length-insert x [] = refl
length-insert x (y ∷ l) = ground (arith, length-insert x l)

pub length-sort : (l : List ℕ) → length (sort l) ≡ length l
unfolding sort
length-sort [] = refl
length-sort (x ∷ l) = omega (arith, length-insert x (sort l), length-sort l)

insert-SortedFrom : (b x : ℕ) (l : List ℕ) → b ≤ x → SortedFrom b l → SortedFrom b (insert x l)
unfolding insert
insert-SortedFrom b x [] h s = (h, tt)
insert-SortedFrom b x (y ∷ l) h (le, s) =
    if_cases (SortedFrom b) (leb x y) _ _ (λ below. (h, (ground arith, s)))
      (λ above. (le, insert-SortedFrom y x l (ground arith) s))

pub sort-SortedFrom : (l : List ℕ) → SortedFrom 0 (sort l)
unfolding sort
sort-SortedFrom [] = tt
sort-SortedFrom (x ∷ l) = insert-SortedFrom 0 x (sort l) (omega arith) (sort-SortedFrom l)

-- In a sorted list the element at `k` is at least those up to it and at most those from it on.
above : (b v : ℕ) (l : List ℕ) → v ≤ b → SortedFrom b l → count_if (leb v) l ≡ length l
above b v [] h s = refl
above b v (x ∷ l) h (le, s) = ground (arith, above x v l)

pub rank :
    (b : ℕ) (l : List ℕ) (k : ℕ)
    → SortedFrom b l
    → k < length l
    → (v : ℕ) × (get_elem? l k ≡ some v)
      × (b ≤ v)
      × (suc k ≤ count_if (λ x. leb x v) l)
      × (length l ≤ count_if (leb v) l + k)
rank b [] k s h = absurd (omega arith)
rank b (x ∷ l) zero (le, s) h = (x, refl, le, ground arith, ground (arith, above x x l))
rank b (x ∷ l) (suc k) (le, s) h =
    let (v, e, le', low, high) = rank x l k s (omega arith) in
    (v, e, omega arith, ground arith, ground arith)

pub count_if-append :
    (p : ℕ → Bool) (k l : List ℕ) → count_if p (k ++ l) ≡ count_if p k + count_if p l
count_if-append p [] l = omega arith
count_if-append p (x ∷ k) l = omega (arith, count_if-append p k l)

pub count_if-split :
    (p : ℕ → Bool) (n : ℕ) (l : List ℕ)
    → count_if p l ≡ count_if p (take n l) + count_if p (drop n l)
count_if-split p zero l = omega arith
count_if-split p (suc n) [] = omega arith
count_if-split p (suc n) (x ∷ l) = omega (arith, count_if-split p n l)
