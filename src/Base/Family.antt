-- ===== src/Base/Family.antt =====
-- Families `ℕ → A`: the slots of an array, the threads of a system.
use Prim.Native.Nat.{ℕ}
use mathlib.Core.Path.{◌≡◌}
use mathlib.Core.Logic.{◌≢◌, ite}
use native.Mathlib.Decide.{ℕ_discrete}
use native.Mathlib.Omega.{arith}

-- `f[i] = a`.
abbrev pub update {ℓ} : {A : Type ℓ} → (ℕ → A) → ℕ → A → ℕ → A
update f i a j = ite (ℕ_discrete i j) a (f j)

pub update_self {ℓ} : {A : Type ℓ} (f : ℕ → A) (i : ℕ) (a : A) → update f i a i ≡ a
update_self f i a = ground arith

pub update_ne {ℓ} : {A : Type ℓ} (f : ℕ → A) (i j : ℕ) (a : A) → i ≢ j → update f i a j ≡ f j
update_ne f i j a h = ground arith

-- What holds of the new value and of the old values elsewhere holds of the family.
pub update_cases {ℓ κ} :
    {A : Type ℓ} (P : A → Type κ) (f : ℕ → A) (i : ℕ) (a : A) (j : ℕ)
    → (i ≡ j → P a)
    → (i ≢ j → P (f j))
    → P (update f i a j)
update_cases P f i a j new old = elim (ℕ_discrete i j) as (λ d. P (ite d a (f j))) [
  | yes e ↦ new e
  | no ne ↦ old ne
]

-- What holds of two new values, and of the old ones elsewhere, holds of two families.
pub update_both {ℓ κ μ} :
    {A : Type ℓ} {B : Type κ} (P : A → B → Type μ) (f : ℕ → A) (g : ℕ → B) (i : ℕ) (a : A) (b : B)
    (j : ℕ)
    → (i ≡ j → P a b)
    → (i ≢ j → P (f j) (g j))
    → P (update f i a j) (update g i b j)
update_both P f g i a b j new old =
    elim (ℕ_discrete i j) as (λ d. P (ite d a (f j)) (ite d b (g j))) [
      | yes e ↦ new e
      | no ne ↦ old ne
    ]

pub update_all {ℓ κ μ ν} :
    {A : Type ℓ} {B : Type κ} {C : Type μ} (P : A → B → C → Type ν) (f : ℕ → A) (g : ℕ → B)
    (h : ℕ → C) (i : ℕ) (a : A) (b : B) (c : C) (j : ℕ)
    → P a b c
    → (i ≢ j → P (f j) (g j) (h j))
    → P (update f i a j) (update g i b j) (update h i c j)
update_all P f g h i a b c j new old =
    elim (ℕ_discrete i j) as (λ d. P (ite d a (f j)) (ite d b (g j)) (ite d c (h j))) [
      | yes e ↦ new
      | no ne ↦ old ne
    ]
