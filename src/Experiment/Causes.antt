-- ===== src/Experiment/Causes.antt =====
-- What ends a run of experiments/sqpoll_core_budget.cpp early.
use ringio.Base.{
  ℕ, zero, suc, ◌+◌, ◌<◌, ◌≡◌, ◌⊎◌, inl, inr, refl, ap, ◌∙◌, true, false, Option, none, some, List,
  ltb, Bool-cases, if_cases, arith,
}
use ringio.Experiment.Workload.{file_bytes}
use ringio.Experiment.Program.{
  Effect, Host, after_mkstemp, make_scratch_file, and_files, make_scratch_files, startable,
  all_return,
}

-- A file that could not be made, or not sized.
abbrev pub IsWithoutFile : Host → ℕ → Type 0
IsWithoutFile host n =
    (i : ℕ) × (i < n)
    × ((host.mkstemp i ≡ none)
        ⊎ ((fd : ℕ) × (host.mkstemp i ≡ some fd) × (host.ftruncate fd file_bytes ≡ false)))

and_files-none :
    (fd : ℕ) (calls : List Effect) (rest : Option (List ℕ) × List Effect)
    → (and_files (some fd, calls) rest).0 ≡ none
    → rest.0 ≡ none
unfolding and_files
and_files-none fd calls (none, calls') e = refl
and_files-none fd calls (some fds, calls') e = cc

first_file :
    (host : Host) (i n : ℕ) (rest : Option (List ℕ) × List Effect) (answer : Option ℕ)
    → i < n
    → host.mkstemp i ≡ answer
    → (rest.0 ≡ none → IsWithoutFile host n)
    → (and_files (after_mkstemp host answer) rest).0 ≡ none
    → IsWithoutFile host n
unfolding after_mkstemp
first_file host i n rest none below q again = λ e. (i, below, inl q)
first_file host i n rest (some fd) below q again =
    if_cases (λ made. (and_files made rest).0 ≡ none → IsWithoutFile host n)
      (host.ftruncate fd file_bytes) _ _ (λ _ e. again (and_files-none fd _ rest e))
      (λ unsized e. (i, below, inr (fd, q, unsized)))

pub make_scratch_files-none :
    (host : Host) (left i n : ℕ)
    → i + left ≡ n
    → (make_scratch_files host left i).0 ≡ none
    → IsWithoutFile host n
unfolding make_scratch_files make_scratch_file
make_scratch_files-none host zero i n all e = cc
make_scratch_files-none host (suc left) i n all e =
    first_file host i n (make_scratch_files host left (i + 1)) (host.mkstemp i) (omega (arith, all))
      refl (make_scratch_files-none host left (i + 1) n (omega (arith, all))) e

pub startable-spawns :
    (host : Host) (left i m : ℕ)
    → ltb (startable host left i) left ≡ true
    → i + startable host left i ≡ m
    → host.spawns m ≡ false
unfolding startable
startable-spawns host zero i m = λ few at. absurd (ground (arith, few))
startable-spawns host (suc left) i m =
    if_cases (λ k. ltb k (suc left) ≡ true → i + k ≡ m → host.spawns m ≡ false) (host.spawns i) _ _
      (λ _ few at. startable-spawns host left (i + 1) m (ground (arith, few)) (omega (arith, at)))
      (λ refused few at. ap host.spawns (omega (arith, at)) ∙ refused)

pub all_return-returns :
    (host : Host) (left i n : ℕ)
    → i + left ≡ n
    → all_return host left i ≡ false
    → (j : ℕ) × (j < n) × (host.returns j ≡ false)
unfolding all_return
all_return-returns host zero i n all e = cc
all_return-returns host (suc left) i n all e = elim (Bool-cases (host.returns i)) [
  | inl does ↦ all_return-returns host left (i + 1) n (omega (arith, all)) (ground (arith, does, e))
  | inr stuck ↦ (i, omega (arith, all), stuck)
]
