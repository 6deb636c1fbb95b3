-- ===== src/Experiment/Balanced.antt =====
-- Every branch of a run of experiments/sqpoll_core_budget.cpp.
use Prim.Native.String.{String}
use mathlib.Core.List.{foldl}
use ringio.Base.{ℕ, ◌<◌, false, take, ◌≡◌, ◌⊎◌, inl, inr, List, [], length}
use ringio.Kernel.{Kernel}
use ringio.Experiment.Rings.{Mode, Failure, init_failed, IsRefused}
use ringio.Experiment.Program.{Effect, Exit, code, throws, undefined, Host}
use ringio.Experiment.Causes.{IsWithoutFile}
use ringio.Experiment.Outcome.{created, closed, exited, joined, started, from, side_by_side}

-- Nothing is started, joined or given back.
abbrev pub IsSetup : List Effect → Type 0
IsSetup calls =
    (started calls ≡ []) × (joined calls ≡ []) × (exited calls ≡ []) × (closed calls ≡ [])

-- The calls of a run that gives back what it has taken, and its rings.
abbrev pub GivesBack : ℕ → List ℕ → List Effect → Type 0
GivesBack n rings calls =
    (length rings ≡ n)
    × (length (created calls) ≡ n)
    × (exited calls ≡ rings)
    × (closed calls ≡ created calls)
    × (started calls ≡ side_by_side 0 rings (created calls))
    × (joined calls ≡ from 0 n)

-- The calls of a run that ends while its threads run: those behind `cut` have been started.
abbrev pub IsCutShort : ℕ → List ℕ → (List ℕ → List ℕ) → List Effect → Type 0
IsCutShort n rings cut calls =
    (length rings ≡ n)
    × (length (created calls) ≡ n)
    × (started calls ≡ side_by_side 0 (cut rings) (cut (created calls)))
    × (joined calls ≡ [])
    × (exited calls ≡ [])
    × (closed calls ≡ [])

module _ {K : Type 0} (kernel : Kernel K) (mode : Mode) (idle_ms n : ℕ) (host : Host) (k0 : K) where
  -- What ends a run before its threads: a file, or a ring.
  abbrev pub IsStopped : (Failure ⊎ List ℕ) × K → Type 0
  IsStopped init =
      IsWithoutFile host n
      ⊎ ((e : ℕ) × (fds : List ℕ) × (init.0 ≡ inl (init_failed e))
          × IsRefused kernel mode idle_ms n k0 n e init.1 fds)

  abbrev pub Ran : (Failure ⊎ List ℕ) × K → Exit × List Effect × K → Type 0
  Ran init res =
      ((res.0 ≡ code 1) × IsSetup res.1 × IsStopped init)
      ⊎ ((rings : List ℕ) × (init.0 ≡ inr rings)
          × (((res.0 ≡ code 0)
                × GivesBack n rings res.1
                × (res.2 ≡ foldl kernel.queue_exit init.1 rings))
              ⊎ ((m : ℕ) × (res.0 ≡ throws)
                  × (m < n)
                  × (host.spawns m ≡ false)
                  × IsCutShort n rings (take m) res.1)
              ⊎ ((i : ℕ) × (res.0 ≡ undefined)
                  × (i < n)
                  × (host.returns i ≡ false)
                  × IsCutShort n rings (λ l. l) res.1)))
