-- ===== src/Experiment/Pinned.antt =====
-- The cores of mode "pinned" of experiments/sqpoll_core_budget.cpp.
use ringio.Base.{
  suc, subst, sym, ℕ, ◌+◌, ◌*◌, ◌≡◌, ◌≢◌, refl, ap, some, none, Option, List, [], ◌∷◌, ◌++◌, map,
  All, length, arith,
}
use ringio.Experiment.Rings.{pinned, ring_params}
use ringio.Experiment.Program.{Effect, pins, Host, pin_to_core, start_workers}
use ringio.Experiment.Outcome.{pick, from}

-- Each thread that was pinned, with its core.
abbrev pub pinned_to : List Effect → List (ℕ × ℕ)
pinned_to = pick (elim [ pins i core ↦ some (i, core) | _ ↦ none ])

abbrev pub poller_cores : ℕ → Option ℕ → List ℕ → List ℕ
poller_cores idle_ms first threads =
    map (λ i. (ring_params pinned idle_ms i first).sq_thread_cpu) threads

module _ (host : Host) (idle_ms : ℕ) (first : Option ℕ) where
  apart_from_pollers :
      (i : ℕ) (threads : List ℕ) → All (λ core. 2 * i ≢ core) (poller_cores idle_ms first threads)
  unfolding ring_params
  apart_from_pollers i [] = tt
  apart_from_pollers i (j ∷ threads) =
      ((λ same. absurd (omega (arith, same))), apart_from_pollers i threads)

  pinned_to-pin_to_core :
      (i core : ℕ) (rest : List Effect)
      → pinned_to (pin_to_core host i core ++ rest) ≡ (i, core) ∷ pinned_to rest
  unfolding pin_to_core
  pinned_to-pin_to_core i core rest = ground arith

  workers_apart :
      (i : ℕ) (rings fds threads : List ℕ)
      → length rings ≡ length fds
      → (map (λ p. p.0) (pinned_to (start_workers host pinned i rings fds)) ≡ from i (length rings))
        × All
            (λ p. All (λ core. p.1 ≢ core) (poller_cores idle_ms first threads))
            (pinned_to (start_workers host pinned i rings fds))
  unfolding start_workers
  workers_apart i [] fds threads same = (refl, tt)
  workers_apart i (r ∷ rings) [] threads same = absurd (omega (arith, same))
  workers_apart i (r ∷ rings) (f ∷ fds) threads same =
      let (all, apart) = workers_apart (i + 1) rings fds threads (omega (arith, same)) in
      subst
        (λ l.
          (map (λ p. p.0) l ≡ from i (suc (length rings)))
          × All (λ p. All (λ core. p.1 ≢ core) (poller_cores idle_ms first threads)) l)
        (sym (pinned_to-pin_to_core i (2 * i) (start_workers host pinned (i + 1) rings fds)))
        (ap (λ l. i ∷ l) all, (apart_from_pollers i threads, apart))

-- In mode "pinned", with as many rings as files, every worker thread is pinned, once and in order, and
-- to a core that is none of the cores that the rings of these threads ask for their pollers.
pub pinned_apart :
    (host : Host) (idle_ms : ℕ) (first : Option ℕ) (rings fds : List ℕ)
    → length rings ≡ length fds
    → let workers = pinned_to (start_workers host pinned 0 rings fds) in
      (map (λ p. p.0) workers ≡ from 0 (length rings))
      × All
          (λ p. All (λ core. p.1 ≢ core) (poller_cores idle_ms first (from 0 (length rings))))
          workers
pinned_apart host idle_ms first rings fds same =
    workers_apart host idle_ms first 0 rings fds (from 0 (length rings)) same
