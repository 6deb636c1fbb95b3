-- ===== src/Engine/System/Careful.antt =====
-- An engine of include/ringio/sqpoll_engine.hpp whose passes find room on the other side.
use ringio.Base.{
  ℕ, zero, suc, ◌+◌, ◌-◌, ◌≤◌, ◌<◌, ◌^◌, ◌≡◌, inl, inr, refl, ap, ap₂, List, [], ◌∷◌, ◌++◌, map,
  take, drop, min, length, arith, append-nil, ◌∙◌, length-take, length-drop,
}
use ringio.Base.Word.{IsCapacity}
use ringio.Spsc.Queue.{contents}
use ringio.Pool.Storage.{BufferPool}
use ringio.Engine.{IoRequest, IoCompletion, Uring, spsc_source, spsc_sink}
use ringio.Engine.Drain.{drain_and_submit, drain_and_submit_lem}
use ringio.Engine.Harvest.{completion, harvest_completions, harvest_completions_lem}
use ringio.Engine.Tracked.{Tracked, times, requested, completed}
use ringio.Engine.System.{
  System, push_request, submit_pass, harvest_pass, pop_completion, Step, pushes, submits, completes,
  harvests, pops, Reach, here, next,
}
use ringio.Engine.System.Invariant.{Inv}
use ringio.Engine.System.Conserved.{Reach-Inv, conserved}

-- Nothing is behind the end of a list.
drop_all : {A : Type 0} (n : ℕ) (l : List A) → length l ≤ n → drop n l ≡ []
drop_all zero [] h = refl
drop_all zero (x ∷ l) h = absurd (omega arith)
drop_all (suc n) [] h = refl
drop_all (suc n) (x ∷ l) h = drop_all n l (omega arith)

module _ {R S C : Type 0} {io : Uring R S C} (tracked : Tracked io) {cap cap' : ℕ}
    (c : IsCapacity cap) (c' : IsCapacity cap') (pool : BufferPool) where
  -- A pass finds an entry for each request of its batch, and a place for each completion.
  abbrev pub HasRoom : (s : System R) {s' : System R} → Step tracked c c' pool s s' → Type 0
  HasRoom s (pushes req) = Unit
  HasRoom s (submits max_batch) =
      min max_batch (length (contents cap s.requests)) ≤ io.space s.uring
  HasRoom s (completes uring' same kept) = Unit
  HasRoom s (harvests max_batch small) =
      length (contents cap' s.completions) + min max_batch (length (io.cqes s.uring)) ≤ cap'
  HasRoom s pops = Unit

  abbrev pub Careful :
      (request : IoRequest) (blank : IoCompletion) {s : System R}
      → Reach tracked c c' pool request blank s
      → Type 0
  Careful request blank (here uring empty none_out) = Unit
  Careful request blank (next {s} r step) = Careful request blank r × HasRoom s step

  abbrev LosesNone : System R → Type 0
  LosesNone s = (s.lost_requests ≡ []) × (s.lost_completions ≡ [])

  submit_pass-LosesNone :
      (s : System R) (max_batch : ℕ)
      → Inv tracked c c' pool s
      → min max_batch (length (contents cap s.requests)) ≤ io.space s.uring
      → LosesNone s
      → LosesNone (submit_pass tracked c c' pool s max_batch)
  unfolding submit_pass
  submit_pass-LosesNone s max_batch h room (req, res) =
      let pass = drain_and_submit io (spsc_source c) pool max_batch (s.requests) (s.uring) in
      let l : List IoRequest = contents cap (s.requests) in
      let (n, e, _, left) =
        drain_and_submit_lem io (spsc_source c) pool max_batch (s.requests) (s.uring)
          (h.requests_valid) (h.nothing_prepared) in
      let none_left : length l - pass.0 - length (contents cap (pass.1)) ≡ 0 = elim left [
        | inl (all, rest) ↦ omega (arith, e, ap length rest, length-drop n l)
        | inr (fewer, full, rest) ↦ absurd (omega (arith, room))
      ] in
      (ap₂ ◌++◌ req (ap (λ (k : ℕ). take k (drop (pass.0) l)) none_left), res)

  -- A harvest with room for what it walks loses nothing.
  pub harvest_pass-keeps :
      (s : System R) (max_batch : ℕ)
      → max_batch < 2 ^ 32
      → Inv tracked c c' pool s
      → length (contents cap' s.completions) + min max_batch (length (io.cqes s.uring)) ≤ cap'
      → (harvest_pass tracked c c' pool s max_batch).lost_completions ≡ s.lost_completions
  unfolding harvest_pass
  harvest_pass-keeps s max_batch small h room =
      let pass = harvest_completions io (spsc_sink c') max_batch (s.uring) (s.completions) in
      let cs : List C = io.cqes (s.uring) in
      let w : ℕ = min max_batch (length cs) in
      let (count, _, _) =
        harvest_completions_lem io (spsc_sink c') max_batch (s.uring) (s.completions) small
          (h.completions_valid) (omega (arith, room)) in
      let all : length (take w cs) ≤ pass.0 = omega (arith, count, room, length-take w cs) in
      ap (λ l. s.lost_completions ++ map (completion io (spsc_sink c')) l)
        (drop_all (pass.0) (take w cs) all)
      ∙ append-nil (s.lost_completions)

  harvest_pass-requests :
      (s : System R) (max_batch : ℕ)
      → (harvest_pass tracked c c' pool s max_batch).lost_requests ≡ s.lost_requests
  unfolding harvest_pass
  harvest_pass-requests s max_batch = refl

  harvest_pass-LosesNone :
      (s : System R) (max_batch : ℕ)
      → max_batch < 2 ^ 32
      → Inv tracked c c' pool s
      → length (contents cap' s.completions) + min max_batch (length (io.cqes s.uring)) ≤ cap'
      → LosesNone s
      → LosesNone (harvest_pass tracked c c' pool s max_batch)
  harvest_pass-LosesNone s max_batch small h room (req, res) =
      (harvest_pass-requests s max_batch ∙ req, harvest_pass-keeps s max_batch small h room ∙ res)

  Step-LosesNone :
      {s s' : System R} (step : Step tracked c c' pool s s')
      → Inv tracked c c' pool s
      → HasRoom s step
      → LosesNone s
      → LosesNone s'
  unfolding push_request pop_completion
  Step-LosesNone (pushes req) h room none_lost = none_lost
  Step-LosesNone {s} (submits max_batch) h room none_lost =
      submit_pass-LosesNone s max_batch h room none_lost
  Step-LosesNone (completes uring' same kept) h room none_lost = none_lost
  Step-LosesNone {s} (harvests max_batch small) h room none_lost =
      harvest_pass-LosesNone s max_batch small h room none_lost
  Step-LosesNone pops h room none_lost = none_lost

  Careful-LosesNone :
      (request : IoRequest) (blank : IoCompletion) {s : System R}
      (r : Reach tracked c c' pool request blank s)
      → Careful request blank r
      → LosesNone s
  Careful-LosesNone request blank (here uring empty none_out) careful = (refl, refl)
  Careful-LosesNone request blank (next r step) (careful, room) =
      Step-LosesNone step (Reach-Inv tracked c c' pool request blank r) room
        (Careful-LosesNone request blank r careful)

  -- For two rings whose capacities are powers of two, and harvests in batches below 2 ^ 32: when
  -- every pass found an entry for each request of its batch and a place for each completion that
  -- it walked, and then both rings are empty and nothing is outstanding, every token has come back
  -- to the worker exactly as often as a request with it was accepted.
  pub all_returned :
      (request : IoRequest) (blank : IoCompletion) (s : System R)
      (r : Reach tracked c c' pool request blank s)
      → Careful request blank r
      → contents cap s.requests ≡ []
      → contents cap' s.completions ≡ []
      → ((t : ℕ) → tracked.outstanding s.uring t ≡ 0)
      → (t : ℕ) → times t (completed s.returned) ≡ times t (requested s.accepted)
  all_returned request blank s r careful no_requests no_completions none_out t =
      let (req, res) = Careful-LosesNone request blank r careful in
      omega (
        arith,
        conserved tracked c c' pool request blank s t r,
        none_out t,
        ap (λ k. times t (requested k)) no_requests,
        ap (λ k. times t (completed k)) no_completions,
        ap (λ k. times t (requested k)) req,
        ap (λ k. times t (completed k)) res,
      )
