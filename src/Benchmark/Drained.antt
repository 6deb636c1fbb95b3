-- ===== src/Benchmark/Drained.antt =====
-- The loop over the completions of benchmarks/iops_throughput_benchmark.cpp ends.
use ringio.Base.{
  ℕ, zero, suc, ◌+◌, ◌<◌, ◌≡◌, refl, sym, ap, ◌∙◌, subst, Option, none, some, List, [], ◌∷◌, length,
  arith, ltb, if_cases,
}
use ringio.Base.Word.{IsCapacity, sub_u64}
use ringio.Spsc.{SpscRing, try_pop}
use ringio.Spsc.Queue.{contents, pop, length-window}
use ringio.Spsc.Refine.{IsValid, try_pop-IsValid, try_pop_refines}
use ringio.Pool.Storage.{BufferPool}
use ringio.Engine.{IoCompletion, Uring}
use ringio.Engine.Tracked.{Tracked}
use ringio.Engine.System.{System, push_request, pop_completion, submit_pass, harvest_pass}
use ringio.Benchmark.{
  Pipeline, request_again, serve, popped, refill, round, submit, fill, begin, slot_buf,
}

module _ {R S C : Type 0} {io : Uring R S C} (tracked : Tracked io) {cap cap' : ℕ}
    (c : IsCapacity cap) (c' : IsCapacity cap') (pool : BufferPool) (draws : ℕ → ℕ) where
  serve-completions :
      (p : Pipeline R) (x : IoCompletion)
      → (serve tracked c c' pool draws p x).system.completions ≡ p.system.completions
  unfolding serve request_again push_request
  serve-completions p x = refl

  popped_ring :
      (s : System R)
      → (pop_completion tracked c c' pool s).completions ≡ (try_pop cap' s.completions).1
  unfolding pop_completion
  popped_ring s = refl

  -- What is left to show of a loop that starts with `held` in the ring.
  abbrev Ends : ℕ → List IoCompletion → ℕ × Pipeline R → Type 0
  Ends refilled held res =
      (res.0 ≡ refilled + length held) × (contents cap' (res.1.system.completions) ≡ [])

  popped-Ends :
      (again : ℕ → Pipeline R → ℕ × Pipeline R) (refilled : ℕ) (p : Pipeline R)
      (held : List IoCompletion) (out : Option IoCompletion)
      → IsValid cap' p.system.completions
      → (out, contents cap' (p.system.completions)) ≡ pop held
      → ((k : ℕ) (p' : Pipeline R)
          → IsValid cap' p'.system.completions
          → suc (length (contents cap' (p'.system.completions))) ≡ length held
          → Ends k (contents cap' (p'.system.completions)) (again k p'))
      → Ends refilled held (popped tracked c c' pool draws again refilled p out)
  unfolding popped pop
  popped-Ends again refilled p [] none valid e keeps = (omega arith, ap (λ x. x.1) e)
  popped-Ends again refilled p [] (some x) valid e keeps = cc
  popped-Ends again refilled p (y ∷ held) none valid e keeps = cc
  popped-Ends again refilled p (y ∷ held) (some x) valid e keeps =
      let p' : Pipeline R = serve tracked c c' pool draws p x in
      let same : contents cap' (p'.system.completions) ≡ held =
        ap (contents cap') (serve-completions p x) ∙ ap (λ q. q.1) e in
      let (count, empty) =
        keeps (refilled + 1) p' (subst (IsValid cap') (sym (serve-completions p x)) valid)
          (ap (λ l. suc (length l)) same) in
      (omega (arith, count, ap length same), empty)

  -- On a valid ring, with more fuel than the ring holds completions, the loop serves each of them,
  -- returns their number, and leaves the ring empty.
  pub refill-Ends :
      (fuel refilled : ℕ) (p : Pipeline R)
      → IsValid cap' p.system.completions
      → length (contents cap' (p.system.completions)) < fuel
      → let (k, p') = refill tracked c c' pool draws fuel refilled p in
        (k ≡ refilled + length (contents cap' (p.system.completions)))
        × (contents cap' (p'.system.completions) ≡ [])
  unfolding refill
  refill-Ends zero refilled p valid enough = absurd (omega arith)
  refill-Ends (suc fuel) refilled p valid enough =
      let s' : System R = pop_completion tracked c c' pool p.system in
      let held : List IoCompletion = contents cap' (p.system.completions) in
      let e : ((try_pop cap' p.system.completions).0, contents cap' s'.completions) ≡ pop held =
        ap (λ r. ((try_pop cap' p.system.completions).0, contents cap' r)) (popped_ring p.system)
        ∙ try_pop_refines c' valid in
      popped-Ends (refill tracked c c' pool draws fuel) refilled (record p { system = s' }) held
        (try_pop cap' p.system.completions).0
        (subst (IsValid cap') (sym (popped_ring p.system)) (try_pop-IsValid c' valid)) e
        (λ k p' v size. refill-Ends fuel k p' v (omega (arith, size)))

  submit-completions :
      (queue_depth : ℕ) (p : Pipeline R)
      → (submit tracked c c' pool draws queue_depth p).system.completions ≡ p.system.completions
  unfolding submit submit_pass
  submit-completions queue_depth p = refl

  fits_in : (r : SpscRing IoCompletion) → IsValid cap' r → length (contents cap' r) < cap' + 1
  fits_in r h = omega (arith, h.held, length-window cap' r.buffer r.head (sub_u64 r.tail r.head))

  -- So a turn of a burst ends with the completion ring empty: its fuel is enough.
  pub round-empty :
      (queue_depth : ℕ) (p : Pipeline R)
      → IsValid cap' (harvest_pass tracked c c' pool p.system queue_depth).completions
      → contents cap' ((round tracked c c' pool draws queue_depth p).system.completions) ≡ []
  unfolding round
  round-empty queue_depth p valid =
      let harvested : Pipeline R = record p {
        system = harvest_pass tracked c c' pool p.system queue_depth;
      } in
      let done = refill tracked c c' pool draws (cap' + 1) 0 harvested in
      let (_, empty) =
        refill-Ends (cap' + 1) 0 harvested valid (fits_in (harvested.system.completions) valid) in
      if_cases (λ p'. contents cap' (p'.system.completions) ≡ []) (ltb 0 done.0)
        (submit tracked c c' pool draws queue_depth (done.1)) (done.1)
        (λ _. ap (contents cap') (submit-completions queue_depth (done.1)) ∙ empty) (λ _. empty)

  again-completions :
      (p : Pipeline R) (slot : ℕ)
      → (request_again tracked c c' pool draws p slot).system.completions ≡ p.system.completions
  unfolding request_again push_request
  again-completions p slot = refl

  fill-completions :
      (slots : List ℕ) (p : Pipeline R)
      → (fill tracked c c' pool draws slots p).system.completions ≡ p.system.completions
  unfolding fill
  fill-completions [] p = refl
  fill-completions (slot ∷ slots) p =
      fill-completions slots (request_again tracked c c' pool draws p slot)
      ∙ again-completions p slot

  pub begin-empty :
      (queue_depth : ℕ) (p : Pipeline R)
      → contents cap' (p.system.completions) ≡ []
      → contents cap' ((begin tracked c c' pool draws queue_depth p).system.completions) ≡ []
  unfolding begin
  begin-empty queue_depth p empty =
      ap (contents cap') (
        submit-completions queue_depth (fill tracked c c' pool draws (slot_buf queue_depth) p)
        ∙ fill-completions (slot_buf queue_depth) p)
      ∙ empty
