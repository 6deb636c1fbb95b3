-- ===== src/Engine/System/Conserved.antt =====
-- Every token that the engine of include/ringio/sqpoll_engine.hpp accepts is somewhere, once.
use ringio.Base.{
  ℕ, ◌+◌, ◌-◌, ◌≤◌, ◌<◌, ◌^◌, ◌≡◌, refl, sym, ap, ◌∙◌, Option, none, some, List, [], ◌∷◌, ◌++◌, map,
  take, drop, min, length, arith, map-append, take-append-drop,
}
use ringio.Base.Word.{IsCapacity, sub_u64}
use ringio.Spsc.{SpscRing, try_pop}
use ringio.Spsc.Queue.{contents, pop, length-window}
use ringio.Spsc.Refine.{IsValid, init-IsValid, try_pop-IsValid, try_pop_refines}
use ringio.Pool.Storage.{BufferPool}
use ringio.Engine.{IoRequest, IoCompletion, Uring, spsc_sink}
use ringio.Engine.Harvest.{completion, harvest_completions, harvest_completions_lem}
use ringio.Engine.Tracked.{
  Tracked, times, requested, completed, tokens-completion, harvest_completions-outstanding,
  harvest_completions-Keeps,
}
use ringio.Engine.System.{
  System, harvest_pass, pop_completion, Step, pushes, submits, completes, harvests, pops, Reach,
  here, next,
}
use ringio.Engine.System.Tokens.{completed_append, take-take}
use ringio.Engine.System.Invariant.{Inv, push_request-Inv, submit_pass-Inv}

module _ {R S C : Type 0} {io : Uring R S C} (tracked : Tracked io) {cap cap' : ℕ}
    (c : IsCapacity cap) (c' : IsCapacity cap') (pool : BufferPool) where
  abbrev Balanced : System R → Type 0
  Balanced = Inv tracked c c' pool

  -- The walked completions are the delivered ones and the others.
  split_walked :
      (t n w : ℕ) (cs : List C)
      → n ≤ w
      → times t (map io.cqe_data (take w cs))
        ≡ times t (completed (map (completion io (spsc_sink c')) (take n cs)))
          + times t (completed (map (completion io (spsc_sink c')) (drop n (take w cs))))
  split_walked t n w cs le =
      let put : List C → List IoCompletion = map (completion io (spsc_sink c')) in
      ap (times t) (sym (tokens-completion tracked (spsc_sink c') (take w cs)))
      ∙ ap (λ k. times t (completed (put k))) (sym (take-append-drop n (take w cs)))
      ∙ ap (λ k. times t (completed k))
          (map-append (completion io (spsc_sink c')) (take n (take w cs)) (drop n (take w cs)))
      ∙ completed_append t (put (take n (take w cs))) (put (drop n (take w cs)))
      ∙ ap (λ k. times t (completed (put k)) + times t (completed (put (drop n (take w cs)))))
          (take-take n w cs le)

  fits_in : (r : SpscRing IoCompletion) → IsValid cap' r → length (contents cap' r) ≤ cap'
  fits_in r h = omega (arith, h.held, length-window cap' r.buffer r.head (sub_u64 r.tail r.head))

  harvest_pass-Inv :
      (s : System R) (max_batch : ℕ)
      → max_batch < 2 ^ 32
      → Balanced s
      → Balanced (harvest_pass tracked c c' pool s max_batch)
  unfolding harvest_pass
  harvest_pass-Inv s max_batch small h =
      let pass = harvest_completions io (spsc_sink c') max_batch (s.uring) (s.completions) in
      let cs : List C = io.cqes (s.uring) in
      let w : ℕ = min max_batch (length cs) in
      let fits = fits_in (s.completions) (h.completions_valid) in
      let (count, kept, _) =
        harvest_completions_lem io (spsc_sink c') max_batch (s.uring) (s.completions) small
          (h.completions_valid) fits in
      let gone : (t : ℕ)
          → (tracked.outstanding (s.uring) t
              ≡ tracked.outstanding (pass.1) t + times t (map io.cqe_data (take w cs)))
            × (io.prepared (pass.1) ≡ io.prepared (s.uring)) =
        λ t.
          harvest_completions-outstanding tracked (spsc_sink c') max_batch (s.uring) (s.completions)
            t small (h.completions_valid) fits in
      record {
        requests_valid = h.requests_valid;
        completions_valid =
            harvest_completions-Keeps tracked (spsc_sink c') max_batch 0 (s.uring) (s.completions)
              (h.completions_valid);
        nothing_prepared = (gone 0).1 ∙ h.nothing_prepared;
        balance = λ t.
            let n : ℕ = min w (cap' - length (contents cap' (s.completions))) in
            let delivered : List IoCompletion = map (completion io (spsc_sink c')) (take n cs) in
            let refused : List IoCompletion =
              map (completion io (spsc_sink c')) (drop (pass.0) (take w cs)) in
            let same : times t (completed (map (completion io (spsc_sink c')) (drop n (take w cs))))
                ≡ times t (completed refused) =
              ap
                (λ (k : ℕ).
                  times t (completed (map (completion io (spsc_sink c')) (drop k (take w cs)))))
                (sym count) in
            omega (
              arith,
              h.balance t,
              (gone t).0,
              split_walked t n w cs (omega arith),
              same,
              ap (λ k. times t (completed k)) kept,
              completed_append t (contents cap' (s.completions)) delivered,
              completed_append t (s.lost_completions) refused,
            );
      }

  returns :
      (t : ℕ) (l got : List IoCompletion)
      → times t (completed (elim (pop l).0 [ none ↦ got | some x ↦ got ++ (x ∷ []) ]))
          + times t (completed (pop l).1)
        ≡ times t (completed got) + times t (completed l)
  unfolding pop
  returns t [] got = refl
  returns t (x ∷ l) got = omega (arith, completed_append t got (x ∷ []))

  pop_completion-Inv : (s : System R) → Balanced s → Balanced (pop_completion tracked c c' pool s)
  unfolding pop_completion
  pop_completion-Inv s h = record {
    requests_valid = h.requests_valid;
    completions_valid = try_pop-IsValid c' h.completions_valid;
    nothing_prepared = h.nothing_prepared;
    balance = λ t.
        let same = try_pop_refines c' h.completions_valid in
        let out : times t (
              completed (elim (try_pop cap' s.completions).0 [
                | none ↦ s.returned
                | some x ↦ s.returned ++ (x ∷ [])
              ]))
            ≡ times t (
                completed (elim (pop (contents cap' s.completions)).0 [
                  | none ↦ s.returned
                  | some x ↦ s.returned ++ (x ∷ [])
                ])) =
          ap
            (λ (o : Option IoCompletion × List IoCompletion).
              times t
                (completed (elim (o.0) [ none ↦ s.returned | some x ↦ s.returned ++ (x ∷ []) ])))
            same in
        omega (
          arith,
          h.balance t,
          out,
          returns t (contents cap' s.completions) (s.returned),
          ap (λ (o : Option IoCompletion × List IoCompletion). times t (completed (o.1))) same,
        );
  }

  Step-Inv : {s s' : System R} → Balanced s → Step tracked c c' pool s s' → Balanced s'
  Step-Inv {s} h (pushes req) = push_request-Inv tracked c c' pool s req h
  Step-Inv {s} h (submits max_batch) = submit_pass-Inv tracked c c' pool s max_batch h
  Step-Inv {s} h (completes uring' same kept) = record {
    requests_valid = h.requests_valid;
    completions_valid = h.completions_valid;
    nothing_prepared = same ∙ h.nothing_prepared;
    balance = λ t. omega (arith, h.balance t, kept t);
  }
  Step-Inv {s} h (harvests max_batch small) = harvest_pass-Inv s max_batch small h
  Step-Inv {s} h pops = pop_completion-Inv s h

  pub Reach-Inv :
      (request : IoRequest) (blank : IoCompletion) {s : System R}
      → Reach tracked c c' pool request blank s
      → Balanced s
  Reach-Inv request blank (here uring empty none_out) =
      let (v, e) = init-IsValid c request in
      let (v', e') = init-IsValid c' blank in
      record {
        requests_valid = v;
        completions_valid = v';
        nothing_prepared = empty;
        balance = λ t. omega (
          arith,
          none_out t,
          ap (λ k. times t (requested k)) e,
          ap (λ k. times t (completed k)) e',
        );
      }
  Reach-Inv request blank (next r step) = Step-Inv (Reach-Inv request blank r) step

  -- For two rings whose capacities are powers of two, and harvests in batches below 2 ^ 32: in
  -- every reachable state, whatever the kernel completes and when, a token is as often among the
  -- accepted requests as it is, in all, in the request ring, outstanding in the io_uring, in the
  -- completion ring, among the completions that were returned, and among the requests and the
  -- completions that passes took from one side and put on no other.
  pub conserved :
      (request : IoRequest) (blank : IoCompletion) (s : System R) (t : ℕ)
      → Reach tracked c c' pool request blank s
      → times t (requested (s.accepted))
        ≡ times t (requested (contents cap (s.requests)))
          + tracked.outstanding (s.uring) t
          + times t (completed (contents cap' (s.completions)))
          + times t (completed (s.returned))
          + times t (requested (s.lost_requests))
          + times t (completed (s.lost_completions))
  conserved request blank s t r = (Reach-Inv request blank r).balance t
