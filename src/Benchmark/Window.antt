-- ===== src/Benchmark/Window.antt =====
-- The window of benchmarks/iops_throughput_benchmark.cpp: which slots are in flight.
use ringio.Base.{
  ℕ, ◌+◌, ◌≤◌, ◌<◌, ◌^◌, ◌≡◌, refl, sym, ap, ◌∙◌, subst, All, if_cases, ◌*◌, ◌%◌, true, none, some,
  List, [], ◌∷◌, ◌++◌, map, take, min, length, length-append, length-take, length-map, ltb, ◌==◌,
  if◌then◌else◌, arith,
}
use ringio.Base.Int.{pos}
use ringio.Base.Word.{u64, IsCapacity}
use ringio.Spsc.{try_push, try_pop}
use ringio.Spsc.Queue.{contents, push}
use ringio.Pool.Storage.{BufferPool}
use ringio.Engine.{IoRequest, IoCompletion, Uring}
use ringio.Engine.Tracked.{Tracked, times, requested, completed}
use ringio.Engine.System.{
  System, push_request, submit_pass, harvest_pass, pop_completion, Reach, next, pushes, submits,
  harvests,
}
use ringio.Engine.System.Invariant.{Inv}
use ringio.Engine.System.Conserved.{Reach-Inv, conserved}
use ringio.Engine.System.Careful.{harvest_pass-keeps}
use ringio.Base.Sort.{count_if-append}
use ringio.Spsc.Refine.{try_push_refines}
use ringio.Engine.System.Tokens.{
  requested_append, completed_append, length-le_bound, length-requested, length-completed,
}
use ringio.Benchmark.{Pipeline, block_size, make_request, request_again, fill, submit}

-- A request for a whole block of the scratch file, and the buffer whose index is its token.
abbrev pub OwnBuffer : IoRequest → Type 0
OwnBuffer req =
    (req.buffer_index ≡ req.token)
    × (req.length ≡ block_size)
    × (req.offset % block_size ≡ 0)
    × (req.fixed_fd_index ≡ pos 0)

-- The offset of a block is a multiple of a block's size, also when it wraps.
u64_multiple : (n : ℕ) → u64 (n * block_size) % block_size ≡ 0
u64_multiple n = omega arith

module _ {R S C : Type 0} {io : Uring R S C} (tracked : Tracked io) {cap cap' : ℕ}
    (c : IsCapacity cap) (c' : IsCapacity cap') (pool : BufferPool) where
  -- A push with room adds its token to those accepted, and a pop adds the token that it returns.
  push-times :
      (s : System R) (req : IoRequest) (t : ℕ)
      → Inv tracked c c' pool s
      → length (contents cap s.requests) < cap
      → (times t (requested (push_request tracked c c' pool s req).accepted)
          ≡ times t (requested s.accepted) + times t (req.token ∷ []))
        × ((push_request tracked c c' pool s req).returned ≡ s.returned)
        × ((push_request tracked c c' pool s req).lost_completions ≡ s.lost_completions)
  unfolding push_request push
  push-times s req t h room =
      let done : (try_push cap s.requests req).0 ≡ true =
        ground (arith, try_push_refines c req h.requests_valid) in
      (rw (push_request, done) (requested_append t (s.accepted) (req ∷ [])), refl, refl)

  push-All :
      (P : IoRequest → Type 0) (s : System R) (req : IoRequest)
      → All P s.accepted
      → P req
      → All P (push_request tracked c c' pool s req).accepted
  unfolding push_request
  push-All P s req all own =
      if_cases (All P) (try_push cap s.requests req).0 (s.accepted ++ (req ∷ [])) s.accepted
        (λ _. All-snoc s.accepted all) (λ _. all)
    where
      All-snoc : (l : List IoRequest) → All P l → All P (l ++ (req ∷ []))
      All-snoc [] h = (own, tt)
      All-snoc (x ∷ l) (h, k) = (h, All-snoc l k)

  pub pop-history :
      (s : System R)
      → ((pop_completion tracked c c' pool s).accepted ≡ s.accepted)
        × ((pop_completion tracked c c' pool s).lost_completions ≡ s.lost_completions)
  unfolding pop_completion
  pop-history s = (refl, refl)

  pub pop-none :
      (s : System R)
      → (try_pop cap' s.completions).0 ≡ none
      → (pop_completion tracked c c' pool s).returned ≡ s.returned
  unfolding pop_completion
  pop-none s e = rw (pop_completion, e) refl

  pub pop-times :
      (s : System R) (x : IoCompletion) (t : ℕ)
      → (try_pop cap' s.completions).0 ≡ some x
      → times t (completed (pop_completion tracked c c' pool s).returned)
        ≡ times t (completed s.returned) + times t (x.token ∷ [])
  unfolding pop_completion
  pop-times s x t e = rw (pop_completion, e) (completed_append t (s.returned) (x ∷ []))

  pass-history :
      (s : System R) (max_batch : ℕ)
      → ((submit_pass tracked c c' pool s max_batch).accepted ≡ s.accepted)
        × ((submit_pass tracked c c' pool s max_batch).returned ≡ s.returned)
        × ((submit_pass tracked c c' pool s max_batch).lost_completions ≡ s.lost_completions)
        × ((harvest_pass tracked c c' pool s max_batch).accepted ≡ s.accepted)
        × ((harvest_pass tracked c c' pool s max_batch).returned ≡ s.returned)
  unfolding submit_pass harvest_pass
  pass-history s max_batch = (refl, refl, refl, refl, refl)

  -- A window of `n` slots fits into both rings.
  module _ (draws : ℕ → ℕ) (request : IoRequest) (blank : IoCompletion) (n : ℕ)
      (fits_requests : n ≤ cap) (fits_completions : n ≤ cap') where
    -- The requests that were accepted are those of the window and one for each completion that was
    -- returned, every token is a slot's, and no completion was lost.
    pub record Windowed (window : ℕ → ℕ) (p : Pipeline R) : Type 0 where
      pub reached : Reach tracked c c' pool request blank p.system
      pub bounded : (t : ℕ) → window t ≤ (if ltb t n then 1 else 0)
      pub counted :
          (t : ℕ)
          → times t (requested (p.system.accepted))
            ≡ window t + times t (completed (p.system.returned))
      pub tokens : (t : ℕ) → 2 ^ 32 ≤ t → times t (requested (p.system.accepted)) ≡ 0
      pub kept : p.system.lost_completions ≡ []
      pub own : All OwnBuffer p.system.accepted

    -- A request for a slot that is not in flight finds room.
    has_room :
        (window : ℕ → ℕ) (s : System R) (slot : ℕ)
        → Reach tracked c c' pool request blank s
        → ((t : ℕ) → window t ≤ (if ltb t n then 1 else 0))
        → ((t : ℕ)
            → times t (requested s.accepted) + times t (slot ∷ [])
              ≡ window t + times t (completed s.returned))
        → length (contents cap s.requests) < cap
    has_room window s slot r bounded counted =
        let waiting : List ℕ = requested (contents cap s.requests) in
        let enough : length (slot ∷ waiting) ≤ n = length-le_bound n (slot ∷ waiting) (λ t.
          omega (arith, conserved tracked c c' pool request blank s t r, counted t, bounded t)) in
        omega (arith, enough, length-requested (contents cap s.requests), fits_requests)

    -- One more request, for a slot that is not in flight.
    pub again-Windowed :
        (window : ℕ → ℕ) (p : Pipeline R) (slot : ℕ)
        → slot < 2 ^ 32
        → Reach tracked c c' pool request blank p.system
        → ((t : ℕ) → window t ≤ (if ltb t n then 1 else 0))
        → ((t : ℕ)
            → times t (requested (p.system.accepted)) + times t (slot ∷ [])
              ≡ window t + times t (completed (p.system.returned)))
        → ((t : ℕ) → 2 ^ 32 ≤ t → times t (requested (p.system.accepted)) ≡ 0)
        → p.system.lost_completions ≡ []
        → All OwnBuffer p.system.accepted
        → Windowed window (request_again tracked c c' pool draws p slot)
    unfolding request_again make_request
    again-Windowed window p slot small r bounded counted tokens kept own =
        let req : IoRequest = make_request tracked c c' pool draws p slot in
        let more = λ (t : ℕ).
          push-times (p.system) req t (Reach-Inv tracked c c' pool request blank r)
            (has_room window (p.system) slot r bounded counted) in
        record {
          reached = next r (pushes req);
          bounded = bounded;
          counted =
              λ t. omega (arith, (more t).0, counted t, ap (λ l. times t (completed l)) (more t).1);
          tokens = λ t big. ground (arith, (more t).0, tokens t big);
          kept = (more 0).2 ∙ kept;
          own =
              push-All OwnBuffer (p.system) req own
                (refl, refl, omega (arith, u64_multiple (draws p.drawn)), refl);
        }

    is_slot :
        (slot : ℕ) (slots : List ℕ)
        → ((t : ℕ) → 2 ^ 32 ≤ t → times t (slot ∷ slots) ≡ 0)
        → slot < 2 ^ 32
    is_slot slot slots small = ground (arith, small slot)

    same_window :
        (a b : ℕ → ℕ) (p : Pipeline R) → ((t : ℕ) → a t ≡ b t) → Windowed a p → Windowed b p
    same_window a b p same w = record {
      reached = w.reached;
      bounded = λ t. omega (arith, w.bounded t, same t);
      counted = λ t. omega (arith, w.counted t, same t);
      tokens = w.tokens;
      kept = w.kept;
      own = w.own;
    }

    -- A move that accepts, returns and loses nothing.
    pub same-Windowed :
        (window : ℕ → ℕ) (p p' : Pipeline R)
        → Reach tracked c c' pool request blank p'.system
        → p'.system.accepted ≡ p.system.accepted
        → p'.system.returned ≡ p.system.returned
        → p'.system.lost_completions ≡ p.system.lost_completions
        → Windowed window p
        → Windowed window p'
    same-Windowed window p p' r a b l w = record {
      reached = r;
      bounded = w.bounded;
      counted = λ t. omega (
        arith,
        w.counted t,
        ap (λ l. times t (requested l)) a,
        ap (λ l. times t (completed l)) b,
      );
      tokens = λ t big. omega (arith, w.tokens t big, ap (λ l. times t (requested l)) a);
      kept = l ∙ w.kept;
      own = subst (All OwnBuffer) (sym a) w.own;
    }

    pub fill-Windowed :
        (slots : List ℕ) (window : ℕ → ℕ) (p : Pipeline R)
        → ((t : ℕ) → 2 ^ 32 ≤ t → times t slots ≡ 0)
        → ((t : ℕ) → times t slots + window t ≤ (if ltb t n then 1 else 0))
        → Windowed window p
        → Windowed (λ t. times t slots + window t) (fill tracked c c' pool draws slots p)
    unfolding fill
    fill-Windowed [] window p small bounded w =
        same_window window (λ t. 0 + window t) p (λ t. omega arith) w
    fill-Windowed (slot ∷ slots) window p small bounded w =
        let more : ℕ → ℕ = λ t. times t (slot ∷ []) + window t in
        let p' : Pipeline R = request_again tracked c c' pool draws p slot in
        same_window (λ t. times t slots + more t) (λ t. times t (slot ∷ slots) + window t)
          (fill tracked c c' pool draws slots p') (λ t. omega arith)
          (fill-Windowed slots more p' (λ t big. omega (arith, small t big))
            (λ t. omega (arith, bounded t))
            (again-Windowed more p slot (is_slot slot slots small) w.reached
              (λ t. omega (arith, bounded t)) (λ t. omega (arith, w.counted t)) w.tokens w.kept
              w.own))

    pub submit-Windowed :
        (window : ℕ → ℕ) (p : Pipeline R) (queue_depth : ℕ)
        → Windowed window p
        → Windowed window (submit tracked c c' pool draws queue_depth p)
    unfolding submit
    submit-Windowed window p queue_depth w =
        let (a, b, l, _, _) = pass-history (p.system) queue_depth in
        same-Windowed window p (submit tracked c c' pool draws queue_depth p)
          (next w.reached (submits queue_depth)) a b l w

    -- A harvest finds room for what it walks.
    harvest_fits :
        (window : ℕ → ℕ) (p : Pipeline R) (queue_depth : ℕ)
        → Windowed window p
        → length (contents cap' (p.system.completions))
            + min queue_depth (length (io.cqes (p.system.uring)))
          ≤ cap'
    harvest_fits window p queue_depth w =
        let s : System R = p.system in
        let cs : List C = io.cqes s.uring in
        let held : List ℕ = completed (contents cap' s.completions) in
        let walked : List ℕ = map io.cqe_data (take (min queue_depth (length cs)) cs) in
        let enough : length (held ++ walked) ≤ n = length-le_bound n (held ++ walked) (λ t. omega (
          arith,
          count_if-append (λ x. x == t) held walked,
          conserved tracked c c' pool request blank s t w.reached,
          tracked.advance_takes s.uring (min queue_depth (length cs)) t (omega arith),
          w.counted t,
          w.bounded t,
        )) in
        omega (
          arith,
          enough,
          length-append held walked,
          length-completed (contents cap' s.completions),
          length-map (take (min queue_depth (length cs)) cs) io.cqe_data,
          length-take (min queue_depth (length cs)) cs,
          fits_completions,
        )

    pub harvest-Windowed :
        (window : ℕ → ℕ) (p : Pipeline R) (queue_depth : ℕ)
        → queue_depth < 2 ^ 32
        → Windowed window p
        → Windowed window
            (record p { system = harvest_pass tracked c c' pool p.system queue_depth })
    harvest-Windowed window p queue_depth small w =
        let (_, _, _, a, b) = pass-history (p.system) queue_depth in
        same-Windowed window p
          (record p { system = harvest_pass tracked c c' pool p.system queue_depth })
          (next w.reached (harvests queue_depth small)) a b
          (harvest_pass-keeps tracked c c' pool (p.system) queue_depth small
            (Reach-Inv tracked c c' pool request blank w.reached)
            (harvest_fits window p queue_depth w))
          w
