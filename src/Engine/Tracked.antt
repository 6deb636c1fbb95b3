-- ===== src/Engine/Tracked.antt =====
-- What io_uring promises of the tokens of include/ringio/io_request.hpp: an entry that is submitted is
-- completed once, with the token that it was given, in any order and at any time.
use ringio.Base.{
  ◌++◌, ltb, if◌then◌else◌, ℕ, zero, suc, ◌+◌, ◌≤◌, ◌<◌, ◌^◌, min, ◌≡◌, refl, ap, ap₂, ◌∙◌, true,
  List, [], ◌∷◌, take, map, ◌==◌, length, arith,
}
use ringio.Base.Word.{u32}
use ringio.Base.Sort.{count_if}
use ringio.Pool.Storage.{BufferPool}
use ringio.Engine.{IoRequest, IoCompletion, Uring, Source, Sink}
use ringio.Engine.Drain.{entry, drain, drain_and_submit, drain_lem, drain-keeps, drain-Holds}
use ringio.Engine.Harvest.{completion, walk, harvest_completions, walk_lem, walk-Keeps}

-- How often `t` is in a list.
abbrev pub times : ℕ → List ℕ → ℕ
times t l = count_if (λ x. x == t) l

abbrev pub requested : List IoRequest → List ℕ
requested l = map (λ req. req.token) l

abbrev pub completed : List IoCompletion → List ℕ
completed l = map (λ c. c.token) l

-- `outstanding r t` is how many entries with the token `t` were submitted and are not yet taken off the
-- completion queue: the kernel has them, or their completions are visible.
pub record Tracked {R S C : Type 0} (io : Uring R S C) : Type 0 where
  pub user_data : S → ℕ
  pub outstanding : R → ℕ → ℕ
  pub set_data-user_data : (x : S) (t : ℕ) → user_data (io.set_data x t) ≡ t
  pub get_sqe_keeps : (r : R) (t : ℕ) → outstanding (io.get_sqe r).1 t ≡ outstanding r t
  pub write_sqe_keeps : (r : R) (x : S) (t : ℕ) → outstanding (io.write_sqe r x) t ≡ outstanding r t
  pub submit_adds :
      (r : R) (t : ℕ)
      → outstanding (io.submit r) t ≡ outstanding r t + times t (map user_data (io.prepared r))
  pub advance_takes :
      (r : R) (n t : ℕ)
      → n ≤ length (io.cqes r)
      → outstanding r t
        ≡ outstanding (io.cq_advance r n) t + times t (map io.cqe_data (take n (io.cqes r)))
  pub advance_keeps : (r : R) (n : ℕ) → io.prepared (io.cq_advance r n) ≡ io.prepared r

module _ {R S C Q : Type 0} {io : Uring R S C} (tracked : Tracked io) where
  module _ (source : Source Q IoRequest) (pool : BufferPool) where
    -- An entry carries its request's token.
    pub tokens-entry :
        (l : List IoRequest) → map tracked.user_data (map (entry io source pool) l) ≡ requested l
    unfolding entry
    tokens-entry [] = refl
    tokens-entry (x ∷ l) = ap₂ ◌∷◌ (tracked.set_data-user_data _ (x.token)) (tokens-entry l)

    submitted_or_none :
        (m n : ℕ) (r' r : R) (l : List IoRequest)
        → m ≡ 0 + n
        → io.prepared r ≡ []
        → io.prepared r' ≡ io.prepared r ++ map (entry io source pool) (take n l)
        → io.prepared (if ltb 0 m then io.submit r' else r') ≡ []
    submitted_or_none zero n r' r l e empty p =
        let nothing : n ≡ 0 = omega arith in
        p ∙ ap₂ ◌++◌ empty (ap (λ k. map (entry io source pool) (take k l)) nothing)
    submitted_or_none (suc m) n r' r l e empty p =
        let some_sent : ltb 0 (suc m) ≡ true = ground arith in rw some_sent ((io.submit_all r').1)

    added :
        (m n t : ℕ) (r' r : R) (l : List IoRequest)
        → m ≡ 0 + n
        → io.prepared r ≡ []
        → io.prepared r' ≡ io.prepared r ++ map (entry io source pool) (take n l)
        → tracked.outstanding r' t ≡ tracked.outstanding r t
        → tracked.outstanding (if ltb 0 m then io.submit r' else r') t
          ≡ tracked.outstanding r t + times t (requested (take m l))
    added zero n t r' r l e empty p same = omega (arith, same)
    added (suc m) n t r' r l e empty p same =
        let some_sent : ltb 0 (suc m) ≡ true = ground arith in
        let all : n ≡ suc m = omega (arith, e) in
        let entries : io.prepared r' ≡ map (entry io source pool) (take (suc m) l) =
          p ∙ ap₂ ◌++◌ empty (ap (λ k. map (entry io source pool) (take k l)) all) in
        let carried : times t (map tracked.user_data (io.prepared r'))
            ≡ times t (requested (take (suc m) l)) =
          ap (λ k. times t (map tracked.user_data k)) entries
          ∙ ap (times t) (tokens-entry (take (suc m) l)) in
        rw some_sent (omega (arith, tracked.submit_adds r' t, carried, same))

    -- A drain that starts with nothing prepared ends so.
    pub drain_and_submit-prepared :
        (max_batch : ℕ) (q : Q) (r : R)
        → source.Holds max_batch q
        → io.prepared r ≡ []
        → io.prepared (drain_and_submit io source pool max_batch q r).2 ≡ []
    unfolding drain_and_submit
    drain_and_submit-prepared max_batch q r h empty =
        let (n, total, (p, s, stop)) =
          drain_lem io source pool max_batch (source.held q) q r 0 h refl in
        submitted_or_none (drain io source pool max_batch q r 0).0 n
          (drain io source pool max_batch q r 0).2 r (source.held q) total empty p

    -- What a drain submits is outstanding.
    pub drain_and_submit-outstanding :
        (max_batch : ℕ) (q : Q) (r : R) (t : ℕ)
        → source.Holds max_batch q
        → io.prepared r ≡ []
        → let (n, q', r') = drain_and_submit io source pool max_batch q r in
          tracked.outstanding r' t
          ≡ tracked.outstanding r t + times t (requested (take n (source.held q)))
    unfolding drain_and_submit
    drain_and_submit-outstanding max_batch q r t h empty =
        let (n, total, (p, s, stop)) =
          drain_lem io source pool max_batch (source.held q) q r 0 h refl in
        let same : tracked.outstanding (drain io source pool max_batch q r 0).2 t
            ≡ tracked.outstanding r t =
          drain-keeps io source pool (λ r'. tracked.outstanding r' t ≡ tracked.outstanding r t)
            (λ r' e. tracked.get_sqe_keeps r' t ∙ e) (λ r' x e. tracked.write_sqe_keeps r' x t ∙ e)
            max_batch q r 0 refl in
        added (drain io source pool max_batch q r 0).0 n t (drain io source pool max_batch q r 0).2
          r (source.held q) total empty p same

    pub drain_and_submit-Holds :
        (max_batch k : ℕ) (q : Q) (r : R)
        → source.Holds (max_batch + k) q
        → source.Holds k (drain_and_submit io source pool max_batch q r).1
    unfolding drain_and_submit
    drain_and_submit-Holds max_batch k q r h = drain-Holds io source pool max_batch k q r 0 h

  module _ (sink : Sink Q IoCompletion) where
    pub tokens-completion :
        (l : List C) → completed (map (completion io sink) l) ≡ map io.cqe_data l
    tokens-completion [] = refl
    tokens-completion (c ∷ l) = ap (λ k. io.cqe_data c ∷ k) (tokens-completion l)

    taken :
        (r : R) (n m t : ℕ)
        → m ≡ n
        → n ≤ length (io.cqes r)
        → n < 2 ^ 32
        → tracked.outstanding r t
          ≡ tracked.outstanding (if ltb 0 m then io.cq_advance r (u32 m) else r) t
            + times t (map io.cqe_data (take n (io.cqes r)))
    taken r zero m t e inside small = rw e (omega arith)
    taken r (suc n) m t e inside small =
        let some_walked : ltb 0 (suc n) ≡ true = ground arith in
        let same : u32 (suc n) ≡ suc n = omega arith in
        rw (e, some_walked, same) (tracked.advance_takes r (suc n) t inside)

    advanced :
        (r : R) (m : ℕ)
        → io.prepared (if ltb 0 m then io.cq_advance r (u32 m) else r) ≡ io.prepared r
    advanced r zero = refl
    advanced r (suc m) =
        let some_walked : ltb 0 (suc m) ≡ true = ground arith in
        rw some_walked (tracked.advance_keeps r (u32 (suc m)))

    -- What a harvest walks is outstanding no longer, and it leaves alone what is prepared.
    pub harvest_completions-outstanding :
        (max_batch : ℕ) (r : R) (out : Q) (t : ℕ)
        → max_batch < 2 ^ 32
        → sink.Keeps max_batch out
        → length (sink.kept out) ≤ sink.room
        → let (delivered, r', out') = harvest_completions io sink max_batch r out in
          (tracked.outstanding r t
            ≡ tracked.outstanding r' t
              + times t (map io.cqe_data (take (min max_batch (length (io.cqes r))) (io.cqes r))))
          × (io.prepared r' ≡ io.prepared r)
    unfolding harvest_completions
    harvest_completions-outstanding max_batch r out t small k fits =
        let w = walk_lem io sink max_batch (io.cqes r) 0 0 out k fits in
        (
          taken r (min max_batch (length (io.cqes r)))
              (walk io sink max_batch (io.cqes r) 0 0 out).0 t (omega (arith, w.0)) (omega arith)
              (omega arith),
          advanced r (walk io sink max_batch (io.cqes r) 0 0 out).0,
        )

    pub harvest_completions-Keeps :
        (max_batch k : ℕ) (r : R) (out : Q)
        → sink.Keeps (max_batch + k) out
        → sink.Keeps k (harvest_completions io sink max_batch r out).2
    unfolding harvest_completions
    harvest_completions-Keeps max_batch k r out h =
        walk-Keeps io sink max_batch k (io.cqes r) 0 0 out h
