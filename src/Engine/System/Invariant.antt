-- ===== src/Engine/System/Invariant.antt =====
-- What holds between the rings and passes of include/ringio/sqpoll_engine.hpp, and that pushes and drains
-- keep it.
use ringio.Base.{
  ℕ, suc, ◌+◌, ◌-◌, ◌≡◌, inl, inr, sym, Bool, List, [], ◌∷◌, ◌++◌, take, drop, length,
  if◌then◌else◌, arith,
}
use ringio.Base.Word.{IsCapacity}
use ringio.Spsc.Queue.{contents, push}
use ringio.Spsc.Refine.{IsValid, try_push-IsValid, try_push_refines}
use ringio.Pool.Storage.{BufferPool}
use ringio.Engine.{IoRequest, Uring, spsc_source}
use ringio.Engine.Drain.{drain_and_submit, drain_and_submit_lem}
use ringio.Engine.Tracked.{
  Tracked, times, requested, completed, drain_and_submit-prepared, drain_and_submit-outstanding,
  drain_and_submit-Holds,
}
use ringio.Engine.System.{System, push_request, submit_pass}
use ringio.Engine.System.Tokens.{requested_append, split_requests}

module _ {R S C : Type 0} {io : Uring R S C} (tracked : Tracked io) {cap cap' : ℕ}
    (c : IsCapacity cap) (c' : IsCapacity cap') (pool : BufferPool) where
  -- Where the accepted token `t` can be.
  abbrev pub Balance : System R → ℕ → Type 0
  Balance s t =
      times t (requested (s.accepted))
      ≡ times t (requested (contents cap (s.requests)))
        + tracked.outstanding (s.uring) t
        + times t (completed (contents cap' (s.completions)))
        + times t (completed (s.returned))
        + times t (requested (s.lost_requests))
        + times t (completed (s.lost_completions))

  pub record Inv (s : System R) : Type 0 where
    pub requests_valid : IsValid cap s.requests
    pub completions_valid : IsValid cap' s.completions
    pub nothing_prepared : io.prepared s.uring ≡ []
    pub balance : (t : ℕ) → Balance s t

  accepts :
      (t : ℕ) (s : System R) (req : IoRequest) (res : Bool × List IoRequest)
      → push cap (contents cap s.requests) req ≡ res
      → times t (requested (if res.0 then s.accepted ++ (req ∷ []) else s.accepted))
          + times t (requested (contents cap s.requests))
        ≡ times t (requested s.accepted) + times t (requested res.1)
  unfolding push
  accepts t s req res e = ground (
    arith,
    requested_append t (s.accepted) (req ∷ []),
    requested_append t (contents cap s.requests) (req ∷ []),
  )

  pub push_request-Inv :
      (s : System R) (req : IoRequest) → Inv s → Inv (push_request tracked c c' pool s req)
  unfolding push_request
  push_request-Inv s req h = record {
    requests_valid = try_push-IsValid c req h.requests_valid;
    completions_valid = h.completions_valid;
    nothing_prepared = h.nothing_prepared;
    balance = λ t.
        let same = try_push_refines c req h.requests_valid in
        omega (arith, h.balance t, accepts t s req _ (sym same));
  }

  pub submit_pass-Inv :
      (s : System R) (max_batch : ℕ) → Inv s → Inv (submit_pass tracked c c' pool s max_batch)
  unfolding submit_pass
  submit_pass-Inv s max_batch h =
      let pass = drain_and_submit io (spsc_source c) pool max_batch (s.requests) (s.uring) in
      let l : List IoRequest = contents cap (s.requests) in
      let (n, e, _, left) =
        drain_and_submit_lem io (spsc_source c) pool max_batch (s.requests) (s.uring)
          (h.requests_valid) (h.nothing_prepared) in
      record {
        requests_valid =
            drain_and_submit-Holds tracked (spsc_source c) pool max_batch 0 (s.requests) (s.uring)
              (h.requests_valid);
        completions_valid = h.completions_valid;
        nothing_prepared =
            drain_and_submit-prepared tracked (spsc_source c) pool max_batch (s.requests) (s.uring)
              (h.requests_valid) (h.nothing_prepared);
        balance = λ t.
            let parts : times t (requested l)
                ≡ times t (requested (take (pass.0) l))
                  + times t (
                      requested (
                        take (length l - pass.0 - length (contents cap (pass.1)))
                          (drop (pass.0) l)))
                  + times t (requested (contents cap (pass.1))) =
              elim left [
                | inl (all, rest) ↦ rw e (split_requests t n n l _ rest (omega arith) (omega arith))
                | inr (fewer, _, rest) ↦
                    rw e (split_requests t n (suc n) l _ rest (omega arith) (omega arith))
              ] in
            omega (
              arith,
              h.balance t,
              parts,
              drain_and_submit-outstanding tracked (spsc_source c) pool max_batch (s.requests)
                  (s.uring) t (h.requests_valid) (h.nothing_prepared),
              requested_append t (s.lost_requests)
                  (take (length l - pass.0 - length (contents cap (pass.1))) (drop (pass.0) l)),
            );
      }
