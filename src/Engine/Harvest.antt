-- ===== src/Engine/Harvest.antt =====
-- `harvest_completions` of include/ringio/sqpoll_engine.hpp.
use ringio.Base.{
  ℕ, zero, suc, ◌+◌, ◌-◌, ◌^◌, ◌≤◌, ◌<◌, ◌≡◌, sym, ap, ◌∙◌, true, false, List, [], ◌∷◌, ◌++◌, take,
  drop, map, length, min, ltb, if◌then◌else◌, arith, append-nil, append_assoc, length-append,
  dec_lt, subst,
}
use ringio.Base.Word.{u32}
use ringio.Engine.{IoCompletion, Uring, Sink}
use ringio.Spsc.Queue.{push}

module _ {R S C Q : Type 0} (io : Uring R S C) (sink : Sink Q IoCompletion) where
  abbrev pub completion : C → IoCompletion
  completion c = record { token = io.cqe_data c; result = io.cqe_res c }

  -- The loop over the visible entries: at most `left` more are walked.
  unfoldable pub walk : ℕ → List C → ℕ → ℕ → Q → ℕ × ℕ × Q
  walk zero cs walked delivered out = (walked, delivered, out)
  walk (suc left) [] walked delivered out = (walked, delivered, out)
  walk (suc left) (c ∷ cs) walked delivered out =
      let (done, out') = sink.put_one out (completion c) in
      walk left cs (walked + 1) (if done then delivered + 1 else delivered) out'

  unfoldable pub harvest_completions : ℕ → R → Q → ℕ × R × Q
  unfolding walk
  harvest_completions max_batch r out =
      let (walked, delivered, out') = walk max_batch (io.cqes r) 0 0 out in
      (delivered, if ltb 0 walked then io.cq_advance r (u32 walked) else r, out')

  put_fits :
      (k : ℕ) (out : Q) (a : IoCompletion)
      → sink.Keeps (suc k) out
      → length (sink.kept out) < sink.room
      → ((sink.put_one out a).0 ≡ true)
        × (sink.kept (sink.put_one out a).1 ≡ sink.kept out ++ (a ∷ []))
  unfolding push
  put_fits k out a keeps h = ground (arith, sink.put_one_refines k out a keeps)

  put_full :
      (k : ℕ) (out : Q) (a : IoCompletion)
      → sink.Keeps (suc k) out
      → sink.room ≤ length (sink.kept out)
      → ((sink.put_one out a).0 ≡ false) × (sink.kept (sink.put_one out a).1 ≡ sink.kept out)
  unfolding push
  put_full k out a keeps h = ground (arith, sink.put_one_refines k out a keeps)

  -- A loop of at most `left` turns makes as many calls of the queue.
  pub walk-Keeps :
      (left k : ℕ) (cs : List C) (w d : ℕ) (out : Q)
      → sink.Keeps (left + k) out
      → sink.Keeps k (walk left cs w d out).2
  unfolding walk
  walk-Keeps zero k cs w d out h = sink.fewer k (0 + k) out (omega arith) h
  walk-Keeps (suc left) k [] w d out h = sink.fewer k (suc left + k) out (omega arith) h
  walk-Keeps (suc left) k (c ∷ cs) w d out h =
      let h' : sink.Keeps (suc (left + k)) out =
        sink.fewer (suc (left + k)) (suc left + k) out (omega arith) h in
      walk-Keeps left k cs (w + 1) (if (sink.put_one out (completion c)).0 then d + 1 else d)
        (sink.put_one out (completion c)).1 (sink.put_one-Keeps (left + k) out (completion c) h')

  -- What is delivered of the first `left` of `cs`, with `free` places left.
  abbrev pub delivered_of : ℕ → List C → ℕ → ℕ
  delivered_of left cs free = min (min left (length cs)) free

  pub walk_lem :
      (left : ℕ) (cs : List C) (w d : ℕ) (out : Q)
      → sink.Keeps left out
      → length (sink.kept out) ≤ sink.room
      → let n = delivered_of left cs (sink.room - length (sink.kept out)) in
        ((walk left cs w d out).0 ≡ w + min left (length cs))
        × ((walk left cs w d out).1 ≡ d + n)
        × (sink.kept (walk left cs w d out).2 ≡ sink.kept out ++ map completion (take n cs))
  unfolding walk
  walk_lem zero cs w d out k fits =
      let none_left : delivered_of 0 cs (sink.room - length (sink.kept out)) ≡ 0 = omega arith in
      rw none_left (omega arith, omega arith, sym (append-nil (sink.kept out)))
  walk_lem (suc left) [] w d out k fits =
      let none_left : delivered_of (suc left) [] (sink.room - length (sink.kept out)) ≡ 0 =
        omega arith in
      rw none_left (omega arith, omega arith, sym (append-nil (sink.kept out)))
  walk_lem (suc left) (c ∷ cs) w d out k fits = elim (dec_lt (length (sink.kept out)) sink.room) [
    | yes h ↦
        let (done, more) = put_fits left out (completion c) k h in
        let out' : Q = (sink.put_one out (completion c)).1 in
        let size : length (sink.kept out') ≡ length (sink.kept out) + 1 =
          ap length more ∙ length-append (sink.kept out) (completion c ∷ []) in
        let n : ℕ = delivered_of left cs (sink.room - length (sink.kept out')) in
        let count : delivered_of (suc left) (c ∷ cs) (sink.room - length (sink.kept out)) ≡ suc n =
          omega (arith, size) in
        let ih =
          walk_lem left cs (w + 1) (d + 1) out' (sink.put_one-Keeps left out (completion c) k)
            (omega (arith, size)) in
        rw (walk, done, count)
          (
            omega (arith, ih.0),
            omega (arith, ih.1),
            ih.2
                ∙ ap (λ l. l ++ map completion (take n cs)) more
                ∙ append_assoc (sink.kept out) (completion c ∷ []) (map completion (take n cs)),
          )
    | no h ↦
        let (refused, same) = put_full left out (completion c) k (omega arith) in
        let out' : Q = (sink.put_one out (completion c)).1 in
        let size : length (sink.kept out') ≡ length (sink.kept out) = ap length same in
        let count : delivered_of (suc left) (c ∷ cs) (sink.room - length (sink.kept out)) ≡ 0 =
          omega arith in
        let count' : delivered_of left cs (sink.room - length (sink.kept out')) ≡ 0 =
          omega (arith, size) in
        let ih =
          walk_lem left cs (w + 1) d out' (sink.put_one-Keeps left out (completion c) k)
            (omega (arith, size)) in
        rw (walk, refused, count)
          (
            omega (arith, ih.0),
            omega (arith, ih.1, count'),
            ih.2
                ∙ ap (λ m. sink.kept out' ++ map completion (take m cs)) count'
                ∙ ap (λ l. l ++ []) same,
          )
  ]

  advance :
      (r : R) (n : ℕ)
      → n < 2 ^ 32
      → (more : List C) × (io.cqes (if ltb 0 n then io.cq_advance r (u32 n) else r)
          ≡ drop n (io.cqes r) ++ more)
  advance r zero h = ([], sym (append-nil (io.cqes r)))
  advance r (suc n) h =
      let e : u32 (suc n) ≡ suc n = omega arith in
      let some_walked : ltb 0 (suc n) ≡ true = ground arith in
      let (more, q) = io.advance_drops r (suc n) in (more, rw (e, some_walked) q)

  -- When the completion queue is valid and not over its bound, and a batch is below 2 ^ 32, a harvest
  -- walks the visible entries up to the batch, delivers of them as many as the queue has room for,
  -- oldest first and behind what it holds, and returns their number; all that were walked are gone
  -- from the ring, the undelivered ones included.
  pub harvest_completions_lem :
      (max_batch : ℕ) (r : R) (out : Q)
      → max_batch < 2 ^ 32
      → sink.Keeps max_batch out
      → length (sink.kept out) ≤ sink.room
      → let walked = min max_batch (length (io.cqes r)) in
        let n = min walked (sink.room - length (sink.kept out)) in
        let (delivered, r', out') = harvest_completions max_batch r out in
        (delivered ≡ n)
        × (sink.kept out' ≡ sink.kept out ++ map completion (take n (io.cqes r)))
        × ((more : List C) × (io.cqes r' ≡ drop walked (io.cqes r) ++ more))
  unfolding harvest_completions
  harvest_completions_lem max_batch r out small k fits =
      let w : ((walk max_batch (io.cqes r) 0 0 out).0 ≡ 0 + min max_batch (length (io.cqes r)))
          × ((walk max_batch (io.cqes r) 0 0 out).1
              ≡ 0 + delivered_of max_batch (io.cqes r) (sink.room - length (sink.kept out)))
          × (sink.kept (walk max_batch (io.cqes r) 0 0 out).2
              ≡ sink.kept out
                ++ map completion (
                    take (delivered_of max_batch (io.cqes r) (sink.room - length (sink.kept out)))
                      (io.cqes r))) =
        walk_lem max_batch (io.cqes r) 0 0 out k fits in
      let walked : ℕ = min max_batch (length (io.cqes r)) in
      let all : (walk max_batch (io.cqes r) 0 0 out).0 ≡ walked = omega (arith, w.0) in
      (
        omega (arith, w.1),
        w.2,
        subst
            (λ (k : ℕ).
              (more : List C) × (io.cqes (if ltb 0 k then io.cq_advance r (u32 k) else r)
                ≡ drop walked (io.cqes r) ++ more))
            (sym all) (advance r walked (omega arith)),
      )
