-- ===== src/Engine/Drain.antt =====
-- `drain_and_submit` of include/ringio/sqpoll_engine.hpp.
use ringio.Base.{
  ℕ, zero, suc, ◌+◌, ◌≤◌, ◌<◌, ◌≡◌, ◌⊎◌, inl, inr, refl, sym, ap, ap₂, ◌∙◌, true, false, Option,
  none, some, List, [], ◌∷◌, ◌++◌, take, drop, map, length, min, ltb, if◌then◌else◌, arith,
  append-nil, append_assoc, subst, Bool-cases,
}
use ringio.Pool.Storage.{BufferPool, data_at}
use ringio.Engine.{read, write, IoRequest, to_int, Uring, Source}
use ringio.Spsc.Queue.{pop}

module _ {R S C Q : Type 0} (io : Uring R S C) (source : Source Q IoRequest)
    (pool : BufferPool) where
  -- The entry of a request.
  unfoldable pub entry : IoRequest → S
  entry req =
      let buf = data_at pool req.buffer_index in
      let buf_index = to_int req.buffer_index in
      let sqe : S = elim (req.op) [
        | read ↦ io.prep_read_fixed req.fixed_fd_index buf req.length req.offset buf_index
        | write ↦ io.prep_write_fixed req.fixed_fd_index buf req.length req.offset buf_index
      ] in
      io.set_data (io.set_fixed_file sqe) req.token

  -- The loop: at most `left` more requests are popped.
  unfoldable pub drain : ℕ → Q → R → ℕ → ℕ × Q × R
  drain zero q r submitted = (submitted, q, r)
  drain (suc left) q r submitted =
      let (out, q') = source.take_one q in
      elim out [
        | none ↦ (submitted, q', r)
        | some req ↦
            let (found, r') = io.get_sqe r in
            elim found [
              | true ↦ drain left q' (io.write_sqe r' (entry req)) (submitted + 1)
              | false ↦ (submitted, q', r')
            ]
      ]

  unfoldable pub drain_and_submit : ℕ → Q → R → ℕ × Q × R
  unfolding drain
  drain_and_submit max_batch q r =
      let (submitted, q', r') = drain max_batch q r 0 in
      (submitted, q', if ltb 0 submitted then io.submit r' else r')

  take_none :
      (k : ℕ) (q : Q)
      → source.Holds (suc k) q
      → source.held q ≡ []
      → ((source.take_one q).0 ≡ none) × (source.held (source.take_one q).1 ≡ [])
  unfolding pop
  take_none k q h e =
      let same : ((source.take_one q).0, source.held (source.take_one q).1) ≡ pop [] =
        subst (λ l. ((source.take_one q).0, source.held (source.take_one q).1) ≡ pop l) e
          (source.take_one_refines k q h) in
      (ap (λ x. x.0) same, ap (λ x. x.1) same)

  take_some :
      (k : ℕ) (q : Q) (x : IoRequest) (l : List IoRequest)
      → source.Holds (suc k) q
      → source.held q ≡ x ∷ l
      → ((source.take_one q).0 ≡ some x) × (source.held (source.take_one q).1 ≡ l)
  unfolding pop
  take_some k q x l h e =
      let same : ((source.take_one q).0, source.held (source.take_one q).1) ≡ pop (x ∷ l) =
        subst (λ l. ((source.take_one q).0, source.held (source.take_one q).1) ≡ pop l) e
          (source.take_one_refines k q h) in
      (ap (λ x. x.0) same, ap (λ x. x.1) same)

  -- What a loop over a queue that holds `l` has done, when it ends with `r'` and `left'` in the
  -- queue after it has submitted `n`: the entries of the first `n` are prepared; and it has stopped
  -- at the bound or at the end of the queue, or for want of an entry, and then the next request is
  -- no longer in the queue either.
  abbrev pub Drained : ℕ → List IoRequest → R → ℕ → List IoRequest → R → Type 0
  Drained bound l r n left r' =
      (io.prepared r' ≡ io.prepared r ++ map entry (take n l))
      × (io.submitted r' ≡ io.submitted r)
      × (((n ≡ min bound (length l)) × (left ≡ drop n l))
          ⊎ ((n < min bound (length l)) × (io.space r ≤ n) × (left ≡ drop (suc n) l)))

  abbrev pub Ended : ℕ → List IoRequest → R → ℕ → ℕ × Q × R → Type 0
  Ended bound l r done res =
      (n : ℕ) × (res.0 ≡ done + n) × Drained bound l r n (source.held res.1) res.2

  -- The three ways on from a turn of the loop.
  module _ (bound : ℕ) (q : Q) (r : R) (done : ℕ) where
    stops_empty :
        (source.take_one q).0 ≡ none → drain (suc bound) q r done ≡ (done, (source.take_one q).1, r)
    unfolding drain
    stops_empty e = rw (drain, e) refl

    stops_full :
        (x : IoRequest)
        → (source.take_one q).0 ≡ some x
        → (io.get_sqe r).0 ≡ false
        → drain (suc bound) q r done ≡ (done, (source.take_one q).1, (io.get_sqe r).1)
    unfolding drain
    stops_full x e f = rw (drain, e, f) refl

    goes_on :
        (x : IoRequest)
        → (source.take_one q).0 ≡ some x
        → (io.get_sqe r).0 ≡ true
        → drain (suc bound) q r done
          ≡ drain bound (source.take_one q).1 (io.write_sqe (io.get_sqe r).1 (entry x)) (done + 1)
    unfolding drain
    goes_on x e f = rw (drain, e, f) refl

  -- What every entry that is asked for and written leaves true.
  module _ (P : R → Type 0) (asks : (r : R) → P r → P (io.get_sqe r).1)
      (writes : (r : R) (x : S) → P r → P (io.write_sqe r x)) where
    after_take :
        (bound : ℕ) (q : Q) (r : R) (done : ℕ) (out : Option IoRequest)
        → (source.take_one q).0 ≡ out
        → P r
        → ((q' : Q) (r' : R) (done' : ℕ) → P r' → P (drain bound q' r' done').2)
        → P (drain (suc bound) q r done).2
    after_take bound q r done none e p again =
        subst (λ res. P res.2) (sym (stops_empty bound q r done e)) p
    after_take bound q r done (some x) e p again = elim (Bool-cases (io.get_sqe r).0) [
      | inr f ↦ subst (λ res. P res.2) (sym (stops_full bound q r done x e f)) (asks r p)
      | inl f ↦
          subst (λ res. P res.2) (sym (goes_on bound q r done x e f))
            (again (source.take_one q).1 (io.write_sqe (io.get_sqe r).1 (entry x)) (done + 1)
              (writes (io.get_sqe r).1 (entry x) (asks r p)))
    ]

    pub drain-keeps : (bound : ℕ) (q : Q) (r : R) (done : ℕ) → P r → P (drain bound q r done).2
    unfolding drain
    drain-keeps zero q r done p = p
    drain-keeps (suc bound) q r done p =
        after_take bound q r done (source.take_one q).0 refl p (drain-keeps bound)

  -- A loop of at most `bound` turns makes as many calls of the queue.
  take-Holds :
      (bound k : ℕ) (q : Q) (r : R) (done : ℕ) (out : Option IoRequest)
      → (source.take_one q).0 ≡ out
      → source.Holds (bound + k) (source.take_one q).1
      → ((q' : Q) (r' : R) (done' : ℕ)
          → source.Holds (bound + k) q'
          → source.Holds k (drain bound q' r' done').1)
      → source.Holds k (drain (suc bound) q r done).1
  take-Holds bound k q r done none e h again =
      subst (λ res. source.Holds k res.1) (sym (stops_empty bound q r done e))
        (source.fewer k (bound + k) (source.take_one q).1 (omega arith) h)
  take-Holds bound k q r done (some x) e h again = elim (Bool-cases (io.get_sqe r).0) [
    | inr f ↦
        subst (λ res. source.Holds k res.1) (sym (stops_full bound q r done x e f))
          (source.fewer k (bound + k) (source.take_one q).1 (omega arith) h)
    | inl f ↦
        subst (λ res. source.Holds k res.1) (sym (goes_on bound q r done x e f))
          (again (source.take_one q).1 (io.write_sqe (io.get_sqe r).1 (entry x)) (done + 1) h)
  ]

  pub drain-Holds :
      (bound k : ℕ) (q : Q) (r : R) (done : ℕ)
      → source.Holds (bound + k) q
      → source.Holds k (drain bound q r done).1
  unfolding drain
  drain-Holds zero k q r done h = source.fewer k (0 + k) q (omega arith) h
  drain-Holds (suc bound) k q r done h =
      let h' : source.Holds (suc (bound + k)) q =
        source.fewer (suc (bound + k)) (suc bound + k) q (omega arith) h in
      take-Holds bound k q r done (source.take_one q).0 refl
        (source.take_one-Holds (bound + k) q h')
        (λ q' r' done' g. drain-Holds bound k q' r' done' g)

  pub drain_lem :
      (bound : ℕ) (l : List IoRequest) (q : Q) (r : R) (done : ℕ)
      → source.Holds bound q
      → source.held q ≡ l
      → Ended bound l r done (drain bound q r done)
  unfolding drain
  drain_lem zero l q r done h e =
      (0, omega arith, (sym (append-nil (io.prepared r)), refl, inl (omega arith, e)))
  drain_lem (suc bound) [] q r done h e =
      let (out, left) = take_none bound q h e in
      subst (Ended (suc bound) [] r done) (sym (stops_empty bound q r done out))
        (0, omega arith, (sym (append-nil (io.prepared r)), refl, inl (omega arith, left)))
  drain_lem (suc bound) (x ∷ l) q r done h e =
      let (out, left) = take_some bound q x l h e in
      elim (Bool-cases (io.get_sqe r).0) [
        | inr f ↦
            let (p, s) = io.get_sqe_null r f in
            let full : io.space r ≤ 0 = ground (arith, io.get_sqe_room r) in
            subst (Ended (suc bound) (x ∷ l) r done) (sym (stops_full bound q r done x out f)) (
              0,
              omega arith,
              (p ∙ sym (append-nil (io.prepared r)), s, inr (omega arith, full, left)),
            )
        | inl f ↦
            let (p, s, room) = io.get_sqe_entry r (entry x) f in
            let r' : R = io.write_sqe (io.get_sqe r).1 (entry x) in
            let q' : Q = (source.take_one q).1 in
            let (n, total, (p', s', stop)) =
              drain_lem bound l q' r' (done + 1) (source.take_one-Holds bound q h) left in
            subst (Ended (suc bound) (x ∷ l) r done) (sym (goes_on bound q r done x out f)) (
              suc n,
              omega (arith, total),
              (
                p'
                    ∙ ap (λ k. k ++ map entry (take n l)) p
                    ∙ append_assoc (io.prepared r) (entry x ∷ []) (map entry (take n l)),
                s' ∙ s,
                elim stop [
                  | inl (all, rest) ↦ inl (omega (arith, all), rest)
                  | inr (fewer, none_free, rest) ↦
                      inr (omega (arith, fewer), omega (arith, none_free, room), rest)
                ],
              ),
            )
      ]

  hands_over :
      (r r' : R) (l : List IoRequest) (m n : ℕ)
      → m ≡ 0 + n
      → io.prepared r ≡ []
      → io.prepared r' ≡ io.prepared r ++ map entry (take n l)
      → io.submitted r' ≡ io.submitted r
      → io.submitted (if ltb 0 m then io.submit r' else r') ≡ io.submitted r ++ map entry (take n l)
  hands_over r r' l zero n e empty p s =
      let nothing : n ≡ 0 = omega arith in rw nothing (s ∙ sym (append-nil (io.submitted r)))
  hands_over r r' l (suc m) n e empty p s =
      let some_sent : ltb 0 (suc m) ≡ true = ground arith in
      rw some_sent
        ((io.submit_all r').0 ∙ ap₂ ◌++◌ s (p ∙ ap (λ k. k ++ map entry (take n l)) empty))

  -- What a call has done with a queue that held `l`.
  abbrev pub Submits : ℕ → List IoRequest → Q → R → Type 0
  Submits max_batch l q r =
      let (count, q', r') = drain_and_submit max_batch q r in
      (n : ℕ) × (count ≡ n)
      × (io.submitted r' ≡ io.submitted r ++ map entry (take n l))
      × (((n ≡ min max_batch (length l)) × (source.held q' ≡ drop n l))
          ⊎ ((n < min max_batch (length l)) × (io.space r ≤ n) × (source.held q' ≡ drop (suc n) l)))

  -- For a queue that has `max_batch` calls in range, and a ring on which nothing is prepared yet, a
  -- call submits, in order, the entries of the first `n` requests of the queue, and returns `n`. Either
  -- `n` is the batch or all that the queue held, and the others are still in the queue; or the ring
  -- had at most `n` free entries, `n` is less, and the queue has lost one more request than were
  -- submitted.
  pub drain_and_submit_lem :
      (max_batch : ℕ) (q : Q) (r : R)
      → source.Holds max_batch q
      → io.prepared r ≡ []
      → Submits max_batch (source.held q) q r
  unfolding drain_and_submit
  drain_and_submit_lem max_batch q r h empty =
      let (n, total, (p, s, stop)) = drain_lem max_batch (source.held q) q r 0 h refl in
      (
        n,
        omega (arith, total),
        hands_over r (drain max_batch q r 0).2 (source.held q) (drain max_batch q r 0).0 n total
            empty p s,
        stop,
      )
