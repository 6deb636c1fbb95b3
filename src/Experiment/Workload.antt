-- ===== src/Experiment/Workload.antt =====
-- The loop of `RunWorkload` of experiments/sqpoll_core_budget.cpp. Times are nanoseconds.
use ringio.Base.{
  ℕ, zero, suc, ◌+◌, ◌-◌, ◌*◌, ◌%◌, ◌≤◌, ◌<◌, ◌^◌, ◌≡◌, refl, sym, ap, ap₂, ◌∙◌, Option, none, some,
  List, [], ◌∷◌, ◌++◌, length, All, ltb, ◌==◌, if◌then◌else◌, arith, length-append, Bool-cases,
  if_cases, inl, inr, subst,
}
use ringio.Base.Word.{u64}
use ringio.Experiment.Protocol.{
  Call, writes, reads, submits, waits, sees, between, obeys, obeys-append, transfers,
  transfers-append,
}

abbrev pub block_size : ℕ
block_size = 4096

abbrev pub file_blocks : ℕ
file_blocks = 16384

abbrev pub file_bytes : ℕ
file_bytes = file_blocks * block_size

-- `kRunDuration`.
abbrev pub run_duration : ℕ
run_duration = 3_000_000_000

-- `reading` counts the readings of the clock.
pub record Run : Type 0 where
  pub reading : ℕ
  pub ops : ℕ
  pub latencies_ns : List ℕ
  pub calls : List Call

-- The clock and `dist(rng)` are functions of how often they have been asked.
module _ (clock draws : ℕ → ℕ) where
  -- The four calls of one round.
  unfoldable pub round_calls : ℕ → List Call
  round_calls ops =
      let offset = u64 (draws ops * block_size) in
      (if ops % 2 == 0 then writes offset else reads offset) ∷ submits ∷ waits ∷ sees ∷ []

  unfoldable pub round : Run → Run
  unfolding round_calls
  round s = record {
    reading = s.reading + 3;
    ops = u64 (s.ops + 1);
    latencies_ns = s.latencies_ns ++ ((clock (s.reading + 2) - clock (s.reading + 1)) ∷ []);
    calls = s.calls ++ round_calls s.ops;
  }

  -- The test of the loop reads the clock too. `none` is a loop that has not ended.
  unfoldable pub loop : ℕ → ℕ → Run → Option Run
  unfolding round
  loop zero deadline s = none
  loop (suc fuel) deadline s =
      let rest = loop fuel deadline (round s) in
      if ltb (clock s.reading) deadline then rest else some (record s { reading = s.reading + 1 })

  -- The deadline is set at the first reading, and `start` is the second.
  unfoldable pub run_rounds : ℕ → Option Run
  run_rounds fuel =
      loop fuel (clock 0 + run_duration)
        (record { reading = 2; ops = 0; latencies_ns = []; calls = [] })

  -- The calls of the rounds before the `n`th.
  abbrev calls_before : ℕ → List Call
  calls_before zero = []
  calls_before (suc n) = calls_before n ++ round_calls n

  -- What every round keeps.
  record Fits (s : Run) : Type 0 where
    counted : length s.latencies_ns ≡ s.ops
    called : s.calls ≡ calls_before s.ops
    read : s.reading ≡ 3 * s.ops + 2

  round-Fits : (s : Run) → s.ops + 1 < 2 ^ 64 → Fits s → Fits (round s)
  unfolding round
  round-Fits s small f =
      let next : u64 (s.ops + 1) ≡ suc s.ops = omega arith in
      let grown : length (s.latencies_ns ++ ((clock (s.reading + 2) - clock (s.reading + 1)) ∷ []))
          ≡ length s.latencies_ns + 1 =
        length-append s.latencies_ns _ in
      record {
        counted = omega (arith, grown, f.counted);
        called = ap (λ l. l ++ round_calls s.ops) f.called ∙ ap calls_before (sym next);
        read = omega (arith, f.read);
      }

  ops-round : (s : Run) → s.ops + 1 < 2 ^ 64 → (round s).ops ≡ suc s.ops
  unfolding round
  ops-round s small = omega arith

  clock-round :
      (s : Run) → ((i : ℕ) → clock i < clock (i + 3)) → clock s.reading < clock (round s).reading
  unfolding round
  clock-round s gains = gains s.reading

  -- A loop whose clock gains at least a nanosecond in a round ends in as many rounds as there are
  -- nanoseconds left.
  loop-Fits :
      (fuel deadline : ℕ) (s : Run)
      → ((i : ℕ) → clock i < clock (i + 3))
      → 1 ≤ fuel
      → deadline < clock s.reading + fuel
      → s.ops + fuel < 2 ^ 64
      → Fits s
      → (t : Run) × (loop fuel deadline s ≡ some t)
        × (length t.latencies_ns ≡ t.ops)
        × (t.calls ≡ calls_before t.ops)
        × (deadline ≤ clock (3 * t.ops + 2))
        × (t.ops ≤ s.ops + fuel)
  unfolding loop
  loop-Fits zero deadline s gains some_fuel enough small f = absurd (omega arith)
  loop-Fits (suc fuel) deadline s gains some_fuel enough small f =
      elim (Bool-cases (ltb (clock s.reading) deadline)) [
        | inl more ↦
            let next : (round s).ops ≡ suc s.ops = ops-round s (omega arith) in
            let now : clock s.reading < clock (round s).reading = clock-round s gains in
            let below : clock s.reading < deadline = ground arith in
            let (t, e, kept, called, over, most) =
              loop-Fits fuel deadline (round s) gains (omega arith) (omega arith)
                (omega (arith, next)) (round-Fits s (omega arith) f) in
            (t, rw more e, kept, called, over, omega (arith, most, next))
        | inr over ↦
            let past : deadline ≤ clock s.reading = ground arith in
            let here : clock s.reading ≡ clock (3 * s.ops + 2) = ap clock f.read in
            (
              record s { reading = s.reading + 1 },
              rw over refl,
              f.counted,
              f.called,
              omega arith,
              omega arith,
            )
      ]

  -- An entry for a block of the file, within the file.
  abbrev pub InFile : Call → Type 0
  InFile (writes offset) = (offset % block_size ≡ 0) × (offset + block_size ≤ file_bytes)
  InFile (reads offset) = (offset % block_size ≡ 0) × (offset + block_size ≤ file_bytes)
  InFile submits = Unit
  InFile waits = Unit
  InFile sees = Unit

  All-append : (l m : List Call) → All InFile l → All InFile m → All InFile (l ++ m)
  All-append [] m h k = k
  All-append (x ∷ l) m (h, t) k = (h, All-append l m t k)

  round_calls-InFile : (n : ℕ) → draws n < file_blocks → All InFile (round_calls n)
  unfolding round_calls
  round_calls-InFile n h =
      if_cases (λ c. All InFile (c ∷ submits ∷ waits ∷ sees ∷ [])) (n % 2 == 0) _ _
        (λ _. (omega (arith, h), (tt, (tt, (tt, tt)))))
        (λ _. (omega (arith, h), (tt, (tt, (tt, tt)))))

  -- The first `n` rounds stay in the file.
  calls_before-InFile : (n : ℕ) → ((i : ℕ) → draws i < file_blocks) → All InFile (calls_before n)
  calls_before-InFile zero h = tt
  calls_before-InFile (suc n) h =
      All-append (calls_before n) (round_calls n) (calls_before-InFile n h)
        (round_calls-InFile n (h n))

  -- The first `n` entries: writes and reads in turn, a write first, of the blocks that were drawn.
  abbrev pub alternating : ℕ → List Call
  alternating zero = []
  alternating (suc n) =
      let offset = draws n * block_size in
      alternating n ++ ((if n % 2 == 0 then writes offset else reads offset) ∷ [])

  round_calls-obeys : (n : ℕ) → obeys (some between) (round_calls n) ≡ some between
  unfolding round_calls
  round_calls-obeys n =
      if_cases (λ c. obeys (some between) (c ∷ submits ∷ waits ∷ sees ∷ []) ≡ some between)
        (n % 2 == 0) _ _ (λ _. refl) (λ _. refl)

  calls_before-obeys : (n : ℕ) → obeys (some between) (calls_before n) ≡ some between
  calls_before-obeys zero = refl
  calls_before-obeys (suc n) =
      obeys-append (some between) (calls_before n) (round_calls n)
      ∙ ap (λ o. obeys o (round_calls n)) (calls_before-obeys n)
      ∙ round_calls-obeys n

  transfers-round_calls :
      (n : ℕ)
      → draws n < file_blocks
      → transfers (round_calls n)
        ≡ (if n % 2 == 0 then writes (draws n * block_size) else reads (draws n * block_size)) ∷ []
  unfolding round_calls
  transfers-round_calls n h =
      let exact : u64 (draws n * block_size) ≡ draws n * block_size = omega (arith, h) in
      ground (arith, exact)

  transfers-calls_before :
      (n : ℕ) → ((i : ℕ) → draws i < file_blocks) → transfers (calls_before n) ≡ alternating n
  transfers-calls_before zero h = refl
  transfers-calls_before (suc n) h =
      transfers-append (calls_before n) (round_calls n)
      ∙ ap₂ ◌++◌ (transfers-calls_before n h) (transfers-round_calls n (h n))

  -- When the clock never goes back and gains at least a nanosecond in every round, and every draw
  -- is the number of a block, the loop of a workload ends, after at most one more round than the
  -- run has nanoseconds, and not before the deadline. It has recorded one latency for each
  -- operation. Its calls are, over and over, an entry that is filled, a submission, a wait, and a
  -- release, in this order, so that no entry is filled between another one and its release; the
  -- entries are as many as the operations, writes and reads in turn, a write first, at the offsets
  -- that were drawn; and each covers one whole block of the scratch file.
  pub run_rounds_lem :
      ((i : ℕ) → clock i ≤ clock (i + 1))
      → ((i : ℕ) → clock i < clock (i + 3))
      → ((i : ℕ) → draws i < file_blocks)
      → (t : Run) × (run_rounds (run_duration + 1) ≡ some t)
        × (length t.latencies_ns ≡ t.ops)
        × (obeys (some between) t.calls ≡ some between)
        × (transfers t.calls ≡ alternating t.ops)
        × All InFile t.calls
        × (clock 0 + run_duration ≤ clock (3 * t.ops + 2))
        × (t.ops ≤ run_duration + 1)
  unfolding run_rounds
  run_rounds_lem steady gains inside =
      let s : Run = record { reading = 2; ops = 0; latencies_ns = []; calls = [] } in
      let (t, e, kept, called, over, most) =
        loop-Fits (run_duration + 1) (clock 0 + run_duration) s gains (omega arith)
          (omega (arith, steady 0, steady 1)) (omega arith)
          (record { counted = refl; called = refl; read = refl }) in
      (
        t,
        e,
        kept,
        ap (obeys (some between)) called ∙ calls_before-obeys t.ops,
        ap transfers called ∙ transfers-calls_before t.ops inside,
        subst (All InFile) (sym called) (calls_before-InFile t.ops inside),
        over,
        omega (arith, most),
      )
