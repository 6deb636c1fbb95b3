-- ===== src/Engine/Memory.antt =====
-- An io_uring in memory, to run include/ringio/sqpoll_engine.hpp against.
use ringio.Base.{
  ℕ, ◌+◌, ◌-◌, ◌≤◌, ◌≡◌, refl, Bool, true, false, List, [], ◌∷◌, ◌++◌, take, drop, map, leb, ◌==◌,
  arith, append-nil, sym, ap, map-append, take-append-drop,
}
use ringio.Base.Int.{ℤ, pos}
use ringio.Base.Sort.{count_if-append}
use ringio.Engine.{Uring}
use ringio.Engine.Tracked.{Tracked, times}

-- A submission entry, as far as the tests look at it; and a ring whose entries wait, are sent, run, and finish.
pub record Sqe : Type 0 where
  pub reads : Bool
  pub buffer : ℕ
  pub fixed_file : Bool
  pub user_data : ℕ

pub record Memory : Type 0 where
  pub free : ℕ
  pub waiting : List Sqe
  pub sent : List Sqe
  pub running : List Sqe
  pub finished : List (ℕ × ℤ)

pub leb-one : (n : ℕ) → 1 ≤ n → leb 1 n ≡ true
leb-one n h = ground arith

pub one-less : (n : ℕ) → n ≤ n - 1 + 1
one-less n = omega arith

abbrev pub in_memory : Uring Memory Sqe (ℕ × ℤ)
in_memory = record {
  get_sqe = λ r. (leb 1 r.free, record r { free = r.free - 1 });
  prep_read_fixed = λ fd buf len off index. record {
    reads = true;
    buffer = buf;
    fixed_file = false;
    user_data = 0;
  };
  prep_write_fixed = λ fd buf len off index. record {
    reads = false;
    buffer = buf;
    fixed_file = false;
    user_data = 0;
  };
  set_fixed_file = λ x. record x { fixed_file = true };
  set_data = λ x t. record x { user_data = t };
  write_sqe = λ r x. record r { waiting = r.waiting ++ (x ∷ []) };
  submit =
      λ r. record r { waiting = []; sent = r.sent ++ r.waiting; running = r.running ++ r.waiting };
  cqes = λ r. r.finished;
  cqe_data = λ c. c.0;
  cqe_res = λ c. c.1;
  cq_advance = λ r n. record r { finished = drop n r.finished };
  space = λ r. r.free;
  prepared = λ r. r.waiting;
  submitted = λ r. r.sent;
  get_sqe_room = λ r h. leb-one r.free h;
  get_sqe_null = λ r h. (refl, refl);
  get_sqe_entry = λ r x h. (refl, refl, one-less r.free);
  submit_all = λ r. (refl, refl);
  advance_drops = λ r n. ([], sym (append-nil (drop n r.finished)));
}

abbrev pub under_way : Memory → ℕ → ℕ
under_way r t =
    times t (map (λ (x : Sqe). x.user_data) r.running)
    + times t (map (λ (c : ℕ × ℤ). c.0) r.finished)

pub grows :
    (r : Memory) (t : ℕ)
    → under_way (in_memory.submit r) t
      ≡ under_way r t + times t (map (λ (x : Sqe). x.user_data) r.waiting)
grows r t = omega (
  arith,
  ap (times t) (map-append (λ (x : Sqe). x.user_data) r.running r.waiting),
  count_if-append (λ x. x == t) (map (λ (x : Sqe). x.user_data) r.running)
      (map (λ (x : Sqe). x.user_data) r.waiting),
)

pub shrinks :
    (r : Memory) (n t : ℕ)
    → under_way r t
      ≡ under_way (in_memory.cq_advance r n) t
        + times t (map (λ (c : ℕ × ℤ). c.0) (take n r.finished))
shrinks r n t =
    let token : ℕ × ℤ → ℕ = λ c. c.0 in
    omega (
      arith,
      ap (λ l. times t (map token l)) (take-append-drop n r.finished),
      ap (times t) (map-append token (take n r.finished) (drop n r.finished)),
      count_if-append (λ x. x == t) (map token (take n r.finished)) (map token (drop n r.finished)),
    )

abbrev pub memory_tracked : Tracked in_memory
memory_tracked = record {
  user_data = λ x. x.user_data;
  outstanding = under_way;
  set_data-user_data = λ x t. refl;
  get_sqe_keeps = λ r t. refl;
  write_sqe_keeps = λ r x t. refl;
  submit_adds = grows;
  advance_takes = λ r n t h. shrinks r n t;
  advance_keeps = λ r n. refl;
}

-- The kernel completes the entry that has run the longest.
abbrev pub finish : Memory → Memory
finish r = record r {
  running = drop 1 r.running;
  finished = r.finished ++ map (λ (x : Sqe). (x.user_data, pos 512)) (take 1 r.running);
}

moves :
    (run : List Sqe) (done : List (ℕ × ℤ)) (t : ℕ)
    → let token : ℕ × ℤ → ℕ = λ c. c.0 in
      let datum : Sqe → ℕ = λ x. x.user_data in
      times t (map datum (drop 1 run))
        + times t (map token (done ++ map (λ (x : Sqe). (x.user_data, pos 512)) (take 1 run)))
      ≡ times t (map datum run) + times t (map token done)
moves [] done t =
    let token : ℕ × ℤ → ℕ = λ c. c.0 in
    omega (arith, ap (λ l. times t (map token l)) (append-nil done))
moves (x ∷ run) done t =
    let token : ℕ × ℤ → ℕ = λ c. c.0 in
    omega (
      arith,
      ap (times t) (map-append token done ((x.user_data, pos 512) ∷ [])),
      count_if-append (λ x. x == t) (map token done) (x.user_data ∷ []),
    )

pub finish-under_way : (r : Memory) (t : ℕ) → under_way (finish r) t ≡ under_way r t
finish-under_way r t = moves r.running r.finished t
