-- ===== src/Engine.antt =====
-- include/ringio/io_request.hpp, include/ringio/io_completion.hpp, and what
-- include/ringio/sqpoll_engine.hpp uses of liburing and of its queues.
pub mod Setup
pub mod Drain
pub mod Harvest
pub mod Mpmc
pub mod Producers
pub mod Tracked
pub mod Memory
pub mod System
mod Tests
use ringio.Base.{
  ℕ, suc, ◌+◌, ◌*◌, ◌-◌, ◌^◌, ◌≤◌, ◌≡◌, Bool, true, false, Option, List, [], ◌∷◌, ◌++◌, drop, ltb,
  if◌then◌else◌,
}
use ringio.Base.Int.{ℤ, pos, negsuc}
use ringio.Base.Word.{u64, IsCapacity}
use ringio.Spsc.{SpscRing, try_pop, try_push}
use ringio.Spsc.Queue.{push, pop, contents}
use ringio.Spsc.Refine.{
  IsValid, try_pop-IsValid, try_pop_refines, try_push-IsValid, try_push_refines,
}

pub data IoOp : Type 0 where
  read : IoOp
  write : IoOp

pub record IoRequest : Type 0 where
  pub op : IoOp
  pub fixed_fd_index : ℤ
  pub buffer_index : ℕ
  pub offset : ℕ
  pub length : ℕ
  pub token : ℕ

pub record IoCompletion : Type 0 where
  pub token : ℕ
  pub result : ℤ

-- `static_cast<int>` of a `std::uint32_t`.
unfoldable pub to_int : ℕ → ℤ
to_int w = if ltb w (2 ^ 31) then pos w else negsuc (2 ^ 32 - 1 - w)

-- liburing, as the engine uses it: a ring `R`, submission entries `S` and completion entries `C`.
-- `write_sqe` is what the entry that `get_sqe` handed out holds in the end. What is known of a ring
-- are its free entries, at least; the entries that are prepared and not yet submitted; and those
-- that were submitted, all in order. The kernel may free entries and complete requests at any time.
pub record Uring (R S C : Type 0) : Type 0 where
  pub get_sqe : R → Bool × R
  pub prep_read_fixed : ℤ → ℕ → ℕ → ℕ → ℤ → S
  pub prep_write_fixed : ℤ → ℕ → ℕ → ℕ → ℤ → S
  pub set_fixed_file : S → S
  pub set_data : S → ℕ → S
  pub write_sqe : R → S → R
  pub submit : R → R
  pub cqes : R → List C
  pub cqe_data : C → ℕ
  pub cqe_res : C → ℤ
  pub cq_advance : R → ℕ → R
  pub space : R → ℕ
  pub prepared : R → List S
  pub submitted : R → List S
  pub get_sqe_room : (r : R) → 1 ≤ space r → (get_sqe r).0 ≡ true
  pub get_sqe_null :
      (r : R)
      → (get_sqe r).0 ≡ false
      → (prepared (get_sqe r).1 ≡ prepared r) × (submitted (get_sqe r).1 ≡ submitted r)
  pub get_sqe_entry :
      (r : R) (x : S)
      → (get_sqe r).0 ≡ true
      → (prepared (write_sqe (get_sqe r).1 x) ≡ prepared r ++ (x ∷ []))
        × (submitted (write_sqe (get_sqe r).1 x) ≡ submitted r)
        × (space r ≤ space (write_sqe (get_sqe r).1 x) + 1)
  pub submit_all :
      (r : R) → (submitted (submit r) ≡ submitted r ++ prepared r) × (prepared (submit r) ≡ [])
  pub advance_drops :
      (r : R) (n : ℕ) → (more : List C) × (cqes (cq_advance r n) ≡ drop n (cqes r) ++ more)

-- A queue that the engine takes requests from, and one that it puts completions into: their calls
-- are those of a bounded queue, while `k` more of them are in range.
pub record Source (Q A : Type 0) : Type 1 where
  pub take_one : Q → Option A × Q
  pub held : Q → List A
  pub Holds : ℕ → Q → Type 0
  pub fewer : (j k : ℕ) (q : Q) → j ≤ k → Holds k q → Holds j q
  pub take_one-Holds : (k : ℕ) (q : Q) → Holds (suc k) q → Holds k (take_one q).1
  pub take_one_refines :
      (k : ℕ) (q : Q) → Holds (suc k) q → ((take_one q).0, held (take_one q).1) ≡ pop (held q)

pub record Sink (Q A : Type 0) : Type 1 where
  pub put_one : Q → A → Bool × Q
  pub kept : Q → List A
  pub Keeps : ℕ → Q → Type 0
  pub room : ℕ
  pub fewer : (j k : ℕ) (q : Q) → j ≤ k → Keeps k q → Keeps j q
  pub put_one-Keeps : (k : ℕ) (q : Q) (a : A) → Keeps (suc k) q → Keeps k (put_one q a).1
  pub put_one_refines :
      (k : ℕ) (q : Q) (a : A)
      → Keeps (suc k) q
      → ((put_one q a).0, kept (put_one q a).1) ≡ push room (kept q) a

-- The ring of one producer and one consumer is both, for any number of calls.
abbrev pub spsc_source : {A : Type 0} {cap : ℕ} → IsCapacity cap → Source (SpscRing A) A
spsc_source {cap} c = record {
  take_one = try_pop cap;
  held = contents cap;
  Holds = λ k. IsValid cap;
  fewer = λ j k q le h. h;
  take_one-Holds = λ k q h. try_pop-IsValid c h;
  take_one_refines = λ k q h. try_pop_refines c h;
}

abbrev pub spsc_sink : {A : Type 0} {cap : ℕ} → IsCapacity cap → Sink (SpscRing A) A
spsc_sink {cap} c = record {
  put_one = try_push cap;
  kept = contents cap;
  Keeps = λ k. IsValid cap;
  room = cap;
  fewer = λ j k q le h. h;
  put_one-Keeps = λ k q a h. try_push-IsValid c a h;
  put_one_refines = λ k q a h. try_push_refines c a h;
}
