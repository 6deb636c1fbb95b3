-- ===== src/Kernel.antt =====
-- What include/ringio/sqpoll_engine.hpp and experiments/sqpoll_core_budget.cpp ask of
-- io_uring_queue_init_params: rings whose submission queue a kernel thread polls, its own or one
-- that it shares.
pub mod Sample
use ringio.Base.{
  ℕ, ◌+◌, ◌<◌, ◌^◌, ◌≡◌, ◌⊎◌, inl, inr, Bool, true, false, List, [], ◌∷◌, if◌then◌else◌,
}

-- `io_uring_params`, each bit of `flags` that the code sets as a field.
pub record Params : Type 0 where
  pub sqpoll : Bool
  pub attach_wq : Bool
  pub sq_aff : Bool
  pub sq_thread_idle : ℕ
  pub wq_fd : ℕ
  pub sq_thread_cpu : ℕ

-- `io_uring_params params{}`.
abbrev pub no_params : Params
no_params = record {
  sqpoll = false;
  attach_wq = false;
  sq_aff = false;
  sq_thread_idle = 0;
  wq_fd = 0;
  sq_thread_cpu = 0;
}

-- A call returns an error number or the descriptor of a new ring. The kernel's state shows which
-- descriptors are rings, which thread polls each, and the polling threads. A ring that attaches to
-- another is polled by the other's thread; any other starts a thread of its own.
pub record Kernel (K : Type 0) : Type 0 where
  pub queue_init : K → ℕ → Params → (ℕ ⊎ ℕ) × K
  pub register_ring_fd : K → ℕ → K
  pub queue_exit : K → ℕ → K
  pub is_ring : K → ℕ → Bool
  pub poller_of : K → ℕ → ℕ
  pub pollers : K → List ℕ
  pub new_poller : K → ℕ
  pub refused :
      (k : K) (entries : ℕ) (p : Params) (e : ℕ)
      → (queue_init k entries p).0 ≡ inl e
      → (queue_init k entries p).1 ≡ k
  pub opened :
      (k : K) (entries : ℕ) (p : Params) (fd : ℕ)
      → (queue_init k entries p).0 ≡ inr fd
      → p.sqpoll ≡ true
      → (fd < 2 ^ 31)
        × (is_ring k fd ≡ false)
        × (is_ring (queue_init k entries p).1 fd ≡ true)
        × (poller_of (queue_init k entries p).1 fd
            ≡ (if p.attach_wq then poller_of k p.wq_fd else new_poller k))
        × (pollers (queue_init k entries p).1
            ≡ (if p.attach_wq then pollers k else new_poller k ∷ pollers k))
  pub others :
      (k : K) (entries : ℕ) (p : Params) (fd : ℕ)
      → is_ring k fd ≡ true
      → (is_ring (queue_init k entries p).1 fd ≡ true)
        × (poller_of (queue_init k entries p).1 fd ≡ poller_of k fd)
  pub registering :
      (k : K) (fd g : ℕ)
      → (is_ring (register_ring_fd k fd) g ≡ is_ring k g)
        × (poller_of (register_ring_fd k fd) g ≡ poller_of k g)
        × (pollers (register_ring_fd k fd) ≡ pollers k)
