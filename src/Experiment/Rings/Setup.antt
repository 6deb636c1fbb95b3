-- ===== src/Experiment/Rings/Setup.antt =====
-- The set-up of the rings in `main` of experiments/sqpoll_core_budget.cpp.
use ringio.Base.{
  ℕ, zero, suc, ◌+◌, ◌-◌, ◌*◌, ◌⊎◌, inl, inr, true, Option, none, some, List, [], ◌∷◌, ◌++◌, ltb,
  if◌then◌else◌, get_elem?,
}
use ringio.Base.Word.{u32}
use ringio.Kernel.{Params, no_params, Kernel}

-- The texts that `mode` is compared with, and any other, "baseline" and "idle" among them.
pub data Mode : Type 0 where
  attach : Mode
  pinned : Mode
  independent : Mode

-- What ends the program early: an access behind the end of `rings`, and a ring that is refused.
pub data Failure : Type 0 where
  out_of_bounds : Failure
  init_failed : ℕ → Failure

-- The parameters of ring `i`; `first` is the descriptor of ring 0, once there is one.
unfoldable pub ring_params : Mode → ℕ → ℕ → Option ℕ → Params
ring_params attach idle_ms i none = record no_params { sqpoll = true; sq_thread_idle = idle_ms }
ring_params attach idle_ms i (some fd) = record no_params {
  sqpoll = true;
  sq_thread_idle = idle_ms;
  attach_wq = true;
  wq_fd = u32 fd;
}
ring_params pinned idle_ms i first = record no_params {
  sqpoll = true;
  sq_thread_idle = idle_ms;
  sq_aff = true;
  sq_thread_cpu = u32 (2 * i + 1);
}
ring_params independent idle_ms i first = record no_params {
  sqpoll = true;
  sq_thread_idle = idle_ms;
}

module _ {K : Type 0} (kernel : Kernel K) (mode : Mode) (idle_ms num_threads : ℕ) where
  -- `init_ring(i)`, where `fds` are the rings before it.
  unfoldable pub init_ring : K → ℕ → List ℕ → (ℕ ⊎ ℕ) × K
  init_ring k i fds = kernel.queue_init k 256 (ring_params mode idle_ms i (get_elem? fds 0))

  -- What follows a call: the program exits, or goes on with one more ring.
  unfoldable pub opened :
      (K → List ℕ → (Failure ⊎ List ℕ) × K) → (ℕ ⊎ ℕ) → K → List ℕ → (Failure ⊎ List ℕ) × K
  opened go_on (inl e) k fds = (inl (init_failed e), k)
  opened go_on (inr fd) k fds = go_on k (fds ++ (fd ∷ []))

  -- `left` more rings, from ring `i` on.
  unfoldable pub open_rings : ℕ → ℕ → K → List ℕ → (Failure ⊎ List ℕ) × K
  unfolding opened init_ring
  open_rings zero i k fds = (inr fds, k)
  open_rings (suc left) i k fds =
      let rest = open_rings left (i + 1) in
      let (ret, k') = init_ring k i fds in
      if ltb i num_threads then opened rest ret k' fds else (inl out_of_bounds, k)

  -- Ring 0 whatever `num_threads` is, and then the others.
  unfoldable pub init_rings : K → (Failure ⊎ List ℕ) × K
  unfolding open_rings
  init_rings k = open_rings (suc (num_threads - 1)) 0 k []
