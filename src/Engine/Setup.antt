-- ===== src/Engine/Setup.antt =====
-- The constructor and destructor of include/ringio/sqpoll_engine.hpp, and the tables that an engine
-- registers.
use ringio.Base.{
  ℕ, ◌<◌, ◌^◌, ◌≡◌, refl, ap, ◌∙◌, ◌⊎◌, inl, inr, Bool, true, false, Option, none, some, List, ◌∷◌,
  length, arith, if◌then◌else◌, if_cases,
}
use ringio.Base.Int.{ℤ}
use ringio.Base.Word.{u32}
use ringio.Kernel.{Params, no_params, Kernel}
use ringio.Pool.Storage.{BufferPool}
use ringio.Pool.Register.{register_with}

-- The parameters of an engine; `attach_to` is the descriptor of the other engine's ring.
unfoldable pub engine_params : ℕ → Option ℕ → Params
engine_params idle none = record no_params { sqpoll = true; sq_thread_idle = idle }
engine_params idle (some fd) = record no_params {
  sqpoll = true;
  sq_thread_idle = idle;
  attach_wq = true;
  wq_fd = u32 fd;
}

module _ {K : Type 0} (kernel : Kernel K) where
  -- What follows the call: an error is thrown, and a ring's own descriptor is registered, if
  -- liburing can do so.
  started : Bool → (ℕ ⊎ ℕ) → K → (ℕ ⊎ ℕ) × K
  started has_register (inl e) k = (inl e, k)
  started has_register (inr fd) k =
      (inr fd, if has_register then kernel.register_ring_fd k fd else k)

  -- `has_register` is RINGIO_HAVE_REGISTER_RING_FD.
  unfoldable pub open_engine : Bool → K → ℕ → ℕ → Option ℕ → (ℕ ⊎ ℕ) × K
  unfolding started
  open_engine has_register k entries idle attach_to =
      let (ret, k') = kernel.queue_init k entries (engine_params idle attach_to) in
      started has_register ret k'

  unfoldable pub close_engine : K → ℕ → K
  close_engine k fd = kernel.queue_exit k fd

  -- How many polling threads an engine adds, and which one serves it.
  abbrev pub Served : Option ℕ → K → ℕ → K → Type 0
  Served none k fd k' =
      (kernel.poller_of k' fd ≡ kernel.new_poller k)
      × (kernel.pollers k' ≡ kernel.new_poller k ∷ kernel.pollers k)
  Served (some leader) k fd k' =
      (kernel.poller_of k' fd ≡ kernel.poller_of k leader) × (kernel.pollers k' ≡ kernel.pollers k)

  abbrev pub Opened : Option ℕ → K → (ℕ ⊎ ℕ) × K → Type 0
  Opened attach_to k (inl e, k') = k' ≡ k
  Opened attach_to k (inr fd, k') =
      Served attach_to k fd k'
      × (kernel.is_ring k fd ≡ false)
      × (kernel.is_ring k' fd ≡ true)
      × ((g : ℕ)
          → kernel.is_ring k g ≡ true
          → (kernel.is_ring k' g ≡ true) × (kernel.poller_of k' g ≡ kernel.poller_of k g))

  -- The engine that an engine attaches to is a ring of this process.
  abbrev pub IsLeader : Option ℕ → K → Type 0
  IsLeader none k = Unit
  IsLeader (some leader) k = (kernel.is_ring k leader ≡ true) × (leader < 2 ^ 31)

  -- A ring that is open, before its descriptor is registered.
  opened :
      (k : K) (entries idle : ℕ) (attach_to : Option ℕ) (fd : ℕ)
      → IsLeader attach_to k
      → (kernel.queue_init k entries (engine_params idle attach_to)).0 ≡ inr fd
      → Opened attach_to k (inr fd, (kernel.queue_init k entries (engine_params idle attach_to)).1)
  unfolding engine_params
  opened k entries idle none fd leads e =
      let p : Params = engine_params idle none in
      let (small, new, made, served, added) = kernel.opened k entries p fd e refl in
      ((served, added), new, made, λ g. kernel.others k entries p g)
  opened k entries idle (some leader) fd leads e =
      let p : Params = engine_params idle (some leader) in
      let (small, new, made, served, added) = kernel.opened k entries p fd e refl in
      let same : u32 leader ≡ leader = omega arith in
      ((served ∙ ap (kernel.poller_of k) same, added), new, made, λ g. kernel.others k entries p g)

  registered :
      (attach_to : Option ℕ) (k k' : K) (fd : ℕ)
      → Opened attach_to k (inr fd, k')
      → Opened attach_to k (inr fd, kernel.register_ring_fd k' fd)
  registered none k k' fd ((served, added), new, made, rest) = (
    ((kernel.registering k' fd fd).1 ∙ served, (kernel.registering k' fd fd).2 ∙ added),
    new,
    (kernel.registering k' fd fd).0 ∙ made,
    λ g old. (
      (kernel.registering k' fd g).0 ∙ (rest g old).0,
      (kernel.registering k' fd g).1 ∙ (rest g old).1,
    ),
  )
  registered (some leader) k k' fd ((served, added), new, made, rest) = (
    ((kernel.registering k' fd fd).1 ∙ served, (kernel.registering k' fd fd).2 ∙ added),
    new,
    (kernel.registering k' fd fd).0 ∙ made,
    λ g old. (
      (kernel.registering k' fd g).0 ∙ (rest g old).0,
      (kernel.registering k' fd g).1 ∙ (rest g old).1,
    ),
  )

  -- Whatever the kernel answers: a refused engine changes nothing; an
  -- engine of its own adds one polling thread, which serves it; and one that attaches to an open
  -- ring adds none and is served by that ring's. The rings that were open are served as before.
  pub open_engine_lem :
      (has_register : Bool) (k : K) (entries idle : ℕ) (attach_to : Option ℕ)
      → IsLeader attach_to k
      → Opened attach_to k (open_engine has_register k entries idle attach_to)
  unfolding open_engine
  open_engine_lem has_register k entries idle attach_to leads =
      go (kernel.queue_init k entries p).0 refl
    where
      p : Params
      p = engine_params idle attach_to

      go :
          (ret : ℕ ⊎ ℕ)
          → (kernel.queue_init k entries p).0 ≡ ret
          → Opened attach_to k (started has_register ret (kernel.queue_init k entries p).1)
      go (inl e) q = kernel.refused k entries p e q
      go (inr fd) q =
          if_cases (λ k'. Opened attach_to k (inr fd, k')) has_register _ _
            (λ _.
              registered attach_to k (kernel.queue_init k entries p).1 fd
                (opened k entries idle attach_to fd leads q))
            (λ _. opened k entries idle attach_to fd leads q)

  -- The descriptor of an engine's ring is an `int`.
  pub descriptor_is_int :
      (has_register : Bool) (k : K) (entries idle : ℕ) (attach_to : Option ℕ) (fd : ℕ)
      → (open_engine has_register k entries idle attach_to).0 ≡ inr fd
      → fd < 2 ^ 31
  unfolding open_engine started engine_params
  descriptor_is_int has_register k entries idle attach_to fd =
      go (kernel.queue_init k entries p).0 refl
    where
      p : Params
      p = engine_params idle attach_to

      polled : (to : Option ℕ) → (engine_params idle to).sqpoll ≡ true
      polled none = refl
      polled (some leader) = refl

      go :
          (ret : ℕ ⊎ ℕ)
          → (kernel.queue_init k entries p).0 ≡ ret
          → (started has_register ret (kernel.queue_init k entries p).1).0 ≡ inr fd
          → fd < 2 ^ 31
      go (inl e) q h = cc
      go (inr g) q h = (kernel.opened k entries p fd (q ∙ h) (polled attach_to)).0

-- `register_files` and `register_buffers`; the calls of liburing are parameters.
unfoldable pub register_files : {R : Type 0} → (R → List ℤ → ℕ → ℤ) → R → List ℤ → ℤ
register_files io_uring_register_files ring fds =
    io_uring_register_files ring fds (u32 (length fds))

unfoldable pub register_buffers : {R : Type 0} → (R → List (ℕ × ℕ) → ℕ → ℤ) → R → BufferPool → ℤ
unfolding register_with
register_buffers io_uring_register_buffers ring pool =
    register_with io_uring_register_buffers pool ring
