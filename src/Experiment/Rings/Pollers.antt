-- ===== src/Experiment/Rings/Pollers.antt =====
-- The pollers behind the rings of experiments/sqpoll_core_budget.cpp, and what one more ring changes.
use ringio.Base.{
  ℕ, ◌<◌, ◌^◌, ◌≡◌, refl, sym, ap, ◌∙◌, inr, true, false, List, [], ◌∷◌, ◌++◌, All, if◌then◌else◌,
}
use ringio.Kernel.{Params, Kernel}
use ringio.Experiment.Rings.Setup.{Mode, attach, pinned, independent}

module _ {K : Type 0} (kernel : Kernel K) (k0 : K) where
  -- The pollers of `fds`, the newest first, in front of those that there were before.
  abbrev pub added : K → List ℕ → List ℕ → List ℕ
  added k [] old = old
  added k (fd ∷ fds) old = added k fds (kernel.poller_of k fd ∷ old)

  abbrev pub IsOpen : K → ℕ → Type 0
  IsOpen k fd = (kernel.is_ring k fd ≡ true) × (fd < 2 ^ 31)

  -- Who polls the rings: the thread of the first of them, for all; or a thread of its own, for
  -- each.
  abbrev pub Shared : K → List ℕ → Type 0
  Shared k [] = kernel.pollers k ≡ kernel.pollers k0
  Shared k (fd ∷ fds) =
      (kernel.pollers k ≡ kernel.poller_of k fd ∷ kernel.pollers k0)
      × All (λ g. kernel.poller_of k g ≡ kernel.poller_of k fd) fds

  abbrev pub Served : Mode → K → List ℕ → Type 0
  Served attach k fds = Shared k fds
  Served pinned k fds = kernel.pollers k ≡ added k fds (kernel.pollers k0)
  Served independent k fds = kernel.pollers k ≡ added k fds (kernel.pollers k0)

  -- One more ring.
  module _ (k : K) (p : Params) (fd : ℕ) (e : (kernel.queue_init k 256 p).0 ≡ inr fd)
      (polled : p.sqpoll ≡ true) where
    k' : K
    k' = (kernel.queue_init k 256 p).1

    All-snoc : (P : ℕ → Type 0) (fds : List ℕ) (x : ℕ) → All P fds → P x → All P (fds ++ (x ∷ []))
    All-snoc P [] x h q = (q, tt)
    All-snoc P (y ∷ fds) x (h, t) q = (h, All-snoc P fds x t q)

    snoc-IsOpen : (fds : List ℕ) → All (IsOpen k) fds → All (IsOpen k') (fds ++ (fd ∷ []))
    unfolding k'
    snoc-IsOpen [] h =
        (((kernel.opened k 256 p fd e polled).2, (kernel.opened k 256 p fd e polled).0), tt)
    snoc-IsOpen (g ∷ fds) ((h, small), t) =
        (((kernel.others k 256 p g h).0, small), snoc-IsOpen fds t)

    added-old :
        (fds : List ℕ) (old : List ℕ)
        → All (IsOpen k) fds
        → added k' (fds ++ (fd ∷ [])) old ≡ kernel.poller_of k' fd ∷ added k fds old
    unfolding k'
    added-old [] old h = refl
    added-old (g ∷ fds) old ((h, small), t) =
        ap (λ q. added k' (fds ++ (fd ∷ [])) (q ∷ old)) (kernel.others k 256 p g h).1
        ∙ added-old fds (kernel.poller_of k g ∷ old) t

    -- A ring of its own.
    alone : p.attach_wq ≡ false → kernel.pollers k' ≡ kernel.poller_of k' fd ∷ kernel.pollers k
    unfolding k'
    alone own =
        let (small, new, made, served, pollers) = kernel.opened k 256 p fd e polled in
        let b : kernel.poller_of k' fd ≡ kernel.new_poller k =
          served ∙ ap (λ b. if b then kernel.poller_of k p.wq_fd else kernel.new_poller k) own in
        pollers
        ∙ ap (λ b. if b then kernel.pollers k else kernel.new_poller k ∷ kernel.pollers k) own
        ∙ ap (λ q. q ∷ kernel.pollers k) (sym b)

    -- A ring that attaches to ring `g`.
    joined :
        (g : ℕ)
        → p.attach_wq ≡ true
        → p.wq_fd ≡ g
        → (kernel.pollers k' ≡ kernel.pollers k) × (kernel.poller_of k' fd ≡ kernel.poller_of k g)
    unfolding k'
    joined g shared at =
        let (small, new, made, served, pollers) = kernel.opened k 256 p fd e polled in
        (
          pollers
              ∙ ap (λ b. if b then kernel.pollers k else kernel.new_poller k ∷ kernel.pollers k)
                  shared,
          served
              ∙ ap (λ b. if b then kernel.poller_of k p.wq_fd else kernel.new_poller k) shared
              ∙ ap (kernel.poller_of k) at,
        )

    -- The rings that were there keep the poller of ring `g`, and the new one has it too.
    All-joined :
        (g : ℕ) (fds : List ℕ)
        → kernel.poller_of k' g ≡ kernel.poller_of k g
        → kernel.poller_of k' fd ≡ kernel.poller_of k g
        → All (IsOpen k) fds
        → All (λ x. kernel.poller_of k x ≡ kernel.poller_of k g) fds
        → All (λ x. kernel.poller_of k' x ≡ kernel.poller_of k' g) (fds ++ (fd ∷ []))
    unfolding k'
    All-joined g [] keeps new h t = (new ∙ sym keeps, tt)
    All-joined g (x ∷ fds) keeps new ((h, small), hs) (same, t) =
        ((kernel.others k 256 p x h).1 ∙ same ∙ sym keeps, All-joined g fds keeps new hs t)

  -- One more ring of its own, and one more that shares.
  pub own_step :
      (p : Params) (k : K) (fd : ℕ) (fds : List ℕ)
      → (kernel.queue_init k 256 p).0 ≡ inr fd
      → p.sqpoll ≡ true
      → p.attach_wq ≡ false
      → All (IsOpen k) fds
      → kernel.pollers k ≡ added k fds (kernel.pollers k0)
      → let k' = (kernel.queue_init k 256 p).1 in
        All (IsOpen k') (fds ++ (fd ∷ []))
        × (kernel.pollers k' ≡ added k' (fds ++ (fd ∷ [])) (kernel.pollers k0))
  unfolding k'
  own_step p k fd fds e polled own h s = (
    snoc-IsOpen k p fd e polled fds h,
    alone k p fd e polled own
        ∙ ap (λ l. kernel.poller_of (k' k p fd e polled) fd ∷ l) s
        ∙ sym (added-old k p fd e polled fds (kernel.pollers k0) h),
  )

  pub Shared-step :
      (p : Params) (k : K) (fd g : ℕ) (fds : List ℕ)
      → (kernel.queue_init k 256 p).0 ≡ inr fd
      → p.sqpoll ≡ true
      → p.attach_wq ≡ true
      → p.wq_fd ≡ g
      → All (IsOpen k) (g ∷ fds)
      → Shared k (g ∷ fds)
      → let k' = (kernel.queue_init k 256 p).1 in
        All (IsOpen k') (g ∷ fds ++ (fd ∷ [])) × Shared k' (g ∷ fds ++ (fd ∷ []))
  unfolding k'
  Shared-step p k fd g fds e polled shared at ((h, small), hs) (one, all) =
      let (pollers, new) = joined k p fd e polled g shared at in
      let keeps : kernel.poller_of (kernel.queue_init k 256 p).1 g ≡ kernel.poller_of k g =
        (kernel.others k 256 p g h).1 in
      (
        snoc-IsOpen k p fd e polled (g ∷ fds) ((h, small), hs),
        (
          pollers ∙ one ∙ ap (λ q. q ∷ kernel.pollers k0) (sym keeps),
          All-joined k p fd e polled g fds keeps new hs all,
        ),
      )
