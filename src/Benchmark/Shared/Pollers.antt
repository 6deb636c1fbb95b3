-- ===== src/Benchmark/Shared/Pollers.antt =====
-- Which polling thread serves the engines of `BM_SqpollSharedPollerIops` of
-- benchmarks/iops_throughput_benchmark.cpp.
use ringio.Base.{
  ℕ, zero, suc, ◌+◌, ◌<◌, ◌^◌, ◌≡◌, ◌⊎◌, inl, inr, refl, sym, ap, ◌∙◌, subst, Bool, true, none,
  some, List, [], ◌∷◌, ◌++◌, All, length, length-append, arith,
}
use ringio.Kernel.{Kernel}
use ringio.Engine.Setup.{open_engine, Opened, open_engine_lem, descriptor_is_int}
use ringio.Benchmark.Shared.{
  Engines, unavailable, uncaught, running, ring_entries, attached, open_followers, with_master,
  open_engines,
}

module _ {K : Type 0} (kernel : Kernel K) where
  -- The engines are open rings, and the thread that polls them all is the only new one.
  abbrev pub OnePoller : K → K → ℕ → List ℕ → Type 0
  OnePoller k0 k master followers =
      (kernel.pollers k ≡ kernel.poller_of k master ∷ kernel.pollers k0)
      × (kernel.is_ring k master ≡ true)
      × All (λ g. (kernel.is_ring k g ≡ true) × (kernel.poller_of k g ≡ kernel.poller_of k master))
          followers

  abbrev pub Shared : ℕ → K → Engines × K → Type 0
  Shared n k0 (unavailable e, k) = k ≡ k0
  Shared n k0 (uncaught e, k) =
      (master : ℕ) × (followers : List ℕ) × (length followers < n) × OnePoller k0 k master followers
  Shared n k0 (running master followers, k) =
      (length followers ≡ n) × OnePoller k0 k master followers

  module _ (has_register : Bool) (idle : ℕ) where
    module _ (k0 : K) (n master : ℕ) (small : master < 2 ^ 31) where
      -- The rings that were open keep their pollers, and one more engine attaches to the first.
      All-attached :
          (k k' : K) (fd : ℕ) (followers : List ℕ)
          → Opened kernel (some master) k (inr fd, k')
          → kernel.poller_of k' master ≡ kernel.poller_of k master
          → All
              (λ g.
                (kernel.is_ring k g ≡ true) × (kernel.poller_of k g ≡ kernel.poller_of k master))
              followers
          → All
              (λ g.
                (kernel.is_ring k' g ≡ true) × (kernel.poller_of k' g ≡ kernel.poller_of k' master))
              (followers ++ (fd ∷ []))
      All-attached k k' fd [] ((served, added), new, made, rest) keeps h =
          ((made, served ∙ sym keeps), tt)
      All-attached k k' fd (g ∷ followers) o keeps ((old, same), h) =
          let (still, poller) = o.3 g old in
          ((still, poller ∙ same ∙ sym keeps), All-attached k k' fd followers o keeps h)

      attached-Shared :
          (rest : K → List ℕ → Engines × K) (k : K) (followers : List ℕ)
          → length followers < n
          → OnePoller k0 k master followers
          → ((k' : K) (followers' : List ℕ)
              → length followers' ≡ length followers + 1
              → OnePoller k0 k' master followers'
              → Shared n k0 (rest k' followers'))
          → (r : (ℕ ⊎ ℕ) × K) → Opened kernel (some master) k r
          → Shared n k0 (attached kernel has_register idle rest followers r)
      unfolding attached
      attached-Shared rest k followers fewer one again (inl e, k') same =
          (master, followers, fewer, subst (λ k. OnePoller k0 k master followers) (sym same) one)
      attached-Shared rest k followers fewer (pollers, is_open, all) again (inr fd, k') o =
          let (still, keeps) = o.3 master is_open in
          again k' (followers ++ (fd ∷ [])) (length-append {0} followers (fd ∷ [])) (
            o.0.1 ∙ pollers ∙ ap (λ q. q ∷ kernel.pollers k0) (sym keeps),
            still,
            All-attached k k' fd followers o keeps all,
          )

      open_followers-Shared :
          (left : ℕ) (k : K) (followers : List ℕ)
          → length followers + left ≡ n
          → OnePoller k0 k master followers
          → Shared n k0 (open_followers kernel has_register idle master left k followers)
      unfolding open_followers
      open_followers-Shared zero k followers all one = (omega (arith, all), one)
      open_followers-Shared (suc left) k followers all one =
          attached-Shared (open_followers kernel has_register idle master left) k followers
            (omega (arith, all)) one
            (λ k' followers' more one'.
              open_followers-Shared left k' followers' (omega (arith, more, all)) one')
            (open_engine kernel has_register k ring_entries idle (some master))
            (open_engine_lem kernel has_register k ring_entries idle (some master) (one.1, small))

    with_master-Shared :
        (n : ℕ) (k : K) (r : (ℕ ⊎ ℕ) × K)
        → ((fd : ℕ) → r.0 ≡ inr fd → fd < 2 ^ 31)
        → Opened kernel none k r
        → Shared n k (with_master kernel has_register idle n r)
    unfolding with_master
    with_master-Shared n k (inl e, k') small same = same
    with_master-Shared n k (inr fd, k') small ((served, added), new, made, rest) =
        open_followers-Shared k n fd (small fd refl) n k' [] (omega arith)
          (added ∙ ap (λ q. q ∷ kernel.pollers k) (sym served), made, tt)

    -- Whatever the kernel answers: when the first engine is refused, nothing has changed. Otherwise the
    -- engines, all of them open rings, are polled by one new thread, and that is the only new one: also
    -- when a later engine is refused, and the exception is not caught.
    pub open_engines-Shared :
        (followers : ℕ) (k : K)
        → Shared followers k (open_engines kernel has_register idle followers k)
    unfolding open_engines
    open_engines-Shared followers k =
        with_master-Shared followers k (open_engine kernel has_register k ring_entries idle none)
          (descriptor_is_int kernel has_register k ring_entries idle none)
          (open_engine_lem kernel has_register k ring_entries idle none tt)
