-- ===== src/Experiment/Rings.antt =====
-- The rings that `main` of experiments/sqpoll_core_budget.cpp opens, and which poller serves each.
pub mod Setup
pub mod Pollers
use ringio.Base.{
  ℕ, zero, suc, ◌+◌, ◌-◌, ◌*◌, ◌≤◌, ◌<◌, ◌^◌, ◌≡◌, refl, sym, ap, ◌∙◌, ◌⊎◌, inl, inr, true, false,
  Option, none, some, List, [], ◌∷◌, ◌++◌, All, length, length-append, ltb, if◌then◌else◌, if_cases,
  arith, get_elem?, subst,
}
use ringio.Base.Word.{u32}
use ringio.Kernel.{Params, no_params, Kernel}
use Setup.{init_ring, opened, open_rings}
use Pollers.{IsOpen, Served, own_step, Shared-step}
pub use Setup.{Mode, attach, pinned, independent, Failure, out_of_bounds, init_failed}
unfoldable pub use Setup.{ring_params, init_rings}

module _ {K : Type 0} (kernel : Kernel K) (mode : Mode) (idle_ms num_threads : ℕ) where
  module _ (k0 : K) where
    -- What the kernel refuses with error `e`: the ring behind `fds`, which are open and served.
    abbrev pub IsRefused : ℕ → ℕ → K → List ℕ → Type 0
    IsRefused n e k fds =
        (length fds < n)
        × ((kernel.queue_init k 256 (ring_params mode idle_ms (length fds) (get_elem? fds 0))).0
            ≡ inl e)
        × All (IsOpen kernel k0 k) fds
        × Served kernel k0 mode k fds

    -- A run that opens its rings opens `n` of them; one that does not was refused a ring.
    abbrev pub Ends : ℕ → (Failure ⊎ List ℕ) × K → Type 0
    Ends n (inl out_of_bounds, k) = ⊥
    Ends n (inl (init_failed e), k) = (fds : List ℕ) × IsRefused n e k fds
    Ends n (inr fds, k) =
        (length fds ≡ n) × All (IsOpen kernel k0 k) fds × Served kernel k0 mode k fds

    -- The step of each mode.
    step :
        (m : Mode) (k : K) (i fd : ℕ) (fds : List ℕ)
        → (kernel.queue_init k 256 (ring_params m idle_ms i (get_elem? fds 0))).0 ≡ inr fd
        → All (IsOpen kernel k0 k) fds
        → Served kernel k0 m k fds
        → let k' = (kernel.queue_init k 256 (ring_params m idle_ms i (get_elem? fds 0))).1 in
          All (IsOpen kernel k0 k') (fds ++ (fd ∷ [])) × Served kernel k0 m k' (fds ++ (fd ∷ []))
    unfolding ring_params
    step pinned k i fd fds e h s =
        own_step kernel k0 (ring_params pinned idle_ms i (get_elem? fds 0)) k fd fds e refl refl h s
    step independent k i fd fds e h s =
        own_step kernel k0 (ring_params independent idle_ms i (get_elem? fds 0)) k fd fds e refl
          refl h s
    step attach k i fd [] e h s =
        let (o, q) =
          own_step kernel k0 (ring_params attach idle_ms i none) k fd [] e refl refl h s in
        (o, (q, tt))
    step attach k i fd (g ∷ fds) e h s =
        let same : u32 g ≡ g = omega (arith, h.0.1) in
        Shared-step kernel k0 (ring_params attach idle_ms i (some g)) k fd g fds e refl refl same h
          s

    opened-Ends :
        (n i : ℕ) (go_on : K → List ℕ → (Failure ⊎ List ℕ) × K) (k : K) (fds : List ℕ) (ret : ℕ ⊎ ℕ)
        → length fds ≡ i
        → i < n
        → All (IsOpen kernel k0 k) fds
        → Served kernel k0 mode k fds
        → (init_ring kernel mode idle_ms num_threads k i fds).0 ≡ ret
        → ((k' : K) (fds' : List ℕ)
            → length fds' ≡ i + 1
            → All (IsOpen kernel k0 k') fds'
            → Served kernel k0 mode k' fds'
            → Ends n (go_on k' fds'))
        → Ends n (
            opened kernel mode idle_ms num_threads go_on ret
              (init_ring kernel mode idle_ms num_threads k i fds).1
              fds)
    unfolding opened init_ring
    opened-Ends n i go_on k fds (inl e) size inside h s q again =
        let same : (init_ring kernel mode idle_ms num_threads k i fds).1 ≡ k =
          kernel.refused k 256 (ring_params mode idle_ms i (get_elem? fds 0)) e q in
        (
          fds,
          subst (λ k'. IsRefused n e k' fds) (sym same)
              (
                omega (arith, size, inside),
                subst
                    (λ j.
                      (kernel.queue_init k 256 (ring_params mode idle_ms j (get_elem? fds 0))).0
                      ≡ inl e)
                    (sym size) q,
                h,
                s,
              ),
        )
    opened-Ends n i go_on k fds (inr fd) size inside h s q again =
        let (o, t) = step mode k i fd fds q h s in
        again (init_ring kernel mode idle_ms num_threads k i fds).1 (fds ++ (fd ∷ []))
          (omega (arith, length-append {0} fds (fd ∷ []))) o t

    open_rings-Ends :
        (left i n : ℕ) (k : K) (fds : List ℕ)
        → i + left ≡ n
        → n ≤ num_threads
        → length fds ≡ i
        → All (IsOpen kernel k0 k) fds
        → Served kernel k0 mode k fds
        → Ends n (open_rings kernel mode idle_ms num_threads left i k fds)
    unfolding open_rings
    open_rings-Ends zero i n k fds all inside size h s = (omega arith, h, s)
    open_rings-Ends (suc left) i n k fds all inside size h s =
        if_cases (Ends n) (ltb i num_threads) _ _
          (λ _.
            opened-Ends n i (open_rings kernel mode idle_ms num_threads left (i + 1)) k fds
              (init_ring kernel mode idle_ms num_threads k i fds).0 size (omega (arith, all)) h s
              refl
              (λ k' fds' size' h' s'.
                open_rings-Ends left (i + 1) n k' fds' (omega arith) inside size' h' s'))
          (λ behind. absurd (ground arith))

  Served-none : (m : Mode) (k : K) → Served kernel k m k []
  Served-none attach k = refl
  Served-none pinned k = refl
  Served-none independent k = refl

  -- With at least one thread, whatever the kernel answers: the program is never behind the end of
  -- `rings`. Either it ends with the error of the kernel's answer for a ring that is wanted, and the
  -- rings before that one are open; or it opens a ring for every thread. The polling threads that it
  -- has started are then, with "attach", the one that polls all its open rings, and otherwise one for
  -- each of these rings, which polls that ring.
  pub init_rings-Ends :
      (k : K) → 1 ≤ num_threads → Ends k num_threads (init_rings kernel mode idle_ms num_threads k)
  unfolding init_rings
  init_rings-Ends k some_thread =
      open_rings-Ends k (suc (num_threads - 1)) 0 num_threads k [] (omega arith) (omega arith) refl
        tt (Served-none mode k)

-- With no thread, which is also what a text that is no number gives, the first ring lies behind the
-- end of `rings`.
pub no_threads :
    {K : Type 0} (kernel : Kernel K) (mode : Mode) (idle_ms : ℕ) (k : K)
    → init_rings kernel mode idle_ms 0 k ≡ (inl out_of_bounds, k)
unfolding init_rings open_rings
no_threads kernel mode idle_ms k = ground arith
