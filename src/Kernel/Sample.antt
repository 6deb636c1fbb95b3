-- ===== src/Kernel/Sample.antt =====
-- A kernel for the tests: descriptors are handed out one after the other, up to a limit.
use ringio.Base.{
  ℕ, suc, ◌<◌, ◌^◌, ◌≡◌, ◌⊎◌, inl, inr, refl, true, false, List, [], ◌∷◌, ◌&&◌, if◌then◌else◌, ltb,
  update, arith,
}
use ringio.Kernel.{Params, Kernel}

pub record Descriptors : Type 0 where
  pub limit : ℕ
  pub opened : ℕ
  pub polled_by : ℕ → ℕ
  pub threads : List ℕ

abbrev pub open_ring : Descriptors → Params → (ℕ ⊎ ℕ) × Descriptors
open_ring k p =
    if ltb k.opened k.limit && ltb k.opened (2 ^ 31)
    then (
      inr k.opened,
      record k {
        opened = suc k.opened;
        polled_by =
            update k.polled_by k.opened (if p.attach_wq then k.polled_by p.wq_fd else k.opened);
        threads = if p.attach_wq then k.threads else k.opened ∷ k.threads;
      },
    )
    else (inl 24, k)

module _ (k : Descriptors) (p : Params) where
  pub refused_lem : (e : ℕ) → (open_ring k p).0 ≡ inl e → (open_ring k p).1 ≡ k
  refused_lem e h = ground arith

  pub opened_lem :
      (fd : ℕ)
      → (open_ring k p).0 ≡ inr fd
      → (fd < 2 ^ 31)
        × (ltb fd k.opened ≡ false)
        × (ltb fd (open_ring k p).1.opened ≡ true)
        × ((open_ring k p).1.polled_by fd ≡ (if p.attach_wq then k.polled_by p.wq_fd else k.opened))
        × ((open_ring k p).1.threads ≡ (if p.attach_wq then k.threads else k.opened ∷ k.threads))
  opened_lem fd h = ground arith

  pub others_lem :
      (fd : ℕ)
      → ltb fd k.opened ≡ true
      → (ltb fd (open_ring k p).1.opened ≡ true) × ((open_ring k p).1.polled_by fd ≡ k.polled_by fd)
  others_lem fd h = ground arith

abbrev pub sample : Kernel Descriptors
sample = record {
  queue_init = λ k entries p. open_ring k p;
  register_ring_fd = λ k fd. k;
  queue_exit = λ k fd. k;
  is_ring = λ k fd. ltb fd k.opened;
  poller_of = λ k fd. k.polled_by fd;
  pollers = λ k. k.threads;
  new_poller = λ k. k.opened;
  refused = λ k entries p e h. refused_lem k p e h;
  opened = λ k entries p fd h polled. opened_lem k p fd h;
  others = λ k entries p fd h. others_lem k p fd h;
  registering = λ k fd g. (refl, refl, refl);
}

-- Nothing is open yet, and three rings can be.
abbrev pub three_left : Descriptors
three_left = record { limit = 3; opened = 0; polled_by = λ fd. fd; threads = [] }
