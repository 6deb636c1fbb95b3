-- ===== src/Pool/Ordered/Invariant/Loads.antt =====
-- The loads of include/ringio/detail/buffer_pool.hpp, stale or not, keep the invariant.
use ringio.Base.{
  ℕ, ◌≤◌, ◌≡◌, ◌≢◌, ◌∙◌, refl, sym, ap, subst, arith, update, update_self, update_ne, update_cases,
  update_both, update_all, if_cases, ◌==◌,
}
use ringio.Pool.Pack.{unpack_index, invalid_index}
use ringio.Pool.FreeList.{Pc, acquire_next, acquire_cas, acquired, acquire_top}
use ringio.Pool.Threads.{pooled}
use ringio.Pool.Threads.Invariant.{Loaded, ThreadFits, Move-Inv, top_pooled}
use ringio.Pool.Ordered.{View, System, latest, now, goes_on, has_seen, acquired_head}
use ringio.Pool.Ordered.Invariant.Defs.{With, Sees, Inv}

module _ {count : ℕ} {s : System} (inv : Inv count s) where
  open inv use {sequential, tags, carried, held, sees}

  abbrev pub Fits : ℕ → ℕ → Pc → Type 0
  Fits seen i = ThreadFits count (latest s).list s.place s.free_head.last seen i

  -- Any store of the head is as a thread may have found it.
  pub any_store :
      (k : ℕ)
      → k ≤ s.free_head.last
      → Loaded (latest s).list s.free_head.last k (s.free_head.value k)
  any_store k le = (le, tags k le, λ e. ap s.free_head.value e)

  -- The head's buffer is in the pool, if it has one.
  pub top_in_pool :
      (h : ℕ)
      → now s.free_head ≡ h
      → unpack_index h ≢ invalid_index
      → s.place (unpack_index h) ≡ pooled
  top_in_pool h e some_index =
      let (_, p, _) =
        top_pooled (sequential.list_fits)
          (subst (λ q. unpack_index q ≢ invalid_index) (sym e) some_index) in
      ap (λ q. s.place (unpack_index q)) (sym e) ∙ p

  module _ (i : ℕ) where
    -- A thread that knows more still knows the uses of its buffers.
    pub held-more :
        (v : View) (x j : ℕ)
        → (s.views_of i).uses x ≤ v.uses x
        → With (s.place x) (s.holder x) j
        → s.uses x ≤ (update s.views_of i v j).uses x
    held-more v x j more w =
        update_cases (λ u. s.uses x ≤ u.uses x) s.views_of i v j
          (λ e. omega (arith, more, held x i (subst (With (s.place x) (s.holder x)) (sym e) w)))
          (λ _. held x j w)

    -- A thread goes on, with what it has loaded.
    pub goes_on-Inv :
        (y : Pc) (v : View)
        → Fits (s.seen i) i y
        → ((x : ℕ) → (s.views_of i).uses x ≤ v.uses x)
        → Sees s.free_head s.free_next (s.seen i) v y
        → Inv count (goes_on s i y v)
    goes_on-Inv y v fits more own = record {
      sequential =
          Move-Inv sequential i (latest (goes_on s i y v)) y
            (record {
              list_fits = sequential.list_fits;
              own = fits;
              others = λ j ne. sequential.threads_fit j;
            })
            refl;
      tags = tags;
      carried = carried;
      held = λ x j. held-more v x j (more x);
      sees = λ j.
          update_both (Sees s.free_head s.free_next (s.seen j)) s.views_of s.threads i v y j
            (λ e. subst (λ q. Sees s.free_head s.free_next (s.seen q) v y) e own) (λ _. sees j);
    }

    pub has_seen-Inv :
        (k : ℕ) (y : Pc) (v : View)
        → Fits k i y
        → ((x : ℕ) → (s.views_of i).uses x ≤ v.uses x)
        → Sees s.free_head s.free_next k v y
        → Inv count (has_seen s i k y v)
    has_seen-Inv k y v fits more own = record {
      sequential =
          Move-Inv sequential i (latest (has_seen s i k y v)) y
            (record {
              list_fits = sequential.list_fits;
              own = rw (update_self s.seen i k) fits;
              others = λ j ne. rw (update_ne s.seen i j k ne) (sequential.threads_fit j);
            })
            refl;
      tags = tags;
      carried = carried;
      held = λ x j. held-more v x j (more x);
      sees = λ j.
          update_all (Sees s.free_head s.free_next) s.seen s.views_of s.threads i k v y j own
            (λ _. sees j);
    }

    pub load_head-Inv :
        (k : ℕ)
        → k ≤ s.free_head.last
        → Inv count
            (has_seen s i k (acquire_top (s.free_head.value k)) (acquired_head s k (s.views_of i)))
    unfolding acquire_top
    load_head-Inv k le =
        let h : ℕ = s.free_head.value k in
        let v : View = acquired_head s k (s.views_of i) in
        if_cases (λ y. Inv count (has_seen s i k y v)) (unpack_index h == invalid_index)
          (acquired invalid_index) (acquire_next h)
          (λ _. has_seen-Inv k (acquired invalid_index) v tt (λ x. omega arith) tt)
          (λ q.
            let some_index : unpack_index h ≢ invalid_index = ground arith in
            has_seen-Inv k (acquire_next h) v (any_store k le, some_index) (λ x. omega arith)
              (λ last.
                let knows =
                  carried (unpack_index h) (top_in_pool h (ap s.free_head.value last) some_index) in
                let same : s.free_head.view s.free_head.last ≡ s.free_head.view k =
                  ap s.free_head.view last in
                omega (arith, knows.0, ap (λ w. w.links (unpack_index h)) same)))

    pub load_next-Inv :
        (head k : ℕ)
        → Fits (s.seen i) i (acquire_next head)
        → Sees s.free_head s.free_next (s.seen i) (s.views_of i) (acquire_next head)
        → (s.views_of i).links (unpack_index head) ≤ k
        → k ≤ (s.free_next (unpack_index head)).last
        → Inv count (
            goes_on s i
              (acquire_cas head ((s.free_next (unpack_index head)).value k))
              (record (s.views_of i) { links = update (s.views_of i).links (unpack_index head) k }))
    load_next-Inv head k (l, some_index) knows ge le =
        goes_on-Inv (acquire_cas head ((s.free_next (unpack_index head)).value k)) _
          (
            l,
            some_index,
            λ e.
                let last : (s.free_next (unpack_index head)).last ≡ k = omega (arith, knows e) in
                ap (s.free_next (unpack_index head)).value last,
          )
          (λ x. omega arith) tt
