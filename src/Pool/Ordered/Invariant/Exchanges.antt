-- ===== src/Pool/Ordered/Invariant/Exchanges.antt =====
-- The exchanges of include/ringio/detail/buffer_pool.hpp that succeed keep the invariant: they make
-- known, and carry, the links and the uses of every buffer in the pool.
use ringio.Base.{
  ℕ, ◌+◌, ◌%◌, ◌≤◌, ◌^◌, ◌≡◌, ◌∙◌, refl, sym, ap, subst, arith, update, update_self, update_ne,
  update_cases, update_both, ◌∷◌, ℕ_discrete,
}
use ringio.Base.Word.{u32}
use ringio.Memory.{Atomic, acq_rel, store}
use ringio.Pool.Pack.{pack, unpack_index, unpack_tag}
use ringio.Pool.FreeList.{
  Pc, idle, acquire_load, acquire_next, acquire_cas, acquired, release_load, release_store,
  release_cas, released,
}
use ringio.Pool.Threads.{pooled, lent, returning, rest, OnTime}
use ringio.Pool.Threads.Invariant as SequentialInv
use ringio.Pool.Threads.Invariant.{Keeps, take_hit, give_hit}
use ringio.Pool.Ordered.{View, views, System, latest, now, goes_on, exchanged}
use ringio.Pool.Ordered.Invariant.Defs.{With, Sees, Inv}
use ringio.Pool.Ordered.Invariant.Loads.{Fits, top_in_pool, held-more}

module _ {count : ℕ} {s : System} (inv : Inv count s) (i : ℕ) where
  open inv use {sequential, tags, carried, held, sees}

  -- The head after an exchange that stores `x`.
  stored : ℕ → Atomic View
  stored x = store views acq_rel (exchanged s (s.views_of i)) x s.free_head

  tags-stored :
      (x : ℕ)
      → unpack_tag x ≡ (s.free_head.last + 1) % 2 ^ 32
      → (k : ℕ) → k ≤ s.free_head.last + 1
      → unpack_tag ((stored x).value k) ≡ k % 2 ^ 32
  unfolding stored
  tags-stored x e k le =
      update_cases (λ y. unpack_tag y ≡ k % 2 ^ 32) s.free_head.value (s.free_head.last + 1) x k
        (λ same. e ∙ ap (λ q. q % 2 ^ 32) same) (λ other. tags k (omega arith))

  -- What the exchange carries of a buffer that was in the pool.
  carried-stored :
      (x y : ℕ)
      → s.place y ≡ pooled
      → ((s.free_next y).last ≤ ((stored x).view (s.free_head.last + 1)).links y)
        × (s.uses y ≤ ((stored x).view (s.free_head.last + 1)).uses y)
  unfolding stored
  carried-stored x y p =
      rw (update_self s.free_head.view (s.free_head.last + 1) (exchanged s (s.views_of i)))
        (omega (arith, (carried y p).0), omega (arith, (carried y p).1))

  -- What the other threads have found is no longer there.
  Sees-stored :
      (x j : ℕ) (y : Pc)
      → Fits inv (s.seen j) j y
      → Sees s.free_head s.free_next (s.seen j) (s.views_of j) y
      → Sees (stored x) s.free_next (s.seen j) (s.views_of j) y
  unfolding stored
  Sees-stored x j idle fits old = tt
  Sees-stored x j acquire_load fits old = tt
  Sees-stored x j (acquire_next h) fits old = λ e. absurd (omega (arith, fits, e))
  Sees-stored x j (acquire_cas h n) fits old = tt
  Sees-stored x j (acquired y) fits old = tt
  Sees-stored x j (release_load y) fits old = tt
  Sees-stored x j (release_store y h) fits old = tt
  Sees-stored x j (release_cas y h) fits old = old
  Sees-stored x j released fits old = tt

  pub take-Inv :
      (head next : ℕ)
      → OnTime (latest s) i (acquire_cas head next)
      → Fits inv (s.seen i) i (acquire_cas head next)
      → now s.free_head ≡ head
      → let x = unpack_index head in
        Inv count (record (goes_on s i (acquired x) (exchanged s (s.views_of i))) {
          free_head =
              store views acq_rel
                (exchanged s (s.views_of i))
                (pack next (u32 (unpack_tag head + 1)))
                s.free_head;
          place = update s.place x lent;
          holder = update s.holder x i;
          stack = rest s.stack;
        })
  unfolding Keeps stored
  take-Inv head next late fits same =
      let x : ℕ = unpack_index head in
      let h : ℕ = pack next (u32 (unpack_tag head + 1)) in
      let in_pool : s.place x ≡ pooled = top_in_pool inv head same fits.1 in
      let kept = take_hit sequential i head next late fits same in
      record {
        sequential =
            subst
              (λ q. SequentialInv.Inv count (record (latest s) {
                list = record ((latest s).list) { free_head = q };
                threads = update s.threads i (acquired x);
                place = update s.place x lent;
                stack = rest s.stack;
                ops = s.free_head.last + 1;
              }))
              (sym (update_self s.free_head.value (s.free_head.last + 1) h)) kept;
        tags = tags-stored h kept.list_fits.tag;
        carried = λ y p. carried-stored h y (elim (ℕ_discrete x y) [
          | yes e ↦ absurd (ground (arith, p))
          | no ne ↦ sym (update_ne s.place x y lent ne) ∙ p
        ]);
        held = λ y j.
            update_both
              (λ a b.
                With a b j → s.uses y ≤ (update s.views_of i (exchanged s (s.views_of i)) j).uses y)
              s.place s.holder x lent i y
              (λ e w.
                update_cases (λ u. s.uses y ≤ u.uses y) s.views_of i (exchanged s (s.views_of i)) j
                  (λ _. omega (arith, (carried y (ap s.place (sym e) ∙ in_pool)).1))
                  (λ ne. absurd (ne w)))
              (λ _. held-more inv i (exchanged s (s.views_of i)) y j (omega arith));
        sees = λ j.
            update_both (Sees (stored h) s.free_next (s.seen j)) s.views_of s.threads i
              (exchanged s (s.views_of i)) (acquired x) j (λ _. tt)
              (λ _. Sees-stored h j (s.threads j) (sequential.threads_fit j) (sees j));
      }

  pub give-Inv :
      (x head : ℕ)
      → OnTime (latest s) i (release_cas x head)
      → Fits inv (s.seen i) i (release_cas x head)
      → Sees s.free_head s.free_next (s.seen i) (s.views_of i) (release_cas x head)
      → now s.free_head ≡ head
      → Inv count (record (goes_on s i released (exchanged s (s.views_of i))) {
        free_head =
            store views acq_rel
              (exchanged s (s.views_of i))
              (pack x (u32 (unpack_tag head + 1)))
              s.free_head;
        place = update s.place x pooled;
        stack = x ∷ s.stack;
      })
  unfolding Keeps stored
  give-Inv x head late fits knows same =
      let h : ℕ = pack x (u32 (unpack_tag head + 1)) in
      let w : View = exchanged s (s.views_of i) in
      let back : s.place x ≡ returning i = fits.1.1 in
      let mine : With (s.place x) (s.holder x) i = rw back refl in
      let kept = give_hit sequential i x head late fits same in
      record {
        sequential =
            subst
              (λ q. SequentialInv.Inv count (record (latest s) {
                list = record ((latest s).list) { free_head = q };
                threads = update s.threads i released;
                place = update s.place x pooled;
                stack = x ∷ s.stack;
                ops = s.free_head.last + 1;
              }))
              (sym (update_self s.free_head.value (s.free_head.last + 1) h)) kept;
        tags = tags-stored h kept.list_fits.tag;
        carried = λ y p. elim (ℕ_discrete x y) [
          | yes e ↦
              subst
                (λ q.
                  ((s.free_next q).last ≤ ((stored h).view (s.free_head.last + 1)).links q)
                  × (s.uses q ≤ ((stored h).view (s.free_head.last + 1)).uses q))
                e
                (rw (update_self s.free_head.view (s.free_head.last + 1) w)
                  (omega (arith, knows), omega (arith, held x i mine)))
          | no ne ↦ carried-stored h y (sym (update_ne s.place x y pooled ne) ∙ p)
        ];
        held = λ y j.
            update_cases (λ a. With a (s.holder y) j → s.uses y ≤ (update s.views_of i w j).uses y)
              s.place x pooled y (λ _ q. absurd q) (λ _. held-more inv i w y j (omega arith));
        sees = λ j.
            update_both (Sees (stored h) s.free_next (s.seen j)) s.views_of s.threads i w released j
              (λ _. tt) (λ _. Sees-stored h j (s.threads j) (sequential.threads_fit j) (sees j));
      }
