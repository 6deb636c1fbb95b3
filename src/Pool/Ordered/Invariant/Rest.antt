-- ===== src/Pool/Ordered/Invariant/Rest.antt =====
-- Setting a link, using a buffer and calling the pool keep the invariant.
use ringio.Base.{
  ℕ, ◌+◌, ◌≤◌, ◌<◌, ◌≡◌, ◌≢◌, ◌∙◌, refl, sym, ap, subst, arith, update, update_self, update_cases,
  update_both, ℕ_discrete, fun_ext, false,
}
use mathlib.Core.Logic.{ite}
use ringio.Memory.{Atomic, relaxed, store}
use ringio.Pool.Pack.{unpack_index}
use ringio.Pool.FreeList.{
  Pc, idle, acquire_load, acquire_next, acquire_cas, acquired, release_load, release_store,
  release_cas, released,
}
use ringio.Pool.FreeList.{access as sequential_access}
use ringio.Pool.Threads.{lent, returning}
use ringio.Pool.Threads.Invariant as SequentialInv
use ringio.Pool.Threads.Invariant.{Keeps, Move-Inv, give_link, lend-Inv}
use ringio.Pool.Ordered.{View, views, System, latest, now, goes_on, used}
use ringio.Pool.Ordered.Invariant.Defs.{With, Sees, Inv}
use ringio.Pool.Ordered.Invariant.Loads.{Fits, top_in_pool, held-more}

-- The links by their last stores, after one more store.
linked :
    (next : ℕ → Atomic View) (x v : ℕ) (m : Atomic View)
    → now m ≡ v
    → update (λ j. now (next j)) x v ≡ (λ j. now (update next x m j))
linked next x v m e = fun_ext (λ j.
    elim (ℕ_discrete x j) as (λ d. ite d v (now (next j)) ≡ now (ite d m (next j))) [
      | yes same ↦ sym e
      | no other ↦ refl
    ])

module _ {count : ℕ} {s : System} (inv : Inv count s) (i : ℕ) where
  open inv use {sequential, tags, carried, held, sees}

  -- A link that is set is that of a buffer which is not in the pool, and which no other returns.
  Sees-link :
      (x : ℕ) (m : Atomic View)
      → s.place x ≡ returning i
      → (j : ℕ) (y : Pc) → i ≢ j
      → Fits inv (s.seen j) j y
      → Sees s.free_head s.free_next (s.seen j) (s.views_of j) y
      → Sees s.free_head (update s.free_next x m) (s.seen j) (s.views_of j) y
  Sees-link x m back j idle ne fits old = tt
  Sees-link x m back j acquire_load ne fits old = tt
  Sees-link x m back j (acquire_next h) ne (l, some_index) old = λ e.
      update_cases (λ a. a.last ≤ (s.views_of j).links (unpack_index h)) s.free_next x m
        (unpack_index h)
        (λ same.
          let p = top_in_pool inv h (l.2 e) some_index in absurd (ground (arith, p, back, same)))
        (λ _. old e)
  Sees-link x m back j (acquire_cas h n) ne fits old = tt
  Sees-link x m back j (acquired y) ne fits old = tt
  Sees-link x m back j (release_load y) ne fits old = tt
  Sees-link x m back j (release_store y h) ne fits old = tt
  Sees-link x m back j (release_cas y h) ne fits old =
      update_cases (λ a. a.last ≤ (s.views_of j).links y) s.free_next x m y
        (λ same. absurd (ground (arith, fits.1.1, back, same))) (λ _. old)
  Sees-link x m back j released ne fits old = tt

  pub link-Inv :
      (x head : ℕ)
      → Fits inv (s.seen i) i (release_store x head)
      → let view = record (s.views_of i) {
        links = update (s.views_of i).links x ((s.free_next x).last + 1);
      } in
        Inv count (record (goes_on s i (release_cas x head) view) {
          free_next =
              update s.free_next x (store views relaxed view (unpack_index head) (s.free_next x));
        })
  unfolding Keeps sequential_access
  link-Inv x head fits =
      let view : View = record (s.views_of i) {
        links = update (s.views_of i).links x ((s.free_next x).last + 1);
      } in
      let m : Atomic View = store views relaxed view (unpack_index head) (s.free_next x) in
      let back : s.place x ≡ returning i = fits.1.1 in
      record {
        sequential =
            subst
              (λ q. SequentialInv.Inv count (record (latest s) {
                list = record ((latest s).list) { free_next = q };
                threads = update s.threads i (release_cas x head);
              }))
              (linked s.free_next x (unpack_index head) m
                (update_self (s.free_next x).value ((s.free_next x).last + 1) (unpack_index head)))
              (give_link sequential i false x head fits);
        tags = tags;
        carried = λ y p.
            update_cases
              (λ a.
                (a.last ≤ (s.free_head.view s.free_head.last).links y)
                × (s.uses y ≤ (s.free_head.view s.free_head.last).uses y))
              s.free_next x m y (λ same. absurd (ground (arith, p, back, same))) (λ _. carried y p);
        held = λ y j. held-more inv i view y j (omega arith);
        sees = λ j.
            update_both (Sees s.free_head (update s.free_next x m) (s.seen j)) s.views_of s.threads
              i view (release_cas x head) j
              (λ _.
                rw
                  (
                    update_self s.free_next x m,
                    update_self (s.views_of i).links x ((s.free_next x).last + 1),
                  )
                  (omega arith))
              (λ ne. Sees-link x m back j (s.threads j) ne (sequential.threads_fit j) (sees j));
      }

  pub used-Inv :
      (x : ℕ) → s.threads i ≡ idle → s.place x ≡ lent → s.holder x ≡ i → Inv count (used s i x)
  used-Inv x calm out mine =
      let more : View = record (s.views_of i) {
        uses = update (s.views_of i).uses x (s.uses x + 1);
      } in
      record {
        sequential = sequential;
        tags = tags;
        carried = λ y p. (
          (carried y p).0,
          update_cases (λ n. n ≤ (s.free_head.view s.free_head.last).uses y) s.uses x (s.uses x + 1)
              y (λ same. absurd (ground (arith, p, out, same))) (λ _. (carried y p).1),
        );
        held = λ y j w.
            update_cases (λ u. update s.uses x (s.uses x + 1) y ≤ u.uses y) s.views_of i more j
              (λ e.
                update_both (λ a b. a ≤ b) s.uses (s.views_of i).uses x (s.uses x + 1)
                  (s.uses x + 1) y (λ _. omega arith)
                  (λ _. held y i (subst (With (s.place y) (s.holder y)) (sym e) w)))
              (λ ne.
                update_cases (λ a. a ≤ (s.views_of j).uses y) s.uses x (s.uses x + 1) y
                  (λ same. absurd (
                    ne (
                      rw (out, mine) at
                        (subst (λ q. With (s.place q) (s.holder q) j) (sym same) w))))
                  (λ _. held y j w));
        sees = λ j.
            update_cases (λ u. Sees s.free_head s.free_next (s.seen j) u (s.threads j)) s.views_of i
              more j
              (λ e.
                subst (Sees s.free_head s.free_next (s.seen j) more) (sym calm ∙ ap s.threads e) tt)
              (λ _. sees j);
      }

  pub called-Inv :
      (y : Pc)
      → Fits inv (s.seen i) i y
      → ((v : View) → Sees s.free_head s.free_next (s.seen i) v y)
      → Inv count (record s { threads = update s.threads i y })
  called-Inv y fits own = record {
    sequential =
        Move-Inv sequential i (record (latest s) { threads = update s.threads i y }) y
          (record {
            list_fits = sequential.list_fits;
            own = fits;
            others = λ j ne. sequential.threads_fit j;
          })
          refl;
    tags = tags;
    carried = carried;
    held = held;
    sees = λ j.
        update_cases (Sees s.free_head s.free_next (s.seen j) (s.views_of j)) s.threads i y j
          (λ e.
            subst (λ q. Sees s.free_head s.free_next (s.seen q) (s.views_of j) y) e
              (own (s.views_of j)))
          (λ _. sees j);
  }

  pub return-Inv :
      (x : ℕ)
      → x < count
      → s.place x ≡ lent
      → s.holder x ≡ i
      → Inv count (record s {
        threads = update s.threads i (release_load x);
        place = update s.place x (returning i);
      })
  return-Inv x below out mine = record {
    sequential = lend-Inv sequential i x below out;
    tags = tags;
    carried = λ y p. carried y (ground (arith, p));
    held = λ y j.
        update_cases (λ a. With a (s.holder y) j → s.uses y ≤ (s.views_of j).uses y) s.place x
          (returning i) y
          (λ same e.
            subst (λ q. s.uses y ≤ (s.views_of q).uses y) e
              (subst (λ q. s.uses q ≤ (s.views_of i).uses q) same (held x i (rw out mine))))
          (λ _. held y j);
    sees = λ j.
        update_cases (Sees s.free_head s.free_next (s.seen j) (s.views_of j)) s.threads i
          (release_load x) j (λ _. tt) (λ _. sees j);
  }
