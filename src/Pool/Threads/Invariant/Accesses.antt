-- ===== src/Pool/Threads/Invariant/Accesses.antt =====
-- Every access of a thread of include/ringio/detail/buffer_pool.hpp keeps the invariant.
use ringio.Base.{
  ℕ, ◌+◌, ◌%◌, ◌≤◌, ◌<◌, ◌^◌, ◌≡◌, ◌≢◌, refl, sym, List, arith, update, update_self, update_ne, ap,
  subst, Bool, ◌&&◌, not, ◌==◌, if_cases, ◌∙◌,
}
use ringio.Base.Word.{u32}
use ringio.Pool.Pack.{unpack_index, unpack_tag, invalid_index, unpack_index-lt, pack}
use ringio.Pool.FreeList.{
  FreeList, Pc, idle, acquire_load, acquire_next, acquire_cas, acquired, release_load,
  release_store, release_cas, released, Event, quiet, loaded, took, gave, access, acquire_top,
}
use ringio.Pool.Threads.{System, Place, pooled, lent, returning, rest, commit, OnTime}
use ringio.Pool.Threads.Invariant.Defs.{ListFits, ThreadFits, Inv}
use ringio.Pool.Threads.Invariant.Moves.{
  Move-Inv, top_pooled, taken, take-ListFits, given, give-ListFits, link-ListFits,
}

-- What an exchange or a new link of one thread leaves to the locals of the others.
module _ {count : ℕ} {m : FreeList} {place : ℕ → Place} {stack : List ℕ} {ops : ℕ} (seen j : ℕ)
    (f : ListFits count m place stack ops) where
  take-ThreadFits :
      (h : ℕ)
      → place h ≡ pooled
      → (x : Pc) → ThreadFits count m place ops seen j x
      → ThreadFits count (taken m) (update place h lent) (ops + 1) seen j x
  unfolding taken
  take-ThreadFits h p (acquire_next head) t = ground arith
  take-ThreadFits h p (acquire_cas head next) t = ground arith
  take-ThreadFits h p (release_load x) t = ground arith
  take-ThreadFits h p (release_store x head) t = ground arith
  take-ThreadFits h p (release_cas x head) t = ground arith
  take-ThreadFits h p idle t = tt
  take-ThreadFits h p acquire_load t = tt
  take-ThreadFits h p (acquired x) t = tt
  take-ThreadFits h p released t = tt

  give-ThreadFits :
      (y i : ℕ)
      → i ≢ j
      → place y ≡ returning i
      → (x : Pc) → ThreadFits count m place ops seen j x
      → ThreadFits count (given m y) (update place y pooled) (ops + 1) seen j x
  unfolding given
  give-ThreadFits y i ne p (acquire_next head) t = ground arith
  give-ThreadFits y i ne p (acquire_cas head next) t = ground arith
  give-ThreadFits y i ne p (release_load x) t = ground arith
  give-ThreadFits y i ne p (release_store x head) t = ground arith
  give-ThreadFits y i ne p (release_cas x head) t = ground arith
  give-ThreadFits y i ne p idle t = tt
  give-ThreadFits y i ne p acquire_load t = tt
  give-ThreadFits y i ne p (acquired x) t = tt
  give-ThreadFits y i ne p released t = tt

  link-ThreadFits :
      (y v i : ℕ)
      → i ≢ j
      → place y ≡ returning i
      → (x : Pc) → ThreadFits count m place ops seen j x
      → ThreadFits count (record m { free_next = update m.free_next y v }) place ops seen j x
  link-ThreadFits y v i ne p (acquire_next head) t = t
  link-ThreadFits y v i ne p (acquire_cas head next) (l, some_index, n) =
      (l, some_index, λ q. ground (arith, n q, l.2 q, top_pooled f))
  link-ThreadFits y v i ne p (release_load x) t = t
  link-ThreadFits y v i ne p (release_store x head) t = t
  link-ThreadFits y v i ne p (release_cas x head) t = ground arith
  link-ThreadFits y v i ne p idle t = tt
  link-ThreadFits y v i ne p acquire_load t = tt
  link-ThreadFits y v i ne p (acquired x) t = tt
  link-ThreadFits y v i ne p released t = tt

  lend-ThreadFits :
      (y i : ℕ)
      → place y ≡ lent
      → (x : Pc) → ThreadFits count m place ops seen j x
      → ThreadFits count m (update place y (returning i)) ops seen j x
  lend-ThreadFits y i p (acquire_next head) t = t
  lend-ThreadFits y i p (acquire_cas head next) t = t
  lend-ThreadFits y i p (release_load x) t = ground arith
  lend-ThreadFits y i p (release_store x head) t = ground arith
  lend-ThreadFits y i p (release_cas x head) t = ground arith
  lend-ThreadFits y i p idle t = tt
  lend-ThreadFits y i p acquire_load t = tt
  lend-ThreadFits y i p (acquired x) t = tt
  lend-ThreadFits y i p released t = tt

module _ {count : ℕ} {s : System} (inv : Inv count s) (i : ℕ) where
  open inv use {list_fits}

  -- The outcome of an access keeps the invariant.
  unfoldable pub Keeps : FreeList × Pc × Event → Type 0
  Keeps r = Inv count (commit s i r)

  stays : (y : Pc) → ThreadFits count s.list s.place s.ops (s.seen i) i y → Keeps (s.list, y, quiet)
  unfolding Keeps
  stays y own =
      Move-Inv inv i (commit s i (s.list, y, quiet)) y
        (record { list_fits = list_fits; own = own; others = λ j ne. inv.threads_fit j }) refl

  reloads : (y : Pc) → ThreadFits count s.list s.place s.ops s.ops i y → Keeps (s.list, y, loaded)
  unfolding Keeps
  reloads y own =
      Move-Inv inv i (commit s i (s.list, y, loaded)) y
        (record {
          list_fits = list_fits;
          own = rw (update_self s.seen i s.ops) own;
          others = λ j ne. rw (update_ne s.seen i j s.ops ne) (inv.threads_fit j);
        })
        refl

  top_fits : ThreadFits count s.list s.place s.ops s.ops i (acquire_top s.list.free_head)
  unfolding acquire_top
  top_fits =
      if_cases (ThreadFits count s.list s.place s.ops s.ops i)
        (unpack_index s.list.free_head == invalid_index) _ _ (λ _. tt)
        (λ q. ((omega arith, list_fits.tag, λ _. refl), ground arith))

  -- A head whose exchange succeeds in time has not changed since it was loaded.
  current :
      (head : ℕ)
      → (s.seen i ≤ s.ops)
        × (unpack_tag head ≡ s.seen i % 2 ^ 32)
        × (s.ops ≡ s.seen i → s.list.free_head ≡ head)
      → s.ops < s.seen i + 2 ^ 32
      → s.list.free_head ≡ head
      → s.ops ≡ s.seen i
  current head (le, tag, _) late same =
      let mods : s.ops % 2 ^ 32 ≡ s.seen i % 2 ^ 32 =
        sym list_fits.tag ∙ ap unpack_tag same ∙ tag in
      omega arith

  take_top :
      unpack_index s.list.free_head ≢ invalid_index
      → Keeps (
        taken s.list,
        acquired (unpack_index s.list.free_head),
        took (unpack_index s.list.free_head),
      )
  unfolding Keeps
  take_top some_index =
      let h : ℕ = unpack_index s.list.free_head in
      let (st, p, lt) = top_pooled list_fits some_index in
      Move-Inv inv i (commit s i (taken s.list, acquired h, took h)) (acquired h)
        (record {
          list_fits =
              take-ListFits s.list s.place (rest s.stack) s.ops
                (subst (λ l. ListFits count s.list s.place l s.ops) st list_fits);
          own = tt;
          others =
              λ j ne. take-ThreadFits (s.seen j) j list_fits h p (s.threads j) (inv.threads_fit j);
        })
        refl

  -- The exchange of `acquire`, when it succeeds.
  pub take_hit :
      (head next : ℕ)
      → OnTime s i (acquire_cas head next)
      → ThreadFits count s.list s.place s.ops (s.seen i) i (acquire_cas head next)
      → s.list.free_head ≡ head
      → Keeps (
        record (s.list) { free_head = pack next (u32 (unpack_tag head + 1)) },
        acquired (unpack_index head),
        took (unpack_index head),
      )
  unfolding taken
  take_hit head next late (l, some_index, n) same =
      let now : s.ops ≡ s.seen i = current head l late same in
      let link : next ≡ s.list.free_next (unpack_index s.list.free_head) =
        sym (n now) ∙ ap (λ k. s.list.free_next (unpack_index k)) (sym same) in
      rw (link, sym same) (take_top (rw same some_index))

  take_cas :
      (b : Bool) (head next : ℕ)
      → OnTime s i (acquire_cas head next)
      → ThreadFits count s.list s.place s.ops (s.seen i) i (acquire_cas head next)
      → Keeps (access b s.list (acquire_cas head next))
  unfolding access
  take_cas b head next late f =
      if_cases Keeps (s.list.free_head == head && not b) _ _
        (λ hit. take_hit head next late f (ground arith))
        (λ _. reloads (acquire_top s.list.free_head) top_fits)

  give_top :
      (x : ℕ)
      → x < count
      → s.place x ≡ returning i
      → s.list.free_next x ≡ unpack_index s.list.free_head
      → Keeps (given s.list x, released, gave x)
  unfolding Keeps
  give_top x lt p link =
      Move-Inv inv i (commit s i (given s.list x, released, gave x)) released
        (record {
          list_fits = give-ListFits s.list s.place s.stack s.ops x i list_fits lt p link;
          own = tt;
          others = λ j ne.
              give-ThreadFits (s.seen j) j list_fits x i ne p (s.threads j) (inv.threads_fit j);
        })
        refl

  -- The exchange of `release`, when it succeeds.
  pub give_hit :
      (x head : ℕ)
      → OnTime s i (release_cas x head)
      → ThreadFits count s.list s.place s.ops (s.seen i) i (release_cas x head)
      → s.list.free_head ≡ head
      → Keeps (record (s.list) { free_head = pack x (u32 (unpack_tag head + 1)) }, released, gave x)
  unfolding given
  give_hit x head late (l, (lt, p), link) same = rw (sym same) (give_top x lt p (rw same link))

  give_cas :
      (b : Bool) (x head : ℕ)
      → OnTime s i (release_cas x head)
      → ThreadFits count s.list s.place s.ops (s.seen i) i (release_cas x head)
      → Keeps (access b s.list (release_cas x head))
  unfolding access
  give_cas b x head late f =
      if_cases Keeps (s.list.free_head == head && not b) _ _
        (λ hit. give_hit x head late f (ground arith))
        (λ _.
          reloads (release_store x s.list.free_head) ((omega arith, list_fits.tag, λ _. refl), f.1))

  pub give_link :
      (b : Bool) (x head : ℕ)
      → ThreadFits count s.list s.place s.ops (s.seen i) i (release_store x head)
      → Keeps (access b s.list (release_store x head))
  unfolding access Keeps
  give_link b x head (l, (lt, p)) =
      Move-Inv inv i (commit s i (access b s.list (release_store x head))) (release_cas x head)
        (record {
          list_fits =
              link-ListFits s.list s.place s.stack s.ops x (unpack_index head) i list_fits p
                (unpack_index-lt head);
          own = (l, (lt, p), update_self s.list.free_next x (unpack_index head));
          others = λ j ne.
              link-ThreadFits (s.seen j) j list_fits x (unpack_index head) i ne p (s.threads j)
                (inv.threads_fit j);
        })
        refl

  pub access-Keeps :
      (b : Bool) (x : Pc)
      → OnTime s i x
      → ThreadFits count s.list s.place s.ops (s.seen i) i x
      → Keeps (access b s.list x)
  unfolding access
  access-Keeps b idle late f = stays idle tt
  access-Keeps b acquire_load late f = reloads (acquire_top s.list.free_head) top_fits
  access-Keeps b (acquire_next head) late (l, some_index) =
      stays (acquire_cas head (s.list.free_next (unpack_index head))) (l, some_index, λ _. refl)
  access-Keeps b (acquire_cas head next) late f = take_cas b head next late f
  access-Keeps b (acquired x) late f = stays idle tt
  access-Keeps b (release_load x) late f =
      reloads (release_store x s.list.free_head) ((omega arith, list_fits.tag, λ _. refl), f)
  access-Keeps b (release_store x head) late f = give_link b x head f
  access-Keeps b (release_cas x head) late f = give_cas b x head late f
  access-Keeps b released late f = stays idle tt

  -- A caller that returns a buffer it was lent.
  pub lend-Inv :
      (x : ℕ)
      → x < count
      → s.place x ≡ lent
      → Inv count (record s {
        threads = update s.threads i (release_load x);
        place = update s.place x (returning i);
      })
  lend-Inv x lt p =
      let t : System = record s {
        threads = update s.threads i (release_load x);
        place = update s.place x (returning i);
      } in
      Move-Inv inv i t (release_load x)
        (record {
          list_fits = record {
            small = list_fits.small;
            tag = list_fits.tag;
            links = list_fits.links;
            chain = list_fits.chain;
            distinct = list_fits.distinct;
            in_pool = λ y q. ground (arith, list_fits.in_pool y q);
            in_stack = λ y lt' q. ground (arith, list_fits.in_stack y lt');
          };
          own = (lt, update_self s.place x (returning i));
          others = λ j ne.
              lend-ThreadFits (s.seen j) j list_fits x i p (s.threads j) (inv.threads_fit j);
        })
        refl
