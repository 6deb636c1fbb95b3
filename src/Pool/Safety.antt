-- ===== src/Pool/Safety.antt =====
-- What the free list of include/ringio/detail/buffer_pool.hpp promises to the callers of `acquire`
-- and `release`, whatever the interleaving.
use ringio.Base.{
  ℕ, ◌≤◌, ◌<◌, ◌≡◌, ◌≢◌, inl, refl, List, [], ◌∷◌, arith, Bool, update_self, subst, ap, ◌∙◌,
  ℕ_discrete,
}
use ringio.Pool.Pack.{unpack_index, invalid_index}
use ringio.Pool.FreeList.{
  Pc, acquire_load, acquire_cas, acquired, release_cas, took, access, acquire_top,
}
use ringio.Pool.Threads.{System, pooled, lent, rest, record_place, record_stack, turn, Reach}
use ringio.Pool.Threads.Invariant.{In, Distinct, Chain, Inv, ThreadFits, Reach-Inv, top_pooled}

module _ {count : ℕ} (some_buffer : 1 ≤ count) (small : count ≤ invalid_index) {s : System}
    (r : Reach count s) where
  inv : Inv count s
  inv = Reach-Inv some_buffer small r

  open inv use {list_fits}

  -- In every state that the threads of a pool of 1 to 2 ^ 32 - 1 buffers reach, while no thread is
  -- overtaken by 2 ^ 32 exchanges between its load of the head and its exchange, the links that
  -- start at the head run through exactly the buffers that are in the pool, each of them once, and
  -- then end.
  pub list_is_pool :
      (x : ℕ)
      → x < count
      → Chain s.list.free_next (unpack_index s.list.free_head) s.stack
        × Distinct s.stack
        × ((In x s.stack → s.place x ≡ pooled) × (s.place x ≡ pooled → In x s.stack))
  list_is_pool x lt = (
    list_fits.chain,
    list_fits.distinct,
    (λ q. (list_fits.in_pool x q).0, list_fits.in_stack x lt),
  )

  -- Only the exchange of `acquire` takes an index, and it is the head's.
  took_head :
      (i : ℕ) (b : Bool) (x : ℕ) (y : Pc)
      → ThreadFits count s.list s.place s.ops (s.seen i) i y
      → (access b s.list y).2 ≡ took x
      → (x ≡ unpack_index s.list.free_head) × (unpack_index s.list.free_head ≢ invalid_index)
  unfolding access
  took_head i b x acquire_load f e = cc
  took_head i b x (acquire_cas head next) f e = ground arith
  took_head i b x (release_cas y head) f e = ground arith
  took_head i b x y f e = cc

  -- In every state that the threads of a pool of 1 to 2 ^ 32 - 1 buffers reach, while no thread is
  -- overtaken by 2 ^ 32 exchanges between its load of the head and its exchange, an exchange of
  -- `acquire` that takes an index takes one that is a buffer of the pool and that nobody holds,
  -- and afterwards it is lent and no longer in the list.
  pub no_double_issue :
      (i : ℕ) (b : Bool) (x : ℕ)
      → (access b s.list (s.threads i)).2 ≡ took x
      → (s.place x ≡ pooled)
        × (x < count)
        × ((turn b s i).place x ≡ lent)
        × (¬ In x (turn b s i).stack)
  unfolding turn
  no_double_issue i b x e =
      let (same, some_index) = took_head i b x (s.threads i) (inv.threads_fit i) e in
      let (st, p, lt) = top_pooled list_fits some_index in
      let st' : s.stack ≡ x ∷ rest s.stack = rw same st in
      let after : (turn b s i).stack ≡ rest s.stack = ap (λ v. record_stack v s.stack) e in
      (
        rw same p,
        rw same lt,
        ap (λ v. record_place v s.place x) e ∙ update_self s.place x lent,
        rw after (subst Distinct st' list_fits.distinct).0,
      )

  -- In every state that the threads of a pool of 1 to 2 ^ 32 - 1 buffers reach, while no thread is
  -- overtaken by 2 ^ 32 exchanges between its load of the head and its exchange, an `acquire` that
  -- looks at the current head gives up, with the invalid index, exactly if no buffer is in the
  -- pool at that moment.
  pub refused_acquire_iff_empty :
      ((acquire_top s.list.free_head ≡ acquired invalid_index)
        → (x : ℕ) → x < count
        → s.place x ≢ pooled)
      × (((x : ℕ) → x < count → s.place x ≢ pooled)
          → acquire_top s.list.free_head ≡ acquired invalid_index)
  unfolding acquire_top
  refused_acquire_iff_empty = (
    (λ e x lt p.
        empty_stack s.stack list_fits.chain (ground arith) x (list_fits.in_stack x lt p)
          (λ y q. (list_fits.in_pool y q).1)),
    λ none_left. elim (ℕ_discrete (unpack_index s.list.free_head) invalid_index) [
      | yes last ↦ ground arith
      | no some_index ↦
          let (st, p, lt) = top_pooled list_fits some_index in
          absurd (none_left (unpack_index s.list.free_head) lt p)
    ],
  )
    where
      empty_stack :
          (l : List ℕ)
          → Chain s.list.free_next (unpack_index s.list.free_head) l
          → unpack_index s.list.free_head ≡ invalid_index
          → (x : ℕ) → In x l
          → ((y : ℕ) → In y l → y < count)
          → ⊥
      empty_stack [] c e x q below = q
      empty_stack (y ∷ l) c e x q below = omega (arith, list_fits.small, below y (inl refl), c.0, e)
