-- ===== src/Pool/Threads/Invariant/Moves.antt =====
-- What is left to show, for the invariant, of a step of one thread; and what each write to shared
-- memory does to the list and to the locals of the other threads.
use ringio.Base.{
  ℕ, ◌+◌, ◌<◌, ◌^◌, ◌≡◌, ◌≢◌, inl, inr, sym, List, [], ◌∷◌, arith, update, update_cases, update_ne,
  ℕ_discrete, ap, subst,
}
use ringio.Base.Word.{u32}
use ringio.Pool.Pack.{pack, unpack_index, unpack_tag, invalid_index, unpack-pack}
use ringio.Pool.FreeList.{FreeList, Pc}
use ringio.Pool.Threads.{System, Place, pooled, lent, returning, rest}
use ringio.Pool.Threads.Invariant.Links.{Chain, In, Chain-update}
use ringio.Pool.Threads.Invariant.Defs.{ListFits, ThreadFits, Inv}

module _ {count : ℕ} {s : System} (inv : Inv count s) (i : ℕ) where
  pub record Move (t : System) (y : Pc) : Type 0 where
    pub list_fits : ListFits count t.list t.place t.stack t.ops
    pub own : ThreadFits count t.list t.place t.ops (t.seen i) i y
    pub others : (j : ℕ) → i ≢ j → ThreadFits count t.list t.place t.ops (t.seen j) j (s.threads j)

  pub Move-Inv : (t : System) (y : Pc) → Move t y → t.threads ≡ update s.threads i y → Inv count t
  Move-Inv t y mv e = record {
    list_fits = mv.list_fits;
    threads_fit = λ j. rw e (
        update_cases (ThreadFits count t.list t.place t.ops (t.seen j) j) s.threads i y j
          (λ q. subst (λ k. ThreadFits count t.list t.place t.ops (t.seen k) k y) q mv.own)
          (mv.others j));
  }

-- The head of a list that is not empty.
module _ {count : ℕ} {m : FreeList} {place : ℕ → Place} {stack : List ℕ} {ops : ℕ}
    (f : ListFits count m place stack ops) where
  open f use {small, tag, links, chain, distinct, in_pool, in_stack}

  pub top_pooled :
      unpack_index m.free_head ≢ invalid_index
      → (stack ≡ unpack_index m.free_head ∷ rest stack)
        × (place (unpack_index m.free_head) ≡ pooled)
        × (unpack_index m.free_head < count)
  top_pooled h = go stack chain in_pool
    where
      go :
          (l : List ℕ)
          → Chain m.free_next (unpack_index m.free_head) l
          → ((x : ℕ) → In x l → (place x ≡ pooled) × (x < count))
          → (l ≡ unpack_index m.free_head ∷ rest l)
            × (place (unpack_index m.free_head) ≡ pooled)
            × (unpack_index m.free_head < count)
      go [] c p = absurd (h c)
      go (x ∷ l) c p =
          let (here, below) = p (unpack_index m.free_head) (inl c.0) in
          (ap (λ k. k ∷ l) (sym c.0), here, below)

-- What the exchange of `acquire` makes of the list.
unfoldable pub taken : FreeList → FreeList
taken m = record m {
  free_head = pack (m.free_next (unpack_index m.free_head)) (u32 (unpack_tag m.free_head + 1));
}

pub take-ListFits :
    {count : ℕ} (m : FreeList) (place : ℕ → Place) (l : List ℕ) (ops : ℕ)
    → ListFits count m place (unpack_index m.free_head ∷ l) ops
    → ListFits count (taken m) (update place (unpack_index m.free_head) lent) l (ops + 1)
unfolding taken
take-ListFits m place l ops f =
    let h : ℕ = unpack_index m.free_head in
    let (e, e') =
      unpack-pack (m.free_next h) (u32 (unpack_tag m.free_head + 1)) (f.links h) (omega arith) in
    record {
      small = f.small;
      tag = omega (arith, e', f.tag);
      links = f.links;
      chain = rw e f.chain.1;
      distinct = f.distinct.1;
      in_pool = λ x q.
          let ne : h ≢ x = λ same. f.distinct.0 (rw same q) in
          rw (update_ne place h x lent ne) (f.in_pool x (inr q));
      in_stack = λ x lt q. go h x (f.in_stack x lt) q;
    }
  where
    go : (h x : ℕ) → (place x ≡ pooled → In x (h ∷ l)) → update place h lent x ≡ pooled → In x l
    go h x old q = elim (ℕ_discrete h x) [
      | yes same ↦ ground arith
      | no other ↦ elim (old (ground arith)) [ inl e ↦ absurd (other (sym e)) | inr r ↦ r ]
    ]

-- What the exchange of `release` makes of it.
unfoldable pub given : FreeList → ℕ → FreeList
given m x = record m { free_head = pack x (u32 (unpack_tag m.free_head + 1)) }

pub give-ListFits :
    {count : ℕ} (m : FreeList) (place : ℕ → Place) (l : List ℕ) (ops x i : ℕ)
    → ListFits count m place l ops
    → x < count
    → place x ≡ returning i
    → m.free_next x ≡ unpack_index m.free_head
    → ListFits count (given m x) (update place x pooled) (x ∷ l) (ops + 1)
unfolding given
give-ListFits m place l ops x i f lt back link =
    let (e, e') =
      unpack-pack x (u32 (unpack_tag m.free_head + 1)) (omega (arith, f.small)) (omega arith) in
    record {
      small = f.small;
      tag = omega (arith, e', f.tag);
      links = f.links;
      chain = (e, rw link f.chain);
      distinct = ((λ q. cc (back, (f.in_pool x q).0)), f.distinct);
      in_pool = λ y q. ground (arith, q, f.in_pool y);
      in_stack = λ y lt' q. elim (ℕ_discrete x y) [
        | yes same ↦ inl (sym same)
        | no other ↦ inr (f.in_stack y lt' (ground arith))
      ];
    }

-- A thread that returns a buffer sets its link.
pub link-ListFits :
    {count : ℕ} (m : FreeList) (place : ℕ → Place) (l : List ℕ) (ops x v i : ℕ)
    → ListFits count m place l ops
    → place x ≡ returning i
    → v < 2 ^ 32
    → ListFits count (record m { free_next = update m.free_next x v }) place l ops
link-ListFits m place l ops x v i f back fits = record {
  small = f.small;
  tag = f.tag;
  links = λ y. ground (arith, f.links y);
  chain =
      Chain-update m.free_next x v (unpack_index m.free_head) l (λ q. cc (back, (f.in_pool x q).0))
        f.chain;
  distinct = f.distinct;
  in_pool = f.in_pool;
  in_stack = f.in_stack;
}
