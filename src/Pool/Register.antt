-- ===== src/Pool/Register.antt =====
-- The table of buffers that include/ringio/detail/buffer_pool.hpp registers with a ring.
use ringio.Base.{
  ℕ, zero, suc, ◌+◌, ◌*◌, ◌<◌, ◌^◌, ◌≡◌, ◌⊎◌, inr, refl, sym, List, some, get_elem?, length, arith,
  if_cases, ap, ◌∙◌, ◌==◌, ◌||◌, ◌%◌, not,
}
use ringio.Base.Int.{ℤ}
use ringio.Base.Word.{u32, u64}
use ringio.Pool.Storage.{Os, Error, BufferPool, Call, iovecs_from, construct, data_at}

-- `BufferPool::register_with`; `io_uring_register_buffers` is a parameter.
unfoldable pub register_with : {R : Type 0} → (R → List (ℕ × ℕ) → ℕ → ℤ) → BufferPool → R → ℤ
register_with io_uring_register_buffers pool ring =
    io_uring_register_buffers ring pool.iovecs (u32 (length pool.iovecs))

length-iovecs_from : (base size i n : ℕ) → length (iovecs_from base size i n) ≡ n
length-iovecs_from base size i zero = refl
length-iovecs_from base size i (suc n) = ap suc (length-iovecs_from base size (i + 1) n)

get_elem?-iovecs_from :
    (base size i n j k : ℕ)
    → j < n
    → i + j ≡ k
    → get_elem? (iovecs_from base size i n) j ≡ some (u64 (base + u64 (k * size)), size)
get_elem?-iovecs_from base size i zero j k h e = absurd (omega arith)
get_elem?-iovecs_from base size i (suc n) zero k h e =
    let same : i ≡ k = omega arith in rw same refl
get_elem?-iovecs_from base size i (suc n) (suc j) k h e =
    get_elem?-iovecs_from base size (i + 1) n j k (omega arith) (omega arith)

-- What a constructor that succeeds makes of its arguments.
abbrev Made : ℕ → ℕ → BufferPool → Type 0
Made count size pool =
    (pool.buffer_size ≡ size)
    × (pool.buffer_count ≡ count)
    × (pool.iovecs ≡ iovecs_from pool.base size 0 count)

made :
    (os : Os) (count size : ℕ) (pool : BufferPool)
    → (construct os count size).0 ≡ inr pool
    → Made count size pool
unfolding construct
made os count size pool =
    let total : ℕ = u64 (size * count) in
    let base : ℕ = (os.posix_memalign os.page_size total).1 in
    if_cases Fits (not (os.makes_links count)) _ _ (λ _ q. cc)
      (λ _.
        if_cases Fits (count == 0) _ _ (λ _ q. cc)
          (λ _.
            if_cases Fits (size == 0 || not (size % os.page_size == 0)) _ _ (λ _ q. cc)
              (λ _.
                if_cases Fits (not ((os.posix_memalign os.page_size total).0 == 0)) _ _ (λ _ q. cc)
                  (λ _.
                    if_cases Fits (not (os.mlock base total == 0)) _ _ (λ _ q. cc)
                      (λ _.
                        if_cases Fits (not (os.reserves count)) _ _ (λ _ q. cc)
                          (λ _ e. ground arith))))))
  where
    Fits : (Error ⊎ BufferPool) × List Call → Type 0
    Fits r = r.0 ≡ inr pool → Made count size pool

-- When a constructor makes a pool of fewer than 2 ^ 32 buffers, `register_with` passes on a table of
-- exactly that many entries; and the entry at the index of a buffer is the address that `data` gives
-- for that index, with the size of a buffer.
pub registered_buffer :
    {R : Type 0} (os : Os) (count size : ℕ) (pool : BufferPool) (io : R → List (ℕ × ℕ) → ℕ → ℤ)
    (ring : R) (index : ℕ)
    → (construct os count size).0 ≡ inr pool
    → count < 2 ^ 32
    → index < count
    → (register_with io pool ring ≡ io ring pool.iovecs count)
      × (length pool.iovecs ≡ count)
      × (get_elem? pool.iovecs index ≡ some (data_at pool index, size))
unfolding register_with data_at
registered_buffer os count size pool io ring index e small lt =
    let (size_kept, count_kept, table) = made os count size pool e in
    let all : length pool.iovecs ≡ count =
      ap length table ∙ length-iovecs_from pool.base size 0 count in
    let fits : u32 (length pool.iovecs) ≡ count = omega (arith, all) in
    (
      ap (io ring pool.iovecs) fits,
      all,
      ap (λ l. get_elem? l index) table
          ∙ get_elem?-iovecs_from pool.base size 0 count index index lt (omega arith)
          ∙ ap (λ k. some (u64 (pool.base + u64 (index * k)), size)) (sym size_kept),
    )
