-- ===== src/Pool/Storage.antt =====
-- The storage of include/ringio/detail/buffer_pool.hpp: the constructor and the destructor, over what
-- the operating system answers.
use ringio.Base.{
  ℕ, zero, suc, ◌+◌, ◌*◌, ◌%◌, ◌≤◌, ◌<◌, ◌≡◌, ◌≢◌, ◌⊎◌, inl, inr, refl, Bool, true, false, ◌||◌,
  not, List, [], ◌∷◌, ◌++◌, ◌==◌, if◌then◌else◌, arith, if_cases, dec_lt, ◌^◌,
}
use ringio.Base.Word.{u64}
use native.Mathlib.Nat.{mul-le-mul_right}
use ringio.Pool.FreeList.{FreeList, init}

-- The page size, and what the calls return: an error or a block, and whether the lock is refused. The
-- two vectors may find no memory: `free_next_` when it is made, and `iovecs_` when it reserves.
pub record Os : Type 0 where
  pub page_size : ℕ
  pub posix_memalign : ℕ → ℕ → ℕ × ℕ
  pub mlock : ℕ → ℕ → ℕ
  pub errno : ℕ
  pub makes_links : ℕ → Bool
  pub reserves : ℕ → Bool

-- What is thrown.
pub data Error : Type 0 where
  invalid_count : Error
  invalid_size : Error
  no_memory : ℕ → Error
  not_locked : ℕ → Error
  no_room : Error

-- The calls that change what the process holds.
pub data Call : Type 0 where
  allocates : (base : ℕ) → Call
  locks : (base size : ℕ) → Call
  unlocks : (base size : ℕ) → Call
  frees : (base : ℕ) → Call

pub record BufferPool : Type 0 where
  pub buffer_size : ℕ
  pub buffer_count : ℕ
  pub base : ℕ
  pub locked : Bool
  pub iovecs : List (ℕ × ℕ)
  pub list : FreeList

-- The entries of `n` buffers, from index `i` on.
abbrev pub iovecs_from : ℕ → ℕ → ℕ → ℕ → List (ℕ × ℕ)
iovecs_from base size i zero = []
iovecs_from base size i (suc n) =
    (u64 (base + u64 (i * size)), size) ∷ iovecs_from base size (i + 1) n

unfoldable pub construct : Os → ℕ → ℕ → (Error ⊎ BufferPool) × List Call
construct os count size =
    let total = u64 (size * count) in
    let (err, base) = os.posix_memalign os.page_size total in
    if not (os.makes_links count)
    then (inl Error.no_room, [])
    else if count == 0
    then (inl Error.invalid_count, [])
    else if size == 0 || not (size % os.page_size == 0)
    then (inl Error.invalid_size, [])
    else if not (err == 0)
    then (inl (Error.no_memory err), [])
    else if not (os.mlock base total == 0)
    then (inl (Error.not_locked os.errno), Call.allocates base ∷ Call.frees base ∷ [])
    else if not (os.reserves count)
    then (inl Error.no_room, Call.allocates base ∷ Call.locks base total ∷ [])
    else (
      inr (record {
        buffer_size = size;
        buffer_count = count;
        base = base;
        locked = true;
        iovecs = iovecs_from base size 0 count;
        list = init count;
      }),
      Call.allocates base ∷ Call.locks base total ∷ [],
    )

-- `nullptr` is the address 0.
unfoldable pub destroy : BufferPool → List Call
destroy pool =
    if not (pool.base == 0)
    then (if pool.locked
        then Call.unlocks pool.base (u64 (pool.buffer_size * pool.buffer_count)) ∷ []
        else [])
      ++ (Call.frees pool.base ∷ [])
    else []

-- The calls of a pool's whole life, up to its destructor where there is one.
unfoldable pub life : (Error ⊎ BufferPool) × List Call → List Call
life (inl e, calls) = calls
life (inr pool, calls) = calls ++ destroy pool

-- What the life of a pool does to its block.
abbrev pub LifeOf : Os → ℕ → ℕ → (Error ⊎ BufferPool) × List Call → Type 0
LifeOf os count size r =
    let total = u64 (size * count) in
    let base = (os.posix_memalign os.page_size total).1 in
    (life r ≡ [])
    ⊎ (life r ≡ Call.allocates base ∷ Call.frees base ∷ [])
    ⊎ (life r
        ≡ Call.allocates base
          ∷ Call.locks base total
          ∷ Call.unlocks base total
          ∷ Call.frees base
          ∷ [])
    ⊎ ((r.0 ≡ inl Error.no_room)
        × (os.reserves count ≡ false)
        × (life r ≡ Call.allocates base ∷ Call.locks base total ∷ []))

-- When an allocation that succeeds does not hand out a block at address 0, the calls of a pool's life
-- are, whatever the arguments and the system's answers: none; or a block that is allocated and freed;
-- or one that is allocated, locked, unlocked over the same range, and freed; or, only when `iovecs_`
-- finds no memory and the constructor throws for that, one that is allocated and locked and stays so.
pub life_balanced :
    (os : Os) (count size : ℕ)
    → ((os.posix_memalign os.page_size (u64 (size * count))).0 ≡ 0
        → (os.posix_memalign os.page_size (u64 (size * count))).1 ≢ 0)
    → LifeOf os count size (construct os count size)
unfolding life construct destroy
life_balanced os count size some_block =
    let total : ℕ = u64 (size * count) in
    let err : ℕ = (os.posix_memalign os.page_size total).0 in
    let base : ℕ = (os.posix_memalign os.page_size total).1 in
    if_cases (LifeOf os count size) (not (os.makes_links count)) _ _ (λ _. inl refl)
      (λ _.
        if_cases (LifeOf os count size) (count == 0) _ _ (λ _. inl refl)
          (λ _.
            if_cases (LifeOf os count size) (size == 0 || not (size % os.page_size == 0)) _ _
              (λ _. inl refl)
              (λ _.
                if_cases (LifeOf os count size) (not (err == 0)) _ _ (λ _. inl refl)
                  (λ got.
                    if_cases (LifeOf os count size) (not (os.mlock base total == 0)) _ _
                      (λ _. inr (inl refl))
                      (λ _.
                        if_cases (LifeOf os count size) (not (os.reserves count)) _ _
                          (λ full. inr (inr (inr (refl, ground (arith, full), refl))))
                          (λ _.
                            let some_base : (base == 0) ≡ false =
                              ground (arith, some_block (ground (arith, got))) in
                            inr (inr (inl (rw some_base refl)))))))))

-- `BufferPool::data`.
unfoldable pub data_at : BufferPool → ℕ → ℕ
data_at pool index = u64 (pool.base + u64 (index * pool.buffer_size))

next_block : (i j size : ℕ) → i < j → i * size + size ≤ j * size
next_block i j size h = omega (arith, mul-le-mul_right size h)

-- When the whole block lies below 2 ^ 64, every byte of a buffer lies in the block, and no byte is
-- in two buffers.
pub buffers_apart :
    (pool : BufferPool) (i j k l : ℕ)
    → pool.base + pool.buffer_count * pool.buffer_size < 2 ^ 64
    → i < pool.buffer_count
    → j < pool.buffer_count
    → i ≢ j
    → k < pool.buffer_size
    → l < pool.buffer_size
    → (data_at pool i + k ≢ data_at pool j + l)
      × (pool.base ≤ data_at pool i)
      × (data_at pool i + k < pool.base + pool.buffer_count * pool.buffer_size)
unfolding data_at
buffers_apart pool i j k l fits lt lt' ne hk hl =
    let s : ℕ = pool.buffer_size in
    let a : i * s + s ≤ pool.buffer_count * s = next_block i pool.buffer_count s lt in
    let b : j * s + s ≤ pool.buffer_count * s = next_block j pool.buffer_count s lt' in
    elim (dec_lt i j) [
      | yes before ↦ omega (arith, next_block i j s before)
      | no after ↦ omega (arith, next_block j i s (omega arith))
    ]
