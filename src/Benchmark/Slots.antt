-- ===== src/Benchmark/Slots.antt =====
-- The slots of benchmarks/iops_throughput_benchmark.cpp: what `queue_depth` calls of `acquire` on a new
-- pool return.
use ringio.Base.{
  ℕ, zero, suc, ◌+◌, ◌≤◌, ◌≡◌, refl, ap, ◌∙◌, List, [], ◌∷◌, ◌++◌, take, length, ltb, if◌then◌else◌,
  arith,
}
use ringio.Pool.Pack.{invalid_index}
use ringio.Pool.FreeList.{FreeList, init}
use ringio.Pool.Threads.{countdown}
use ringio.Pool.Solo.{acquire, acquire_all, outcomes, fresh_pool_order, length-countdown}
use ringio.Engine.Tracked.{times}
use ringio.Benchmark.{indices, index_of, slot_buf}

indices-take :
    (n : ℕ) (m : FreeList) → indices (acquire_all n m) ≡ take n (indices (acquire_all (suc n) m))
unfolding acquire_all
indices-take zero m = refl
indices-take (suc n) m = ap (λ l. index_of (acquire m).1 ∷ l) (indices-take n (acquire m).0)

indices-outcomes : (l : List ℕ) → indices (outcomes l) ≡ l ++ (invalid_index ∷ [])
indices-outcomes [] = refl
indices-outcomes (x ∷ l) = ap (λ k. x ∷ k) (indices-outcomes l)

take_front : (l k : List ℕ) (n : ℕ) → length l ≡ n → take n (l ++ k) ≡ l
take_front [] k zero e = refl
take_front [] k (suc n) e = absurd (omega (arith, e))
take_front (x ∷ l) k zero e = absurd (omega (arith, e))
take_front (x ∷ l) k (suc n) e = ap (λ r. x ∷ r) (take_front l k n (omega (arith, e)))

-- The slots are the indices of the pool, the last first.
pub slot_buf-countdown :
    (queue_depth : ℕ)
    → 1 ≤ queue_depth
    → queue_depth ≤ invalid_index
    → slot_buf queue_depth ≡ countdown queue_depth
unfolding slot_buf
slot_buf-countdown n some_slot small =
    let e : suc n ≡ n + 1 = omega arith in
    indices-take n (init n)
    ∙ ap (λ k. take n (indices (acquire_all k (init n)))) e
    ∙ ap (λ l. take n (indices l)) (fresh_pool_order n some_slot small)
    ∙ ap (take n) (indices-outcomes (countdown n))
    ∙ take_front (countdown n) (invalid_index ∷ []) n (length-countdown n)

pub times-countdown : (t n : ℕ) → times t (countdown n) ≡ (if ltb t n then 1 else 0)
times-countdown t zero = ground arith
times-countdown t (suc n) = ground (arith, times-countdown t n)
