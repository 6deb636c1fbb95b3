-- ===== src/Pool/Solo.antt =====
-- A thread that runs alone in `acquire` and `release` of include/ringio/detail/buffer_pool.hpp.
use ringio.Base.{
  ℕ, zero, suc, ◌+◌, ◌%◌, ◌≤◌, ◌<◌, ◌^◌, ◌≡◌, ◌≢◌, Bool, true, false, List, [], ◌∷◌, arith, length,
  if◌then◌else◌, update, update_self, ◌∙◌, ap, refl, sym, inl, inr, ◌-◌,
}
use ringio.Base.Word.{u32}
use ringio.Pool.Pack.{pack, unpack_index, unpack_tag, invalid_index, unpack-pack, unpack_index-lt}
use ringio.Pool.FreeList.{
  FreeList, Pc, acquire_load, acquired, release_load, released, access, acquire_top, init,
}
use ringio.Pool.Threads.{countdown}
use ringio.Pool.Threads.Invariant.{Chain, In, Chain-thread_next, lt_of_In-countdown, thread_next-lt}

unfoldable is_done : Pc → Bool
is_done (acquired index) = true
is_done released = true
is_done pc = false

-- At most `n` accesses, up to the return of the call; no exchange fails without a cause.
unfoldable pub solo : ℕ → FreeList → Pc → FreeList × Pc
unfolding is_done
solo zero m pc = (m, pc)
solo (suc n) m pc =
    let r = access false m pc in let after = solo n r.0 r.1 in if is_done pc then (m, pc) else after

unfoldable pub acquire : FreeList → FreeList × Pc
acquire m = solo 3 m acquire_load

unfoldable pub release : FreeList → ℕ → FreeList × Pc
release m x = solo 3 m (release_load x)

-- Alone, `acquire` returns the index at the head of the list, and follows its link.
acquire_some :
    (m : FreeList)
    → unpack_index m.free_head ≢ invalid_index
    → acquire m ≡ (
      record m {
        free_head =
            pack (m.free_next (unpack_index m.free_head)) (u32 (unpack_tag m.free_head + 1));
      },
      acquired (unpack_index m.free_head),
    )
unfolding acquire solo access acquire_top
acquire_some m h = ground arith

acquire_none :
    (m : FreeList)
    → unpack_index m.free_head ≡ invalid_index
    → acquire m ≡ (m, acquired invalid_index)
unfolding acquire solo access acquire_top
acquire_none m h = ground arith

release_some :
    (m : FreeList) (x : ℕ)
    → release m x ≡ (
      record m {
        free_head = pack x (u32 (unpack_tag m.free_head + 1));
        free_next = update m.free_next x (unpack_index m.free_head);
      },
      released,
    )
unfolding release solo access
release_some m x = ground arith

-- Whatever the list is, an index below 2 ^ 32 - 1 that is released is the next that is acquired,
-- when no other thread moves in between; the head's index is then as it was, and the tag has
-- advanced by two.
pub release-acquire :
    (m : FreeList) (x : ℕ)
    → x < invalid_index
    → (acquire (release m x).0).1 ≡ acquired x
      × unpack_index (acquire (release m x).0).0.free_head ≡ unpack_index m.free_head
      × unpack_tag (acquire (release m x).0).0.free_head ≡ (unpack_tag m.free_head + 2) % 2 ^ 32
release-acquire m x h =
    let t : ℕ = u32 (unpack_tag m.free_head + 1) in
    let next : ℕ → ℕ = update m.free_next x (unpack_index m.free_head) in
    let m' : FreeList = record m { free_head = pack x t; free_next = next } in
    let (a, b) = unpack-pack x t (omega arith) (omega arith) in
    let link : next (unpack_index (pack x t)) ≡ unpack_index m.free_head =
      ap next a ∙ update_self m.free_next x (unpack_index m.free_head) in
    let (a', b') =
      unpack-pack (next (unpack_index (pack x t))) (u32 (unpack_tag (pack x t) + 1))
        (omega (arith, link, unpack_index-lt m.free_head)) (omega arith) in
    rw (release_some m x, acquire_some m' (λ q. omega (arith, a)))
      (ap acquired a, a' ∙ link, omega (arith, b, b'))

-- The indices that `n` calls of `acquire` in a row return.
unfoldable pub acquire_all : ℕ → FreeList → List Pc
acquire_all zero m = []
acquire_all (suc n) m = let after = acquire_all n (acquire m).0 in (acquire m).1 ∷ after

abbrev pub outcomes : List ℕ → List Pc
outcomes [] = acquired invalid_index ∷ []
outcomes (x ∷ l) = acquired x ∷ outcomes l

pub length-countdown : (n : ℕ) → length (countdown n) ≡ n
length-countdown zero = refl
length-countdown (suc n) = ap suc (length-countdown n)

acquire_all_lem :
    (l : List ℕ) (m : FreeList)
    → Chain m.free_next (unpack_index m.free_head) l
    → ((x : ℕ) → m.free_next x < 2 ^ 32)
    → ((x : ℕ) → In x l → x < invalid_index)
    → acquire_all (suc (length l)) m ≡ outcomes l
unfolding acquire_all
acquire_all_lem [] m c links below = rw (acquire_none m c) refl
acquire_all_lem (x ∷ l) m (e, c) links below =
    let lt = below x (inl refl) in
    let i : ℕ = unpack_index m.free_head in
    let t : ℕ = u32 (unpack_tag m.free_head + 1) in
    let m' : FreeList = record m { free_head = pack (m.free_next i) t } in
    let (a, b) = unpack-pack (m.free_next i) t (links i) (omega arith) in
    let again : acquire_all (suc (length l)) m' ≡ outcomes l =
      acquire_all_lem l m' (rw (a, e) c) links (λ y q. below y (inr q)) in
    ap (λ r. r.1 ∷ acquire_all (suc (length l)) r.0) (acquire_some m (λ q. omega (arith, e)))
    ∙ ap (λ tail. acquired i ∷ tail) again
    ∙ ap (λ k. acquired k ∷ outcomes l) e

-- A fresh pool of at least one buffer and at most 2 ^ 32 - 1 hands out, to one thread that acquires
-- them all, its indices from the last down to 0, and then the invalid index.
pub fresh_pool_order :
    (count : ℕ)
    → 1 ≤ count
    → count ≤ invalid_index
    → acquire_all (count + 1) (init count) ≡ outcomes (countdown count)
unfolding init
fresh_pool_order zero some_buffer small = absurd (omega arith)
fresh_pool_order (suc k) some_buffer small =
    let (e, e') = unpack-pack (u32 (suc k - 1)) 0 (omega arith) (omega arith) in
    let low : u32 (suc k - 1) ≡ k = omega arith in
    let size : suc (length (countdown (suc k))) ≡ suc k + 1 = omega (arith, length-countdown k) in
    ap (λ n. acquire_all n (init (suc k))) (sym size)
    ∙ acquire_all_lem (countdown (suc k)) (init (suc k))
        (rw (e, low) (Chain-thread_next (suc k) k (omega arith) small))
        (λ x. thread_next-lt (suc k) x small) (λ x q. omega (arith, lt_of_In-countdown (suc k) x q))
