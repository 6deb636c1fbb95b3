-- ===== src/Pool/Threads/Invariant/Steps.antt =====
-- The invariant holds in every state that the threads of include/ringio/detail/buffer_pool.hpp
-- reach in time.
use ringio.Base.{ℕ, zero, suc, ◌-◌, ◌≤◌, ◌≡◌, refl, arith}
use ringio.Base.Word.{u32}
use ringio.Pool.Pack.{unpack-pack, invalid_index}
use ringio.Pool.FreeList.{init, acquire_load}
use ringio.Pool.Threads.{
  System, Step, acts, calls_acquire, calls_release, turn, start, Timely, Reach, here, next,
}
use ringio.Pool.Threads.Invariant.Links.{
  In-countdown, lt_of_In-countdown, Distinct-countdown, thread_next-lt, Chain-thread_next,
}
use ringio.Pool.Threads.Invariant.Defs.{Inv}
use ringio.Pool.Threads.Invariant.Moves.{Move-Inv}
use ringio.Pool.Threads.Invariant.Accesses.{Keeps, access-Keeps, lend-Inv}

pub start-Inv : (k : ℕ) → suc k ≤ invalid_index → Inv (suc k) (start (suc k))
unfolding start init
start-Inv k small =
    let (e, e') = unpack-pack (u32 (suc k - 1)) 0 (omega arith) (omega arith) in
    let low : u32 (suc k - 1) ≡ k = omega arith in
    record {
      list_fits = record {
        small = small;
        tag = e';
        links = λ x. thread_next-lt (suc k) x small;
        chain = rw (e, low) (Chain-thread_next (suc k) k (omega arith) small);
        distinct = Distinct-countdown (suc k);
        in_pool = λ x q. (refl, lt_of_In-countdown (suc k) x q);
        in_stack = λ x lt q. In-countdown (suc k) x lt;
      };
      threads_fit = λ i. tt;
    }

Step-Inv : {count : ℕ} {s t : System} → Timely s → Step count s t → Inv count s → Inv count t
unfolding turn Keeps
Step-Inv {s} late (acts i b) inv = access-Keeps inv i b (s.threads i) (late i) (inv.threads_fit i)
Step-Inv {s} late (calls_acquire i e) inv =
    Move-Inv inv i _ acquire_load
      (record { list_fits = inv.list_fits; own = tt; others = λ j ne. inv.threads_fit j }) refl
Step-Inv late (calls_release i x e lt p) inv = lend-Inv inv i x lt p

pub Reach-Inv :
    {count : ℕ} {s : System} → 1 ≤ count → count ≤ invalid_index → Reach count s → Inv count s
Reach-Inv {count = zero} some_buffer small here = absurd (omega arith)
Reach-Inv {count = suc k} some_buffer small here = start-Inv k small
Reach-Inv some_buffer small (next r late st) = Step-Inv late st (Reach-Inv some_buffer small r)
