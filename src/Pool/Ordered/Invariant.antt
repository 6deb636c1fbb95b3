-- ===== src/Pool/Ordered/Invariant.antt =====
-- What the threads of include/ringio/detail/buffer_pool.hpp know of each other, whichever stores their
-- loads return.
pub mod Defs
pub mod Loads
mod Exchanges
mod Rest
use ringio.Base.{
  ℕ, zero, suc, ◌+◌, ◌≤◌, ◌<◌, ◌%◌, ◌^◌, ◌∙◌, ◌≡◌, refl, ap, subst, arith, update, Bool, not, ◌&&◌,
  ◌==◌, if_cases,
}
use ringio.Pool.Pack.{invalid_index}
use ringio.Pool.FreeList.{
  Pc, idle, acquire_load, acquire_next, acquire_cas, acquired, release_load, release_store,
  release_cas, released, init,
}
use ringio.Pool.Threads.{OnTime, Timely}
use ringio.Pool.Threads as Sequential
use ringio.Pool.Threads.Invariant as SequentialInv
use ringio.Pool.Ordered.{
  View, System, latest, now, goes_on, has_seen, MayAct, access, turn, used, Step, acts, uses_buffer,
  calls_acquire, calls_release, start, Reach, here, next,
}
use Defs.{Sees, Inv}
use Loads.{Fits, any_store, goes_on-Inv, has_seen-Inv, load_head-Inv, load_next-Inv}
use Exchanges.{take-Inv, give-Inv}
use Rest.{link-Inv, used-Inv, called-Inv, return-Inv}

module _ {count : ℕ} {s : System} (inv : Inv count s) (i : ℕ) where
  -- Every access keeps the invariant, whichever store its load returns.
  access-Inv :
      (b : Bool) (k : ℕ) (y : Pc)
      → OnTime (latest s) i y
      → Fits inv (s.seen i) i y
      → Sees s.free_head s.free_next (s.seen i) (s.views_of i) y
      → MayAct s k (s.views_of i) y
      → Inv count (access b k s i (s.views_of i) y)
  unfolding access
  access-Inv b k idle late fits sees may =
      goes_on-Inv inv i idle (s.views_of i) tt (λ x. omega arith) tt
  access-Inv b k acquire_load late fits sees (_, le) = load_head-Inv inv i k le
  access-Inv b k (acquire_next head) late fits sees (ge, le) =
      load_next-Inv inv i head k fits sees ge le
  access-Inv b k (acquire_cas head link) late fits sees (_, le) =
      if_cases (Inv count) (now s.free_head == head && not b) _ _
        (λ hit. take-Inv inv i head link late fits (ground arith)) (λ _. load_head-Inv inv i k le)
  access-Inv b k (acquired x) late fits sees may =
      goes_on-Inv inv i idle (s.views_of i) tt (λ x. omega arith) tt
  access-Inv b k (release_load x) late fits sees (_, le) =
      has_seen-Inv inv i k (release_store x (s.free_head.value k)) _ (any_store inv k le, fits)
        (λ y. omega arith) tt
  access-Inv b k (release_store x head) late fits sees may = link-Inv inv i x head fits
  access-Inv b k (release_cas x head) late fits sees (_, le) =
      if_cases (Inv count) (now s.free_head == head && not b) _ _
        (λ hit. give-Inv inv i x head late fits sees (ground arith))
        (λ _.
          has_seen-Inv inv i k (release_store x (s.free_head.value k)) _
            (any_store inv k le, fits.1) (λ y. omega arith) tt)
  access-Inv b k released late fits sees may =
      goes_on-Inv inv i idle (s.views_of i) tt (λ x. omega arith) tt

Step-Inv :
    {count : ℕ} {s t : System} → Timely (latest s) → Step count s t → Inv count s → Inv count t
unfolding turn
Step-Inv {s} late (acts i b k may) inv =
    access-Inv inv i b k (s.threads i) (late i) (inv.sequential.threads_fit i) (inv.sees i) may
Step-Inv late (uses_buffer i x calm out mine) inv = used-Inv inv i x calm out mine
Step-Inv late (calls_acquire i calm) inv = called-Inv inv i acquire_load tt (λ v. tt)
Step-Inv late (calls_release i x calm below out mine) inv = return-Inv inv i x below out mine

start-Inv : (k : ℕ) → suc k ≤ invalid_index → Inv (suc k) (start (suc k))
unfolding start init Sequential.start
start-Inv k small =
    let first : SequentialInv.Inv (suc k) (latest (start (suc k))) =
      SequentialInv.start-Inv k small in
    record {
      sequential = first;
      tags = λ n le.
          let none_yet : ◌≡◌ {A = ℕ} 0 n = omega arith in
          first.list_fits.tag ∙ ap (λ q. q % 2 ^ 32) none_yet;
      carried = λ x p. (omega arith, omega arith);
      held = λ x i w. omega arith;
      sees = λ i. tt;
    }

pub Reach-Inv :
    {count : ℕ} {s : System} → 1 ≤ count → count ≤ invalid_index → Reach count s → Inv count s
Reach-Inv {count = zero} pos small here = absurd (omega arith)
Reach-Inv {count = suc k} pos small here = start-Inv k small
Reach-Inv pos small (next r late st) = Step-Inv late st (Reach-Inv pos small r)
