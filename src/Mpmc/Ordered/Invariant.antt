-- ===== src/Mpmc/Ordered/Invariant.antt =====
-- What the threads of include/ringio/detail/mpmc_ring.hpp know of each other, whichever stores their
-- loads return.
pub mod Defs
mod Tickets
mod Sights
mod Quiet
mod Claims
mod Uses
mod Writes
mod Hands
use ringio.Base.{
  ℕ, zero, suc, ◌+◌, ◌≤◌, ◌<◌, ◌^◌, ◌≡◌, refl, ap, inl, none, arith, Bool, subst, update,
  update_both,
}
use ringio.Base.Word.{IsCapacity}
use ringio.Mpmc.{
  Pc, idle, push_load, push_seq, push_cas, push_write, push_store, pushed, pop_load, pop_seq,
  pop_cas, pop_read, pop_store, popped, init,
}
use ringio.Mpmc.System as Sequential
use ringio.Mpmc.Invariant as SequentialInv
use ringio.Mpmc.Invariant.{ThreadFits}
use ringio.Mpmc.Ordered.{
  View, no_view, System, ring, goes_on, sequence, MayAct, access, turn, Step, acts, calls_push,
  calls_pop, start, Reach, here, next,
}
use Defs.{ticket, Sees, Inv}
use Quiet.{quiet, called, seq_push, seq_pop}
use Claims.{cas_push, cas_pop}
use Uses.{write_push, read_pop}
use Hands.{store_push, store_pop}

module _ {A : Type 0} {cap : ℕ} (c : IsCapacity cap) (two : 2 ≤ cap) where
  module _ {n : ℕ} {s : System A} (small : suc n + cap < 2 ^ 63) (inv : Inv cap n s) (i : ℕ) where
    -- Every access keeps the invariant, whichever store its load returns.
    access-Inv :
        (b : Bool) (k : ℕ) (v : View) (y : Pc A)
        → s.threads i ≡ y
        → ThreadFits cap (ring s) s.given s.taken y
        → Sees cap s.sequences s.uses v y
        → MayAct cap s k v y
        → Inv cap (suc n) (access cap b k s i v y)
    unfolding access
    access-Inv b k v idle e fits sees may = quiet c inv i (ap ticket e) idle v tt refl refl tt
    access-Inv b k v (push_load x) e fits sees (_, le) =
        quiet c inv i (ap ticket e) (push_seq x (s.enqueue_pos.value k)) (record v { enqueues = k })
          (inv.enqueues k le) refl refl tt
    access-Inv b k v (push_seq x p) e fits sees (_, le) =
        seq_push c inv i (ap ticket e) b k v x p fits le
    access-Inv b k v (push_cas x p) e fits sees (_, le) =
        cas_push c two small inv i b k v x p e fits sees le
    access-Inv b k v (push_write x p) e fits sees may =
        write_push c two small inv i b k v x p e fits
    access-Inv b k v (push_store x p) e fits sees may =
        store_push c two small inv i b k v x p e fits sees
    access-Inv b k v (pushed done) e fits sees may =
        quiet c inv i (ap ticket e) idle v tt refl refl tt
    access-Inv b k v pop_load e fits sees (_, le) =
        quiet c inv i (ap ticket e) (pop_seq (s.dequeue_pos.value k)) (record v { dequeues = k })
          (inv.dequeues k le) refl refl tt
    access-Inv b k v (pop_seq p) e fits sees (_, le) = seq_pop c inv i (ap ticket e) b k v p fits le
    access-Inv b k v (pop_cas p) e fits sees (_, le) =
        cas_pop c two small inv i b k v p e fits sees le
    access-Inv b k v (pop_read p) e fits sees may = read_pop c two small inv i b k v p e fits
    access-Inv b k v (pop_store x p) e fits sees may =
        store_pop c two small inv i b k v x p e fits sees
    access-Inv b k v (popped out) e fits sees may =
        quiet c inv i (ap ticket e) idle v tt refl refl tt

  Step-Inv :
      {n : ℕ} {s t : System A}
      → suc n + cap < 2 ^ 63
      → Step cap s t
      → Inv cap n s
      → Inv cap (suc n) t
  unfolding turn
  Step-Inv {s} small (acts i b k may) inv =
      access-Inv small inv i b k (s.views_of i) (s.threads i) refl (inv.sequential.threads_fit i)
        (inv.sees i) may
  Step-Inv {s} small (calls_push i x e) inv =
      called c inv i (ap ticket e) (push_load x) tt refl refl (λ v. tt)
  Step-Inv {s} small (calls_pop i e) inv =
      called c inv i (ap ticket e) pop_load tt refl refl (λ v. tt)

  start-Inv : (blank : A) → cap < 2 ^ 63 → Inv cap 0 (start cap blank)
  unfolding start init Sequential.start
  start-Inv blank small = record {
    sequential = SequentialInv.start-Inv c blank small;
    increasing = λ i k lt. omega (arith, lt);
    enqueues = λ k le. omega arith;
    dequeues = λ k le. omega arith;
    released = λ i. inl (omega arith);
    sees = λ j. tt;
  }

  pub Reach-Inv :
      {blank : A} {n : ℕ} {s : System A} → n + cap < 2 ^ 63 → Reach cap blank n s → Inv cap n s
  Reach-Inv {blank} small here = start-Inv blank (omega arith)
  Reach-Inv small (next r st) = Step-Inv small st (Reach-Inv (omega arith) r)
