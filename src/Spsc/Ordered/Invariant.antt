-- ===== src/Spsc/Ordered/Invariant.antt =====
-- What the threads of include/ringio/detail/spsc_ring.hpp know of each other, whichever stores their
-- loads return.
pub mod Defs
pub mod Growth
mod Pushes
mod Pops
use ringio.Base.{ℕ, refl, sym, inl, subst, ◌≡◌, arith}
use ringio.Base.Word.{IsCapacity}
use ringio.Spsc.{init}
use ringio.Spsc.Refine.{init-IsValid}
use ringio.Spsc.Ordered.{
  System, Step, produces, consumes, calls_push, calls_pop, start, Reach, here, next, produce,
  consume, View, no_view,
}
use Defs.{Inv, Known, ProducerSees, ConsumerSees}
use Pushes.{produce_at-Inv}
use Pops.{consume_at-Inv}

nothing-Known : Known 0 0 0 0 no_view
nothing-Known = record {
  heads_done = omega arith;
  tails_done = omega arith;
  writes_done = omega arith;
  reads_done = omega arith;
  after_reads = omega arith;
  after_writes = omega arith;
}

module _ {A : Type 0} {cap : ℕ} (c : IsCapacity cap) where
  start-Inv : (blank : A) → Inv cap (start blank)
  unfolding start init
  start-Inv blank = record {
    sequential = record {
      valid = (init-IsValid c blank).0;
      flow = sym (init-IsValid c blank).1;
      producing = tt;
      consuming = tt;
    };
    stores = record {
      head_value = λ k le. omega arith;
      tail_value = λ k le. omega arith;
      head_carries = λ k le. le;
      tail_carries = λ k le. le;
      head_known = λ k le. nothing-Known;
      tail_known = λ k le. nothing-Known;
    };
    views = record {
      own_tails = refl;
      own_heads = refl;
      room = omega arith;
      behind = omega arith;
      producer_known = nothing-Known;
      consumer_known = nothing-Known;
      producer_sees = refl;
      consumer_sees = refl;
    };
    stamps = record { written_fits = λ i. inl refl; read_fits = λ i. inl refl };
  }

  Step-Inv : {s t : System A} → Step cap s t → Inv cap s → Inv cap t
  unfolding produce consume
  Step-Inv {s} (produces k may) i =
      produce_at-Inv c s i s.producer k i.sequential.producing i.views.producer_sees may
  Step-Inv {s} (consumes k may) i =
      consume_at-Inv c s i s.consumer k i.sequential.consuming i.views.consumer_sees may
  Step-Inv {s} (calls_push v e) i = record {
    sequential = record {
      valid = i.sequential.valid;
      flow = i.sequential.flow;
      producing = tt;
      consuming = i.sequential.consuming;
    };
    stores = i.stores;
    views = record {
      own_tails = i.views.own_tails;
      own_heads = i.views.own_heads;
      room = i.views.room;
      behind = i.views.behind;
      producer_known = i.views.producer_known;
      consumer_known = i.views.consumer_known;
      producer_sees = subst (ProducerSees cap s.tail.last s.producer_view) e i.views.producer_sees;
      consumer_sees = i.views.consumer_sees;
    };
    stamps = i.stamps;
  }
  Step-Inv {s} (calls_pop e) i = record {
    sequential = record {
      valid = i.sequential.valid;
      flow = i.sequential.flow;
      producing = i.sequential.producing;
      consuming = tt;
    };
    stores = i.stores;
    views = record {
      own_tails = i.views.own_tails;
      own_heads = i.views.own_heads;
      room = i.views.room;
      behind = i.views.behind;
      producer_known = i.views.producer_known;
      consumer_known = i.views.consumer_known;
      producer_sees = i.views.producer_sees;
      consumer_sees = subst (ConsumerSees s.head.last s.consumer_view) e i.views.consumer_sees;
    };
    stamps = i.stamps;
  }

  pub Reach-Inv : {blank : A} {s : System A} → Reach cap blank s → Inv cap s
  Reach-Inv {blank} here = start-Inv blank
  Reach-Inv (next r st) = Step-Inv st (Reach-Inv r)
