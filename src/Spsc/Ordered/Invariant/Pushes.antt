-- ===== src/Spsc/Ordered/Invariant/Pushes.antt =====
-- The producer's accesses keep the invariant.
use ringio.Base.{
  ◌++◌, [], ◌∷◌, ℕ, ◌+◌, ◌-◌, ◌≤◌, ◌<◌, ◌≡◌, ◌∙◌, refl, ap, sym, arith, leb, update_self,
  update_cases, if_cases, subst, max, true, false,
}
use ringio.Base.Word.{u64, sub_u64, IsCapacity, capacity-lt}
use ringio.Spsc.Threads.{Producer}
use ringio.Spsc.Threads.{produce_at as produce_latest}
use ringio.Spsc.Threads.Invariant as Sequential
use ringio.Spsc.Ordered.{View, System, latest, ring, join, MayPush, produce_at}
use ringio.Spsc.Ordered.Invariant.Defs.{Known, Knows, ProducerSees, Inv}
use ringio.Spsc.Ordered.Invariant.Growth.{distance, Known-more, Stamp-next}

module _ {A : Type 0} {cap : ℕ} (c : IsCapacity cap) (s : System A) (i : Inv cap s) where
  open i use {sequential, stores, views, stamps}
  open stores use {head_value, tail_value, head_carries, tail_carries, head_known, tail_known}
  open views use {
    own_tails, own_heads, room, behind, producer_known, consumer_known, producer_sees,
    consumer_sees,
  }

  load_tail-Inv :
      (v : A) (k : ℕ)
      → ProducerSees cap s.tail.last s.producer_view (Producer.load_tail v)
      → MayPush s k (Producer.load_tail v)
      → Inv cap (produce_at cap s k (Producer.load_tail v))
  unfolding produce_at
  load_tail-Inv v k sees (le, ge) =
      let same : k ≡ s.tail.last = omega (arith, own_tails) in
      record {
        sequential = record {
          valid = sequential.valid;
          flow = sequential.flow;
          producing = ap s.tail.value same;
          consuming = sequential.consuming;
        };
        stores = stores;
        views = record {
          own_tails = same;
          own_heads = own_heads;
          room = room;
          behind = behind;
          producer_known = record {
            heads_done = producer_known.heads_done;
            tails_done = ge;
            writes_done = producer_known.writes_done;
            reads_done = producer_known.reads_done;
            after_reads = producer_known.after_reads;
            after_writes = omega (arith, producer_known.after_writes, own_tails);
          };
          consumer_known = consumer_known;
          producer_sees = sees;
          consumer_sees = consumer_sees;
        };
        stamps = stamps;
      }

  -- A load of the head, stale or not, that lets the push go on.
  may_write :
      (t k : ℕ)
      → s.producer_view.heads ≤ k
      → k ≤ s.head.last
      → t ≡ s.tail.value s.tail.last
      → leb cap (sub_u64 t (s.head.value k)) ≡ false
      → (s.tail.last < k + cap)
        × (sub_u64 (s.tail.value s.tail.last) (s.head.value s.head.last) < cap)
  may_write t k le ge e open_slot =
      let far : sub_u64 (u64 s.tail.last) (u64 k) ≡ s.tail.last - k =
        distance (s.tail.last) k (omega (arith, behind, consumer_known.tails_done))
          (omega (arith, room, capacity-lt c)) in
      let near : sub_u64 (u64 s.tail.last) (u64 s.head.last) ≡ s.tail.last - s.head.last =
        distance (s.tail.last) (s.head.last) (omega (arith, behind, consumer_known.tails_done))
          (omega (arith, room, capacity-lt c)) in
      let open_here : sub_u64 t (s.head.value k) < cap = ground arith in
      let last_tail : s.tail.value s.tail.last ≡ u64 s.tail.last =
        tail_value s.tail.last (omega arith) in
      let last_head : s.head.value s.head.last ≡ u64 s.head.last =
        head_value s.head.last (omega arith) in
      let seen : s.head.value k ≡ u64 k = head_value k ge in
      let gap : s.tail.last - k < cap = rw (← far, ← last_tail, ← e, ← seen) open_here in
      (
        omega (arith, behind, consumer_known.tails_done),
        rw (last_tail, last_head, near) (omega arith),
      )

  load_head-Inv :
      (v : A) (t k : ℕ)
      → Sequential.ProducerFits cap (ring s) (Producer.load_head v t)
      → ProducerSees cap s.tail.last s.producer_view (Producer.load_head v t)
      → MayPush s k (Producer.load_head v t)
      → Inv cap (produce_at cap s k (Producer.load_head v t))
  unfolding produce_at
  load_head-Inv v t k fits sees (le, ge) =
      let w : View = s.head.view k in
      let w_known : Knows s w = head_known k ge in
      let old : View = s.producer_view in
      let writes_same : max old.writes w.writes ≡ old.writes = omega (arith, w_known.writes_done) in
      record {
        sequential = record {
          valid = sequential.valid;
          flow = sequential.flow;
          producing =
              if_cases (Sequential.ProducerFits cap (ring s)) (leb cap (sub_u64 t (s.head.value k)))
                (Producer.returned false) (Producer.write_slot v t) (λ _. tt)
                (λ e. (fits, (may_write t k le ge fits e).1));
          consuming = sequential.consuming;
        };
        stores = rw writes_same stores;
        views = record {
          own_tails = omega (arith, own_tails, w_known.tails_done);
          own_heads = own_heads;
          room = omega (arith, room);
          behind = behind;
          producer_known = rw writes_same (record {
            heads_done = omega (arith, w_known.heads_done);
            tails_done = omega (arith, w_known.tails_done, producer_known.tails_done);
            writes_done = omega arith;
            reads_done = omega (arith, w_known.reads_done, producer_known.reads_done);
            after_reads = omega (arith, w_known.after_reads, head_carries k ge);
            after_writes =
                omega
                  (arith, w_known.after_writes, w_known.writes_done, producer_known.after_writes);
          });
          consumer_known = rw writes_same consumer_known;
          producer_sees =
              if_cases (ProducerSees cap s.tail.last (join (record old { heads = k }) w))
                (leb cap (sub_u64 t (s.head.value k))) (Producer.returned false)
                (Producer.write_slot v t) (λ _. writes_same ∙ sees)
                (λ e. (writes_same ∙ sees, omega (arith, (may_write t k le ge fits e).0)));
          consumer_sees = consumer_sees;
        };
        stamps = rw writes_same stamps;
      }

  write_slot-Inv :
      (v : A) (t k : ℕ)
      → Sequential.ProducerFits cap (ring s) (Producer.write_slot v t)
      → ProducerSees cap s.tail.last s.producer_view (Producer.write_slot v t)
      → Inv cap (produce_at cap s k (Producer.write_slot v t))
  unfolding produce_at produce_latest
  write_slot-Inv v t k fits (sees, free) =
      let position : t ≡ u64 s.producer_view.writes =
        fits.0 ∙ tail_value s.tail.last (omega arith) ∙ ap u64 (sym sees) in
      record {
        sequential =
            Sequential.produce_at-Inv c (latest s) (Producer.write_slot v t) fits sequential;
        stores = record {
          head_value = head_value;
          tail_value = tail_value;
          head_carries = head_carries;
          tail_carries = tail_carries;
          head_known = λ n le.
              Known-more (omega arith) (omega arith) (omega arith) (omega arith) (head_known n le);
          tail_known = λ n le.
              Known-more (omega arith) (omega arith) (omega arith) (omega arith) (tail_known n le);
        };
        views = record {
          own_tails = own_tails;
          own_heads = own_heads;
          room = room;
          behind = behind;
          producer_known = record {
            heads_done = producer_known.heads_done;
            tails_done = producer_known.tails_done;
            writes_done = omega arith;
            reads_done = producer_known.reads_done;
            after_reads = producer_known.after_reads;
            after_writes = omega (arith, producer_known.after_writes);
          };
          consumer_known =
              Known-more (omega arith) (omega arith) (omega arith) (omega arith) consumer_known;
          producer_sees = (omega (arith, sees), free);
          consumer_sees = consumer_sees;
        };
        stamps = record {
          written_fits =
              Stamp-next c s.producer_view.writes t s.written position stamps.written_fits;
          read_fits = stamps.read_fits;
        };
      }

  store_tail-Inv :
      (v : A) (t k : ℕ)
      → Sequential.ProducerFits cap (ring s) (Producer.store_tail v t)
      → ProducerSees cap s.tail.last s.producer_view (Producer.store_tail v t)
      → Inv cap (produce_at cap s k (Producer.store_tail v t))
  unfolding produce_at produce_latest
  store_tail-Inv v t k fits (sees, free) =
      let last_tail : s.tail.value s.tail.last ≡ u64 s.tail.last =
        tail_value s.tail.last (omega arith) in
      let number : u64 (t + 1) ≡ u64 (s.tail.last + 1) = omega (arith, fits.0, last_tail) in
      let view : View = record (s.producer_view) { tails = s.tail.last + 1 } in
      let view_known : Known s.head.last (s.tail.last + 1) s.producer_view.writes
          s.consumer_view.reads view =
        record {
          heads_done = producer_known.heads_done;
          tails_done = omega arith;
          writes_done = omega arith;
          reads_done = producer_known.reads_done;
          after_reads = producer_known.after_reads;
          after_writes = omega (arith, sees);
        } in
      record {
        sequential =
            subst
              (λ x. Sequential.Inv cap (record (latest s) {
                ring = record (ring s) { tail = x };
                producer = Producer.returned true;
                sent = s.sent ++ (v ∷ []);
              }))
              (sym (update_self s.tail.value (s.tail.last + 1) (u64 (t + 1))))
              (Sequential.produce_at-Inv c (latest s) (Producer.store_tail v t) fits sequential);
        stores = record {
          head_value = head_value;
          tail_value = λ n le.
              update_cases (λ x. x ≡ u64 n) s.tail.value (s.tail.last + 1) (u64 (t + 1)) n
                (λ same. number ∙ ap u64 same) (λ other. tail_value n (omega arith));
          head_carries = head_carries;
          tail_carries = λ n le.
              update_cases (λ w. n ≤ w.writes) s.tail.view (s.tail.last + 1) view n
                (λ same. omega (arith, sees)) (λ other. tail_carries n (omega arith));
          head_known = λ n le.
              Known-more (omega arith) (omega arith) (omega arith) (omega arith) (head_known n le);
          tail_known = λ n le.
              update_cases
                (Known s.head.last (s.tail.last + 1) s.producer_view.writes s.consumer_view.reads)
                s.tail.view (s.tail.last + 1) view n (λ same. view_known)
                (λ other.
                  Known-more (omega arith) (omega arith) (omega arith) (omega arith)
                    (tail_known n (omega arith)));
        };
        views = record {
          own_tails = refl;
          own_heads = own_heads;
          room = omega arith;
          behind = behind;
          producer_known = view_known;
          consumer_known =
              Known-more (omega arith) (omega arith) (omega arith) (omega arith) consumer_known;
          producer_sees = sees;
          consumer_sees = consumer_sees;
        };
        stamps = stamps;
      }

  -- Every access of the producer keeps the invariant, whichever store its load returns.
  pub produce_at-Inv :
      (x : Producer A) (k : ℕ)
      → Sequential.ProducerFits cap (ring s) x
      → ProducerSees cap s.tail.last s.producer_view x
      → MayPush s k x
      → Inv cap (produce_at cap s k x)
  unfolding produce_at produce_latest
  produce_at-Inv Producer.idle k fits sees may = i
  produce_at-Inv (Producer.load_tail v) k fits sees may = load_tail-Inv v k sees may
  produce_at-Inv (Producer.load_head v t) k fits sees may = load_head-Inv v t k fits sees may
  produce_at-Inv (Producer.write_slot v t) k fits sees may = write_slot-Inv v t k fits sees
  produce_at-Inv (Producer.store_tail v t) k fits sees may = store_tail-Inv v t k fits sees
  produce_at-Inv (Producer.returned b) k fits sees may = record {
    sequential = Sequential.produce_at-Inv c (latest s) (Producer.returned b) tt sequential;
    stores = stores;
    views = record {
      own_tails = own_tails;
      own_heads = own_heads;
      room = room;
      behind = behind;
      producer_known = producer_known;
      consumer_known = consumer_known;
      producer_sees = sees;
      consumer_sees = consumer_sees;
    };
    stamps = stamps;
  }
