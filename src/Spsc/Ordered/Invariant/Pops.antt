-- ===== src/Spsc/Ordered/Invariant/Pops.antt =====
-- The consumer's accesses keep the invariant.
use ringio.Base.{
  ◌==◌, some, none, ◌++◌, [], ◌∷◌, ℕ, ◌+◌, ◌-◌, ◌≤◌, ◌<◌, ◌≡◌, ◌≢◌, ◌∙◌, refl, ap, sym, arith,
  update_self, update_cases, if_cases, ℕ_discrete, subst, max, false,
}
use ringio.Base.Word.{u64, sub_u64, IsCapacity, capacity-lt}
use ringio.Spsc.Threads.{Consumer}
use ringio.Spsc.Threads.{consume_at as consume_latest}
use ringio.Spsc.Threads.Invariant as Sequential
use ringio.Spsc.Ordered.{View, System, latest, ring, join, MayPop, consume_at}
use ringio.Spsc.Ordered.Invariant.Defs.{Known, Knows, ConsumerSees, Inv}
use ringio.Spsc.Ordered.Invariant.Growth.{distance, Known-more, Stamp-next}

module _ {A : Type 0} {cap : ℕ} (c : IsCapacity cap) (s : System A) (i : Inv cap s) where
  open i use {sequential, stores, views, stamps}
  open stores use {head_value, tail_value, head_carries, tail_carries, head_known, tail_known}
  open views use {
    own_tails, own_heads, room, behind, producer_known, consumer_known, producer_sees,
    consumer_sees,
  }

  load_head-Inv :
      (k : ℕ)
      → ConsumerSees {A = A} s.head.last s.consumer_view Consumer.load_head
      → MayPop s k Consumer.load_head
      → Inv cap (consume_at cap s k Consumer.load_head)
  unfolding consume_at
  load_head-Inv k sees (le, ge) =
      let same : k ≡ s.head.last = omega (arith, own_heads) in
      record {
        sequential = record {
          valid = sequential.valid;
          flow = sequential.flow;
          producing = sequential.producing;
          consuming = ap s.head.value same;
        };
        stores = stores;
        views = record {
          own_tails = own_tails;
          own_heads = same;
          room = room;
          behind = behind;
          producer_known = producer_known;
          consumer_known = record {
            heads_done = ge;
            tails_done = consumer_known.tails_done;
            writes_done = consumer_known.writes_done;
            reads_done = consumer_known.reads_done;
            after_reads = omega (arith, consumer_known.after_reads, own_heads);
            after_writes = consumer_known.after_writes;
          };
          producer_sees = producer_sees;
          consumer_sees = sees;
        };
        stamps = stamps;
      }

  -- A load of the tail, stale or not, that lets the pop go on.
  may_read :
      (h k : ℕ)
      → s.consumer_view.tails ≤ k
      → k ≤ s.tail.last
      → h ≡ s.head.value s.head.last
      → (h == s.tail.value k) ≡ false
      → (s.head.last < k) × (1 ≤ sub_u64 (s.tail.value s.tail.last) (s.head.value s.head.last))
  may_read h k le ge e some_value =
      let near : sub_u64 (u64 s.tail.last) (u64 s.head.last) ≡ s.tail.last - s.head.last =
        distance (s.tail.last) (s.head.last) (omega (arith, behind))
          (omega (arith, room, producer_known.heads_done, capacity-lt c)) in
      let last_tail : s.tail.value s.tail.last ≡ u64 s.tail.last =
        tail_value s.tail.last (omega arith) in
      let last_head : s.head.value s.head.last ≡ u64 s.head.last =
        head_value s.head.last (omega arith) in
      let seen : s.tail.value k ≡ u64 k = tail_value k ge in
      let apart : h ≢ s.tail.value k = λ same. ground arith in
      let gap : s.head.last < k = elim (ℕ_discrete s.head.last k) [
        | yes same ↦ absurd (apart (e ∙ last_head ∙ ap u64 same ∙ sym seen))
        | no other ↦ omega (arith, behind)
      ] in
      (gap, rw (last_tail, last_head, near) (omega arith))

  load_tail-Inv :
      (h k : ℕ)
      → Sequential.ConsumerFits cap (ring s) (Consumer.load_tail h)
      → ConsumerSees {A = A} s.head.last s.consumer_view (Consumer.load_tail h)
      → MayPop s k (Consumer.load_tail h)
      → Inv cap (consume_at cap s k (Consumer.load_tail h))
  unfolding consume_at
  load_tail-Inv h k fits sees (le, ge) =
      let w : View = s.tail.view k in
      let w_known : Knows s w = tail_known k ge in
      let old : View = s.consumer_view in
      let reads_same : max old.reads w.reads ≡ old.reads = omega (arith, w_known.reads_done) in
      record {
        sequential = record {
          valid = sequential.valid;
          flow = sequential.flow;
          producing = sequential.producing;
          consuming =
              if_cases (Sequential.ConsumerFits cap (ring s)) (h == s.tail.value k)
                (Consumer.returned none) (Consumer.read_slot h) (λ _. tt)
                (λ e. (fits, (may_read h k le ge fits e).1));
        };
        stores = rw reads_same stores;
        views = record {
          own_tails = own_tails;
          own_heads = omega (arith, own_heads, w_known.heads_done);
          room = room;
          behind = omega (arith, behind);
          producer_known = rw reads_same producer_known;
          consumer_known = rw reads_same (record {
            heads_done = omega (arith, w_known.heads_done, consumer_known.heads_done);
            tails_done = omega (arith, w_known.tails_done);
            writes_done = omega (arith, w_known.writes_done, consumer_known.writes_done);
            reads_done = omega arith;
            after_reads =
                omega (arith, w_known.after_reads, w_known.reads_done, consumer_known.after_reads);
            after_writes = omega (arith, w_known.after_writes, tail_carries k ge);
          });
          producer_sees = producer_sees;
          consumer_sees =
              if_cases (ConsumerSees {A = A} s.head.last (join (record old { tails = k }) w))
                (h == s.tail.value k) (Consumer.returned none) (Consumer.read_slot h)
                (λ _. reads_same ∙ sees)
                (λ e. (reads_same ∙ sees, omega (arith, (may_read h k le ge fits e).0)));
        };
        stamps = rw reads_same stamps;
      }

  read_slot-Inv :
      (h k : ℕ)
      → Sequential.ConsumerFits cap (ring s) (Consumer.read_slot h)
      → ConsumerSees {A = A} s.head.last s.consumer_view (Consumer.read_slot h)
      → Inv cap (consume_at cap s k (Consumer.read_slot h))
  unfolding consume_at consume_latest
  read_slot-Inv h k fits (sees, some_value) =
      let position : h ≡ u64 s.consumer_view.reads =
        fits.0 ∙ head_value s.head.last (omega arith) ∙ ap u64 (sym sees) in
      record {
        sequential = Sequential.consume_at-Inv c (latest s) (Consumer.read_slot h) fits sequential;
        stores = record {
          head_value = head_value;
          tail_value = tail_value;
          head_carries = head_carries;
          tail_carries = tail_carries;
          head_known = λ n le.
              Known-more (omega arith) (omega arith) (omega arith) (omega arith) (head_known n le);
          tail_known = λ n le.
              Known-more (omega arith) (omega arith) (omega arith) (omega arith) (tail_known n le);
        };
        views = record {
          own_tails = own_tails;
          own_heads = own_heads;
          room = room;
          behind = behind;
          producer_known =
              Known-more (omega arith) (omega arith) (omega arith) (omega arith) producer_known;
          consumer_known = record {
            heads_done = consumer_known.heads_done;
            tails_done = consumer_known.tails_done;
            writes_done = consumer_known.writes_done;
            reads_done = omega arith;
            after_reads = omega (arith, consumer_known.after_reads);
            after_writes = consumer_known.after_writes;
          };
          producer_sees = producer_sees;
          consumer_sees = (omega (arith, sees), some_value);
        };
        stamps = record {
          written_fits = stamps.written_fits;
          read_fits = Stamp-next c s.consumer_view.reads h s.read position stamps.read_fits;
        };
      }

  store_head-Inv :
      (v : A) (h k : ℕ)
      → Sequential.ConsumerFits cap (ring s) (Consumer.store_head v h)
      → ConsumerSees {A = A} s.head.last s.consumer_view (Consumer.store_head v h)
      → Inv cap (consume_at cap s k (Consumer.store_head v h))
  unfolding consume_at consume_latest
  store_head-Inv v h k fits (sees, some_value) =
      let last_head : s.head.value s.head.last ≡ u64 s.head.last =
        head_value s.head.last (omega arith) in
      let number : u64 (h + 1) ≡ u64 (s.head.last + 1) = omega (arith, fits.0, last_head) in
      let view : View = record (s.consumer_view) { heads = s.head.last + 1 } in
      let view_known : Known (s.head.last + 1) s.tail.last s.producer_view.writes
          s.consumer_view.reads view =
        record {
          heads_done = omega arith;
          tails_done = consumer_known.tails_done;
          writes_done = consumer_known.writes_done;
          reads_done = omega arith;
          after_reads = omega (arith, sees);
          after_writes = consumer_known.after_writes;
        } in
      record {
        sequential =
            subst
              (λ x. Sequential.Inv cap (record (latest s) {
                ring = record (ring s) { head = x };
                consumer = Consumer.returned (some v);
                received = s.received ++ (v ∷ []);
              }))
              (sym (update_self s.head.value (s.head.last + 1) (u64 (h + 1))))
              (Sequential.consume_at-Inv c (latest s) (Consumer.store_head v h) fits sequential);
        stores = record {
          head_value = λ n le.
              update_cases (λ x. x ≡ u64 n) s.head.value (s.head.last + 1) (u64 (h + 1)) n
                (λ same. number ∙ ap u64 same) (λ other. head_value n (omega arith));
          tail_value = tail_value;
          head_carries = λ n le.
              update_cases (λ w. n ≤ w.reads) s.head.view (s.head.last + 1) view n
                (λ same. omega (arith, sees)) (λ other. head_carries n (omega arith));
          tail_carries = tail_carries;
          head_known = λ n le.
              update_cases
                (Known (s.head.last + 1) s.tail.last s.producer_view.writes s.consumer_view.reads)
                s.head.view (s.head.last + 1) view n (λ same. view_known)
                (λ other.
                  Known-more (omega arith) (omega arith) (omega arith) (omega arith)
                    (head_known n (omega arith)));
          tail_known = λ n le.
              Known-more (omega arith) (omega arith) (omega arith) (omega arith) (tail_known n le);
        };
        views = record {
          own_tails = own_tails;
          own_heads = refl;
          room = room;
          behind = omega arith;
          producer_known =
              Known-more (omega arith) (omega arith) (omega arith) (omega arith) producer_known;
          consumer_known = view_known;
          producer_sees = producer_sees;
          consumer_sees = sees;
        };
        stamps = stamps;
      }

  -- Every access of the consumer keeps the invariant, whichever store its load returns.
  pub consume_at-Inv :
      (x : Consumer A) (k : ℕ)
      → Sequential.ConsumerFits cap (ring s) x
      → ConsumerSees {A = A} s.head.last s.consumer_view x
      → MayPop s k x
      → Inv cap (consume_at cap s k x)
  unfolding consume_at consume_latest
  consume_at-Inv Consumer.idle k fits sees may = i
  consume_at-Inv Consumer.load_head k fits sees may = load_head-Inv k sees may
  consume_at-Inv (Consumer.load_tail h) k fits sees may = load_tail-Inv h k fits sees may
  consume_at-Inv (Consumer.read_slot h) k fits sees may = read_slot-Inv h k fits sees
  consume_at-Inv (Consumer.store_head v h) k fits sees may = store_head-Inv v h k fits sees
  consume_at-Inv (Consumer.returned out) k fits sees may = record {
    sequential = Sequential.consume_at-Inv c (latest s) (Consumer.returned out) tt sequential;
    stores = stores;
    views = record {
      own_tails = own_tails;
      own_heads = own_heads;
      room = room;
      behind = behind;
      producer_known = producer_known;
      consumer_known = consumer_known;
      producer_sees = producer_sees;
      consumer_sees = sees;
    };
    stamps = stamps;
  }
