-- ===== src/Pool/Ordered/Tests.antt =====
-- A pool of one buffer of include/ringio/detail/buffer_pool.hpp that goes from thread to thread.
use ringio.Base.{ℕ, ◌≤◌, ◌<◌, ◌^◌, ◌≡◌, refl, arith, false, ℕ_discrete, update}
use ringio.Pool.Pack.{pack, unpack_index, unpack_tag, invalid_index}
use ringio.Pool.FreeList.{
  Pc, idle, acquire_load, acquire_next, acquire_cas, acquired, release_load, release_store,
  release_cas, released, acquire_top, init, thread_next,
}
use ringio.Pool.Threads.{OnTime, Timely, pooled, lent, returning}
use ringio.Pool.Threads as Sequential
use ringio.Pool.Ordered.{
  System, Reach, Step, here, next, acts, uses_buffer, calls_acquire, calls_release, access, turn,
  used, start, latest,
}
use ringio.Pool.Ordered.Safety.{buffer_ordered, ordered_issue}

-- Before 2 ^ 32 exchanges every thread is in time.
OnTime-few : (s : Sequential.System) (i : ℕ) (pc : Pc) → s.ops < 2 ^ 32 → OnTime s i pc
OnTime-few s i idle h = tt
OnTime-few s i acquire_load h = tt
OnTime-few s i (acquire_next head) h = omega arith
OnTime-few s i (acquire_cas head link) h = omega arith
OnTime-few s i (acquired x) h = tt
OnTime-few s i (release_load x) h = tt
OnTime-few s i (release_store x head) h = omega arith
OnTime-few s i (release_cas x head) h = omega arith
OnTime-few s i released h = tt

soon : {s t : System} → Reach 1 s → s.free_head.last < 2 ^ 32 → Step 1 s t → Reach 1 t
soon {s} r few st = next r (λ i. OnTime-few (latest s) i (s.threads i) few) st

abbrev go : ℕ → ℕ → System → System
go i k s = turn false k s i

abbrev called : ℕ → Pc → System → System
called i x s = record s { threads = update s.threads i x }

-- Thread 0 has taken the buffer, and uses it.
abbrev lent_out : System
lent_out = go 0 0 (go 0 0 (go 0 0 (go 0 0 (called 0 acquire_load (start 1)))))

abbrev in_use : System
in_use = used lent_out 0 0

-- It gives the buffer back.
abbrev given_back : System
given_back = go 0 1 (
    go 0 0 (
      go 0 1 (record in_use {
        threads = update in_use.threads 0 (release_load 0);
        place = update in_use.place 0 (returning 0);
      })))

-- Thread 1 is about to take it.
abbrev taking : System
taking = go 1 1 (go 1 2 (called 1 acquire_load given_back))

abbrev taken : System
taken = go 1 2 taking

lent_out-Reach : Reach 1 lent_out
unfolding start turn access acquire_top init pack unpack_index unpack_tag thread_next ℕ_discrete
lent_out-Reach =
    soon
      (soon
        (soon
          (soon (soon here (omega arith) (calls_acquire 0 refl)) (omega arith)
            (acts 0 false 0 (omega arith)))
          (omega arith) (acts 0 false 0 (omega arith)))
        (omega arith) (acts 0 false 0 (omega arith)))
      (omega arith) (acts 0 false 0 tt)

given_back-Reach : Reach 1 given_back
unfolding start turn access acquire_top init pack unpack_index unpack_tag thread_next ℕ_discrete
given_back-Reach =
    soon
      (soon
        (soon
          (soon (soon lent_out-Reach (omega arith) (uses_buffer 0 0 refl refl refl)) (omega arith)
            (calls_release 0 0 refl (omega arith) refl refl))
          (omega arith) (acts 0 false 1 (omega arith)))
        (omega arith) (acts 0 false 0 tt))
      (omega arith) (acts 0 false 1 (omega arith))

taking-Reach : Reach 1 taking
unfolding start turn access acquire_top init pack unpack_index unpack_tag thread_next ℕ_discrete
taking-Reach =
    soon
      (soon (soon given_back-Reach (omega arith) (calls_acquire 1 refl)) (omega arith)
        (acts 1 false 2 (omega arith)))
      (omega arith) (acts 1 false 1 (omega arith))

taken-Reach : Reach 1 taken
unfolding start turn access acquire_top init pack unpack_index unpack_tag thread_next ℕ_discrete
taken-Reach = soon taking-Reach (omega arith) (acts 1 false 2 (omega arith))

used_once : taken.uses 0 ≡ 1
unfolding start turn access acquire_top init pack unpack_index unpack_tag thread_next ℕ_discrete
used_once = refl

buffer_ordered_example : taken.uses 0 ≤ (taken.views_of 1).uses 0
unfolding start turn access acquire_top init pack unpack_index unpack_tag thread_next ℕ_discrete
buffer_ordered_example = buffer_ordered (omega arith) (omega arith) taken-Reach 1 0 refl refl

-- The head, whose tag is 2, and the link of the buffer, with which the list ends.
ordered_issue_example :
    let t = turn false 2 taking 1 in
    (taking.place 0 ≡ pooled)
    × (0 < 1)
    × (t.threads 1 ≡ acquired 0)
    × (t.place 0 ≡ lent)
    × (t.holder 0 ≡ 1)
    × (t.uses 0 ≤ (t.views_of 1).uses 0)
unfolding start turn access acquire_top init pack unpack_index unpack_tag thread_next ℕ_discrete
ordered_issue_example =
    ordered_issue (omega arith) (omega arith) taking-Reach 1 2 (pack 0 2) invalid_index refl refl
