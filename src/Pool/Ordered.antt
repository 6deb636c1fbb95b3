-- ===== src/Pool/Ordered.antt =====
-- Any number of threads over the free list of include/ringio/detail/buffer_pool.hpp in the memory of
-- the C++ standard, with the orders that the code asks for, and with the uses that the threads make
-- of the buffers that they were lent.
pub mod Invariant
pub mod Safety
mod Tests
use ringio.Base.{
  ℕ, ◌+◌, ◌≤◌, ◌<◌, ◌^◌, ◌≡◌, Bool, ◌&&◌, not, List, ◌∷◌, ◌==◌, if◌then◌else◌, update, max,
}
use ringio.Base.Word.{u32}
use ringio.Memory.{relaxed, acquire, acq_rel, Knowledge, Atomic, initial, loaded, store}
use ringio.Pool.Pack.{pack, unpack_index, unpack_tag}
use ringio.Pool.FreeList.{Pc, acquire_top, init}
use ringio.Pool.Threads.{Place, pooled, lent, returning, rest, countdown}
use ringio.Pool.Threads as Sequential

-- What happens before a thread's next access: the stores to the head and to each link, by their
-- number, and how many of the uses of each buffer.
pub record View : Type 0 where
  pub heads : ℕ
  pub links : ℕ → ℕ
  pub uses : ℕ → ℕ

abbrev pub no_view : View
no_view = record { heads = 0; links = λ _. 0; uses = λ _. 0 }

abbrev pub join : View → View → View
join a b = record {
  heads = max a.heads b.heads;
  links = λ i. max (a.links i) (b.links i);
  uses = λ i. max (a.uses i) (b.uses i);
}

abbrev pub views : Knowledge View
views = record { nothing = no_view; join = join }

-- `uses` counts the uses of each buffer, which is also how a view names the last of them: while there
-- is no race, each happens after the one before it. `holder` is the thread that a buffer was lent to,
-- and `seen` the number of the store that a thread's last load of the head returned.
pub record System : Type 0 where
  pub free_head : Atomic View
  pub free_next : ℕ → Atomic View
  pub uses : ℕ → ℕ
  pub threads : ℕ → Pc
  pub views_of : ℕ → View
  pub place : ℕ → Place
  pub holder : ℕ → ℕ
  pub stack : List ℕ
  pub seen : ℕ → ℕ

-- The last value of an atomic variable.
abbrev pub now : Atomic View → ℕ
now m = m.value m.last

-- Thread `i` goes on at `x`, with view `v`.
abbrev pub goes_on : System → ℕ → Pc → View → System
goes_on s i x v = record s { threads = update s.threads i x; views_of = update s.views_of i v }

-- The same after a load of store `k` of the head.
abbrev pub has_seen : System → ℕ → ℕ → Pc → View → System
has_seen s i k x v = record (goes_on s i x v) { seen = update s.seen i k }

-- The stores that a load may return: none that the thread knows to be overwritten.
abbrev pub Visible : ℕ → ℕ → Atomic View → Type 0
Visible known k m = (known ≤ k) × (k ≤ m.last)

abbrev pub MayAct : System → ℕ → View → Pc → Type 0
MayAct s k v Pc.acquire_load = Visible v.heads k s.free_head
MayAct s k v (Pc.acquire_next head) =
    Visible (v.links (unpack_index head)) k (s.free_next (unpack_index head))
MayAct s k v (Pc.acquire_cas head next) = Visible v.heads k s.free_head
MayAct s k v (Pc.release_load x) = Visible v.heads k s.free_head
MayAct s k v (Pc.release_cas x head) = Visible v.heads k s.free_head
MayAct s k v _ = Unit

-- A thread with view `v` has loaded store `k` of the head, in the order that is given.
abbrev pub acquired_head : System → ℕ → View → View
acquired_head s k v = loaded views acquire (s.free_head.view k) (record v { heads = k })

-- What the exchange of the head knows and carries.
abbrev pub exchanged : System → View → View
exchanged s v =
    loaded views acq_rel (s.free_head.view s.free_head.last)
      (record v { heads = s.free_head.last + 1 })

-- One access of thread `i`, which knows `v`, inside `acquire` or `release`; `k` is the number of the
-- store that a load returns, and `spurious` says that a weak compare-exchange fails although the
-- values agree. A compare-exchange that succeeds has read the last store.
unfoldable pub access : Bool → ℕ → System → ℕ → View → Pc → System
access spurious k s i v Pc.idle = goes_on s i Pc.idle v
access spurious k s i v Pc.acquire_load =
    has_seen s i k (acquire_top (s.free_head.value k)) (acquired_head s k v)
access spurious k s i v (Pc.acquire_next head) =
    let x = unpack_index head in
    goes_on s i (Pc.acquire_cas head ((s.free_next x).value k))
      (loaded views relaxed ((s.free_next x).view k) (record v { links = update v.links x k }))
access spurious k s i v (Pc.acquire_cas head next) =
    if now s.free_head == head && not spurious
    then (let x = unpack_index head in
        record (goes_on s i (Pc.acquired x) (exchanged s v)) {
          free_head =
              store views acq_rel (exchanged s v) (pack next (u32 (unpack_tag head + 1)))
                s.free_head;
          place = update s.place x lent;
          holder = update s.holder x i;
          stack = rest s.stack;
        })
    else has_seen s i k (acquire_top (s.free_head.value k)) (acquired_head s k v)
access spurious k s i v (Pc.acquired x) = goes_on s i Pc.idle v
access spurious k s i v (Pc.release_load x) =
    has_seen s i k (Pc.release_store x (s.free_head.value k))
      (loaded views relaxed (s.free_head.view k) (record v { heads = k }))
access spurious k s i v (Pc.release_store x head) =
    let view = record v { links = update v.links x ((s.free_next x).last + 1) } in
    record (goes_on s i (Pc.release_cas x head) view) {
      free_next =
          update s.free_next x (store views relaxed view (unpack_index head) (s.free_next x));
    }
access spurious k s i v (Pc.release_cas x head) =
    if now s.free_head == head && not spurious
    then record (goes_on s i Pc.released (exchanged s v)) {
      free_head =
          store views acq_rel (exchanged s v) (pack x (u32 (unpack_tag head + 1))) s.free_head;
      place = update s.place x pooled;
      stack = x ∷ s.stack;
    }
    else has_seen s i k (Pc.release_store x (s.free_head.value k))
        (loaded views relaxed (s.free_head.view k) (record v { heads = k }))
access spurious k s i v Pc.released = goes_on s i Pc.idle v

unfoldable pub turn : Bool → ℕ → System → ℕ → System
unfolding access
turn spurious k s i = access spurious k s i (s.views_of i) (s.threads i)

-- Thread `i` uses buffer `x`.
abbrev pub used : System → ℕ → ℕ → System
used s i x = record s {
  uses = update s.uses x (s.uses x + 1);
  views_of =
      update s.views_of i
        (record (s.views_of i) { uses = update (s.views_of i).uses x (s.uses x + 1) });
}

-- A thread uses, and returns, only buffers that it was lent itself.
pub data Step (count : ℕ) (s : System) : System → Type 0 where
  acts :
      (i : ℕ) (spurious : Bool) (k : ℕ)
      → MayAct s k (s.views_of i) (s.threads i)
      → Step count s (turn spurious k s i)
  uses_buffer :
      (i x : ℕ)
      → s.threads i ≡ Pc.idle
      → s.place x ≡ lent
      → s.holder x ≡ i
      → Step count s (used s i x)
  calls_acquire :
      (i : ℕ)
      → s.threads i ≡ Pc.idle
      → Step count s (record s { threads = update s.threads i Pc.acquire_load })
  calls_release :
      (i x : ℕ)
      → s.threads i ≡ Pc.idle
      → x < count
      → s.place x ≡ lent
      → s.holder x ≡ i
      → Step count s (record s {
        threads = update s.threads i (Pc.release_load x);
        place = update s.place x (returning i);
      })

-- The constructor's stores are relaxed; it is done before there are threads.
unfoldable pub start : ℕ → System
unfolding init
start count = record {
  free_head = initial views (init count).free_head;
  free_next = λ i. initial views ((init count).free_next i);
  uses = λ _. 0;
  threads = λ _. Pc.idle;
  views_of = λ _. no_view;
  place = λ _. pooled;
  holder = λ _. 0;
  stack = countdown count;
  seen = λ _. 0;
}

-- The same threads in a sequentially consistent memory; the head's stores count the exchanges.
abbrev pub latest : System → Sequential.System
latest s = record {
  list = record { free_head = now s.free_head; free_next = λ i. now (s.free_next i) };
  threads = s.threads;
  place = s.place;
  stack = s.stack;
  ops = s.free_head.last;
  seen = s.seen;
}

-- What the threads of a pool of `count` buffers lead to, whichever stores their loads return, while no
-- thread is overtaken by 2 ^ 32 exchanges between the head that it loaded and its exchange.
pub data Reach (count : ℕ) : System → Type 0 where
  here : Reach count (start count)
  next :
      {s t : System} → Reach count s → Sequential.Timely (latest s) → Step count s t → Reach count t
