-- ===== src/Pool/Threads.antt =====
-- Any number of threads over one free list, interleaved in any order, with the history of the
-- buffers.
pub mod Invariant
use ringio.Base.{ℕ, zero, suc, ◌+◌, ◌<◌, ◌^◌, ◌≡◌, Bool, List, [], ◌∷◌, update}
use ringio.Pool.FreeList.{
  FreeList, Pc, idle, acquire_load, acquire_next, acquire_cas, acquired, release_load,
  release_store, release_cas, released, Event, quiet, loaded, took, gave, access, init,
}

-- Where a buffer is: in the pool, with a caller of `acquire`, or on its way back in a thread's call
-- of `release`.
pub data Place : Type 0 where
  pooled : Place
  lent : Place
  returning : ℕ → Place

-- `stack` is the free list as the exchanges so far make it, `ops` counts them, and `seen` is the
-- count at each thread's last load of the head.
pub record System : Type 0 where
  pub list : FreeList
  pub threads : ℕ → Pc
  pub place : ℕ → Place
  pub stack : List ℕ
  pub ops : ℕ
  pub seen : ℕ → ℕ

abbrev pub rest : List ℕ → List ℕ
rest [] = []
rest (x ∷ xs) = xs

abbrev pub record_place : Event → (ℕ → Place) → ℕ → Place
record_place quiet f = f
record_place loaded f = f
record_place (took x) f = update f x lent
record_place (gave x) f = update f x pooled

abbrev pub record_stack : Event → List ℕ → List ℕ
record_stack quiet l = l
record_stack loaded l = l
record_stack (took x) l = rest l
record_stack (gave x) l = x ∷ l

abbrev pub record_ops : Event → ℕ → ℕ
record_ops quiet n = n
record_ops loaded n = n
record_ops (took x) n = n + 1
record_ops (gave x) n = n + 1

abbrev pub record_seen : Event → ℕ → ℕ → (ℕ → ℕ) → ℕ → ℕ
record_seen quiet i n f = f
record_seen loaded i n f = update f i n
record_seen (took x) i n f = f
record_seen (gave x) i n f = f

-- Thread `i` goes on with the outcome of its access.
abbrev pub commit : System → ℕ → FreeList × Pc × Event → System
commit s i r = record {
  list = r.0;
  threads = update s.threads i r.1;
  place = record_place r.2 s.place;
  stack = record_stack r.2 s.stack;
  ops = record_ops r.2 s.ops;
  seen = record_seen r.2 i s.ops s.seen;
}

abbrev pub countdown : ℕ → List ℕ
countdown zero = []
countdown (suc n) = n ∷ countdown n

unfoldable pub start : ℕ → System
start count = record {
  list = init count;
  threads = λ _. idle;
  place = λ _. pooled;
  stack = countdown count;
  ops = 0;
  seen = λ _. 0;
}

unfoldable pub turn : Bool → System → ℕ → System
turn spurious s i = commit s i (access spurious s.list (s.threads i))

-- Only a buffer that is lent may be released.
pub data Step (count : ℕ) (s : System) : System → Type 0 where
  acts : (i : ℕ) (spurious : Bool) → Step count s (turn spurious s i)
  calls_acquire :
      (i : ℕ)
      → s.threads i ≡ idle
      → Step count s (record s { threads = update s.threads i acquire_load })
  calls_release :
      (i x : ℕ)
      → s.threads i ≡ idle
      → x < count
      → s.place x ≡ lent
      → Step count s (record s {
        threads = update s.threads i (release_load x);
        place = update s.place x (returning i);
      })

-- A thread between its load of the head and its exchange has not been overtaken by a whole cycle of
-- the tag, 2 ^ 32 exchanges.
abbrev pub OnTime : System → ℕ → Pc → Type 0
OnTime s i (acquire_next head) = s.ops < s.seen i + 2 ^ 32
OnTime s i (acquire_cas head next) = s.ops < s.seen i + 2 ^ 32
OnTime s i (release_store x head) = s.ops < s.seen i + 2 ^ 32
OnTime s i (release_cas x head) = s.ops < s.seen i + 2 ^ 32
OnTime s i _ = Unit

abbrev pub Timely : System → Type 0
Timely s = (i : ℕ) → OnTime s i (s.threads i)

-- What the threads of a pool of `count` buffers lead to, every state on the way timely.
pub data Reach (count : ℕ) : System → Type 0 where
  here : Reach count (start count)
  next : {s t : System} → Reach count s → Timely s → Step count s t → Reach count t
