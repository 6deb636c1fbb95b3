-- ===== src/Pool/FreeList.antt =====
-- `acquire` and `release`: a thread's accesses to the free list, one at a time, in a sequentially
-- consistent memory.
use ringio.Base.{ℕ, zero, suc, ◌+◌, ◌-◌, Bool, ◌&&◌, not, ◌==◌, if◌then◌else◌, update}
use ringio.Base.Word.{u32}
use ringio.Pool.Pack.{pack, unpack_index, unpack_tag, invalid_index}

-- `free_head_` and `free_next_`.
pub record FreeList : Type 0 where
  pub free_head : ℕ
  pub free_next : ℕ → ℕ

-- The access that a thread makes next, with the locals that are live there.
pub data Pc : Type 0 where
  idle : Pc
  acquire_load : Pc
  acquire_next : (head : ℕ) → Pc
  acquire_cas : (head : ℕ) → (next : ℕ) → Pc
  acquired : (index : ℕ) → Pc
  release_load : (index : ℕ) → Pc
  release_store : (index : ℕ) → (head : ℕ) → Pc
  release_cas : (index : ℕ) → (head : ℕ) → Pc
  released : Pc

-- What an access adds to the history: the head was loaded, an index was taken off the list or put
-- back.
pub data Event : Type 0 where
  quiet : Event
  loaded : Event
  took : ℕ → Event
  gave : ℕ → Event

-- The head of the loop of `acquire`.
unfoldable pub acquire_top : ℕ → Pc
acquire_top head =
    if unpack_index head == invalid_index then Pc.acquired invalid_index else Pc.acquire_next head

unfoldable pub access : Bool → FreeList → Pc → FreeList × Pc × Event
unfolding acquire_top
access spurious m Pc.idle = (m, Pc.idle, Event.quiet)
access spurious m Pc.acquire_load = (m, acquire_top m.free_head, Event.loaded)
access spurious m (Pc.acquire_next head) =
    (m, Pc.acquire_cas head (m.free_next (unpack_index head)), Event.quiet)
access spurious m (Pc.acquire_cas head next) =
    if m.free_head == head && not spurious
    then (
      record m { free_head = pack next (u32 (unpack_tag head + 1)) },
      Pc.acquired (unpack_index head),
      Event.took (unpack_index head),
    )
    else (m, acquire_top m.free_head, Event.loaded)
access spurious m (Pc.acquired index) = (m, Pc.idle, Event.quiet)
access spurious m (Pc.release_load index) = (m, Pc.release_store index m.free_head, Event.loaded)
access spurious m (Pc.release_store index head) = (
  record m { free_next = update m.free_next index (unpack_index head) },
  Pc.release_cas index head,
  Event.quiet,
)
access spurious m (Pc.release_cas index head) =
    if m.free_head == head && not spurious
    then (
      record m { free_head = pack index (u32 (unpack_tag head + 1)) },
      Pc.released,
      Event.gave index,
    )
    else (m, Pc.release_store index m.free_head, Event.loaded)
access spurious m Pc.released = (m, Pc.idle, Event.quiet)

-- The list that the constructor threads through `count` buffers.
unfoldable pub thread_next : ℕ → ℕ → ℕ
thread_next zero = λ _. 0
thread_next (suc i) = update (thread_next i) i (if i == 0 then invalid_index else u32 (i - 1))

unfoldable pub init : ℕ → FreeList
unfolding thread_next
init count = record { free_head = pack (u32 (count - 1)) 0; free_next = thread_next count }
