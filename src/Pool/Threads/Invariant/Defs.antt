-- ===== src/Pool/Threads/Invariant/Defs.antt =====
-- What the history says about the list, and what each thread's locals say about both.
use ringio.Base.{ℕ, ◌%◌, ◌≤◌, ◌<◌, ◌^◌, ◌≡◌, ◌≢◌, List}
use ringio.Pool.Pack.{unpack_index, unpack_tag, invalid_index}
use ringio.Pool.FreeList.{
  FreeList, Pc, acquire_next, acquire_cas, release_load, release_store, release_cas,
}
use ringio.Pool.Threads.{System, Place, pooled, returning}
use ringio.Pool.Threads.Invariant.Links.{Chain, In, Distinct}

-- The chain of links is the stack, the tag counts the exchanges, and the buffers in the stack are
-- those that the history has in the pool.
pub record ListFits (count : ℕ) (m : FreeList) (place : ℕ → Place) (stack : List ℕ) (ops : ℕ)
    : Type 0 where
  pub small : count ≤ invalid_index
  pub tag : unpack_tag m.free_head ≡ ops % 2 ^ 32
  pub links : (x : ℕ) → m.free_next x < 2 ^ 32
  pub chain : Chain m.free_next (unpack_index m.free_head) stack
  pub distinct : Distinct stack
  pub in_pool : (x : ℕ) → In x stack → (place x ≡ pooled) × (x < count)
  pub in_stack : (x : ℕ) → x < count → place x ≡ pooled → In x stack

-- A head that was loaded after `seen` exchanges is still current if there was none since.
abbrev pub Loaded : FreeList → ℕ → ℕ → ℕ → Type 0
Loaded m ops seen head =
    (seen ≤ ops) × (unpack_tag head ≡ seen % 2 ^ 32) × (ops ≡ seen → m.free_head ≡ head)

abbrev pub Returns : ℕ → (ℕ → Place) → ℕ → ℕ → Type 0
Returns count place i x = (x < count) × (place x ≡ returning i)

abbrev pub ThreadFits : ℕ → FreeList → (ℕ → Place) → ℕ → ℕ → ℕ → Pc → Type 0
ThreadFits count m place ops seen i (acquire_next head) =
    Loaded m ops seen head × (unpack_index head ≢ invalid_index)
ThreadFits count m place ops seen i (acquire_cas head next) =
    Loaded m ops seen head
    × (unpack_index head ≢ invalid_index)
    × (ops ≡ seen → m.free_next (unpack_index head) ≡ next)
ThreadFits count m place ops seen i (release_load x) = Returns count place i x
ThreadFits count m place ops seen i (release_store x head) =
    Loaded m ops seen head × Returns count place i x
ThreadFits count m place ops seen i (release_cas x head) =
    Loaded m ops seen head × Returns count place i x × (m.free_next x ≡ unpack_index head)
ThreadFits count m place ops seen i _ = Unit

pub record Inv (count : ℕ) (s : System) : Type 0 where
  pub list_fits : ListFits count s.list s.place s.stack s.ops
  pub threads_fit : (i : ℕ) → ThreadFits count s.list s.place s.ops (s.seen i) i (s.threads i)
