-- ===== src/Pool/Ordered/Invariant/Defs.antt =====
-- The history of the head, and who knows the last link and the last use of a buffer.
use ringio.Base.{ℕ, ◌%◌, ◌≤◌, ◌^◌, ◌≡◌}
use ringio.Memory.{Atomic}
use ringio.Pool.Pack.{unpack_index, unpack_tag}
use ringio.Pool.FreeList.{Pc, acquire_next, release_cas}
use ringio.Pool.Threads.{Place, pooled, lent, returning}
use ringio.Pool.Threads.Invariant as Sequential
use ringio.Pool.Ordered.{View, System, latest}

-- A buffer is with the thread that it was lent to, or that returns it.
abbrev pub With : Place → ℕ → ℕ → Type 0
With pooled holder i = ⊥
With lent holder i = holder ≡ i
With (returning j) holder i = j ≡ i

-- If the head is still as the thread found it, the thread knows the link of its buffer; and a thread
-- that has set a link knows it.
abbrev pub Sees : Atomic View → (ℕ → Atomic View) → ℕ → View → Pc → Type 0
Sees head next seen v (acquire_next h) =
    head.last ≡ seen → (next (unpack_index h)).last ≤ v.links (unpack_index h)
Sees head next seen v (release_cas x h) = (next x).last ≤ v.links x
Sees head next seen v _ = Unit

pub record Inv (count : ℕ) (s : System) : Type 0 where
  pub sequential : Sequential.Inv count (latest s)
  pub tags : (k : ℕ) → k ≤ s.free_head.last → unpack_tag (s.free_head.value k) ≡ k % 2 ^ 32
  pub carried :
      (x : ℕ)
      → s.place x ≡ pooled
      → ((s.free_next x).last ≤ (s.free_head.view s.free_head.last).links x)
        × (s.uses x ≤ (s.free_head.view s.free_head.last).uses x)
  pub held : (x i : ℕ) → With (s.place x) (s.holder x) i → s.uses x ≤ (s.views_of i).uses x
  pub sees : (i : ℕ) → Sees s.free_head s.free_next (s.seen i) (s.views_of i) (s.threads i)
