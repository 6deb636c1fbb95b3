-- ===== src/Mpmc/System.antt =====
-- Any number of threads over one ring of include/ringio/detail/mpmc_ring.hpp, interleaved in any
-- order, with the history of the positions.
use ringio.Base.{ℕ, suc, ◌≡◌, Bool, List, [], ◌∷◌, ◌++◌, update}
use ringio.Mpmc.{
  MpmcRing, Pc, idle, push_load, pop_load, Event, quiet, claimed, delivered, init, access,
}

-- `given p` is the value for which position `p` was claimed, and `taken p` lists what was
-- delivered from it.
pub record System (A : Type 0) : Type 0 where
  pub ring : MpmcRing A
  pub threads : ℕ → Pc A
  pub given : ℕ → A
  pub taken : ℕ → List A

module _ {A : Type 0} where
  abbrev pub record_given : Event A → (ℕ → A) → ℕ → A
  record_given quiet f = f
  record_given (claimed p v) f = update f p v
  record_given (delivered p v) f = f

  abbrev pub record_taken : Event A → (ℕ → List A) → ℕ → List A
  record_taken quiet f = f
  record_taken (claimed p v) f = f
  record_taken (delivered p v) f = update f p (f p ++ (v ∷ []))

  unfoldable pub start : ℕ → A → System A
  start cap blank = record {
    ring = init cap blank;
    threads = λ _. idle;
    given = λ _. blank;
    taken = λ _. [];
  }

  -- Thread `i` goes on with the outcome of its access.
  abbrev pub commit : System A → ℕ → MpmcRing A × Pc A × Event A → System A
  commit s i r = record {
    ring = r.0;
    threads = update s.threads i r.1;
    given = record_given r.2 s.given;
    taken = record_taken r.2 s.taken;
  }

  module _ (cap : ℕ) where
    -- The next access of thread `i`.
    unfoldable pub turn : Bool → System A → ℕ → System A
    unfolding access
    turn spurious s i = commit s i (access cap spurious s.ring (s.threads i))

    pub data Step (s : System A) : System A → Type 0 where
      acts : (i : ℕ) (spurious : Bool) → Step s (turn spurious s i)
      calls_push :
          (i : ℕ) (v : A)
          → s.threads i ≡ idle
          → Step s (record s { threads = update s.threads i (push_load v) })
      calls_pop :
          (i : ℕ) → s.threads i ≡ idle → Step s (record s { threads = update s.threads i pop_load })

    -- What `n` steps lead to.
    pub data Reach (blank : A) : ℕ → System A → Type 0 where
      here : Reach blank 0 (start cap blank)
      next : {n : ℕ} {s t : System A} → Reach blank n s → Step s t → Reach blank (suc n) t
