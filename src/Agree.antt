-- ===== src/Agree.antt =====
-- A script of pushes and pops, made by one thread, on either ring: include/ringio/detail/spsc_ring.hpp
-- and include/ringio/detail/mpmc_ring.hpp.
mod Tests
use ringio.Base.{
  ℕ, suc, ◌+◌, ◌-◌, ◌≤◌, ◌<◌, ◌^◌, ◌≡◌, refl, sym, ap, ap₂, ◌∙◌, Bool, Option, List, [], ◌∷◌,
  length, arith, subst,
}
use ringio.Base.Word.{IsCapacity}
use ringio.Spsc.{SpscRing, try_push, try_pop}
use ringio.Spsc.Queue.{push, pop, contents}
use ringio.Spsc.Refine.{
  IsValid, init-IsValid, try_push-IsValid, try_pop-IsValid, try_push_refines, try_pop_refines,
}
use ringio.Spsc.{init as spsc_init}
use ringio.Mpmc.{MpmcRing, Pc, push_load, pushed, pop_load, popped}
use ringio.Mpmc.{init as mpmc_init}
use ringio.Mpmc.System.{System, Reach}
use ringio.Mpmc.Quiescent.Contents.{IsQuiet, values, quiet-Holds}
use ringio.Mpmc.Single.{solo}
use ringio.Mpmc.Single.Refine.{Holds, solo-push_refines, solo-pop_refines, init-Holds}

module _ (A : Type 0) where
  pub data Op : Type 0 where
    pushes : A → Op
    pops : Op

  -- `unfinished` is a call that has not returned.
  pub data Answer : Type 0 where
    accepted : Bool → Answer
    delivered : Option A → Answer
    unfinished : Answer

module _ {A : Type 0} where
  abbrev pub answer : Pc A → Answer A
  answer (pushed b) = Answer.accepted b
  answer (popped out) = Answer.delivered out
  answer _ = Answer.unfinished

  module _ (cap : ℕ) where
    unfoldable pub run_queue : List (Op A) → List A → List (Answer A)
    run_queue [] l = []
    run_queue (Op.pushes v ∷ ops) l =
        let (done, l') = push cap l v in Answer.accepted done ∷ run_queue ops l'
    run_queue (Op.pops ∷ ops) l = let (out, l') = pop l in Answer.delivered out ∷ run_queue ops l'

    unfoldable pub run_spsc : List (Op A) → SpscRing A → List (Answer A)
    run_spsc [] r = []
    run_spsc (Op.pushes v ∷ ops) r =
        let (done, r') = try_push cap r v in Answer.accepted done ∷ run_spsc ops r'
    run_spsc (Op.pops ∷ ops) r =
        let (out, r') = try_pop cap r in Answer.delivered out ∷ run_spsc ops r'

    unfoldable pub run_mpmc : List (Op A) → MpmcRing A → List (Answer A)
    run_mpmc [] m = []
    run_mpmc (Op.pushes v ∷ ops) m =
        let (m', pc) = solo cap 5 m (push_load v) in answer pc ∷ run_mpmc ops m'
    run_mpmc (Op.pops ∷ ops) m = let (m', pc) = solo cap 5 m pop_load in answer pc ∷ run_mpmc ops m'

  module _ {cap : ℕ} (c : IsCapacity cap) where
    run_spsc_refines :
        (ops : List (Op A)) (r : SpscRing A) (l : List A)
        → IsValid cap r
        → contents cap r ≡ l
        → run_spsc cap ops r ≡ run_queue cap ops l
    unfolding run_spsc run_queue
    run_spsc_refines [] r l h e = refl
    run_spsc_refines (Op.pushes v ∷ ops) r l h e =
        let q : ((try_push cap r v).0, contents cap (try_push cap r v).1) ≡ push cap l v =
          try_push_refines c v h ∙ ap (λ k. push cap k v) e in
        ap₂ ◌∷◌ (ap (λ x. Answer.accepted x.0) q) (
          run_spsc_refines ops (try_push cap r v).1 (push cap l v).1 (try_push-IsValid c v h)
            (ap (λ x. x.1) q))
    run_spsc_refines (Op.pops ∷ ops) r l h e =
        let q : ((try_pop cap r).0, contents cap (try_pop cap r).1) ≡ pop l =
          try_pop_refines c h ∙ ap pop e in
        ap₂ ◌∷◌ (ap (λ x. Answer.delivered x.0) q)
          (run_spsc_refines ops (try_pop cap r).1 (pop l).1 (try_pop-IsValid c h) (ap (λ x. x.1) q))

    run_mpmc_refines :
        (two : 2 ≤ cap) (ops : List (Op A)) (m : MpmcRing A) (l : List A)
        → Holds cap (length ops) m l
        → run_mpmc cap ops m ≡ run_queue cap ops l
    unfolding run_mpmc run_queue
    run_mpmc_refines two [] m l h = refl
    run_mpmc_refines two (Op.pushes v ∷ ops) m l h =
        let (e, h') = solo-push_refines c two (length ops) m l v h in
        ap₂ ◌∷◌ (ap answer e)
          (run_mpmc_refines two ops (solo cap 5 m (push_load v)).0 (push cap l v).1 h')
    run_mpmc_refines two (Op.pops ∷ ops) m l h =
        let (e, h') = solo-pop_refines c two (length ops) m l h in
        ap₂ ◌∷◌ (ap answer e) (run_mpmc_refines two ops (solo cap 5 m pop_load).0 (pop l).1 h')

    -- For a capacity that is a power of two and at least two, and a script of fewer than 2 ^ 63 calls
    -- less the capacity: the two rings, when new and used by one thread, give the same answers, call
    -- for call, and these are the answers of a queue of that capacity.
    pub rings_agree :
        (ops : List (Op A)) (blank : A)
        → 2 ≤ cap
        → length ops + cap < 2 ^ 63
        → (run_mpmc cap ops (mpmc_init cap blank) ≡ run_spsc cap ops (spsc_init blank))
          × (run_spsc cap ops (spsc_init blank) ≡ run_queue cap ops [])
    rings_agree ops blank two small =
        let (valid, empty) = init-IsValid c blank in
        let s : run_spsc cap ops (spsc_init blank) ≡ run_queue cap ops [] =
          run_spsc_refines ops (spsc_init blank) [] valid empty in
        (
          run_mpmc_refines two ops (mpmc_init cap blank) []
                (init-Holds c two (length ops) blank small)
              ∙ sym s,
          s,
        )

    -- For a capacity that is a power of two and at least two: from any state of the ring that any number
    -- of threads have reached, when none of them is between its claim and the end of its call, a
    -- script of calls by one thread answers as a queue of that capacity does that holds the values of
    -- the positions between the cursors, in order, as long as the steps and calls are fewer than
    -- 2 ^ 63 less the capacity.
    pub quiet_agrees :
        {blank : A} {n : ℕ} {s : System A} (ops : List (Op A))
        → 2 ≤ cap
        → n + length ops + cap < 2 ^ 63
        → Reach cap blank n s
        → IsQuiet s
        → run_mpmc cap ops s.ring
          ≡ run_queue cap ops
              (values s.given s.ring.dequeue_pos (s.ring.enqueue_pos - s.ring.dequeue_pos))
    quiet_agrees {s = s} ops two small r quiet =
        run_mpmc_refines two ops s.ring
          (values s.given s.ring.dequeue_pos (s.ring.enqueue_pos - s.ring.dequeue_pos))
          (quiet-Holds c two (omega arith) r quiet (length ops) small)
