-- ===== src/Experiment/Protocol.antt =====
-- The calls of `RunWorkload` of experiments/sqpoll_core_budget.cpp, and the order that one operation at
-- a time gives them.
use ringio.Base.{ℕ, ◌≡◌, refl, sym, ap, Option, none, some, List, [], ◌∷◌, ◌++◌}

-- What the loop asks of its ring: an entry for a block of the file at an offset, a submission, a wait
-- for one completion, and its release. The code looks at no answer; it is taken that there is an
-- entry to fill.
pub data Call : Type 0 where
  writes : (offset : ℕ) → Call
  reads : (offset : ℕ) → Call
  submits : Call
  waits : Call
  sees : Call

-- What one operation is in: its entry is filled, it is submitted, and it is waited for.
pub data Phase : Type 0 where
  between : Phase
  filled : Phase
  submitted : Phase
  waited : Phase

-- The one call that may come next, and the phase behind it.
abbrev pub advance : Phase → Call → Option Phase
advance between (writes offset) = some filled
advance between (reads offset) = some filled
advance filled submits = some submitted
advance submitted waits = some waited
advance waited sees = some between
advance _ _ = none

abbrev pub obeys : Option Phase → List Call → Option Phase
obeys o [] = o
obeys none (x ∷ l) = none
obeys (some phase) (x ∷ l) = obeys (advance phase x) l

obeys-none : (l : List Call) → obeys none l ≡ none
obeys-none [] = refl
obeys-none (x ∷ l) = refl

pub obeys-append : (o : Option Phase) (k l : List Call) → obeys o (k ++ l) ≡ obeys (obeys o k) l
obeys-append o [] l = refl
obeys-append none (x ∷ k) l = sym (obeys-none l)
obeys-append (some phase) (x ∷ k) l = obeys-append (advance phase x) k l

-- The entries that are filled.
abbrev pub transfers : List Call → List Call
transfers [] = []
transfers (writes offset ∷ l) = writes offset ∷ transfers l
transfers (reads offset ∷ l) = reads offset ∷ transfers l
transfers (submits ∷ l) = transfers l
transfers (waits ∷ l) = transfers l
transfers (sees ∷ l) = transfers l

pub transfers-append : (k l : List Call) → transfers (k ++ l) ≡ transfers k ++ transfers l
transfers-append [] l = refl
transfers-append (writes offset ∷ k) l = ap (λ r. writes offset ∷ r) (transfers-append k l)
transfers-append (reads offset ∷ k) l = ap (λ r. reads offset ∷ r) (transfers-append k l)
transfers-append (submits ∷ k) l = transfers-append k l
transfers-append (waits ∷ k) l = transfers-append k l
transfers-append (sees ∷ k) l = transfers-append k l
