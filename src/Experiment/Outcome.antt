-- ===== src/Experiment/Outcome.antt =====
-- What a run of experiments/sqpoll_core_budget.cpp leaves behind.
use ringio.Base.{
  ℕ, zero, suc, ◌+◌, ◌*◌, ◌≡◌, refl, ap, ap₂, ◌∙◌, Option, none, some, List, [], ◌∷◌, ◌++◌, map,
  length, arith,
}
use ringio.Experiment.Workload.{file_bytes}
use ringio.Experiment.Rings.{Mode}
use ringio.Experiment.Program.{
  Effect, creates, unlinks, truncates, starts, pins, warns, joins, exits, closes, Host,
  after_mkstemp, make_scratch_file, and_files, make_scratch_files, start_workers, pin_to_core,
  join_workers, finish,
}

module _ {X : Type 0} (select : Effect → Option X) where
  -- What a test finds in a list of effects.
  abbrev pub keep : Option X → List X → List X
  keep none l = l
  keep (some x) l = x ∷ l

  abbrev pub pick : List Effect → List X
  pick [] = []
  pick (e ∷ calls) = keep (select e) (pick calls)

  keep-append : (o : Option X) (k l m : List X) → m ≡ k ++ l → keep o m ≡ keep o k ++ l
  keep-append none k l m e = e
  keep-append (some x) k l m e = ap (λ r. x ∷ r) e

  pub pick-append : (k l : List Effect) → pick (k ++ l) ≡ pick k ++ pick l
  pick-append [] l = refl
  pick-append (e ∷ k) l = keep-append (select e) (pick k) (pick l) (pick (k ++ l)) (pick-append k l)

  pub pick_skipped :
      (f : ℕ → Effect) (l : List ℕ) → ((x : ℕ) → select (f x) ≡ none) → pick (map f l) ≡ []
  pick_skipped f [] h = refl
  pick_skipped f (x ∷ l) h = ap (λ o. keep o (pick (map f l))) (h x) ∙ pick_skipped f l h

  pub pick_no_joins : (i n : ℕ) → ((x : ℕ) → select (joins x) ≡ none) → pick (join_workers i n) ≡ []
  unfolding join_workers
  pick_no_joins i zero h = refl
  pick_no_joins i (suc n) h =
      ap (λ o. keep o (pick (join_workers (i + 1) n))) (h i) ∙ pick_no_joins (i + 1) n h

  pick_no_pinning :
      (host : Host) (i core : ℕ)
      → ((x k : ℕ) → select (pins x k) ≡ none)
      → ((x : ℕ) → select (warns x) ≡ none)
      → pick (pin_to_core host i core) ≡ []
  unfolding pin_to_core
  pick_no_pinning host i core p w = ground (arith, p i core, w i)

  pub pick_no_workers :
      (host : Host) (mode : Mode) (i : ℕ) (rings fds : List ℕ)
      → ((x r f : ℕ) → select (starts x r f) ≡ none)
      → ((x k : ℕ) → select (pins x k) ≡ none)
      → ((x : ℕ) → select (warns x) ≡ none)
      → pick (start_workers host mode i rings fds) ≡ []
  unfolding start_workers
  pick_no_workers host mode i [] fds h p w = refl
  pick_no_workers host mode i (r ∷ rings) [] h p w = refl
  pick_no_workers host Mode.attach i (r ∷ rings) (f ∷ fds) h p w =
      ap (λ o. keep o (pick (start_workers host Mode.attach (i + 1) rings fds))) (h i r f)
      ∙ pick_no_workers host Mode.attach (i + 1) rings fds h p w
  pick_no_workers host Mode.independent i (r ∷ rings) (f ∷ fds) h p w =
      ap (λ o. keep o (pick (start_workers host Mode.independent (i + 1) rings fds))) (h i r f)
      ∙ pick_no_workers host Mode.independent (i + 1) rings fds h p w
  pick_no_workers host Mode.pinned i (r ∷ rings) (f ∷ fds) h p w =
      let rest : List Effect = start_workers host Mode.pinned (i + 1) rings fds in
      ap (λ o. keep o (pick (pin_to_core host i (2 * i) ++ rest))) (h i r f)
      ∙ pick-append (pin_to_core host i (2 * i)) rest
      ∙ ap₂ ◌++◌ (pick_no_pinning host i (2 * i) p w)
          (pick_no_workers host Mode.pinned (i + 1) rings fds h p w)

  pick_no_file :
      (files : Host) (answer : Option ℕ)
      → ((x : ℕ) → select (creates x) ≡ none)
      → ((x : ℕ) → select (unlinks x) ≡ none)
      → ((x n : ℕ) → select (truncates x n) ≡ none)
      → pick (after_mkstemp files answer).1 ≡ []
  unfolding after_mkstemp
  pick_no_file files none c u t = refl
  pick_no_file files (some fd) c u t = ground (arith, c fd, u fd, t fd file_bytes)

  pick-and_files :
      (made : Option ℕ × List Effect) (rest : Option (List ℕ) × List Effect)
      → pick made.1 ≡ []
      → pick rest.1 ≡ []
      → pick (and_files made rest).1 ≡ []
  unfolding and_files
  pick-and_files (none, calls) rest e e' = e
  pick-and_files (some fd, calls) (none, calls') e e' = pick-append calls calls' ∙ ap₂ ◌++◌ e e'
  pick-and_files (some fd, calls) (some fds, calls') e e' = pick-append calls calls' ∙ ap₂ ◌++◌ e e'

  pub pick_no_files :
      (files : Host) (left i : ℕ)
      → ((x : ℕ) → select (creates x) ≡ none)
      → ((x : ℕ) → select (unlinks x) ≡ none)
      → ((x n : ℕ) → select (truncates x n) ≡ none)
      → pick (make_scratch_files files left i).1 ≡ []
  unfolding make_scratch_files make_scratch_file
  pick_no_files files zero i c u t = refl
  pick_no_files files (suc left) i c u t =
      pick-and_files (make_scratch_file files i) (make_scratch_files files left (i + 1))
        (pick_no_file files (files.mkstemp i) c u t) (pick_no_files files left (i + 1) c u t)

  pub pick-finish :
      (host : Host) (mode : Mode) (n : ℕ) (rings fds : List ℕ) {a b c d : List X}
      → pick (start_workers host mode 0 rings fds) ≡ a
      → pick (join_workers 0 n) ≡ b
      → pick (map exits rings) ≡ c
      → pick (map closes fds) ≡ d
      → pick (finish host mode n rings fds) ≡ a ++ (b ++ (c ++ d))
  unfolding finish
  pick-finish host mode n rings fds ea eb ec ed =
      pick-append (start_workers host mode 0 rings fds)
        (join_workers 0 n ++ (map exits rings ++ map closes fds))
      ∙ ap₂ ◌++◌ ea (
          pick-append (join_workers 0 n) (map exits rings ++ map closes fds)
          ∙ ap₂ ◌++◌ eb (pick-append (map exits rings) (map closes fds) ∙ ap₂ ◌++◌ ec ed))

pub pick_ids :
    (select : Effect → Option ℕ) (f : ℕ → Effect) (l : List ℕ)
    → ((x : ℕ) → select (f x) ≡ some x)
    → pick select (map f l) ≡ l
pick_ids select f [] h = refl
pick_ids select f (x ∷ l) h =
    ap (λ o. keep select o (pick select (map f l))) (h x) ∙ ap (λ r. x ∷ r) (pick_ids select f l h)

abbrev pub created : List Effect → List ℕ
created = pick (elim [ creates fd ↦ some fd | _ ↦ none ])

abbrev pub closed : List Effect → List ℕ
closed = pick (elim [ closes fd ↦ some fd | _ ↦ none ])

abbrev pub exited : List Effect → List ℕ
exited = pick (elim [ exits ring ↦ some ring | _ ↦ none ])

abbrev pub joined : List Effect → List ℕ
joined = pick (elim [ joins i ↦ some i | _ ↦ none ])

-- Each thread with its ring and its file.
abbrev pub start_of : Effect → Option (ℕ × ℕ × ℕ)
start_of (starts i ring fd) = some (i, ring, fd)
start_of _ = none

abbrev pub started : List Effect → List (ℕ × ℕ × ℕ)
started = pick start_of

abbrev pub from : ℕ → ℕ → List ℕ
from i zero = []
from i (suc n) = i ∷ from (i + 1) n

abbrev pub side_by_side : ℕ → List ℕ → List ℕ → List (ℕ × ℕ × ℕ)
side_by_side i [] fds = []
side_by_side i (r ∷ rings) [] = []
side_by_side i (r ∷ rings) (f ∷ fds) = (i, r, f) ∷ side_by_side (i + 1) rings fds

pub started-start_workers :
    (host : Host) (mode : Mode) (i : ℕ) (rings fds : List ℕ)
    → started (start_workers host mode i rings fds) ≡ side_by_side i rings fds
unfolding start_workers
started-start_workers host mode i [] fds = refl
started-start_workers host mode i (r ∷ rings) [] = refl
started-start_workers host Mode.attach i (r ∷ rings) (f ∷ fds) =
    ap (λ l. (i, r, f) ∷ l) (started-start_workers host Mode.attach (i + 1) rings fds)
started-start_workers host Mode.pinned i (r ∷ rings) (f ∷ fds) =
    let rest : List Effect = start_workers host Mode.pinned (i + 1) rings fds in
    ap (λ l. (i, r, f) ∷ l)
      (pick-append start_of (pin_to_core host i (2 * i)) rest
        ∙ ap₂ ◌++◌ (pick_no_pinning start_of host i (2 * i) (λ x k. refl) (λ x. refl))
            (started-start_workers host Mode.pinned (i + 1) rings fds))
started-start_workers host Mode.independent i (r ∷ rings) (f ∷ fds) =
    ap (λ l. (i, r, f) ∷ l) (started-start_workers host Mode.independent (i + 1) rings fds)

pub joined-join_workers : (i n : ℕ) → joined (join_workers i n) ≡ from i n
unfolding join_workers
joined-join_workers i zero = refl
joined-join_workers i (suc n) = ap (λ l. i ∷ l) (joined-join_workers (i + 1) n)

-- The files that were made are those that were created.
abbrev pub Made : ℕ → Option (List ℕ) × List Effect → Type 0
Made n (none, calls) = Unit
Made n (some fds, calls) = (length fds ≡ n) × (created calls ≡ fds)

abbrev MadeOne : Option ℕ × List Effect → Type 0
MadeOne (none, calls) = Unit
MadeOne (some fd, calls) = created calls ≡ fd ∷ []

make_scratch_file-MadeOne : (files : Host) (i : ℕ) → MadeOne (make_scratch_file files i)
unfolding make_scratch_file after_mkstemp
make_scratch_file-MadeOne files i = ground arith

and_files-Made :
    (n : ℕ) (made : Option ℕ × List Effect) (rest : Option (List ℕ) × List Effect)
    → MadeOne made
    → Made n rest
    → Made (suc n) (and_files made rest)
unfolding and_files
and_files-Made n (none, calls) rest h k = tt
and_files-Made n (some fd, calls) (none, calls') h k = tt
and_files-Made n (some fd, calls) (some fds, calls') h (size, k) =
    (ap suc size, pick-append _ calls calls' ∙ ap₂ ◌++◌ h k)

pub make_scratch_files-Made : (files : Host) (n i : ℕ) → Made n (make_scratch_files files n i)
unfolding make_scratch_files
make_scratch_files-Made files zero i = (refl, refl)
make_scratch_files-Made files (suc n) i =
    and_files-Made n (make_scratch_file files i) (make_scratch_files files n (i + 1))
      (make_scratch_file-MadeOne files i) (make_scratch_files-Made files n (i + 1))
