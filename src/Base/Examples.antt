-- ===== src/Base/Examples.antt =====
-- Capacities that the static assertions of the rings meet.
use ringio.Base.Word.{is_accepted}
use mathlib.Core.Path.{◌≡◌, refl}
use mathlib.Core.Bool.{false}
use native.Mathlib.Decide.{ℕ_discrete}

six_refused : is_accepted 6 ≡ false
unfolding is_accepted ℕ_discrete
six_refused = refl
