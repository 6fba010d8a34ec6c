-- ===== src/Prelude/Checks.antt =====
-- The accumulator of every gate: `if test: reasons.append(reason)`, one after another.
use mathlib.Core.Path.{◌≡◌, refl}
use mathlib.Core.Bool.{Bool, true, false}
use mathlib.Core.Logic.{◌↔◌}
use mathlib.Core.List.{List, [], ◌∷◌}
use Prim.Native.String.{String}
use agent_analysis.Prelude.Lists.{All}
use agent_analysis.Prelude.Tests.{if◌then◌else◌}

-- The reasons of the tests that hold, in order.
abbrev pub collect : List (Bool × String) → List String
collect [] = []
collect ((test, reason) ∷ rest) = if test then reason ∷ collect rest else collect rest

pub collect-eq-nil :
    (checks : List (Bool × String)) → (collect checks ≡ []) ↔ All (λ c. c.0 ≡ false) checks
collect-eq-nil [] = (λ e. tt, λ h. refl)
collect-eq-nil ((true, reason) ∷ rest) = (λ e. cc, λ h. cc (h.0))
collect-eq-nil ((false, reason) ∷ rest) =
    (λ e. (refl, (collect-eq-nil rest).0 e), λ h. (collect-eq-nil rest).1 h.1)
