-- ===== src/Prelude/Text.antt =====
-- Go strings as native texts. Two texts are compared by a decision, which proofs leave shut: a
-- split on it yields the equation or its negation.
use Prim.Native.String.{String}
use mathlib.Core.Path.{◌≡◌}
use mathlib.Core.Logic.{◌⊎◌, inl, inr, ite, dite}
use mathlib.Core.Bool.{Bool, true, false, Bool-discrete, ◌||◌}
use mathlib.Core.List.{List, [], ◌∷◌}
use native.Mathlib.Omega.{arith}
use text.Mathlib.Text
use text.Mathlib.TextEquality.{eq_iff}

unfoldable pub string_dec : Discrete String
string_dec s t =
    dite (Bool-discrete (Text.◌==◌ s t) true) (λ same. yes ((eq_iff s t).0 same))
      (λ differ. no (λ p. differ ((eq_iff s t).1 p)))

infix 50 ◌==◌
abbrev pub ◌==◌ : String → String → Bool
s == t = ite (string_dec s t) true false

abbrev pub contains : List String → String → Bool
contains [] s = false
contains (x ∷ xs) s = (x == s) || contains xs s

pub ==_refl : (s : String) → (s == s) ≡ true
==_refl s = ground arith

pub ==_eq : (s t : String) → (s == t) ≡ true → s ≡ t
==_eq s t h = ground arith

pub String-cases : (s t : String) → (s ≡ t) ⊎ (¬ (s ≡ t))
String-cases s t = elim (string_dec s t) [ yes e ↦ inl e | no n ↦ inr n ]
