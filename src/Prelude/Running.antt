-- ===== src/Prelude/Running.antt =====
-- Calls that return: from this state, with a value and not with an error.
use mathlib.Core.Path.{◌≡◌, ap, ◌∙◌}
use gateway_orchestrator.Prelude.Call.{ok, Exec, ◌>>=◌}
use gateway_orchestrator.Prelude.Triple.{bind_ok}

-- The call returns a value, and Q holds of it and of the state after it.
pub record Runs {S E A : Type 0} (m : Exec S E A) (s : S) (Q : A → S → Type 0) : Type 0 where
  pub result : A
  pub final : S
  pub runs : m s ≡ (ok result, final)
  pub post : Q result final

module _ {S E A : Type 0} where
  pub Runs-bind :
      {B : Type 0} {Q : A → S → Type 0} {R : B → S → Type 0} (m : Exec S E A) (f : A → Exec S E B)
      (s : S)
      → Runs m s Q
      → ((a : A) (s' : S) → Q a s' → Runs (f a) s' R)
      → Runs (m >>= f) s R
  Runs-bind m f s t k =
      let u = k t.result t.final t.post in
      record {
        result = u.result;
        final = u.final;
        runs =
            bind_ok m f s t.result (ap (λ p. p.0) t.runs)
            ∙ ap (λ p. f t.result p.1) t.runs
            ∙ u.runs;
        post = u.post;
      }
