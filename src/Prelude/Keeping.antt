-- ===== src/Prelude/Keeping.antt =====
-- More of what a call keeps: the cases of a value, calls that take the request, and runs that keep
-- one predicate to a point and a weaker one from there on.
use mathlib.Core.Bool.{Bool, true, false}
use mathlib.Core.List.{List, [], ◌∷◌}
use mathlib.Core.Option.{Option, none, some}
use gateway_orchestrator.Prelude.Tests.{if◌then◌else◌}
use gateway_orchestrator.Prelude.Call.{
  Result, ok, err, Exec, ◌>>=◌, pure, raise, gets, attempt, map_err,
}
use gateway_orchestrator.Prelude.Triple.{Keeps, Keeps-lift, Keeps-map_err_lift}

module _ {S F A B : Type 0} {P : S → Type 0} where
  pub Keeps-result :
      {E : Type 0} (g : A → Exec S F B) (k : E → Exec S F B)
      → ((a : A) → Keeps P (g a))
      → ((e : E) → Keeps P (k e))
      → (x : Result E A) → Keeps P (elim x [ ok a ↦ g a | err e ↦ k e ])
  Keeps-result g k kg kk (ok a) = kg a
  Keeps-result g k kg kk (err e) = kk e

  pub Keeps-option :
      (n : Exec S F B) (g : A → Exec S F B)
      → Keeps P n
      → ((a : A) → Keeps P (g a))
      → (x : Option A) → Keeps P (elim x [ none ↦ n | some a ↦ g a ])
  Keeps-option n g kn kg none = kn
  Keeps-option n g kn kg (some a) = kg a

  pub Keeps-list :
      (n : Exec S F B) (g : A → List A → Exec S F B)
      → Keeps P n
      → ((a : A) (rest : List A) → Keeps P (g a rest))
      → (x : List A) → Keeps P (elim x [ [] ↦ n | a ∷ rest ↦ g a rest ])
  Keeps-list n g kn kg [] = kn
  Keeps-list n g kn kg (a ∷ rest) = kg a rest

module _ {S E A : Type 0} {P : S → Type 0} where
  pub Keeps-pure : (a : A) → Keeps {E = E} P (pure a)
  Keeps-pure a = record { at = λ s p. p }

  pub Keeps-raise : (e : E) → Keeps {A = A} P (raise e)
  Keeps-raise e = record { at = λ s p. p }

  pub Keeps-gets : (f : S → A) → Keeps {E = E} P (gets f)
  Keeps-gets f = record { at = λ s p. p }

-- Where P holds before the call, Q holds after it, whatever it returns.
pub record Ends {S E A : Type 0} (P Q : S → Type 0) (m : Exec S E A) : Type 0 where
  pub at : (s : S) → P s → Q (m s).1

module _ {S E A : Type 0} {P Q : S → Type 0} where
  pub Ends-of_Keeps : (m : Exec S E A) → ((s : S) → P s → Q s) → Keeps P m → Ends P Q m
  Ends-of_Keeps m weaken k = record { at = λ s p. weaken (m s).1 (k.at s p) }

  pub Ends-if :
      (b : Bool) (m n : Exec S E A) → Ends P Q m → Ends P Q n → Ends P Q (if b then m else n)
  Ends-if true m n km kn = km
  Ends-if false m n km kn = kn

  pub Ends-attempt : {F : Type 0} (m : Exec S E A) → Ends P Q m → Ends P Q (attempt {F = F} m)
  Ends-attempt m t = record { at = t.at }

  pub Ends-map_err : {F : Type 0} (f : E → F) (m : Exec S E A) → Ends P Q m → Ends P Q (map_err f m)
  Ends-map_err f m t = record {
    at = λ s p. (Keeps-map_err_lift {P = Q} f (m s).0).at (m s).1 (t.at s p);
  }

  pub Ends-option :
      {B : Type 0} (n : Exec S E A) (g : B → Exec S E A)
      → Ends P Q n
      → ((b : B) → Ends P Q (g b))
      → (x : Option B) → Ends P Q (elim x [ none ↦ n | some b ↦ g b ])
  Ends-option n g kn kg none = kn
  Ends-option n g kn kg (some b) = kg b

module _ {S E A B : Type 0} {P Q : S → Type 0} where
  Ends-lift :
      (x : Result E A) (f : A → Exec S E B)
      → ((s : S) → P s → Q s)
      → ((a : A) → Ends P Q (f a))
      → Ends P Q ((λ s. (x, s)) >>= f)
  Ends-lift (ok a) f weaken k = record { at = (k a).at }
  Ends-lift (err e) f weaken k = record { at = weaken }

  pub Ends-bind :
      (m : Exec S E A) (f : A → Exec S E B)
      → ((s : S) → P s → Q s)
      → Keeps P m
      → ((a : A) → Ends P Q (f a))
      → Ends P Q (m >>= f)
  Ends-bind m f weaken t k = record {
    at = λ s p. (Ends-lift (m s).0 f weaken k).at (m s).1 (t.at s p);
  }

  -- From this call on only Q is kept.
  pub Ends-last :
      (m : Exec S E A) (f : A → Exec S E B)
      → Ends P Q m
      → ((a : A) → Keeps Q (f a))
      → Ends P Q (m >>= f)
  Ends-last m f t k = record { at = λ s p. (Keeps-lift (m s).0 f k).at (m s).1 (t.at s p) }
