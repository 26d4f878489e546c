-- ===== src/Prelude/Stopping.antt =====
-- What holds of the error of a call that fails, by the ways to build a call.
use mathlib.Core.Path.{◌≡◌, refl, sym}
use mathlib.Core.Bool.{Bool, true, false}
use mathlib.Core.Option.{Option, none, some}
use gateway_orchestrator.Prelude.Tests.{if◌then◌else◌}
use gateway_orchestrator.Prelude.Call.{
  Result, ok, err, Exec, ◌>>=◌, attempt, map_err, pure, raise, gets,
}

-- Each error of the call has Q: from the one state, and from every state.
abbrev pub StopsAt : {S E A : Type 0} → (E → Type 0) → Exec S E A → S → Type 0
StopsAt {E = E} Q m s = (e : E) → (m s).0 ≡ err e → Q e

pub record Stops {S E A : Type 0} (Q : E → Type 0) (m : Exec S E A) : Type 0 where
  pub at : (s : S) → StopsAt Q m s

module _ {S E A B : Type 0} {Q : E → Type 0} where
  StopsAt-lift :
      (x : Result E A) (f : A → Exec S E B) (s : S)
      → ((e : E) → x ≡ err e → Q e)
      → ((a : A) → x ≡ ok a → StopsAt Q (f a) s)
      → StopsAt Q ((λ t. (x, t)) >>= f) s
  StopsAt-lift (ok a) f s h k = k a refl
  StopsAt-lift (err e) f s h k = λ d eq. h d (cc eq)

  pub StopsAt-bind :
      (m : Exec S E A) (f : A → Exec S E B) (s : S)
      → StopsAt Q m s
      → ((a : A) → (m s).0 ≡ ok a → StopsAt Q (f a) (m s).1)
      → StopsAt Q (m >>= f) s
  StopsAt-bind m f s h k = StopsAt-lift (m s).0 f (m s).1 h k

  pub Stops-bind :
      (m : Exec S E A) (f : A → Exec S E B)
      → Stops Q m
      → ((a : A) → Stops Q (f a))
      → Stops Q (m >>= f)
  Stops-bind m f t k = record { at = λ s. StopsAt-bind m f s (t.at s) (λ a h. (k a).at (m s).1) }

  pub Stops-result :
      {F : Type 0} (g : A → Exec S E B) (k : F → Exec S E B)
      → ((a : A) → Stops Q (g a))
      → ((f : F) → Stops Q (k f))
      → (x : Result F A) → Stops Q (elim x [ ok a ↦ g a | err e ↦ k e ])
  Stops-result g k sg sk (ok a) = sg a
  Stops-result g k sg sk (err f) = sk f

module _ {S E A : Type 0} {Q : E → Type 0} where
  pub Stops-if :
      (b : Bool) (m n : Exec S E A) → Stops Q m → Stops Q n → Stops Q (if b then m else n)
  Stops-if true m n sm sn = sm
  Stops-if false m n sm sn = sn

  pub Stops-option :
      {B : Type 0} (n : Exec S E A) (g : B → Exec S E A)
      → Stops Q n
      → ((b : B) → Stops Q (g b))
      → (x : Option B) → Stops Q (elim x [ none ↦ n | some b ↦ g b ])
  Stops-option n g sn sg none = sn
  Stops-option n g sn sg (some b) = sg b

  pub Stops-raise : (e : E) → Q e → Stops {S = S} {A = A} Q (raise e)
  Stops-raise e q = record { at = λ s d h. let same : e ≡ d = cc in rw (sym same) q }

  -- A look at the state, and a value.
  pub Stops-gets : (f : S → A) → Stops Q (gets f)
  Stops-gets f = record { at = λ s e h. absurd (cc) }

  pub Stops-pure : (a : A) → Stops {S = S} Q (pure a)
  Stops-pure a = record { at = λ s e h. absurd (cc) }

  Stops-map_err_lift :
      {F : Type 0} (f : F → E) (x : Result F A)
      → ((d : F) → Q (f d))
      → Stops Q (map_err f (λ (s : S). (x, s)))
  Stops-map_err_lift f (ok a) h = record { at = λ s e x. absurd (cc) }
  Stops-map_err_lift f (err d) h = record { at = λ s e x. (Stops-raise (f d) (h d)).at s e x }

  -- A call whose errors are all changed into ones with Q.
  pub Stops-map_err :
      {F : Type 0} (f : F → E) (m : Exec S F A) → ((d : F) → Q (f d)) → Stops Q (map_err f m)
  Stops-map_err f m h = record { at = λ s. (Stops-map_err_lift f (m s).0 h).at (m s).1 }

module _ {S E F A : Type 0} {Q : F → Type 0} where
  pub Stops-attempt : (m : Exec S E A) → Stops Q (attempt {F = F} m)
  Stops-attempt m = record { at = λ s e h. absurd (cc) }
