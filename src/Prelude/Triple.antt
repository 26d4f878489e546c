-- ===== src/Prelude/Triple.antt =====
-- What holds where a call returns a value, and what a call keeps in any case, by the ways to build
-- a call.
use mathlib.Core.Path.{◌≡◌, refl, ap}
use mathlib.Core.Bool.{Bool, true, false}
use gateway_orchestrator.Prelude.Tests.{if◌then◌else◌}
use gateway_orchestrator.Prelude.Call.{Result, ok, err, Exec, ◌>>=◌, attempt, map_err, raise, gets}

-- Where P holds before the call and the call returns a value, Q holds of it and of the state
-- after it.
pub record Triple {S E A : Type 0} (P : S → Type 0) (m : Exec S E A) (Q : A → S → Type 0)
    : Type 0 where
  pub at : (s : S) → P s → (a : A) → (m s).0 ≡ ok a → Q a (m s).1

-- The call keeps P, whatever it returns.
pub record Keeps {S E A : Type 0} (P : S → Type 0) (m : Exec S E A) : Type 0 where
  pub at : (s : S) → P s → P (m s).1

Triple-lift :
    {S E A B : Type 0} {Q : A → S → Type 0} {R : B → S → Type 0} (x : Result E A)
    (f : A → Exec S E B)
    → ((a : A) → Triple (Q a) (f a) R)
    → Triple (λ s. (a : A) → x ≡ ok a → Q a s) ((λ s. (x, s)) >>= f) R
Triple-lift (ok a) f k = record { at = λ s q b h. (k a).at s (q a refl) b h }
Triple-lift (err e) f k = record { at = λ s q b h. absurd (cc) }

module _ {S E A B : Type 0} {P : S → Type 0} where
  pub Triple-bind :
      {Q : A → S → Type 0} {R : B → S → Type 0} (m : Exec S E A) (f : A → Exec S E B)
      → Triple P m Q
      → ((a : A) → Triple (Q a) (f a) R)
      → Triple P (m >>= f) R
  Triple-bind m f t k = record {
    at = λ s p b h. (Triple-lift (m s).0 f k).at (m s).1 (t.at s p) b h;
  }

  pub Keeps-lift :
      (x : Result E A) (f : A → Exec S E B)
      → ((a : A) → Keeps P (f a))
      → Keeps P ((λ s. (x, s)) >>= f)
  Keeps-lift (ok a) f k = record { at = (k a).at }
  Keeps-lift (err e) f k = record { at = λ s p. p }

  pub Keeps-bind :
      (m : Exec S E A) (f : A → Exec S E B)
      → Keeps P m
      → ((a : A) → Keeps P (f a))
      → Keeps P (m >>= f)
  Keeps-bind m f t k = record { at = λ s p. (Keeps-lift (m s).0 f k).at (m s).1 (t.at s p) }

module _ {S E A : Type 0} {P : S → Type 0} where
  pub Keeps-attempt : {F : Type 0} (m : Exec S E A) → Keeps P m → Keeps P (attempt {F = F} m)
  Keeps-attempt m t = record { at = t.at }

  pub Keeps-map_err_lift :
      {F : Type 0} (f : E → F) (x : Result E A) → Keeps P (map_err f (λ (s : S). (x, s)))
  Keeps-map_err_lift f (ok a) = record { at = λ s p. p }
  Keeps-map_err_lift f (err e) = record { at = λ s p. p }

  pub Keeps-map_err : {F : Type 0} (f : E → F) (m : Exec S E A) → Keeps P m → Keeps P (map_err f m)
  Keeps-map_err f m t = record { at = λ s p. (Keeps-map_err_lift f (m s).0).at (m s).1 (t.at s p) }

  pub Keeps-if :
      (b : Bool) (m n : Exec S E A) → Keeps P m → Keeps P n → Keeps P (if b then m else n)
  Keeps-if true m n km kn = km
  Keeps-if false m n km kn = kn

  pub Keeps-still : (r : S → Result E A) → Keeps {A = A} P (λ s. (r s, s))
  Keeps-still r = record { at = λ s p. p }

Triple-map_err_lift :
    {S E F A : Type 0} {Q : A → S → Type 0} (f : E → F) (x : Result E A)
    → Triple (λ s. (a : A) → x ≡ ok a → Q a s) (map_err f (λ (s : S). (x, s))) Q
Triple-map_err_lift f (ok a) = record { at = λ s q b h. q b (cc h) }
Triple-map_err_lift f (err e) = record { at = λ s q b h. absurd (cc) }

module _ {S E A : Type 0} {P : S → Type 0} {Q : A → S → Type 0} where
  pub Triple-attempt :
      {F : Type 0} (m : Exec S E A)
      → Triple P m Q
      → Triple P (attempt {F = F} m) (λ x s. (a : A) → x ≡ ok a → Q a s)
  Triple-attempt m t = record { at = λ s p x h a e. t.at s p a (cc (h, e)) }

  pub Triple-map_err :
      {F : Type 0} (f : E → F) (m : Exec S E A) → Triple P m Q → Triple P (map_err f m) Q
  Triple-map_err f m t = record {
    at = λ s p. (Triple-map_err_lift {Q = Q} f (m s).0).at (m s).1 (t.at s p);
  }

  pub Triple-raise : (e : E) → Triple P (raise e) Q
  Triple-raise e = record { at = λ s p a h. absurd (cc) }

  pub Triple-if :
      (b : Bool) (m n : Exec S E A) → Triple P m Q → Triple P n Q → Triple P (if b then m else n) Q
  Triple-if true m n km kn = km
  Triple-if false m n km kn = kn

module _ {S E F A B : Type 0} {Q : A → S → Type 0} {R : B → S → Type 0} where
  Triple-branch :
      (g : A → Exec S F B) (k : E → Exec S F B)
      → ((a : A) → Triple (Q a) (g a) R)
      → ((e : E) → Triple (λ s. Unit) (k e) R)
      → (x : Result E A)
      → Triple (λ s. (a : A) → x ≡ ok a → Q a s) (elim x [ ok a ↦ g a | err e ↦ k e ]) R
  Triple-branch g k tg tk (ok a) = record { at = λ s q. (tg a).at s (q a refl) }
  Triple-branch g k tg tk (err e) = record { at = λ s q. (tk e).at s tt }

  -- The code that looks at a call's error itself.
  pub Triple-try :
      {P : S → Type 0} (m : Exec S E A) (g : A → Exec S F B) (k : E → Exec S F B)
      → Triple P m Q
      → ((a : A) → Triple (Q a) (g a) R)
      → ((e : E) → Triple (λ s. Unit) (k e) R)
      → Triple P (attempt {F = F} m >>= λ x. elim x [ ok a ↦ g a | err e ↦ k e ]) R
  Triple-try m g k t tg tk =
      Triple-bind (attempt m) _ (Triple-attempt m t) (Triple-branch g k tg tk)

  Triple-branch_gets :
      {C : Type 0} (h : S → C) (g : C → A → Exec S F B) (k : C → E → Exec S F B)
      → ((c : C) (a : A) → Triple (Q a) (g c a) R)
      → ((c : C) (e : E) → Triple (λ s. Unit) (k c e) R)
      → (x : Result E A)
      → Triple
          (λ s. (a : A) → x ≡ ok a → Q a s)
          (gets h >>= λ c. elim x [ ok a ↦ g c a | err e ↦ k c e ])
          R
  Triple-branch_gets h g k tg tk (ok a) = record { at = λ s q. (tg (h s) a).at s (q a refl) }
  Triple-branch_gets h g k tg tk (err e) = record { at = λ s q. (tk (h s) e).at s tt }

  -- The same where the state is read before the error is looked at.
  pub Triple-try_gets :
      {P : S → Type 0} {C : Type 0} (m : Exec S E A) (h : S → C) (g : C → A → Exec S F B)
      (k : C → E → Exec S F B)
      → Triple P m Q
      → ((c : C) (a : A) → Triple (Q a) (g c a) R)
      → ((c : C) (e : E) → Triple (λ s. Unit) (k c e) R)
      → Triple P
          (attempt {F = F} m >>= λ x. (gets h >>= λ c. elim x [ ok a ↦ g c a | err e ↦ k c e ]))
          R
  Triple-try_gets m h g k t tg tk =
      Triple-bind (attempt m) _ (Triple-attempt m t) (Triple-branch_gets h g k tg tk)

pub Triple-of_Keeps :
    {S E A : Type 0} {P : S → Type 0} (m : Exec S E A) → Keeps P m → Triple P m (λ a s. P s)
Triple-of_Keeps m k = record { at = λ s p a h. k.at s p }

-- A sequence by its first call's result.
module _ {S E A B : Type 0} (m : Exec S E A) (f : A → Exec S E B) (s : S) where
  pub bind_ok : (a : A) → (m s).0 ≡ ok a → (m >>= f) s ≡ f a (m s).1
  bind_ok a h = ap (λ x. ((λ (t : S). (x, t)) >>= f) (m s).1) h

  pub bind_err : (e : E) → (m s).0 ≡ err e → (m >>= f) s ≡ (err e, (m s).1)
  bind_err e h = ap (λ x. ((λ (t : S). (x, t)) >>= f) (m s).1) h
