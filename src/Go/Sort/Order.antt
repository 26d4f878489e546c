-- ===== src/Go/Sort/Order.antt =====
-- The order of texts by which `sort.Strings` sorts is total.
use Prim.Native.Nat.{Ordering}
use Prim.Native.String.{compare}
use Prim.Native.String.compare as clauses
use text.Mathlib.Text.{is_le}
use text.Mathlib.TextEquality.{path_by_compare}
use gateway_orchestrator.Prelude.{◌≡◌, refl, ap, String, true, false, arith}
use gateway_orchestrator.Go.Sort.{text_leb}

-- One comparison decides the other.
flip : Ordering → Ordering
flip Ordering.lt = Ordering.gt
flip Ordering.eq = Ordering.eq
flip Ordering.gt = Ordering.lt

compare-flip : (s t : String) → compare t s ≡ flip (compare s t)
unfolding flip
compare-flip String.[] String.[] = rw clauses.nil-nil refl
compare-flip String.[] (String.◌∷◌ d t) = rw (clauses.nil-cons, clauses.cons-nil) refl
compare-flip (String.◌∷◌ c s) String.[] = rw (clauses.nil-cons, clauses.cons-nil) refl
compare-flip (String.◌∷◌ c s) (String.◌∷◌ d t) =
    rw (clauses.cons-cons d c t s, clauses.cons-cons c d s t, compare-flip s t) (ground arith)

pub text_leb_total : (s t : String) → text_leb s t ≡ false → text_leb t s ≡ true
unfolding flip
text_leb_total s t h = ground (arith, compare-flip s t)

pub text_leb_antisymm : (s t : String) → text_leb s t ≡ true → text_leb t s ≡ true → s ≡ t
unfolding flip
text_leb_antisymm s t h k = path_by_compare s t (ground (arith, compare-flip s t))

pub text_leb_trans :
    (s t u : String) → text_leb s t ≡ true → text_leb t u ≡ true → text_leb s u ≡ true
text_leb_trans String.[] String.[] u h k = k
text_leb_trans String.[] (String.◌∷◌ d t) String.[] h k = refl
text_leb_trans String.[] (String.◌∷◌ d t) (String.◌∷◌ e u) h k = rw clauses.nil-cons refl
text_leb_trans (String.◌∷◌ c s) String.[] u h k = cc (ap is_le (clauses.cons-nil c s))
text_leb_trans (String.◌∷◌ c s) (String.◌∷◌ d t) String.[] h k =
    cc (ap is_le (clauses.cons-nil d t))
text_leb_trans (String.◌∷◌ c s) (String.◌∷◌ d t) (String.◌∷◌ e u) h k = ground (
  arith,
  clauses.cons-cons c d s t,
  clauses.cons-cons d e t u,
  clauses.cons-cons c e s u,
  text_leb_trans s t u,
)
