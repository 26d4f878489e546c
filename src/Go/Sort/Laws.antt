-- ===== src/Go/Sort/Laws.antt =====
-- `sort.Strings` returns the ascending permutation of its input, one for all orders of it.
use mathlib.Core.List.{Perm, Permᴰ}
use mathlib.Core.List.Perm
use mathlib.Core.Logic.{∥∥₁_elim}
use mathlib.Core.HLevel.{hedberg}
use gateway_orchestrator.Prelude.{
  ◌≡◌, refl, ◌∙◌, String, true, List, [], ◌∷◌, arith, All, Bool-cases, inl, inr, string_dec,
}
use gateway_orchestrator.Go.Sort.{text_leb, sort_insert, sort_strings}
use gateway_orchestrator.Go.Sort.Order.{text_leb_total, text_leb_antisymm, text_leb_trans}

sort_insert_comm :
    (a b : String) (l : List String)
    → sort_insert a (sort_insert b l) ≡ sort_insert b (sort_insert a l)
unfolding sort_insert
sort_insert_comm a b [] =
    ground (arith, text_leb_total a b, text_leb_total b a, text_leb_antisymm a b)
sort_insert_comm a b (t ∷ l) = ground (
  arith,
  text_leb_total a b,
  text_leb_total b a,
  text_leb_antisymm a b,
  text_leb_trans a b t,
  text_leb_trans b a t,
  sort_insert_comm a b l,
)

sort_strings_swap :
    {a b a' b' : String} (l : List String)
    → a ≡ b'
    → b ≡ a'
    → sort_strings (a ∷ b ∷ l) ≡ sort_strings (a' ∷ b' ∷ l)
unfolding sort_strings
sort_strings_swap {a} {b} l e f =
    sort_insert_comm a b (sort_strings l)
    ∙ (λ i. sort_insert (f i) (sort_insert (e i) (sort_strings l)))

sort_strings-Permᴰ : {l k : List String} → Permᴰ l k → sort_strings l ≡ sort_strings k
unfolding sort_strings
sort_strings-Permᴰ Permᴰ.nil = refl
sort_strings-Permᴰ (Permᴰ.cons e p) = cc (e, sort_strings-Permᴰ p)
sort_strings-Permᴰ (Permᴰ.swap {l = l} e f) = sort_strings_swap l e f
sort_strings-Permᴰ (Permᴰ.trans p q) = sort_strings-Permᴰ p ∙ sort_strings-Permᴰ q

String-list-set : IsSet (List String)
String-list-set = hlevel (hedberg string_dec)

-- The order of the input does not matter.
pub sort_strings_of_perm : {l k : List String} → Perm l k → sort_strings l ≡ sort_strings k
sort_strings_of_perm {l} {k} p =
    ∥∥₁_elim p (String-list-set (sort_strings l) (sort_strings k)) (λ q. sort_strings-Permᴰ q)

-- No item of a list comes before a text.
abbrev pub Least : String → List String → Type 0
Least s = All (λ t. text_leb s t ≡ true)

abbrev pub Sorted : List String → Type 0
Sorted [] = Unit
Sorted (s ∷ l) = Least s l × Sorted l

sort_insert-perm : (s : String) (l : List String) → Perm (sort_insert s l) (s ∷ l)
unfolding sort_insert
sort_insert-perm s [] = Perm.refl (s ∷ [])
sort_insert-perm s (t ∷ l) = elim (Bool-cases (text_leb s t)) [
  | inl e ↦ rw e (Perm.refl (s ∷ t ∷ l))
  | inr e ↦ rw e (Perm.trans (Perm.cons t (sort_insert-perm s l)) (Perm.swap s t l))
]

pub sort_strings-perm : (l : List String) → Perm (sort_strings l) l
unfolding sort_strings
sort_strings-perm [] = Perm.refl []
sort_strings-perm (s ∷ l) =
    Perm.trans (sort_insert-perm s (sort_strings l)) (Perm.cons s (sort_strings-perm l))

Least-trans : (s t : String) (l : List String) → text_leb s t ≡ true → Least t l → Least s l
Least-trans s t [] h a = tt
Least-trans s t (u ∷ l) h (p, a) = (text_leb_trans s t u h p, Least-trans s t l h a)

Least-sort_insert :
    (s t : String) (l : List String) → text_leb s t ≡ true → Least s l → Least s (sort_insert t l)
unfolding sort_insert
Least-sort_insert s t [] h a = (h, tt)
Least-sort_insert s t (u ∷ l) h (p, a) = elim (Bool-cases (text_leb t u)) [
  | inl e ↦ rw e (h, (p, a))
  | inr e ↦ rw e (p, Least-sort_insert s t l h a)
]

sort_insert-Sorted : (s : String) (l : List String) → Sorted l → Sorted (sort_insert s l)
unfolding sort_insert
sort_insert-Sorted s [] h = (tt, tt)
sort_insert-Sorted s (t ∷ l) (least, h) = elim (Bool-cases (text_leb s t)) [
  | inl e ↦ rw e ((e, Least-trans s t l e least), (least, h))
  | inr e ↦ rw e (Least-sort_insert t s l (text_leb_total s t e) least, sort_insert-Sorted s l h)
]

pub sort_strings-Sorted : (l : List String) → Sorted (sort_strings l)
unfolding sort_strings
sort_strings-Sorted [] = tt
sort_strings-Sorted (s ∷ l) = sort_insert-Sorted s (sort_strings l) (sort_strings-Sorted l)
