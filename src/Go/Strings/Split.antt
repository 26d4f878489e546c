-- ===== src/Go/Strings/Split.antt =====
-- `strings.Split` of texts that are put together with the separator.
use Prim.Native.Char.{Char, code}
use Prim.Native.String.append
use gateway_orchestrator.Prelude.{
  ℕ, ◌≡◌, ◌≢◌, refl, String, ◌<>◌, List, [], ◌∷◌, ◌++◌, arith, Bool-cases, inl, inr, eqb,
}
use gateway_orchestrator.Go.Strings.{split, cons_part}

-- No character of a text has the code.
abbrev pub Lacks : ℕ → String → Type 0
Lacks b String.[] = Unit
Lacks b (String.◌∷◌ c s) = (code c ≢ b) × Lacks b s

cons_part-append :
    (c : Char) (ps qs : List String) → ps ≢ [] → cons_part c (ps ++ qs) ≡ cons_part c ps ++ qs
unfolding cons_part
cons_part-append c [] qs h = absurd (h refl)
cons_part-append c (p ∷ ps) qs h = refl

pub split-ne-nil : (sep : ℕ) (s : String) → split sep s ≢ []
unfolding split
split-ne-nil sep String.[] = cc
split-ne-nil sep (String.◌∷◌ c s) = elim (Bool-cases (eqb (code c) sep)) [
  | inl e ↦ rw e (cc)
  | inr e ↦ rw e (ne-nil c (split sep s))
]
  where
    ne-nil : (c : Char) (ps : List String) → cons_part c ps ≢ []
    ne-nil c [] = cc
    ne-nil c (p ∷ ps) = cc

-- A separator between two texts splits them.
pub split-append :
    (sep : ℕ) (s t : String) (c : Char)
    → code c ≡ sep
    → split sep (s <> String.◌∷◌ c t) ≡ split sep s ++ split sep t
unfolding split
split-append sep String.[] t c e = rw append.nil (ground arith)
split-append sep (String.◌∷◌ d s) t c e = rw (append.cons d s (String.◌∷◌ c t)) (
    ground (
      arith,
      split-append sep s t c e,
      cons_part-append d (split sep s) (split sep t) (split-ne-nil sep s),
    ))

-- A text without the separator is its only part.
pub split_of_Lacks : (sep : ℕ) (s : String) → Lacks sep s → split sep s ≡ s ∷ []
unfolding split
split_of_Lacks sep String.[] h = refl
split_of_Lacks sep (String.◌∷◌ c s) h = ground (arith, split_of_Lacks sep s h.1)
