-- ===== src/Go/Strings.antt =====
-- Package strings: `ToLower`, `ReplaceAll` of one character, `Split` at one character,
-- `TrimPrefix`, `TrimSuffix`, `Contains`, `Join`. `ToLower` is that of ASCII, to which the
-- hostname pattern of the custom resource and the form of a zone id confine the texts.
pub mod Split
use Prim.Native.Char.{Char, code, nul}
use Prim.Native.String
use text.Mathlib.Text.{starts_with}
use gateway_orchestrator.Prelude.{
  ℕ, zero, suc, ◌-◌, String, ◌<>◌, Bool, true, false, ◌&&◌, ◌||◌, Option, none, some, List, [], ◌∷◌,
  leb, eqb, ◌==◌, if◌then◌else◌,
}

-- The character at an index.
unfoldable pub nth : String → ℕ → Char
nth String.[] n = nul
nth (String.◌∷◌ c s) zero = c
nth (String.◌∷◌ c s) (suc n) = nth s n

unfoldable pub lower : Char → Char
unfolding nth
lower c =
    if leb b'A' (code c) && leb (code c) b'Z'
    then nth "abcdefghijklmnopqrstuvwxyz" (code c - b'A')
    else c

unfoldable pub to_lower : String → String
unfolding lower
to_lower String.[] = ""
to_lower (String.◌∷◌ c s) = String.◌∷◌ (lower c) (to_lower s)

-- `strings.ReplaceAll(s, string(old), new)`
unfoldable pub replace_all : ℕ → String → String → String
replace_all old new String.[] = ""
replace_all old new (String.◌∷◌ c s) =
    let rest = replace_all old new s in if eqb (code c) old then new <> rest else String.◌∷◌ c rest

unfoldable pub cons_part : Char → List String → List String
cons_part c [] = String.◌∷◌ c "" ∷ []
cons_part c (p ∷ ps) = String.◌∷◌ c p ∷ ps

-- `strings.Split(s, string(sep))`: a text with no separator is its only part.
unfoldable pub split : ℕ → String → List String
unfolding cons_part
split sep String.[] = "" ∷ []
split sep (String.◌∷◌ c s) =
    let rest = split sep s in if eqb (code c) sep then "" ∷ rest else cons_part c rest

-- The text behind `prefix`, if it begins so.
unfoldable pub cut_prefix : String → String → Option String
cut_prefix String.[] s = some s
cut_prefix (String.◌∷◌ c p) String.[] = none
cut_prefix (String.◌∷◌ c p) (String.◌∷◌ d s) =
    let rest = cut_prefix p s in if eqb (code c) (code d) then rest else none

unfoldable pub trim_prefix : String → String → String
unfolding cut_prefix
trim_prefix s prefix = elim (cut_prefix prefix s) [ none ↦ s | some rest ↦ rest ]

unfoldable pub trim_suffix : String → String → String
trim_suffix String.[] suffix = ""
trim_suffix (String.◌∷◌ c s) suffix =
    let rest = String.◌∷◌ c (trim_suffix s suffix) in if String.◌∷◌ c s == suffix then "" else rest

unfoldable pub contains_text : String → String → Bool
unfolding cut_prefix
contains_text String.[] sub = sub == ""
contains_text (String.◌∷◌ c s) sub =
    let rest = contains_text s sub in
    elim (cut_prefix sub (String.◌∷◌ c s)) [ some _ ↦ true | none ↦ rest ]

unfoldable pub join : List String → String → String
join [] sep = ""
join (p ∷ []) sep = p
join (p ∷ q ∷ ps) sep = p <> sep <> join (q ∷ ps) sep
