-- ===== src/Go/Sort.antt =====
-- Package sort: `sort.Strings`, ascending by bytes. The library's algorithm is not observable on
-- texts, where equal items are the same text; insertion sort stands for it.
pub mod Order
pub mod Laws
use Prim.Native.String.{compare}
use text.Mathlib.Text.{is_le}
use gateway_orchestrator.Prelude.{String, Bool, List, [], ◌∷◌, if◌then◌else◌}

abbrev pub text_leb : String → String → Bool
text_leb s t = is_le (compare s t)

unfoldable pub sort_insert : String → List String → List String
sort_insert s [] = s ∷ []
sort_insert s (t ∷ l) = if text_leb s t then s ∷ t ∷ l else t ∷ sort_insert s l

unfoldable pub sort_strings : List String → List String
unfolding sort_insert
sort_strings [] = []
sort_strings (s ∷ l) = sort_insert s (sort_strings l)
