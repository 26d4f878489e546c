-- ===== src/Prelude/Dict.antt =====
-- `map[string]string` as an association list. A nil map and an empty one are both `[]`: the code
-- tells them apart only to allocate before a write. A missing key reads as the empty string.
use mathlib.Core.Path.{◌≡◌, refl}
use mathlib.Core.Option.{Option, none, some}
use mathlib.Core.List.{List, [], ◌∷◌}
use Prim.Native.String.{String}
use native.Mathlib.Omega.{arith}
use gateway_orchestrator.Prelude.Tests.{if◌then◌else◌}
use gateway_orchestrator.Prelude.Text.{◌==◌}

abbrev pub Dict : Type 0 → Type 0
Dict V = List (String × V)

module _ {V : Type 0} where
  unfoldable pub lookup : String → Dict V → Option V
  lookup k [] = none
  lookup k ((j, v) ∷ d) = if j == k then some v else lookup k d

  -- `d[k] = v`
  unfoldable pub insert : String → V → Dict V → Dict V
  insert k v [] = (k, v) ∷ []
  insert k v ((j, w) ∷ d) = if j == k then (k, v) ∷ d else (j, w) ∷ insert k v d

  -- `delete(d, k)`: every entry of the key goes; a Go map has at most one.
  unfoldable pub erase : String → Dict V → Dict V
  erase k [] = []
  erase k ((j, w) ∷ d) = let rest = erase k d in if j == k then rest else (j, w) ∷ rest

  pub lookup-insert :
      (k j : String) (v : V) (d : Dict V)
      → lookup j (insert k v d) ≡ (if k == j then some v else lookup j d)
  unfolding lookup insert
  lookup-insert k j v [] = refl
  lookup-insert k j v ((i, w) ∷ d) = ground (arith, lookup-insert k j v d)

  pub lookup-erase :
      (k j : String) (d : Dict V) → lookup j (erase k d) ≡ (if k == j then none else lookup j d)
  unfolding lookup erase
  lookup-erase k j [] = ground arith
  lookup-erase k j ((i, w) ∷ d) = ground (arith, lookup-erase k j d)

-- `d[k]` of a map of strings.
unfoldable pub get : String → Dict String → String
unfolding lookup
get k d = elim (lookup k d) [ none ↦ "" | some v ↦ v ]

pub get-insert :
    (k j v : String) (d : Dict String) → get j (insert k v d) ≡ (if k == j then v else get j d)
unfolding get
get-insert k j v d = ground (arith, lookup-insert k j v d)
