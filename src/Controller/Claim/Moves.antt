-- ===== src/Controller/Claim/Moves.antt =====
-- An abstract table of owners, and what one operation on claims may do to it.
use gateway_orchestrator.Prelude.{
  ◌≡◌, ◌≢◌, sym, ◌∙◌, String, Bool, true, Option, none, some, inl, inr, String-cases,
}
use gateway_orchestrator.Api.Claim.{OwnerRef}

-- The owner of each name.
abbrev pub Table : Type 0
Table = String → Option OwnerRef

-- What one operation may do to the table: nothing; give a free name to the request that asks; or,
-- if it is one that frees, free a name of the request that lets it go.
pub data Move (frees : Bool) (name : String) (who : OwnerRef) (t t' : Table) : Type 0 where
  keep : ((n : String) → t' n ≡ t n) → Move frees name who t t'
  take :
      t name ≡ none
      → t' name ≡ some who
      → ((n : String) → n ≢ name → t' n ≡ t n)
      → Move frees name who t t'
  release :
      frees ≡ true
      → t name ≡ some who
      → t' name ≡ none
      → ((n : String) → n ≢ name → t' n ≡ t n)
      → Move frees name who t t'

-- Who has a name keeps it through a move that does not free that name of theirs.
pub Move-kept :
    {frees : Bool} {name : String} {who : OwnerRef} {t t' : Table} (n : String) (a : OwnerRef)
    → Move frees name who t t'
    → t n ≡ some a
    → (frees ≡ true → who ≡ a → name ≢ n)
    → t' n ≡ some a
Move-kept n a (keep h) p other = h n ∙ p
Move-kept {name = name} n a (take free mine h) p other = elim (String-cases n name) [
  | inl e ↦ absurd (cc (e, free, p))
  | inr x ↦ h n x ∙ p
]
Move-kept {name = name} n a (release fr held gone h) p other = elim (String-cases n name) [
  | inl e ↦ absurd (other fr (cc (e, held, p)) (sym e))
  | inr x ↦ h n x ∙ p
]
