-- ===== src/Controller/Claim/Names.antt =====
-- Which zones and hostnames share a claim's name.
use Prim.Native.Char.{Char, code, char}
use Prim.Native.String.append
use text.Mathlib.TextLemmas.{tail-eq_of_cons-eq, head-eq_of_cons-eq}
use gateway_orchestrator.Prelude.{
  ℕ, zero, suc, ◌-◌, ◌<◌, ◌≡◌, ◌≢◌, ◌↔◌, refl, sym, ap, ◌∙◌, String, ◌<>◌, Bool, true, false,
  if◌then◌else◌, arith, ltb,
}
use gateway_orchestrator.Go.Strings.{to_lower, lower, nth, replace_all}
use gateway_orchestrator.Go.Strings.Split.{Lacks}
use gateway_orchestrator.Controller.Claim.{generate_claim_name}

-- A test of all numbers below a bound, from the top.
holds_under : (ℕ → Bool) → ℕ → Bool
holds_under test zero = true
holds_under test (suc top) = if test top then holds_under test top else false

at_code :
    (test : ℕ → Bool) (bound k : ℕ) → k < bound → holds_under test bound ≡ true → test k ≡ true
unfolding holds_under
at_code test zero k below h = absurd (omega arith)
at_code test (suc top) k below h = ground (arith, at_code test top k)

abbrev alphabet : String
alphabet = "abcdefghijklmnopqrstuvwxyz"

alphabet_table : holds_under (λ k. ltb 96 (code (nth alphabet k))) 26 ≡ true
unfolding holds_under nth
alphabet_table = refl

lower_ne_dash : (c : Char) → code c ≢ 45 → code (lower c) ≢ 45
unfolding lower
lower_ne_dash c h =
    ground (arith, alphabet_table, at_code (λ k. ltb 96 (code (nth alphabet k))) 26 (code c - 65))

to_lower-Lacks : (s : String) → Lacks 45 s → Lacks 45 (to_lower s)
unfolding to_lower
to_lower-Lacks String.[] h = tt
to_lower-Lacks (String.◌∷◌ c s) (h, k) = (lower_ne_dash c h, to_lower-Lacks s k)

abbrev dash : Char
dash = char 45 tt

cons_append_inj :
    (s t u v : String)
    → Lacks 45 s
    → Lacks 45 t
    → s <> String.◌∷◌ dash u ≡ t <> String.◌∷◌ dash v
    → (s ≡ t) × (u ≡ v)
cons_append_inj String.[] String.[] u v hs ht e =
    (refl, tail-eq_of_cons-eq (sym (append.nil _) ∙ e ∙ append.nil _))
cons_append_inj String.[] (String.◌∷◌ d t) u v hs ht e =
    absurd (ht.0 (ap code (sym (head-eq_of_cons-eq (sym (append.nil _) ∙ e ∙ append.cons d t _)))))
cons_append_inj (String.◌∷◌ c s) String.[] u v hs ht e =
    absurd (hs.0 (ap code (head-eq_of_cons-eq (sym (append.cons c s _) ∙ e ∙ append.nil _))))
cons_append_inj (String.◌∷◌ c s) (String.◌∷◌ d t) u v hs ht e =
    let whole =
      sym (append.cons c s (String.◌∷◌ dash u)) ∙ e ∙ append.cons d t (String.◌∷◌ dash v) in
    let rest = cons_append_inj s t u v hs.1 ht.1 (tail-eq_of_cons-eq whole) in
    (cc (head-eq_of_cons-eq whole, rest.0), rest.1)

dash_append : (s : String) → "-" <> s ≡ String.◌∷◌ dash s
dash_append s = append.cons dash "" s ∙ ap (String.◌∷◌ dash) (append.nil s)

-- Where no zone id has a dash, two claims have one name exactly where the zone ids agree but for
-- case, and the hostnames agree but for case once each `*` is replaced by `wildcard`.
pub generate_claim_name_iff :
    (zone zone' host host' : String)
    → Lacks 45 zone
    → Lacks 45 zone'
    → (generate_claim_name zone host ≡ generate_claim_name zone' host') ↔ (
        (to_lower zone ≡ to_lower zone')
        × (to_lower (replace_all 42 "wildcard" host) ≡ to_lower (replace_all 42 "wildcard" host')))
unfolding generate_claim_name
generate_claim_name_iff zone zone' host host' h h' = (
  λ e.
      cons_append_inj (to_lower zone) (to_lower zone') _ _ (to_lower-Lacks zone h)
        (to_lower-Lacks zone' h')
        (ap (λ u. to_lower zone <> u) (sym (dash_append _))
          ∙ e
          ∙ ap (λ u. to_lower zone' <> u) (dash_append _)),
  λ (zones, hosts). cc (zones, hosts),
)
