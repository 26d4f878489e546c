-- ===== src/Controller/Gateway/Capacity.antt =====
-- The counts that the capacity test of `SelectGateway` reads, over what the code does to a gateway.
use gateway_orchestrator.Prelude.{
  ◌≡◌, refl, ◌∙◌, String, Bool, true, false, arith, ◌==◌, string_dec,
}
use gateway_orchestrator.Prelude.Dict.{Dict, lookup, lookup-insert}
use gateway_orchestrator.Go.Int.{ℤ, pos}
use gateway_orchestrator.Go.Format.{scan_int, scan_signed, scan_number, scan_digits}
use gateway_orchestrator.Api.Cluster.{Gateway}
use gateway_orchestrator.Pool.Defs.{
  Pool, new_gateway, get_gateway_info, has_capacity, count_annotation, visibility_key, waf_key,
  config_key, config_name, certificate_count_key, rule_count_key,
}
use gateway_orchestrator.Controller.Gateway.{allow_all, correct, correct_annotations}

-- A gateway as the code leaves it: `CreateGateway` makes it, `ensureAllowedRoutes` writes its
-- listeners, `ensureGatewayConfiguration` its annotations.
pub data Made (p : Pool) : Gateway → Type 0 where
  created :
      (visibility waf_arn : String) (index : ℤ) → Made p (new_gateway p visibility waf_arn index)
  opened : (gw : Gateway) → Made p gw → Made p (record gw { listeners = allow_all gw.listeners })
  corrected :
      (gw : Gateway) (name visibility waf_arn : String)
      → Made p gw
      → Made p (record gw {
        annotations = (correct_annotations name visibility waf_arn gw.annotations).0;
      })

lookup-correct :
    (key value other : String) (d : Dict String × Bool)
    → (key == other) ≡ false
    → lookup other (correct key value d).0 ≡ lookup other d.0
unfolding correct
lookup-correct key value other (d, b) h = ground (arith, lookup-insert key other value d)

-- A key that is none of the three corrected ones.
abbrev IsFree : String → Type 0
IsFree key =
    ((config_key == key) ≡ false) × ((visibility_key == key) ≡ false) × ((waf_key == key) ≡ false)

lookup-annotations :
    (name visibility waf_arn key : String) (d : Dict String)
    → IsFree key
    → lookup key (correct_annotations name visibility waf_arn d).0 ≡ lookup key d
unfolding correct_annotations
lookup-annotations name visibility waf_arn key d (c, v, w) =
    let once = correct config_key (config_name name) (d, false) in
    let twice = correct visibility_key visibility once in
    lookup-correct waf_key waf_arn key twice w
    ∙ lookup-correct visibility_key visibility key once v
    ∙ lookup-correct config_key (config_name name) key (d, false) c

certificate_count-IsFree : IsFree certificate_count_key
unfolding string_dec
certificate_count-IsFree = (refl, refl, refl)

rule_count-IsFree : IsFree rule_count_key
unfolding string_dec
rule_count-IsFree = (refl, refl, refl)

count-lookup :
    (key : String) (d d' : Dict String)
    → lookup key d' ≡ lookup key d
    → count_annotation key d' ≡ count_annotation key d
unfolding count_annotation
count-lookup key d d' h = ground arith

count_kept :
    (name visibility waf_arn key : String) (d : Dict String)
    → IsFree key
    → count_annotation key (correct_annotations name visibility waf_arn d).0
      ≡ count_annotation key d
count_kept name visibility waf_arn key d free =
    count-lookup key d _ (lookup-annotations name visibility waf_arn key d free)

counts :
    (p : Pool) (gw : Gateway)
    → Made p gw
    → (count_annotation certificate_count_key gw.annotations ≡ pos 0)
      × (count_annotation rule_count_key gw.annotations ≡ pos 0)
counts p _ (created visibility waf_arn index) =
    unfold new_gateway count_annotation lookup string_dec scan_int scan_signed scan_number
      scan_digits in
    (refl, refl)
counts p _ (opened gw made) = counts p gw made
counts p _ (corrected gw name visibility waf_arn made) =
    let (c, u) = counts p gw made in
    (
      count_kept name visibility waf_arn certificate_count_key gw.annotations
            certificate_count-IsFree
          ∙ c,
      count_kept name visibility waf_arn rule_count_key gw.annotations rule_count-IsFree ∙ u,
    )

-- A gateway that `CreateGateway` has made, after any sequence of the writes of `ensureAllowedRoutes`
-- and `ensureGatewayConfiguration`, for whatever requests, reads as one with no
-- certificate and no rule, so that it passes the capacity test of `SelectGateway`: the limits of 20
-- certificates and 100 rules are never reached by what this code writes.
pub counts_stay_zero :
    (p : Pool) (gw : Gateway)
    → Made p gw
    → ((get_gateway_info gw).certificate_count ≡ pos 0)
      × ((get_gateway_info gw).rule_count ≡ pos 0)
      × (has_capacity (get_gateway_info gw) ≡ true)
unfolding get_gateway_info
counts_stay_zero p gw made = let (c, u) = counts p gw made in (c, u, rw (c, u) refl)
