-- ===== src/Controller/LoadBalancer/Order.antt =====
-- The order in which the requests of a gateway are listed.
use mathlib.Core.Path.{subst}
use mathlib.Core.List.{Perm, Permᴰ}
use mathlib.Core.List.Permᴰ
use mathlib.Core.Logic.{∥∥₁_map}
use gateway_orchestrator.Prelude.{
  ◌≡◌, refl, ◌∙◌, String, Bool, true, false, List, [], ◌∷◌, ◌++◌, arith, contains, ◌||◌, ◌==◌,
  if◌then◌else◌,
}
use gateway_orchestrator.Api.Request.{Request}
use gateway_orchestrator.Pool.{Pool}
use gateway_orchestrator.Controller.LoadBalancer.{
  holds_certificate, collect_arns, add_arn, build_spec,
}
use gateway_orchestrator.Controller.LoadBalancer.Spec.{build_spec_of_perm}

-- An item that is kept where a test holds.
abbrev keep : Bool → String → List String → List String
keep b s l = if b then s ∷ l else l

keep-Permᴰ :
    (b : Bool) (s : String) {l k : List String} → Permᴰ l k → Permᴰ (keep b s l) (keep b s k)
keep-Permᴰ true s p = Permᴰ.cons refl p
keep-Permᴰ false s p = p

keep_swap :
    (b c : Bool) (s t : String) (l : List String)
    → Permᴰ (keep b s (keep c t l)) (keep c t (keep b s l))
keep_swap true true s t l = Permᴰ.swap refl refl
keep_swap true false s t l = Permᴰ.refl (s ∷ l)
keep_swap false true s t l = Permᴰ.refl (t ∷ l)
keep_swap false false s t l = Permᴰ.refl l

module _ (gateway namespace : String) where
  abbrev arns_of : List Request → List String
  arns_of = collect_arns gateway namespace

  arns_of_swap :
      (x y : Request) (l : List Request) → Permᴰ (arns_of (x ∷ y ∷ l)) (arns_of (y ∷ x ∷ l))
  unfolding collect_arns
  arns_of_swap x y l =
      keep_swap (holds_certificate gateway namespace x) (holds_certificate gateway namespace y)
        x.status.certificate_arn y.status.certificate_arn (arns_of l)

  arns_of-Permᴰ : {l k : List Request} → Permᴰ l k → Permᴰ (arns_of l) (arns_of k)
  unfolding collect_arns
  arns_of-Permᴰ Permᴰ.nil = Permᴰ.nil
  arns_of-Permᴰ (Permᴰ.cons {a = a} {l₁ = l} {l₂ = k} e p) =
      subst (λ b. Permᴰ (arns_of (a ∷ l)) (arns_of (b ∷ k))) e
        (keep-Permᴰ (holds_certificate gateway namespace a) a.status.certificate_arn
          (arns_of-Permᴰ p))
  arns_of-Permᴰ (Permᴰ.swap {a = a} {b = b} {b' = b'} {l = l} e f) =
      subst (λ c. Permᴰ (arns_of (a ∷ b ∷ l)) (arns_of (c ∷ b' ∷ l))) f
        (subst (λ c. Permᴰ (arns_of (a ∷ b ∷ l)) (arns_of (b ∷ c ∷ l))) e (arns_of_swap a b l))
  arns_of-Permᴰ (Permᴰ.trans p q) = Permᴰ.trans (arns_of-Permᴰ p) (arns_of-Permᴰ q)

contains-Permᴰ : (s : String) {l k : List String} → Permᴰ l k → contains l s ≡ contains k s
contains-Permᴰ s Permᴰ.nil = refl
contains-Permᴰ s (Permᴰ.cons e p) = cc (e, contains-Permᴰ s p)
contains-Permᴰ s (Permᴰ.swap e f) = ground (arith, e, f)
contains-Permᴰ s (Permᴰ.trans p q) = contains-Permᴰ s p ∙ contains-Permᴰ s q

add_if-Permᴰ :
    (b : Bool) (new : String) {l k : List String}
    → Permᴰ l k
    → Permᴰ (if b then l else l ++ new ∷ []) (if b then k else k ++ new ∷ [])
add_if-Permᴰ true new p = p
add_if-Permᴰ false new p = Permᴰ.append_right (new ∷ []) p

add_arn-Permᴰ :
    (new : String) {l k : List String} → Permᴰ l k → Permᴰ (add_arn new l) (add_arn new k)
unfolding add_arn
add_arn-Permᴰ new {l} {k} p =
    subst (λ b. Permᴰ (add_arn new l) (if (new == "") || b then k else k ++ new ∷ []))
      (contains-Permᴰ new p) (add_if-Permᴰ ((new == "") || contains l new) new p)

-- The spec that `syncLoadBalancerConfiguration` builds for a gateway from the listed requests, with
-- or without a new certificate, is the same for every order in which the requests are listed.
pub build_spec-collect_arns_of_perm :
    (pool : Pool) (visibility waf_arn gateway namespace new : String) {items items' : List Request}
    → Perm items items'
    → let arns = collect_arns gateway namespace items in
      let arns' = collect_arns gateway namespace items' in
      build_spec pool (add_arn new arns) visibility waf_arn
      ≡ build_spec pool (add_arn new arns') visibility waf_arn
build_spec-collect_arns_of_perm pool visibility waf_arn gateway namespace new p =
    build_spec_of_perm pool visibility waf_arn
      (∥∥₁_map p (λ q. add_arn-Permᴰ new (arns_of-Permᴰ gateway namespace q)))
