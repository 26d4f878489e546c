-- ===== src/Controller/LoadBalancer/Arns.antt =====
-- Which certificates `getGatewayCertificateARNs` collects, and which `syncLoadBalancerConfiguration`
-- adds.
use mathlib.Core.Path.{subst}
use mathlib.Core.List.{Memᴰ}
use gateway_orchestrator.Prelude.{
  ◌≡◌, ◌≢◌, refl, String, true, none, List, [], ◌∷◌, ◌++◌, arith, contains, ◌==◌, Bool-cases, inl,
  inr, ◌&&◌, ◌||◌, not, ◌↔◌,
}
use gateway_orchestrator.Api.Request.{Request}
use gateway_orchestrator.Controller.LoadBalancer.{holds_certificate, collect_arns, add_arn}

-- A request that keeps a certificate on a gateway: it is not being deleted, it is assigned there,
-- and it has the certificate.
pub record Keeps (gateway namespace arn : String) (ghr : Request) : Type 0 where
  pub alive : ghr.meta.deletion_timestamp ≡ none
  pub at_gateway : ghr.status.assigned_gateway ≡ gateway
  pub in_namespace : ghr.status.assigned_gateway_namespace ≡ namespace
  pub has_arn : ghr.status.certificate_arn ≡ arn
  pub arn_set : arn ≢ ""

module _ (gateway namespace arn : String) where
  Keeps-of_holds :
      (ghr : Request)
      → holds_certificate gateway namespace ghr ≡ true
      → ghr.status.certificate_arn ≡ arn
      → Keeps gateway namespace arn ghr
  unfolding holds_certificate
  Keeps-of_holds ghr h e = ground arith

  holds_of_Keeps :
      (ghr : Request)
      → Keeps gateway namespace arn ghr
      → (holds_certificate gateway namespace ghr ≡ true) × (ghr.status.certificate_arn ≡ arn)
  unfolding holds_certificate
  holds_of_Keeps ghr k = ground arith

  abbrev pub Kept : List Request → Type 0
  Kept items = (ghr : Request) × Memᴰ ghr items × Keeps gateway namespace arn ghr

  collect_arns-cons :
      (ghr : Request) (items : List Request)
      → contains (collect_arns gateway namespace (ghr ∷ items)) arn ≡ (
          (holds_certificate gateway namespace ghr && (ghr.status.certificate_arn == arn))
          || contains (collect_arns gateway namespace items) arn)
  unfolding collect_arns
  collect_arns-cons ghr items = ground arith

  collect_arns_sound :
      (items : List Request)
      → contains (collect_arns gateway namespace items) arn ≡ true
      → Kept items
  collect_arns_sound [] h = unfold collect_arns in cc
  collect_arns_sound (ghr ∷ items) h =
      elim (Bool-cases
        (holds_certificate gateway namespace ghr && (ghr.status.certificate_arn == arn))) [
          | inl yes_here ↦ (ghr, Memᴰ.head refl, Keeps-of_holds ghr (ground arith) (ground arith))
          | inr elsewhere ↦
              let (x, m, k) =
                collect_arns_sound items (ground (arith, collect_arns-cons ghr items)) in
              (x, Memᴰ.tail m, k)
        ]

  collect_arns_complete :
      (items : List Request) (ghr : Request)
      → Memᴰ ghr items
      → Keeps gateway namespace arn ghr
      → contains (collect_arns gateway namespace items) arn ≡ true
  collect_arns_complete [] ghr m k = elim m [ ]
  collect_arns_complete (x ∷ items) ghr (Memᴰ.head e) k =
      let holds = holds_of_Keeps x (subst (Keeps gateway namespace arn) e k) in
      ground (arith, collect_arns-cons x items, holds)
  collect_arns_complete (x ∷ items) ghr (Memᴰ.tail m) k =
      ground (arith, collect_arns-cons x items, collect_arns_complete items ghr m k)

  -- A certificate is collected for a gateway exactly where a request of the list that is not being
  -- deleted is assigned to the gateway and has it.
  pub collect_arns_iff :
      (items : List Request)
      → (contains (collect_arns gateway namespace items) arn ≡ true) ↔ Kept items
  collect_arns_iff items =
      (collect_arns_sound items, λ (ghr, m, k). collect_arns_complete items ghr m k)

contains-append :
    (xs ys : List String) (s : String) → contains (xs ++ ys) s ≡ (contains xs s || contains ys s)
contains-append [] ys s = refl
contains-append (x ∷ xs) ys s = ground (arith, contains-append xs ys s)

-- The list that `syncLoadBalancerConfiguration` passes on holds the collected certificates and the
-- new one, if it is not empty, and no other.
pub contains-add_arn :
    (new : String) (arns : List String) (arn : String)
    → contains (add_arn new arns) arn ≡ (contains arns arn || (not (new == "") && (new == arn)))
unfolding add_arn
contains-add_arn new arns arn = ground (arith, contains-append arns (new ∷ []) arn)
