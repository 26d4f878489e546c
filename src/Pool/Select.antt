-- ===== src/Pool/Select.antt =====
-- What `SelectGateway` returns.
use gateway_orchestrator.Prelude.{
  ℕ, ◌<◌, ==_refl, ◌≡◌, refl, String, Bool, true, false, ◌&&◌, Option, none, some, List, [], ◌∷◌,
  ◌++◌, arith, All, Bool-cases, inl, inr, ap, if◌then◌else◌,
}
use gateway_orchestrator.Prelude.Dict
use gateway_orchestrator.Prelude.Dict.{Dict}
use gateway_orchestrator.Go.Int.{ℤ, pos, negsuc, ltb_nat}
use gateway_orchestrator.Api.Cluster.{Gateway}
use gateway_orchestrator.Services.{Services}
use gateway_orchestrator.Pool.Defs.{
  Pool, GatewayInfo, is_eligible, has_capacity, get_gateway_info, first_fit, count_annotation,
}

-- The selector, where one is given, selects the labels.
abbrev pub Selected : Option (Dict String → Bool) → Dict String → Type 0
Selected none labels = Unit
Selected (some matches) labels = matches labels ≡ true

-- A count below a limit; a negative one is.
abbrev pub Under : ℕ → ℤ → Type 0
Under limit (pos n) = n < limit
Under limit (negsuc n) = Unit

abbrev is_selected : Option (Dict String → Bool) → Dict String → Bool
is_selected selector labels = elim selector [ none ↦ true | some matches ↦ matches labels ]

Selected-of_test :
    (selector : Option (Dict String → Bool)) (labels : Dict String)
    → is_selected selector labels ≡ true
    → Selected selector labels
Selected-of_test none labels h = tt
Selected-of_test (some matches) labels h = h

test_of_Selected :
    (selector : Option (Dict String → Bool)) (labels : Dict String)
    → Selected selector labels
    → is_selected selector labels ≡ true
test_of_Selected none labels h = refl
test_of_Selected (some matches) labels h = h

Under-of_test : (n : ℤ) (limit : ℕ) → ltb_nat n limit ≡ true → Under limit n
Under-of_test (pos n) limit h = ground arith
Under-of_test (negsuc n) limit h = tt

test_of_Under : (n : ℤ) (limit : ℕ) → Under limit n → ltb_nat n limit ≡ true
test_of_Under (pos n) limit h = ground arith
test_of_Under (negsuc n) limit h = refl

module _ (p : Pool) (visibility waf_arn : String) (selector : Option (Dict String → Bool)) where
  -- What the pool promises of a gateway that it selects: the pool's class, the wanted visibility and
  -- WAF on its annotations, labels that the selector selects, fewer than 20 certificates and fewer
  -- than 100 rules on its annotations.
  pub record Suits (gw : Gateway) : Type 0 where
    pub of_class : gw.gateway_class_name ≡ p.gateway_class
    pub visible : Dict.get "gateway.opendi.com/visibility" gw.annotations ≡ visibility
    pub behind_waf : Dict.get "gateway.opendi.com/waf-arn" gw.annotations ≡ waf_arn
    pub selected : Selected selector gw.labels
    pub certificates :
        Under 20 (count_annotation "gateway.opendi.com/certificate-count" gw.annotations)
    pub rules : Under 100 (count_annotation "gateway.opendi.com/rule-count" gw.annotations)

  abbrev pub Unfit : Gateway → Type 0
  Unfit gw = ¬ Suits gw

  -- The two tests of the loop.
  abbrev fits : Gateway → Bool
  fits gw = is_eligible p visibility waf_arn selector gw && has_capacity (get_gateway_info gw)

  pub Suits-of_fits : (gw : Gateway) → fits gw ≡ true → Suits gw
  unfolding is_eligible get_gateway_info
  Suits-of_fits gw h = record {
    of_class = ground arith;
    visible = ground arith;
    behind_waf = ground arith;
    selected = Selected-of_test selector gw.labels (ground arith);
    certificates = Under-of_test _ 20 (ground arith);
    rules = Under-of_test _ 100 (ground arith);
  }

  fits_of_Suits : (gw : Gateway) → Suits gw → fits gw ≡ true
  unfolding is_eligible get_gateway_info
  fits_of_Suits gw s =
      let labels = test_of_Selected selector gw.labels s.selected in
      let certificates = test_of_Under _ 20 s.certificates in
      let rules = test_of_Under _ 100 s.rules in
      rw (s.of_class, s.visible, s.behind_waf, labels, certificates, rules)
        (ground (arith, ==_refl p.gateway_class, ==_refl visibility, ==_refl waf_arn))

  Unfit-of_fits : (gw : Gateway) → fits gw ≡ false → Unfit gw
  Unfit-of_fits gw h = λ s. let f = fits_of_Suits gw s in ground (arith, f, h)

  -- The first gateway that fits, with what stands before it.
  pub record FirstFit (items : List Gateway) (info : GatewayInfo) : Type 0 where
    pub before : List Gateway
    pub chosen : Gateway
    pub behind : List Gateway
    pub split : items ≡ before ++ chosen ∷ behind
    pub unfit_before : All Unfit before
    pub fit : Suits chosen
    pub read : info ≡ get_gateway_info chosen

  FirstFit-cons :
      (gw : Gateway) (items : List Gateway) (info : GatewayInfo)
      → Unfit gw
      → FirstFit items info
      → FirstFit (gw ∷ items) info
  FirstFit-cons gw items info u f = record {
    before = gw ∷ f.before;
    chosen = f.chosen;
    behind = f.behind;
    split = ap (λ l. gw ∷ l) f.split;
    unfit_before = (u, f.unfit_before);
    fit = f.fit;
    read = f.read;
  }

  first_fit_step :
      (gw : Gateway) (items : List Gateway)
      → first_fit p visibility waf_arn selector (gw ∷ items) ≡ (
          if fits gw
          then some (get_gateway_info gw)
          else first_fit p visibility waf_arn selector items)
  unfolding first_fit
  first_fit_step gw items = ground arith

  pub first_fit-FirstFit :
      (items : List Gateway) (info : GatewayInfo)
      → first_fit p visibility waf_arn selector items ≡ some info
      → FirstFit items info
  unfolding first_fit
  first_fit-FirstFit [] info h = cc
  first_fit-FirstFit (gw ∷ items) info h = elim (Bool-cases (fits gw)) [
    | inl f ↦ record {
      before = [];
      chosen = gw;
      behind = items;
      split = refl;
      unfit_before = tt;
      fit = Suits-of_fits gw f;
      read = ground (arith, first_fit_step gw items);
    }
    | inr u ↦
        FirstFit-cons gw items info (Unfit-of_fits gw u)
          (first_fit-FirstFit items info (ground (arith, first_fit_step gw items)))
  ]

  pub first_fit-none :
      (items : List Gateway)
      → first_fit p visibility waf_arn selector items ≡ none
      → All Unfit items
  unfolding first_fit
  first_fit-none [] h = tt
  first_fit-none (gw ∷ items) h =
      let step = first_fit_step gw items in
      (Unfit-of_fits gw (ground (arith, step)), first_fit-none items (ground (arith, step)))

  -- What a selection must be: the first gateway that fits, or none where none fits.
  abbrev pub IsSelection : List Gateway → Option GatewayInfo → Type 0
  IsSelection items none = All Unfit items
  IsSelection items (some info) = FirstFit items info
