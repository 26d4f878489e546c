-- ===== src/Controller/Claim/Release.antt =====
-- What `deleteDomainClaim` does to the claims.
use gateway_orchestrator.Prelude.{
  ◌≡◌, ◌≢◌, sym, ap, ◌∙◌, String, none, some, Result, ok, Result-cases, inl, inr, Bool-cases,
  Option-cases,
}
use gateway_orchestrator.Api.Meta.{Error}
use gateway_orchestrator.Api.Request.{Request}
use gateway_orchestrator.Api.Claim.{DomainClaim}
use gateway_orchestrator.Services.Laws.{ClaimStore}
use gateway_orchestrator.Controller.Types.{Reconciler}
use gateway_orchestrator.Controller.Claim.{
  claim_name, claim_key, is_owner, ignoring_not_found, delete_domain_claim,
}
use gateway_orchestrator.Controller.Claim.Ownership.{own_ref, is_owner-true, is_owner-false}

module _ {W : Type 0} (r : Reconciler W) (store : ClaimStore r.library r.services) where
  open r use {services as sv}
  open store use {owner}

  -- What a release leaves, by the claims before and after it.
  pub record Released (ghr : Request) (res : Result Error (Unit {0})) (w w' : W) : Type 0 where
    pub spares : (n : String) → owner w n ≢ some (own_ref ghr) → owner w' n ≡ owner w n
    pub local : (n : String) → n ≢ claim_name ghr → owner w' n ≡ owner w n
    pub gone : res ≡ ok tt → owner w' (claim_name ghr) ≢ some (own_ref ghr)

  Released-same :
      (ghr : Request) (res : Result Error (Unit {0})) (w w' : W)
      → owner w' ≡ owner w
      → (res ≡ ok tt → owner w (claim_name ghr) ≢ some (own_ref ghr))
      → Released ghr res w w'
  Released-same ghr res w w' e h = record {
    spares = λ n x. ap (λ f. f n) e;
    local = λ n x. ap (λ f. f n) e;
    gone = λ x. rw e (h x);
  }

  Released-resp :
      (ghr : Request) (res : Result Error (Unit {0})) (w v w' : W)
      → owner v ≡ owner w
      → Released ghr res v w'
      → Released ghr res w w'
  Released-resp ghr res w v w' e d = record {
    spares = λ n x. d.spares n (rw e x) ∙ ap (λ f. f n) e;
    local = λ n x. d.local n x ∙ ap (λ f. f n) e;
    gone = d.gone;
  }

  deleted-Released :
      (ghr : Request) (c : DomainClaim) (w : W)
      → c.name ≡ claim_name ghr
      → owner w (claim_name ghr) ≡ some (own_ref ghr)
      → (sv.claims.delete c w).0 ≡ ok tt
      → Released ghr (ok tt) w (sv.claims.delete c w).1
  deleted-Released ghr c w name held e =
      let free : owner (sv.claims.delete c w).1 (claim_name ghr) ≡ none =
        ap (owner (sv.claims.delete c w).1) (sym name) ∙ store.delete_done c w e in
      record {
        spares = λ n x. store.delete_others c w n (λ eq. x (ap (owner w) (eq ∙ name) ∙ held));
        local = λ n x. store.delete_others c w n (λ eq. x (eq ∙ name));
        gone = λ x eq. cc;
      }

  ignoring-Released :
      (ghr : Request) (c : DomainClaim) (w : W)
      → c.name ≡ claim_name ghr
      → owner w (claim_name ghr) ≡ some (own_ref ghr)
      → let (res, w') = ignoring_not_found r (sv.claims.delete c) w in Released ghr res w w'
  unfolding ignoring_not_found
  ignoring-Released ghr c w name held = elim (Result-cases (sv.claims.delete c w).0) [
    | inl (_, e) ↦ rw e (deleted-Released ghr c w name held e)
    | inr (e, x) ↦ elim (Option-cases (r.library.ignore_not_found e)) [
      | inl missing ↦
          let free = rw name at (store.delete_missing c w e x missing) in
          rw (x, missing) (Released-same ghr _ w _ (store.delete_failed c w e x) (λ _ eq. cc))
      | inr (e', kept) ↦
          rw (x, kept) (Released-same ghr _ w _ (store.delete_failed c w e x) (λ eq. cc))
    ]
  ]

  -- `deleteDomainClaim` changes no claim but the request's own of its zone and hostname: a claim
  -- with another owner stays, and so do the claims of all other names. Where it succeeds, that claim
  -- is no longer the request's.
  pub delete_domain_claim-Released :
      (ghr : Request) (w : W) → let (res, w') = delete_domain_claim r ghr w in Released ghr res w w'
  unfolding delete_domain_claim
  delete_domain_claim-Released ghr w =
      let k = claim_key ghr in
      let w' = (sv.claims.get k w).1 in
      let same = store.get_same k w in
      elim (Result-cases (sv.claims.get k w).0) [
        | inl (c, e) ↦
            let (name, held) = store.get_found k w c e in
            elim (Bool-cases (is_owner ghr c)) [
              | inl own ↦
                  let mine = is_owner-true ghr c own in
                  rw (e, own)
                    (Released-resp ghr _ w w' _ same
                      (ignoring-Released ghr c w' name (rw same (held ∙ ap some mine))))
              | inr other ↦
                  rw (e, other)
                    (Released-same ghr _ w w' same (λ _ eq. is_owner-false ghr c other (cc)))
            ]
        | inr (e, x) ↦ elim (Bool-cases (r.library.is_not_found e)) [
          | inl missing ↦
              let free = store.get_missing k w e x missing in
              rw (x, missing) (Released-same ghr _ w w' same (λ _ eq. cc))
          | inr other ↦ rw (x, other) (Released-same ghr _ w w' same (λ eq. cc))
        ]
      ]
