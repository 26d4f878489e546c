-- ===== src/Controller/Claim/Ownership.antt =====
-- First come, first served: what `ensureDomainClaim` does to the claims.
use gateway_orchestrator.Prelude.{
  ◌≡◌, ◌≢◌, ap, ◌∙◌, String, Bool, true, false, none, some, Result, ok, err, arith, Result-cases,
  inl, inr, ◌⊎◌, Bool-cases,
}
use gateway_orchestrator.Api.Meta.{Error}
use gateway_orchestrator.Api.Request.{Request}
use gateway_orchestrator.Api.Claim.{DomainClaim, OwnerRef}
use gateway_orchestrator.Services.Laws.{ClaimStore}
use gateway_orchestrator.Controller.Types.{Reconciler}
use gateway_orchestrator.Controller.Claim.{
  claim_name, claim_key, new_claim, is_owner, create_domain_claim, ensure_domain_claim,
}

-- The owner reference of a request's own claims.
abbrev pub own_ref : Request → OwnerRef
own_ref ghr = record { namespace = ghr.meta.namespace; name = ghr.meta.name; uid = ghr.meta.uid }

pub is_owner-true :
    (ghr : Request) (c : DomainClaim) → is_owner ghr c ≡ true → c.spec.owner_ref ≡ own_ref ghr
is_owner-true ghr c h = ground arith

pub is_owner-false :
    (ghr : Request) (c : DomainClaim) → is_owner ghr c ≡ false → c.spec.owner_ref ≢ own_ref ghr
is_owner-false ghr c h = ground arith

module _ {W : Type 0} (r : Reconciler W) (store : ClaimStore r.library r.services) where
  open r use {services as sv}
  open store use {owner}

  -- What an answer says of the claim's owner before and after.
  abbrev pub Answered : Request → Result Error Bool → W → W → Type 0
  Answered ghr (ok true) w w' =
      ((owner w (claim_name ghr) ≡ none) ⊎ (owner w (claim_name ghr) ≡ some (own_ref ghr)))
      × (owner w' (claim_name ghr) ≡ some (own_ref ghr))
  Answered ghr (ok false) w w' =
      (owner w' ≡ owner w)
      × (owner w (claim_name ghr) ≢ some (own_ref ghr))
      × (owner w (claim_name ghr) ≢ none)
  Answered ghr (err e) w w' = owner w' ≡ owner w

  -- What an answer of the second half says, by the claims just before the `Create`.
  abbrev pub Raced : Request → Result Error Bool → W → W → Type 0
  Raced ghr (ok true) w w' =
      (owner w (claim_name ghr) ≡ none) × (owner w' (claim_name ghr) ≡ some (own_ref ghr))
  Raced ghr (ok false) w w' = (owner w' ≡ owner w) × (owner w (claim_name ghr) ≢ none)
  Raced ghr (err e) w w' = owner w' ≡ owner w

  -- Whatever others have done since the `Get` found no claim, the second half of
  -- `ensureDomainClaim` answers true only where the claim is still free, and it is then the
  -- request's; it answers false only where another has taken it meanwhile; and it leaves all claims
  -- as they were unless it answers true.
  pub create_domain_claim-Raced :
      (ghr : Request) (w : W) → let (res, w') = create_domain_claim r ghr w in Raced ghr res w w'
  unfolding create_domain_claim
  create_domain_claim-Raced ghr w =
      let c = new_claim ghr (sv.now w) in
      elim (Result-cases (sv.claims.create c w).0) [
        | inl (_, e) ↦ rw e (store.create_done c w e)
        | inr (e, h) ↦ elim (Bool-cases (r.library.is_already_exists e)) [
          | inl taken ↦
              rw (h, taken) (store.create_failed c w e h, store.create_exists c w e h taken)
          | inr other ↦ rw (h, other) (store.create_failed c w e h)
        ]
      ]

  Answered-of_Raced :
      (ghr : Request) (res : Result Error Bool) (w w' : W)
      → owner w (claim_name ghr) ≡ none
      → Raced ghr res w w'
      → Answered ghr res w w'
  Answered-of_Raced ghr (ok true) w w' free (h, k) = (inl h, k)
  Answered-of_Raced ghr (ok false) w w' free (h, k) = absurd (k free)
  Answered-of_Raced ghr (err e) w w' free h = h

  create_domain_claim-Answered :
      (ghr : Request) (w : W)
      → owner w (claim_name ghr) ≡ none
      → let (res, w') = create_domain_claim r ghr w in Answered ghr res w w'
  create_domain_claim-Answered ghr w free =
      Answered-of_Raced ghr _ w _ free (create_domain_claim-Raced ghr w)

  Answered-resp :
      (ghr : Request) (res : Result Error Bool) (w v w' : W)
      → owner v ≡ owner w
      → Answered ghr res v w'
      → Answered ghr res w w'
  Answered-resp ghr (ok true) w v w' e a = rw e at a
  Answered-resp ghr (ok false) w v w' e a = rw e at a
  Answered-resp ghr (err x) w v w' e a = rw e at a

  found-Answered :
      (ghr : Request) (c : DomainClaim) (w w' : W)
      → owner w' ≡ owner w
      → owner w (claim_name ghr) ≡ some c.spec.owner_ref
      → Answered ghr (ok (is_owner ghr c)) w w'
  found-Answered ghr c w w' same held = elim (Bool-cases (is_owner ghr c)) [
    | inl own ↦
        let mine = is_owner-true ghr c own in
        rw own (inr (held ∙ ap some mine), rw same (held ∙ ap some mine))
    | inr other ↦ rw other (same, (λ e. is_owner-false ghr c other (cc)), (λ e. cc))
  ]

  -- Where no other client writes claims between its two calls, `ensureDomainClaim` answers true only
  -- where the claim was free or the request's own, and the claim is then the request's; it answers
  -- false only where the claim is another's, which it leaves as it was; and it leaves all claims as
  -- they were where it fails.
  pub ensure_domain_claim-Answered :
      (ghr : Request) (w : W) → let (res, w') = ensure_domain_claim r ghr w in Answered ghr res w w'
  unfolding ensure_domain_claim
  ensure_domain_claim-Answered ghr w =
      let k = claim_key ghr in
      elim (Result-cases (sv.claims.get k w).0) [
        | inl (c, e) ↦
            rw e (found-Answered ghr c w _ (store.get_same k w) (store.get_found k w c e).1)
        | inr (e, h) ↦ elim (Bool-cases (r.library.is_not_found e)) [
          | inl gone ↦
              let w' = (sv.claims.get k w).1 in
              rw (h, gone)
                (Answered-resp ghr _ w w' _ (store.get_same k w) (
                  create_domain_claim-Answered ghr w'
                    (rw (store.get_same k w) (store.get_missing k w e h gone))))
          | inr other ↦ rw (h, other) (store.get_same k w)
        ]
      ]

  pub create_domain_claim_others :
      (ghr : Request) (w : W) (n : String)
      → n ≢ claim_name ghr
      → owner (create_domain_claim r ghr w).1 n ≡ owner w n
  unfolding create_domain_claim
  create_domain_claim_others ghr w n h =
      let others = store.create_others (new_claim ghr (sv.now w)) w n h in ground arith

  -- Whatever its answer, `ensureDomainClaim` leaves the claims of all other names as they were.
  pub ensure_domain_claim_others :
      (ghr : Request) (w : W) (n : String)
      → n ≢ claim_name ghr
      → owner (ensure_domain_claim r ghr w).1 n ≡ owner w n
  unfolding ensure_domain_claim
  ensure_domain_claim_others ghr w n h =
      let k = claim_key ghr in
      let w' = (sv.claims.get k w).1 in
      let same : owner w' n ≡ owner w n = ap (λ f. f n) (store.get_same k w) in
      elim (Result-cases (sv.claims.get k w).0) [
        | inl (c, e) ↦ rw e same
        | inr (e, x) ↦ elim (Bool-cases (r.library.is_not_found e)) [
          | inl gone ↦ rw (x, gone) (create_domain_claim_others ghr w' n h ∙ same)
          | inr other ↦ rw (x, other) same
        ]
      ]
