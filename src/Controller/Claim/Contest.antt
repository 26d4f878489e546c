-- ===== src/Controller/Claim/Contest.antt =====
-- Requests that contend for claims: each operation as a move of the table of owners, and runs in
-- which the operations of any requests interleave.
use gateway_orchestrator.Prelude.{
  ◌≡◌, ◌≢◌, refl, sym, ap, ◌∙◌, String, Bool, true, false, some, Result, ok, err, Result-cases, inl,
  inr, Bool-cases, arith, String-cases,
}
use gateway_orchestrator.Api.Meta.{Error}
use gateway_orchestrator.Api.Request.{Request}
use gateway_orchestrator.Api.Claim.{DomainClaim, OwnerRef}
use gateway_orchestrator.Services.Laws.{ClaimStore}
use gateway_orchestrator.Controller.Types.{Reconciler}
use gateway_orchestrator.Controller.Claim.{
  claim_name, claim_key, is_owner, ignoring_not_found, create_domain_claim, ensure_domain_claim,
  delete_domain_claim,
}
use gateway_orchestrator.Controller.Claim.Ownership.{
  own_ref, is_owner-true, Answered, Raced, create_domain_claim-Raced, ensure_domain_claim-Answered,
  create_domain_claim_others, ensure_domain_claim_others,
}
use gateway_orchestrator.Controller.Claim.Moves.{Move, keep, take, release, Move-kept}

module _ {W : Type 0} (r : Reconciler W) (store : ClaimStore r.library r.services) where
  open r use {services as sv}
  open store use {owner}

  abbrev pub MoveOf : Bool → Request → W → W → Type 0
  MoveOf frees ghr w w' = Move frees (claim_name ghr) (own_ref ghr) (owner w) (owner w')

  same : {w w' : W} → owner w' ≡ owner w → (n : String) → owner w' n ≡ owner w n
  same e n = ap (λ t. t n) e

  -- The second half of `ensureDomainClaim` is one move, whatever others did since its `Get`.
  pub create_domain_claim-Move :
      (ghr : Request) (w : W) → MoveOf false ghr w (create_domain_claim r ghr w).1
  create_domain_claim-Move ghr w =
      by_answer (create_domain_claim r ghr w).0 (create_domain_claim-Raced r store ghr w)
    where
      by_answer :
          (res : Result Error Bool)
          → Raced r store ghr res w (create_domain_claim r ghr w).1
          → MoveOf false ghr w (create_domain_claim r ghr w).1
      by_answer (ok true) (free, mine) = take free mine (create_domain_claim_others r store ghr w)
      by_answer (ok false) (e, _) = keep (same e)
      by_answer (err _) e = keep (same e)

  pub ensure_domain_claim-Move :
      (ghr : Request) (w : W) → MoveOf false ghr w (ensure_domain_claim r ghr w).1
  ensure_domain_claim-Move ghr w =
      by_answer (ensure_domain_claim r ghr w).0 (ensure_domain_claim-Answered r store ghr w)
    where
      by_answer :
          (res : Result Error Bool)
          → Answered r store ghr res w (ensure_domain_claim r ghr w).1
          → MoveOf false ghr w (ensure_domain_claim r ghr w).1
      by_answer (ok true) (inl free, mine) =
          take free mine (ensure_domain_claim_others r store ghr w)
      by_answer (ok true) (inr held, mine) = keep λ n. elim (String-cases n (claim_name ghr)) [
        | inl e ↦ rw e (mine ∙ sym held)
        | inr other ↦ ensure_domain_claim_others r store ghr w n other
      ]
      by_answer (ok false) (e, _, _) = keep (same e)
      by_answer (err _) e = keep (same e)

  ignoring_world :
      (c : DomainClaim) (w : W)
      → (ignoring_not_found r (sv.claims.delete c) w).1 ≡ (sv.claims.delete c w).1
  unfolding ignoring_not_found
  ignoring_world c w = ground arith

  ignoring-Move :
      (ghr : Request) (c : DomainClaim) (w : W)
      → c.name ≡ claim_name ghr
      → owner w (claim_name ghr) ≡ some (own_ref ghr)
      → MoveOf true ghr w (ignoring_not_found r (sv.claims.delete c) w).1
  ignoring-Move ghr c w name held = elim (Result-cases (sv.claims.delete c w).0) [
    | inl (_, e) ↦ rw (ignoring_world c w) (
        release refl held (ap (owner (sv.claims.delete c w).1) (sym name) ∙ store.delete_done c w e)
          (λ n x. store.delete_others c w n (λ y. x (y ∙ name))))
    | inr (e, x) ↦ rw (ignoring_world c w) (keep (same (store.delete_failed c w e x)))
  ]

  Move-resp :
      (ghr : Request) (w v w' : W) → owner v ≡ owner w → MoveOf true ghr v w' → MoveOf true ghr w w'
  Move-resp ghr w v w' e m = rw e at m

  pub delete_domain_claim-Move :
      (ghr : Request) (w : W) → MoveOf true ghr w (delete_domain_claim r ghr w).1
  unfolding delete_domain_claim
  delete_domain_claim-Move ghr w =
      let k = claim_key ghr in
      let w' = (sv.claims.get k w).1 in
      let still = store.get_same k w in
      elim (Result-cases (sv.claims.get k w).0) [
        | inl (c, e) ↦
            let (name, held) = store.get_found k w c e in
            elim (Bool-cases (is_owner ghr c)) [
              | inl own ↦
                  rw (e, own)
                    (Move-resp ghr w w' _ still (
                      ignoring-Move ghr c w' name
                        (rw still (held ∙ ap some (is_owner-true ghr c own)))))
              | inr other ↦ rw (e, other) (keep (same still))
            ]
        | inr (e, x) ↦ elim (Bool-cases (r.library.is_not_found e)) [
          | inl missing ↦ rw (x, missing) (keep (same still))
          | inr other ↦ rw (x, other) (keep (same still))
        ]
      ]

  -- Each operation on claims is one move of the table of owners: `ensureDomainClaim`, also its second
  -- half after others have come between, at most gives its claim's name, if it is free, to the
  -- request; `deleteDomainClaim` may also free that name, if it is the request's.
  pub claims_refine :
      (ghr : Request) (w : W)
      → MoveOf false ghr w (create_domain_claim r ghr w).1
        × MoveOf false ghr w (ensure_domain_claim r ghr w).1
        × MoveOf true ghr w (delete_domain_claim r ghr w).1
  claims_refine ghr w = (
    create_domain_claim-Move ghr w,
    ensure_domain_claim-Move ghr w,
    delete_domain_claim-Move ghr w,
  )

  -- One step of the system: an operation of some request, of which those that let go are `lets_go`,
  -- or anything that does not write claims.
  pub data Step (lets_go : Request → Type 0) (w w' : W) : Type 0 where
    creates : (ghr : Request) → w' ≡ (create_domain_claim r ghr w).1 → Step lets_go w w'
    ensures : (ghr : Request) → w' ≡ (ensure_domain_claim r ghr w).1 → Step lets_go w w'
    deletes :
        (ghr : Request) → lets_go ghr → w' ≡ (delete_domain_claim r ghr w).1 → Step lets_go w w'
    elsewhere : owner w' ≡ owner w → Step lets_go w w'

  pub data Run (lets_go : Request → Type 0) (w : W) : W → Type 0 where
    here : Run lets_go w w
    next : {v u : W} → Run lets_go w v → Step lets_go v u → Run lets_go w u

  Step-kept :
      {lets_go : Request → Type 0} {w w' : W} (n : String) (a : OwnerRef)
      → ((ghr : Request) → lets_go ghr → own_ref ghr ≡ a → claim_name ghr ≢ n)
      → Step lets_go w w'
      → owner w n ≡ some a
      → owner w' n ≡ some a
  Step-kept {w = w} n a quiet (creates ghr e) p =
      rw e (Move-kept n a (create_domain_claim-Move ghr w) p (λ x. cc))
  Step-kept {w = w} n a quiet (ensures ghr e) p =
      rw e (Move-kept n a (ensure_domain_claim-Move ghr w) p (λ x. cc))
  Step-kept {w = w} n a quiet (deletes ghr l e) p =
      rw e (Move-kept n a (delete_domain_claim-Move ghr w) p (λ _. quiet ghr l))
  Step-kept n a quiet (elsewhere e) p = same e n ∙ p

  pub Run-kept :
      {lets_go : Request → Type 0} {w w' : W} (n : String) (a : OwnerRef)
      → ((ghr : Request) → lets_go ghr → own_ref ghr ≡ a → claim_name ghr ≢ n)
      → Run lets_go w w'
      → owner w n ≡ some a
      → owner w' n ≡ some a
  Run-kept n a quiet here p = p
  Run-kept n a quiet (next run step) p = Step-kept n a quiet step (Run-kept n a quiet run p)

  not_won :
      (ghr : Request) (w : W) (a : OwnerRef)
      → owner w (claim_name ghr) ≡ some a
      → own_ref ghr ≢ a
      → (ensure_domain_claim r ghr w).0 ≢ ok true
  not_won ghr w a held other won =
      let answer = ensure_domain_claim-Answered r store ghr w in
      elim (rw won at answer).0 [ inl free ↦ absurd (cc) | inr mine ↦ other (cc) ]

  -- Mutual exclusion: from the moment when a request has won a claim, through any interleaving of
  -- operations of any requests in which the winner does not let that claim go, it is still the
  -- winner's, and no other request that asks for the same claim is told that it has it.
  pub claim_exclusive :
      {lets_go : Request → Type 0} {w' : W} (winner rival : Request) (w : W)
      → (ensure_domain_claim r winner w).0 ≡ ok true
      → Run lets_go (ensure_domain_claim r winner w).1 w'
      → ((ghr : Request)
          → lets_go ghr
          → own_ref ghr ≡ own_ref winner
          → claim_name ghr ≢ claim_name winner)
      → claim_name rival ≡ claim_name winner
      → own_ref rival ≢ own_ref winner
      → (owner w' (claim_name winner) ≡ some (own_ref winner))
        × ((ensure_domain_claim r rival w').0 ≢ ok true)
  claim_exclusive {w' = w'} winner rival w won run quiet name other =
      let answer = ensure_domain_claim-Answered r store winner w in
      let kept = Run-kept (claim_name winner) (own_ref winner) quiet run (rw won at answer).1 in
      (kept, not_won rival w' (own_ref winner) (rw name kept) other)
