-- ===== src/Approvals/Authorized.antt =====
-- What an approval authorizes, and for how long.
use runmantle.Prelude.{
  ℕ, ◌≤◌, ◌<◌, ◌≡◌, ◌↔◌, refl, String, true, false, Option, none, some, is_some, ok, >>=-eq-ok,
  >>-eq-ok, eq_iff, eq_refl, arith,
}
use runmantle.Value.{DateTime}
use runmantle.Approvals.{
  ApprovalDecision, StoredApproval, state_by, is_approved, decided_state, authorizes, RequestFields,
  ApprovalRequest, Codec, check_request, construct_request, calculate_request_hash, freeze_metadata,
}

-- The approval is for this hash and scope, its decision is positive, and it was neither revoked nor
-- consumed and has not expired.
pub record IsAuthorized (a : StoredApproval) (request_hash scope : String) (now : ℕ) : Type 0 where
  pub for_hash : a.request.request_hash ≡ request_hash
  pub for_scope : a.request.required_scope ≡ scope
  pub not_revoked : is_some a.revocation ≡ false
  pub in_time : now < a.request.expires_at.instant
  pub not_consumed : is_some a.consumed_at ≡ false
  pub decision : ApprovalDecision
  pub decided : a.decision ≡ some decision
  pub positive : decision.approved ≡ true

decided_state-approved :
    (decision : Option ApprovalDecision)
    → is_approved (decided_state decision) ≡ true
    → (d : ApprovalDecision) × (decision ≡ some d) × (d.approved ≡ true)
decided_state-approved none h = cc
decided_state-approved (some d) h = (d, refl, ground arith)

state_by-approved :
    (a : StoredApproval) (now : ℕ)
    → is_approved (state_by a now) ≡ true
    → (is_some a.revocation ≡ false)
      × (now < a.request.expires_at.instant)
      × (is_some a.consumed_at ≡ false)
      × ((d : ApprovalDecision) × (a.decision ≡ some d) × (d.approved ≡ true))
unfolding state_by
state_by-approved a now h =
    (ground arith, ground arith, ground arith, decided_state-approved a.decision (ground arith))

pub authorizes-IsAuthorized :
    (a : StoredApproval) (request_hash scope : String) (now : DateTime)
    → authorizes a request_hash scope now ≡ ok true
    → IsAuthorized a request_hash scope now.instant
unfolding authorizes
authorizes-IsAuthorized a request_hash scope now h =
    let approved_now : is_approved (state_by a now.instant) ≡ true = ground arith in
    let (not_revoked, in_time, not_consumed, (decision, decided, positive)) =
      state_by-approved a now.instant approved_now in
    record {
      for_hash = ground (arith, eq_iff a.request.request_hash request_hash);
      for_scope = ground (arith, eq_iff a.request.required_scope scope);
      not_revoked = not_revoked;
      in_time = in_time;
      not_consumed = not_consumed;
      decision = decision;
      decided = decided;
      positive = positive;
    }

IsAuthorized-authorizes :
    (a : StoredApproval) (request_hash scope : String) (now : DateTime)
    → now.aware ≡ true
    → IsAuthorized a request_hash scope now.instant
    → authorizes a request_hash scope now ≡ ok true
unfolding authorizes state_by
IsAuthorized-authorizes a request_hash scope now aware k = ground (
  arith,
  k.for_hash,
  k.for_scope,
  k.not_revoked,
  k.in_time,
  k.not_consumed,
  k.decided,
  k.positive,
  eq_refl request_hash,
  eq_refl scope,
)

-- At a time with an offset, an approval authorizes a hash and a scope exactly when they are those
-- of its request, its decision is positive, it was neither revoked nor consumed, and the time is
-- before its expiry.
pub authorizes-eq-true :
    (a : StoredApproval) (request_hash scope : String) (now : DateTime)
    → now.aware ≡ true
    → (authorizes a request_hash scope now ≡ ok true)
      ↔ IsAuthorized a request_hash scope now.instant
authorizes-eq-true a request_hash scope now aware = (
  authorizes-IsAuthorized a request_hash scope now,
  IsAuthorized-authorizes a request_hash scope now aware,
)

-- What an approval authorizes at a time, it authorizes at every earlier time that has an offset.
pub authorizes_earlier :
    (a : StoredApproval) (request_hash scope : String) (earlier now : DateTime)
    → earlier.aware ≡ true
    → earlier.instant ≤ now.instant
    → authorizes a request_hash scope now ≡ ok true
    → authorizes a request_hash scope earlier ≡ ok true
authorizes_earlier a request_hash scope earlier now aware before h =
    let k = authorizes-IsAuthorized a request_hash scope now h in
    IsAuthorized-authorizes a request_hash scope earlier aware (record {
      for_hash = k.for_hash;
      for_scope = k.for_scope;
      not_revoked = k.not_revoked;
      in_time = omega (arith, k.in_time);
      not_consumed = k.not_consumed;
      decision = k.decision;
      decided = k.decided;
      positive = k.positive;
    })

-- A request that was constructed expires after its creation and carries the hash calculated over
-- its own fields.
pub construct_request-eq-ok :
    (k : Codec) (f : RequestFields) (r : ApprovalRequest)
    → construct_request k f ≡ ok r
    → (r.created_at.instant < r.expires_at.instant)
      × (calculate_request_hash k r.fields ≡ ok r.request_hash)
unfolding construct_request check_request
construct_request-eq-ok k f r e =
    let (checked, e1) = >>-eq-ok (check_request f) _ e in
    let (metadata, _, e2) = >>=-eq-ok (freeze_metadata k f.metadata) _ e1 in
    let (hash, hashed, e3) =
      >>=-eq-ok (calculate_request_hash k (record f { metadata = metadata })) _ e2 in
    let shape : r ≡ record { fields = record f { metadata = metadata }; request_hash = hash } =
      cc (e3) in
    rw shape (ground (arith, checked), hashed)
