-- ===== src/Approvals.antt =====
-- src/runmantle/approvals.py: approval requests, decisions, revocations, and what they authorize.
pub mod Authorized
use runmantle.Prelude.{
  ℕ, String, ◌<>◌, Bool, true, false, Option, none, some, List, [], ◌∷◌, leb, ltb, is_some, Guard,
  Result, ok, err, value_error, type_error, ◌>>=◌, ◌>>◌, raise_if, ◌==◌, if◌then◌else◌,
}
use runmantle.Value.{DateTime, Value, null, bool, str, moment, mapping, Entries, end, entry}
use runmantle.Validation.{require_non_empty_attributes, require_aware}
use runmantle.Contracts.{RiskLevel, risk_value}
use runmantle.Evidence.{Hashing}

-- `SafeJsonCodec` and `hashlib.sha256`.
pub record Codec : Type 0 where
  pub hashing : Hashing
  pub loads : String → Result Value

pub data ApprovalState : Type 0 where
  pending approved rejected expired revoked consumed : ApprovalState

pub record ApproverIdentity : Type 0 where
  pub subject : String
  pub issuer : String
  pub authenticated_at : DateTime
  pub authentication_method : String
  pub claims : Entries

-- The fields that a caller gives.
pub record RequestFields : Type 0 where
  pub approval_id : String
  pub task_id : String
  pub target_id : String
  pub target_hash : String
  pub required_scope : String
  pub risk_level : RiskLevel
  pub reason : String
  pub created_at : DateTime
  pub expires_at : DateTime
  pub one_time_use : Bool
  pub metadata : Entries

pub record ApprovalRequest : Type 0 where
  pub fields : RequestFields
  pub open fields use *
  pub request_hash : String

pub record ApprovalDecision : Type 0 where
  pub decision_id : String
  pub approval_id : String
  pub request_hash : String
  pub approved : Bool
  pub approver : ApproverIdentity
  pub decided_at : DateTime
  pub reason : String
  pub metadata : Entries

pub record ApprovalRevocation : Type 0 where
  pub revocation_id : String
  pub approval_id : String
  pub request_hash : String
  pub revoked_by : ApproverIdentity
  pub revoked_at : DateTime
  pub reason : String
  pub metadata : Entries

pub record StoredApproval : Type 0 where
  pub request : ApprovalRequest
  pub decision : Option ApprovalDecision
  pub revocation : Option ApprovalRevocation
  pub consumed_at : Option DateTime
  pub consumed_by : Option String
  pub version : ℕ

-- `isinstance(decoded, Mapping)`.
abbrev as_mapping : Value → Result Entries
as_mapping (mapping es) = ok es
as_mapping _ = err (type_error "approval metadata must be a JSON object")

-- The guards of a request.
unfoldable pub check_request : RequestFields → Guard
unfolding require_non_empty_attributes require_aware
check_request f = do
  require_non_empty_attributes "approval request" (
      (f.approval_id, "approval_id")
      ∷ (f.task_id, "task_id")
      ∷ (f.target_id, "target_id")
      ∷ (f.target_hash, "target_hash")
      ∷ (f.required_scope, "required_scope")
      ∷ (f.reason, "reason")
      ∷ [])
  require_aware f.created_at "approval created_at must be timezone-aware"
  require_aware f.expires_at "approval expires_at must be timezone-aware"
  raise_if (leb f.expires_at.instant f.created_at.instant)
      (value_error "approval expiration must be after creation")

module _ (k : Codec) where
  -- `_freeze_mapping`: what the codec gives back of its own encoding.
  unfoldable pub freeze_metadata : Entries → Result Entries
  freeze_metadata es = do
    encoded ← k.hashing.dumps (mapping es)
    decoded ← k.loads encoded
    as_mapping decoded

  unfoldable pub construct_identity : ApproverIdentity → Result ApproverIdentity
  unfolding require_non_empty_attributes require_aware freeze_metadata
  construct_identity a = do
    require_non_empty_attributes "approver identity" (
        (a.subject, "subject")
        ∷ (a.issuer, "issuer")
        ∷ (a.authentication_method, "authentication_method")
        ∷ [])
    require_aware a.authenticated_at "approver authenticated_at must be timezone-aware"
    claims ← freeze_metadata a.claims
    ok (record a { claims = claims })

  -- The hash covers every field of the request.
  unfoldable pub calculate_request_hash : RequestFields → Result String
  calculate_request_hash f = do
    encoded ← k.hashing.dumps (
        mapping (
          entry "approval_id" (str f.approval_id) (
            entry "task_id" (str f.task_id) (
              entry "target_id" (str f.target_id) (
                entry "target_hash" (str f.target_hash) (
                  entry "required_scope" (str f.required_scope) (
                    entry "risk_level" (str (risk_value f.risk_level)) (
                      entry "reason" (str f.reason) (
                        entry "created_at" (moment f.created_at) (
                          entry "expires_at" (moment f.expires_at) (
                            entry "one_time_use" (bool f.one_time_use)
                              (entry "metadata" (mapping f.metadata) end))))))))))))
    ok ("sha256:" <> k.hashing.sha256 encoded)

  -- `ApprovalRequest(…)`.
  unfoldable pub construct_request : RequestFields → Result ApprovalRequest
  unfolding freeze_metadata
  construct_request f = do
    check_request f
    metadata ← freeze_metadata f.metadata
    let g = record f { metadata = metadata }
    request_hash ← calculate_request_hash g
    ok (record { fields = g; request_hash = request_hash })

  unfoldable pub construct_decision : ApprovalDecision → Result ApprovalDecision
  unfolding require_non_empty_attributes require_aware freeze_metadata
  construct_decision d = do
    require_non_empty_attributes "approval decision" (
        (d.decision_id, "decision_id")
        ∷ (d.approval_id, "approval_id")
        ∷ (d.request_hash, "request_hash")
        ∷ (d.reason, "reason")
        ∷ [])
    require_aware d.decided_at "approval decided_at must be timezone-aware"
    raise_if (ltb d.decided_at.instant d.approver.authenticated_at.instant)
        (value_error "approval decision predates authentication")
    metadata ← freeze_metadata d.metadata
    ok (record d { metadata = metadata })

  unfoldable pub construct_revocation : ApprovalRevocation → Result ApprovalRevocation
  unfolding require_non_empty_attributes require_aware freeze_metadata
  construct_revocation r = do
    require_non_empty_attributes "approval revocation" (
        (r.revocation_id, "revocation_id")
        ∷ (r.approval_id, "approval_id")
        ∷ (r.request_hash, "request_hash")
        ∷ (r.reason, "reason")
        ∷ [])
    require_aware r.revoked_at "approval revoked_at must be timezone-aware"
    raise_if (ltb r.revoked_at.instant r.revoked_by.authenticated_at.instant)
        (value_error "approval revocation predates authentication")
    metadata ← freeze_metadata r.metadata
    ok (record r { metadata = metadata })

abbrev pub decided_state : Option ApprovalDecision → ApprovalState
decided_state none = pending
decided_state (some d) = if d.approved then approved else rejected

-- The decision at an instant, behind the guard on the time.
unfoldable pub state_by : StoredApproval → ℕ → ApprovalState
state_by a now =
    if is_some a.revocation
    then revoked
    else if leb a.request.expires_at.instant now
    then expired
    else if is_some a.consumed_at
    then consumed
    else decided_state a.decision

unfoldable pub state_at : StoredApproval → DateTime → Result ApprovalState
unfolding require_aware state_by
state_at a now = do
  require_aware now "approval evaluation time must be timezone-aware"
  ok (state_by a now.instant)

abbrev pub is_approved : ApprovalState → Bool
is_approved approved = true
is_approved _ = false

-- The time is read only where the hash and the scope are those of the request.
unfoldable pub authorizes : StoredApproval → String → String → DateTime → Result Bool
unfolding state_at
authorizes a request_hash scope now =
    if a.request.request_hash == request_hash
    then (if a.request.required_scope == scope
        then (do state ← state_at a now; ok (is_approved state))
        else ok false)
    else ok false
