-- ===== src/Examples/Decisions.antt =====
-- An approval, and the theorems of what it authorizes.
use runmantle.Prelude.{◌≡◌, ◌↔◌, refl, true, false, some, none, ok, arith}
use runmantle.Value.{mapping, end}
use runmantle.Contracts.{high}
use runmantle.Approvals.{
  Codec, ApproverIdentity, RequestFields, ApprovalRequest, ApprovalDecision, StoredApproval,
  authorizes, construct_request, calculate_request_hash, check_request,
}
use runmantle.Approvals.Authorized.{IsAuthorized, authorizes-eq-true, authorizes_earlier}
use runmantle.Examples.Samples.{program, at, hashing}

abbrev codec : Codec
codec = record { hashing = hashing; loads = λ s. ok (mapping end) }

abbrev request_fields : RequestFields
request_fields = record {
  approval_id = "a-1";
  task_id = "task";
  target_id = "deploy";
  target_hash = "h-1";
  required_scope = "release";
  risk_level = high;
  reason = "a release";
  created_at = at 1;
  expires_at = at 50;
  one_time_use = true;
  metadata = end;
}

abbrev request : ApprovalRequest
request = record { fields = request_fields; request_hash = "sha256:encoded" }

abbrev operator : ApproverIdentity
operator = record {
  subject = "op";
  issuer = "sso";
  authenticated_at = at 2;
  authentication_method = "key";
  claims = end;
}

abbrev positive_decision : ApprovalDecision
positive_decision = record {
  decision_id = "d-1";
  approval_id = "a-1";
  request_hash = "sha256:encoded";
  approved = true;
  approver = operator;
  decided_at = at 3;
  reason = "reviewed";
  metadata = end;
}

abbrev pub granted_approval : StoredApproval
granted_approval = record {
  request = request;
  decision = some positive_decision;
  revocation = none;
  consumed_at = none;
  consumed_by = none;
  version = 2;
}

authorizes-granted_approval :
    authorizes granted_approval "sha256:encoded" "release" (at 40) ≡ ok true
unfolding authorizes
authorizes-granted_approval = refl

authorizes-expired : authorizes granted_approval "sha256:encoded" "release" (at 50) ≡ ok false
unfolding authorizes
authorizes-expired = refl

authorizes-eq-true_example :
    (authorizes granted_approval "sha256:encoded" "release" (at 40) ≡ ok true)
    ↔ IsAuthorized granted_approval "sha256:encoded" "release" 40
authorizes-eq-true_example =
    authorizes-eq-true granted_approval "sha256:encoded" "release" (at 40) refl

authorizes_earlier_example :
    authorizes granted_approval "sha256:encoded" "release" (at 10) ≡ ok true
authorizes_earlier_example =
    authorizes_earlier granted_approval "sha256:encoded" "release" (at 10) (at 40) refl
      (omega arith) authorizes-granted_approval

construct_request-sample : construct_request codec request_fields ≡ ok request
unfolding program construct_request check_request calculate_request_hash
construct_request-sample = refl
