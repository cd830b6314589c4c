-- ===== src/Actions/Policy.antt =====
-- src/runmantle/actions.py: `_decide_policy` and `_authorize` of `MediatedActionExecutor`.
use runmantle.Prelude.{
  String, ◌<>◌, Bool, true, false, not, ◌&&◌, ◌||◌, Option, none, some, List, [], ◌∷◌, ◌++◌, all,
  is_empty, is_some, contains, ltb, error_type, message, Result, ok, err, if◌then◌else◌, map,
}
use runmantle.Value.{DateTime}
use runmantle.Contracts.{RiskLevel, TaskStatus, status_value}
use runmantle.Verification.{TaskContract}
use runmantle.Capabilities.{CapabilityDeclaration, CapabilityRegistry, get_declaration}
use runmantle.Approvals.{StoredApproval}
use runmantle.Recovery.{risk_rank, holds_status}
use runmantle.Actions.{
  ActionConditionResult, Precondition, ActionRequest, approval_key, ActionPolicy,
  ActionPolicyDecision, construct_policy_decision, PreActionAuthorization, construct_authorization,
}

unfoldable pub reason_if : Bool → String → List String
reason_if true text = text ∷ []
reason_if false text = []

-- What a declaration has against the request.
abbrev pub declaration_reasons : Option CapabilityDeclaration → List String
declaration_reasons none = "required capability is not registered" ∷ []
declaration_reasons (some d) = reason_if (not d.available) "required capability is unavailable"

abbrev pub state_reasons : Option CapabilityDeclaration → TaskStatus → List String
state_reasons none task_state = []
state_reasons (some d) task_state =
    reason_if (not (holds_status d.supported_task_states task_state))
      "capability does not support the current task state"

abbrev pub risk_reasons : Option CapabilityDeclaration → RiskLevel → List String
risk_reasons none risk = []
risk_reasons (some d) risk =
    reason_if (ltb (risk_rank d.maximum_risk_level) (risk_rank risk))
      "action risk exceeds capability maximum"

abbrev pub declared_approval : Option CapabilityDeclaration → Bool
declared_approval none = false
declared_approval (some d) = d.requires_approval

-- The reasons against the request, in the order of the checks.
unfoldable pub denial_reasons :
    ActionPolicy
    → ActionRequest
    → List String
    → List String
    → TaskStatus
    → Option CapabilityDeclaration
    → List String
unfolding risk_rank holds_status
denial_reasons policy request allowed granted task_state declaration =
    reason_if (not (contains allowed request.required_capability))
      "required capability is absent from the task contract"
    ++ (reason_if (not (contains granted request.required_capability))
          "required capability was not granted to the caller"
        ++ (declaration_reasons declaration
            ++ (reason_if (not (contains policy.allowed_capabilities request.required_capability))
                  "action policy does not allow the required capability"
                ++ (reason_if (not (holds_status policy.allowed_task_states task_state))
                      ("action policy does not allow task state " <> status_value task_state)
                    ++ (state_reasons declaration task_state
                        ++ (reason_if
                              (ltb (risk_rank policy.maximum_risk_level)
                                (risk_rank request.risk_level))
                              "action risk exceeds policy maximum"
                            ++ risk_reasons declaration request.risk_level))))))

abbrev or_passed : List String → List String
or_passed [] = "all capability and policy checks passed" ∷ []
or_passed reasons = reasons

unfoldable pub decide_policy :
    CapabilityRegistry
    → ActionPolicy
    → ActionRequest
    → TaskContract
    → TaskStatus
    → (granted : List String) (now : DateTime) → Result ActionPolicyDecision
unfolding get_declaration denial_reasons construct_policy_decision
decide_policy capabilities policy request contract task_state granted now =
    let declaration = get_declaration request.required_capability capabilities in
    let reasons =
      denial_reasons policy request contract.allowed_capabilities granted task_state declaration in
    construct_policy_decision (record {
      allowed = is_empty reasons;
      reasons = or_passed reasons;
      requires_approval =
          contains policy.approval_required_capabilities request.required_capability
          || declared_approval declaration;
      decided_at = now;
      decided_by = "runmantle.action_policy";
    })

-- What an evaluator gives: a truth value, or a result of its own.
pub data Answer : Type 0 where
  truth : Bool → Answer
  condition : ActionConditionResult → Answer

abbrev pub condition_of : Precondition → Result Answer → ActionConditionResult
condition_of c (ok (condition r)) = r
condition_of c (ok (truth b)) = record {
  name = c.name;
  passed = b;
  message = if b then "precondition satisfied" else "precondition was not satisfied";
}
condition_of c (err e) = record {
  name = c.name;
  passed = false;
  message = "precondition raised " <> error_type e <> ": " <> message e;
}

abbrev join_reasons : List String → String
join_reasons [] = ""
join_reasons (r ∷ []) = r
join_reasons (r ∷ q ∷ rest) = r <> "; " <> join_reasons (q ∷ rest)

abbrev pub rejected_by : Option Bool → Bool
rejected_by (some false) = true
rejected_by _ = false

abbrev approver_of : Option StoredApproval → Option String
approver_of none = none
approver_of (some a) = elim a.decision [ none ↦ none | some d ↦ some d.approver.subject ]

module _ (evaluate : Precondition → Result Answer) where
  -- Preconditions are looked at only where the policy allows the action.
  abbrev pub evaluated : ActionRequest → ActionPolicyDecision → List ActionConditionResult
  evaluated request decision =
      if decision.allowed then map (λ c. condition_of c (evaluate c)) request.preconditions else []

  abbrev pub all_passed : List ActionConditionResult → Bool
  all_passed results = all (λ r. r.passed) results

  abbrev reason_text :
      ActionRequest → ActionPolicyDecision → List ActionConditionResult → Bool → Bool → String
  reason_text request decision results approved rejected =
      if not decision.allowed
      then join_reasons decision.reasons
      else if not (all_passed results)
      then "one or more preconditions failed"
      else if decision.requires_approval && not approved
      then (if rejected
          then "exact action approval was rejected"
          else "approval '" <> approval_key request <> "' is required")
      else "policy, capability, approval, and precondition checks passed"

  -- `_authorize`, from the active approval of the request and the value under its key.
  unfoldable pub authorize :
      ActionRequest
      → ActionPolicyDecision
      → Option StoredApproval
      → Option Bool
      → DateTime
      → Result PreActionAuthorization
  unfolding construct_authorization
  authorize request decision stored value now =
      let results = evaluated request decision in
      let approved = is_some stored in
      let rejected = rejected_by value in
      construct_authorization (record {
        authorized =
            decision.allowed && all_passed results && (not decision.requires_approval || approved);
        reason = reason_text request decision results approved rejected;
        evaluated_preconditions = results;
        approved_by = approver_of stored;
        authorized_at = now;
        awaiting_approval =
            decision.allowed
            && all_passed results
            && decision.requires_approval
            && not approved
            && not rejected;
      })
