-- ===== src/Actions/Allowed.antt =====
-- When `_decide_policy` allows an action, and when `_authorize` authorizes it.
use runmantle.Prelude.{
  some-injective, ℕ, ◌≤◌, ◌≡◌, ◌↔◌, refl, sym, ◌∙◌, ap, arith, String, Bool, true, false, not,
  Option, none, some, List, ◌++◌, is_empty, contains, ltb, ok, ok-injective, >>-eq-ok, raise_if,
  value_error,
}
use runmantle.Value.{DateTime}
use runmantle.Validation.{require_non_empty, require_aware}
use runmantle.Contracts.{TaskStatus}
use runmantle.Verification.{TaskContract}
use runmantle.Capabilities.{CapabilityDeclaration, CapabilityRegistry, get_declaration}
use runmantle.Recovery.{risk_rank, holds_status}
use runmantle.Actions.{
  ActionRequest, ActionPolicy, ActionPolicyDecision, construct_policy_decision,
  PreActionAuthorization, construct_authorization,
}
use runmantle.Actions.Policy.{reason_if, denial_reasons, decide_policy}

-- The contract and the caller's grant hold the capability, it is declared, available and supports the
-- state and the risk, and the policy allows the capability, the state and the risk.
pub record IsAllowed (policy : ActionPolicy) (request : ActionRequest)
    (allowed granted : List String) (task_state : TaskStatus)
    (declaration : Option CapabilityDeclaration) : Type 0 where
  pub in_contract : contains allowed request.required_capability ≡ true
  pub is_granted : contains granted request.required_capability ≡ true
  pub declared : CapabilityDeclaration
  pub is_declared : declaration ≡ some declared
  pub available : declared.available ≡ true
  pub supports_state : holds_status declared.supported_task_states task_state ≡ true
  pub supports_risk : risk_rank request.risk_level ≤ risk_rank declared.maximum_risk_level
  pub in_policy : contains policy.allowed_capabilities request.required_capability ≡ true
  pub state_allowed : holds_status policy.allowed_task_states task_state ≡ true
  pub risk_allowed : risk_rank request.risk_level ≤ risk_rank policy.maximum_risk_level

empty-reason_if :
    (b : Bool) (text : String) (rest : List String)
    → (is_empty (reason_if b text ++ rest) ≡ true) ↔ ((b ≡ false) × (is_empty rest ≡ true))
unfolding reason_if
empty-reason_if true text rest = (λ h. cc (h), λ h. cc (h.0))
empty-reason_if false text rest = (λ h. (refl, h), λ h. h.1)

quiet : (b : Bool) (text : String) → is_empty (reason_if b text) ≡ true → b ≡ false
unfolding reason_if
quiet true text h = cc (h)
quiet false text h = refl

quiet_if : (b : Bool) (text : String) → b ≡ false → is_empty (reason_if b text) ≡ true
unfolding reason_if
quiet_if true text h = cc (h)
quiet_if false text h = refl

le-not_ltb : (a b : ℕ) → b ≤ a → ltb a b ≡ false
le-not_ltb a b h = ground arith

not-false : (b : Bool) → not b ≡ false → b ≡ true
not-false true h = refl
not-false false h = cc (h)

not_ltb : (a b : ℕ) → ltb a b ≡ false → b ≤ a
not_ltb a b h = ground arith

denial_reasons-IsAllowed :
    (policy : ActionPolicy) (request : ActionRequest) (allowed granted : List String)
    (task_state : TaskStatus) (declaration : Option CapabilityDeclaration)
    → (is_empty (denial_reasons policy request allowed granted task_state declaration) ≡ true)
      ↔ IsAllowed policy request allowed granted task_state declaration
unfolding denial_reasons
denial_reasons-IsAllowed policy request allowed granted task_state none = (
  λ h.
      let (_, h1) = (empty-reason_if _ _ _).0 h in
      let (_, h2) = (empty-reason_if _ _ _).0 h1 in cc (h2),
  λ h. cc (h.is_declared),
)
denial_reasons-IsAllowed policy request allowed granted task_state (some d) = (
  λ h.
      let (in_contract, h1) = (empty-reason_if _ _ _).0 h in
      let (is_granted, h2) = (empty-reason_if _ _ _).0 h1 in
      let (available, h3) = (empty-reason_if _ _ _).0 h2 in
      let (in_policy, h4) = (empty-reason_if _ _ _).0 h3 in
      let (state_allowed, h5) = (empty-reason_if _ _ _).0 h4 in
      let (supports_state, h6) = (empty-reason_if _ _ _).0 h5 in
      let (risk_allowed, h7) = (empty-reason_if _ _ _).0 h6 in
      let supports_risk = quiet _ _ h7 in
      record {
        in_contract = not-false _ in_contract;
        is_granted = not-false _ is_granted;
        declared = d;
        is_declared = refl;
        available = not-false _ available;
        supports_state = not-false _ supports_state;
        supports_risk = not_ltb _ _ supports_risk;
        in_policy = not-false _ in_policy;
        state_allowed = not-false _ state_allowed;
        risk_allowed = not_ltb _ _ risk_allowed;
      },
  λ h.
      let same : d ≡ h.declared = some-injective h.is_declared in
      let available = ap (λ (x : CapabilityDeclaration). x.available) same ∙ h.available in
      let supports_state =
        ap (λ (x : CapabilityDeclaration). holds_status x.supported_task_states task_state) same
        ∙ h.supports_state in
      let maximum = ap (λ (x : CapabilityDeclaration). risk_rank x.maximum_risk_level) same in
      (empty-reason_if _ _ _).1 (
        ap not h.in_contract,
        (empty-reason_if _ _ _).1 (
          ap not h.is_granted,
          (empty-reason_if _ _ _).1 (
            ap not available,
            (empty-reason_if _ _ _).1 (
              ap not h.in_policy,
              (empty-reason_if _ _ _).1 (
                ap not h.state_allowed,
                (empty-reason_if _ _ _).1 (
                  ap not supports_state,
                  (empty-reason_if _ _ _).1 (
                    le-not_ltb _ _ h.risk_allowed,
                    quiet_if _ _ (le-not_ltb _ _ (omega (arith, h.supports_risk, maximum))),
                  ),
                ),
              ),
            ),
          ),
        ),
      ),
)

construct_policy_decision-same :
    (d : ActionPolicyDecision) {made : ActionPolicyDecision}
    → construct_policy_decision d ≡ ok made
    → d ≡ made
unfolding construct_policy_decision
construct_policy_decision-same d h =
    let (_, h1) = >>-eq-ok (require_aware d.decided_at _) _ h in
    let (_, h2) = >>-eq-ok (require_non_empty d.decided_by "policy decision decided_by") _ h1 in
    let (_, h3) =
      >>-eq-ok
        (raise_if (is_empty d.reasons) (value_error "policy decision requires at least one reason"))
        _ h2 in
    ok-injective h3

pub construct_authorization-same :
    (a : PreActionAuthorization) {made : PreActionAuthorization}
    → construct_authorization a ≡ ok made
    → a ≡ made
unfolding construct_authorization
construct_authorization-same a h =
    let (_, h1) = >>-eq-ok (require_non_empty a.reason "pre-action authorization reason") _ h in
    let (_, h2) =
      >>-eq-ok (require_aware a.authorized_at "pre-action authorization timestamp must be aware") _
        h1 in
    ok-injective h2

-- Where the mediated executor's policy decision is constructed, it allows an action exactly when
-- the contract and the caller's grant hold the capability, the capability is declared, available
-- and supports the state and the risk, and the policy allows the capability, the state and the
-- risk.
pub decide_policy-IsAllowed :
    (capabilities : CapabilityRegistry) (policy : ActionPolicy) (request : ActionRequest)
    (contract : TaskContract) (task_state : TaskStatus) (granted : List String) (now : DateTime)
    (decision : ActionPolicyDecision)
    → decide_policy capabilities policy request contract task_state granted now ≡ ok decision
    → (decision.allowed ≡ true)
      ↔ IsAllowed policy request contract.allowed_capabilities granted task_state
          (get_declaration request.required_capability capabilities)
unfolding decide_policy
decide_policy-IsAllowed capabilities policy request contract task_state granted now decision h =
    let made = ap (λ (d : ActionPolicyDecision). d.allowed) (construct_policy_decision-same _ h) in
    let (there, back) =
      denial_reasons-IsAllowed policy request contract.allowed_capabilities granted task_state
        (get_declaration request.required_capability capabilities) in
    (λ allowed. there (made ∙ allowed), λ is_allowed. sym made ∙ back is_allowed)
