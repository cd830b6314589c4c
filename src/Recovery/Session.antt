-- ===== src/Recovery/Session.antt =====
-- src/runmantle/recovery.py: `InMemoryRecoveryExecutor.execute`, the loop over a plan with its events.
use runmantle.Prelude.{
  ℕ, suc, String, Bool, true, false, Option, none, some, List, [], ◌∷◌, ◌++◌, map, length, ok, err,
  Guard, raised, ◌==◌, if◌then◌else◌,
}
use runmantle.Value.{
  DateTime, pos, Value, bool, int, str, moment, list, mapping, Entries, end, entry, from_list,
}
use runmantle.Contracts.{TaskStatus}
use runmantle.Verification.{TaskContract}
use runmantle.Telemetry.{LifecycleEvent, LifecycleEventType, check_event}
use runmantle.Telemetry.Names.{event_type_value}
use runmantle.Capabilities.{CapabilityRegistry}
use runmantle.Stateful.{Act, pure, throw, ◌>>=◌, ◌>>◌}
use runmantle.Recovery.{
  RecoveryStatus, blocked, dry_run, runtime_confirmed, task_mismatch, RecoveryAction,
  RecoveryPolicy, RuntimeConfirmation, RecoveryApproval, RecoveryActionResult,
}
use runmantle.Recovery.Names.{recovery_status_value, reason_code_value}
use runmantle.Recovery.Plan.{RecoveryPlan}
use runmantle.Recovery.Gates.{action_result}
use runmantle.Recovery.Executor.{Handlers, Executor, execute_action}

-- The executor, the events that its sink has received, and the number of times its clock was read.
pub record Session : Type 0 where
  pub executor : Executor
  pub events : List LifecycleEvent
  pub readings : ℕ

pub record RecoveryResult : Type 0 where
  pub plan_id : String
  pub task_id : String
  pub status : RecoveryStatus
  pub actions : List RecoveryActionResult

-- The arguments of one call, with what the executor was made with.
pub record Invocation : Type 0 where
  pub registry : CapabilityRegistry
  pub policy : RecoveryPolicy
  pub handlers : Handlers
  pub clock : ℕ → DateTime
  pub plan : RecoveryPlan
  pub contract : TaskContract
  pub task_state : TaskStatus
  pub confirmations : List RuntimeConfirmation
  pub approvals : List RecoveryApproval
  pub is_dry_run : Bool
  pub correlation_id : Option String

-- `correlation_id or plan.plan_id`.
abbrev pub resolved_correlation_id : Invocation → String
resolved_correlation_id call = elim call.correlation_id [
  | none ↦ call.plan.plan_id
  | some s ↦ if s == "" then call.plan.plan_id else s
]

-- `{item.action_id: item for item in items}.get(action_id)`: the last item of an action counts.
unfoldable pub get_last {ℓ} : {A : Type ℓ} → (A → String) → String → List A → Option A
get_last key name [] = none
get_last key name (x ∷ xs) =
    let rest = get_last key name xs in
    elim rest [ some y ↦ some y | none ↦ if key x == name then some x else none ]

unfoldable pub confirmation_for : Invocation → RecoveryAction → Option RuntimeConfirmation
unfolding get_last
confirmation_for call action =
    get_last (λ (c : RuntimeConfirmation). c.action_id) action.action_id call.confirmations

unfoldable pub approval_for : Invocation → RecoveryAction → Option RecoveryApproval
unfolding get_last
approval_for call action =
    get_last (λ (a : RecoveryApproval). a.action_id) action.action_id call.approvals

-- The event of `_emit_recovery_event`.
abbrev pub recovery_event :
    Invocation → LifecycleEventType → ℕ → Entries → DateTime → LifecycleEvent
recovery_event call event_type sequence details now = record {
  event_type = event_type;
  task_id = call.plan.task_id;
  correlation_id = resolved_correlation_id call;
  worker_id = call.plan.proposed_by;
  occurred_at = now;
  sequence = sequence;
  state = call.task_state;
  previous_state = none;
  name = some (event_type_value event_type);
  details = details;
}

abbrev sent_if : LifecycleEvent → Session → Guard → Guard × Session
sent_if event s (ok _) = (ok tt, record s { events = s.events ++ (event ∷ []) })
sent_if event s (err e) = (err e, s)

unfoldable pub emit_recovery_event :
    Invocation → LifecycleEventType → ℕ → Entries → Act Session Unit
unfolding check_event event_type_value
emit_recovery_event call event_type sequence details s =
    let event = recovery_event call event_type sequence details (call.clock s.readings) in
    sent_if event (record s { readings = suc s.readings }) (check_event event)

abbrev described_action : RecoveryAction → Value
described_action a = mapping (
    entry "action_id" (str a.action_id)
      (entry "capability" (str a.capability) (entry "idempotency_key" (str a.idempotency_key) end)))

abbrev pub request_details : Invocation → Entries
request_details call = entry "plan_id" (str call.plan.plan_id) (
    entry "action_count" (int (pos (length call.plan.actions))) (
      entry "actions" (list (from_list (map described_action call.plan.actions)))
        (entry "dry_run" (bool call.is_dry_run) end)))

abbrev pub confirmation_details : RuntimeConfirmation → Entries
confirmation_details c = entry "confirmation_id" (str c.confirmation_id) (
    entry "action_id" (str c.action_id) (
      entry "capability" (str c.capability) (
        entry "idempotency_key" (str c.idempotency_key) (
          entry "supported" (bool c.supported) (
            entry "safe" (bool c.safe) (
              entry "confirmed_at" (moment c.confirmed_at)
                (entry "confirmed_by" (str c.confirmed_by) end)))))))

abbrev pub result_details : RecoveryActionResult → Entries
result_details r = entry "action_id" (str r.action_id) (
    entry "capability" (str r.capability) (
      entry "status" (str (recovery_status_value r.status))
        (entry "reason_code" (str (reason_code_value r.code)) (entry "reason" (str r.text) end))))

unfoldable pub is_confirmed : RecoveryStatus → Bool
is_confirmed runtime_confirmed = true
is_confirmed _ = false

-- The loop goes on after these.
unfoldable pub goes_on : RecoveryStatus → Bool
goes_on runtime_confirmed = true
goes_on dry_run = true
goes_on _ = false

unfoldable pub emit_recovery_result : Invocation → RecoveryActionResult → ℕ → Act Session Unit
unfolding emit_recovery_event is_confirmed recovery_status_value reason_code_value
emit_recovery_result call result sequence =
    emit_recovery_event call
      (if is_confirmed result.status
        then LifecycleEventType.recovery_confirmed
        else LifecycleEventType.recovery_blocked)
      sequence (result_details result)

-- The event for a confirmation, where there is one, and the sequence number after it.
unfoldable pub note_confirmation : Invocation → Option RuntimeConfirmation → ℕ → Act Session ℕ
unfolding emit_recovery_event
note_confirmation call none sequence = pure sequence
note_confirmation call (some c) sequence = do
  emit_recovery_event call LifecycleEventType.runtime_confirmation_received (suc sequence)
      (confirmation_details c)
  pure (suc sequence)

unfoldable pub run_action : Invocation → RecoveryAction → Act Session RecoveryActionResult
unfolding execute_action confirmation_for approval_for
run_action call action s =
    let (result, executor) =
      execute_action call.registry call.policy call.handlers action call.contract call.task_state
        (confirmation_for call action) (approval_for call action) call.is_dry_run s.executor in
    (ok result, record s { executor = executor })

-- The loop, from the number of the last event.
unfoldable pub run_actions :
    Invocation → List RecoveryAction → ℕ → Act Session (List RecoveryActionResult)
unfolding note_confirmation run_action emit_recovery_result goes_on confirmation_for
run_actions call [] sequence = pure []
run_actions call (action ∷ rest) sequence = do
  noted ← note_confirmation call (confirmation_for call action) sequence
  result ← run_action call action
  emit_recovery_result call result (suc noted)
  let others = run_actions call rest (suc noted) in
      if goes_on result.status
      then (others >>= λ results. pure (result ∷ results))
      else pure (result ∷ [])

-- `results[-1].status`.
abbrev pub last_status : RecoveryActionResult → List RecoveryActionResult → RecoveryStatus
last_status r [] = r.status
last_status r (q ∷ rest) = last_status q rest

abbrev pub plan_result : Invocation → List RecoveryActionResult → Act Session RecoveryResult
plan_result call [] = throw (raised "IndexError" "list index out of range")
plan_result call (r ∷ rest) = pure (record {
  plan_id = call.plan.plan_id;
  task_id = call.plan.task_id;
  status = last_status r rest;
  actions = r ∷ rest;
})

abbrev pub mismatch : RecoveryAction → RecoveryActionResult
mismatch action =
    action_result action blocked task_mismatch
      "recovery plan does not target the supplied task contract" none none

abbrev pub refuse_plan : Invocation → List RecoveryAction → Act Session RecoveryResult
refuse_plan call [] = throw (raised "IndexError" "tuple index out of range")
refuse_plan call (action ∷ rest) = do
  emit_recovery_result call (mismatch action) 2
  plan_result call (mismatch action ∷ [])

unfoldable pub execute : Invocation → Act Session RecoveryResult
unfolding emit_recovery_event emit_recovery_result run_actions
execute call = do
  emit_recovery_event call LifecycleEventType.recovery_requested 1 (request_details call)
  if call.plan.task_id == call.contract.task_id
      then (run_actions call call.plan.actions 1 >>= plan_result call)
      else refuse_plan call call.plan.actions
