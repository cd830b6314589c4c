-- ===== src/Recovery/Acted.antt =====
-- What an action does to the executor, over any sequence of actions.
use runmantle.Prelude.{
  ◌≡◌, refl, Bool, true, false, Option, none, some, List, [], ◌∷◌, Error, arith, contains,
  if◌then◌else◌,
}
use runmantle.Contracts.{TaskStatus}
use runmantle.Verification.{TaskContract}
use runmantle.Capabilities.{CapabilityDeclaration, CapabilityRegistry, get_declaration}
use runmantle.Recovery.{
  RecoveryAction, RecoveryPolicy, safe_default, RuntimeConfirmation, RecoveryApproval,
}
use runmantle.Recovery.Executor.{
  Handler, Handlers, Key, key_of, holds_key, get_handler, Executor, is_reserved, Decision, stops,
  calls, gate_found, run_handler, finish, act_on, execute_action,
}
use runmantle.Recovery.Permitted.{IsPermitted, gate_declared-IsPermitted}

-- The keys after the handler's end.
abbrev keys_after : RecoveryAction → Option Error → List Key → List Key
keys_after action none keys = key_of action ∷ keys
keys_after action (some e) keys = keys

-- Of one action: the executor is as it was, or everything was permitted and its handler was called
-- once, the one that is registered for its capability, and the key was kept where the handler raised nothing.
pub data Acted (registry : CapabilityRegistry) (policy : RecoveryPolicy) (handlers : Handlers)
    (action : RecoveryAction) (contract : TaskContract) (task_state : TaskStatus)
    (confirmation : Option RuntimeConfirmation) (approval : Option RecoveryApproval)
    (is_dry_run : Bool) (s s' : Executor) : Type 0 where
  kept :
      s' ≡ s
      → Acted registry policy handlers action contract task_state confirmation approval is_dry_run s
          s'
  ran :
      (handler : Handler)
      → get_handler action.capability handlers ≡ some handler
      → IsPermitted registry policy action contract task_state confirmation approval is_dry_run s
      → s' ≡ record s {
        called = action ∷ s.called;
        executed_keys = keys_after action (handler action contract) s.executed_keys;
      }
      → Acted registry policy handlers action contract task_state confirmation approval is_dry_run s
          s'

-- One call for one action.
pub record Request : Type 0 where
  pub action : RecoveryAction
  pub contract : TaskContract
  pub task_state : TaskStatus
  pub confirmation : Option RuntimeConfirmation
  pub approval : Option RecoveryApproval
  pub is_dry_run : Bool

unfoldable pub unique_keys : List Key → Bool
unfolding holds_key
unique_keys [] = true
unique_keys (k ∷ ks) = let rest = unique_keys ks in if holds_key ks k then false else rest

module _ (registry : CapabilityRegistry) (policy : RecoveryPolicy) (handlers : Handlers) where
  finished :
      (action : RecoveryAction) (contract : TaskContract)
      (confirmation : Option RuntimeConfirmation)
      → (outcome : Option Error) (s : Executor)
      → (finish registry policy handlers action confirmation
          (record s { called = action ∷ s.called })
          outcome).1
        ≡ record s {
          called = action ∷ s.called;
          executed_keys = keys_after action outcome s.executed_keys;
        }
  finished action contract confirmation none s = refl
  finished action contract confirmation (some e) s = refl

  run_handler-unreserved :
      (action : RecoveryAction) (contract : TaskContract)
      (confirmation : Option RuntimeConfirmation)
      → (handler : Handler) (s : Executor) → is_reserved s (key_of action) ≡ false
      → (run_handler registry policy handlers action contract confirmation handler s).1 ≡ record s {
        called = action ∷ s.called;
        executed_keys = keys_after action (handler action contract) s.executed_keys;
      }
  unfolding run_handler
  run_handler-unreserved action contract confirmation handler s h =
      rw h (finished action contract confirmation (handler action contract) s)

  found-IsPermitted :
      (q : Request) (s : Executor) (handler : Handler) (found : Option CapabilityDeclaration)
      → get_declaration q.action.capability registry ≡ found
      → gate_found registry policy handlers q.action q.contract q.task_state q.confirmation
          q.approval q.is_dry_run s found
        ≡ calls handler
      → IsPermitted registry policy q.action q.contract q.task_state q.confirmation q.approval
          q.is_dry_run s
        × (get_handler q.action.capability handlers ≡ some handler)
  found-IsPermitted q s handler none f h = cc (h)
  found-IsPermitted q s handler (some d) f h =
      gate_declared-IsPermitted registry policy handlers q.action q.contract q.task_state
        q.confirmation q.approval q.is_dry_run s d handler f h

  abbrev pub serve : Request → Executor → Executor
  serve q s =
      (execute_action registry policy handlers q.action q.contract q.task_state q.confirmation
        q.approval q.is_dry_run s).1

  decided-Acted :
      (q : Request) (s : Executor) (decision : Decision)
      → gate_found registry policy handlers q.action q.contract q.task_state q.confirmation
          q.approval q.is_dry_run s
          (get_declaration q.action.capability registry)
        ≡ decision
      → Acted registry policy handlers q.action q.contract q.task_state q.confirmation q.approval
          q.is_dry_run s
          (act_on registry policy handlers q.action q.contract q.confirmation s decision).1
  decided-Acted q s (stops r) h = kept refl
  decided-Acted q s (calls handler) h =
      let (permitted, registered) =
        found-IsPermitted q s handler (get_declaration q.action.capability registry) refl h in
      ran handler registered permitted
        (run_handler-unreserved q.action q.contract q.confirmation handler s permitted.unreserved)

  -- A recovery action, served while no other runs, leaves the executor as it was, or everything
  -- was permitted and the handler that is registered for its capability was called once: the
  -- capability is declared, available and supports recovery, the declaration and the policy allow
  -- the state and the risk, the policy allows the capability, the key is the contract's where the
  -- declaration asks for that and was not reserved, an approval and a confirmation of this very
  -- action were given where they are needed, and the call is no dry run. The key is then kept
  -- exactly where the handler raised nothing.
  pub execute_action-Acted :
      (q : Request) (s : Executor)
      → Acted registry policy handlers q.action q.contract q.task_state q.confirmation q.approval
          q.is_dry_run s
          (serve q s)
  unfolding execute_action
  execute_action-Acted q s = decided-Acted q s _ refl

  -- A dry run calls no handler and leaves the executor as it was.
  pub execute_action-dry_run : (q : Request) (s : Executor) → q.is_dry_run ≡ true → serve q s ≡ s
  execute_action-dry_run q s dry = elim (execute_action-Acted q s) [
    | kept same ↦ same
    | ran handler registered permitted same ↦ cc (dry, permitted.live)
  ]

  unfoldable pub serve_all : List Request → Executor → Executor
  serve_all [] s = s
  serve_all (q ∷ qs) s = serve_all qs (serve q s)

  unreserved-unexecuted :
      (s : Executor) (key : Key) → is_reserved s key ≡ false → holds_key s.executed_keys key ≡ false
  unfolding is_reserved
  unreserved-unexecuted s key h = ground arith

  keys_after_unique :
      (action : RecoveryAction) (outcome : Option Error) (keys : List Key)
      → holds_key keys (key_of action) ≡ false
      → unique_keys keys ≡ true
      → unique_keys (keys_after action outcome keys) ≡ true
  unfolding unique_keys
  keys_after_unique action none keys h u = rw h u
  keys_after_unique action (some e) keys h u = u

  serve_unique :
      (q : Request) (s : Executor)
      → unique_keys s.executed_keys ≡ true
      → unique_keys (serve q s).executed_keys ≡ true
  serve_unique q s u = elim (execute_action-Acted q s) [
    | kept same ↦ rw same u
    | ran handler registered permitted same ↦ rw same (
        keys_after_unique q.action (handler q.action q.contract) s.executed_keys
          (unreserved-unexecuted s (key_of q.action) permitted.unreserved) u)
  ]

  -- Over any sequence of requests, served one after the other, no key is executed twice, if none
  -- was before.
  pub serve_all_unique :
      (qs : List Request) (s : Executor)
      → unique_keys s.executed_keys ≡ true
      → unique_keys (serve_all qs s).executed_keys ≡ true
  unfolding serve_all
  serve_all_unique [] s u = u
  serve_all_unique (q ∷ qs) s u = serve_all_unique qs (serve q s) (serve_unique q s u)

module _ (registry : CapabilityRegistry) (handlers : Handlers) where
  -- Under the default policy no request calls a handler or changes the executor, whatever is
  -- declared, approved and confirmed.
  pub safe_default_denies :
      (q : Request) (s : Executor) → serve registry safe_default handlers q s ≡ s
  unfolding contains
  safe_default_denies q s = elim (execute_action-Acted registry safe_default handlers q s) [
    | kept same ↦ same
    | ran handler registered permitted same ↦ cc (permitted.is_allowed.capability_allowed)
  ]
