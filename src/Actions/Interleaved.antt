-- ===== src/Actions/Interleaved.antt =====
-- However the transactions interleave, an action starts at most once, and an approval is consumed at most
-- once.
use runmantle.Prelude.{
  ◌≤◌, ◌≡◌, refl, sym, ◌∙◌, ap, subst, arith, String, Bool, true, false, ◌==◌, eq_iff, eq_refl,
  Option, none, some, List, [], ◌∷◌, Bool-cases, inl, inr,
}
use runmantle.Telemetry.{LifecycleEventType}
use runmantle.Actions.{StoredAction}
use runmantle.Actions.Store.{TaskRow, find_approval_row, Store, first_where, find_action}
use runmantle.Actions.Steps.{
  count_events, is_start, is_consumption, is_consumed, has_started, starts_of, AreCounted, Step,
  Steps, start, next, prepares, decides, authorizes, starts, finishes, completes, gives_up,
  consumes, claims, others,
}
use runmantle.Actions.Running.{consume, put_approval}
use runmantle.Actions.Started.{flag, find-put_same, find-put_other, count-here, update-AreCounted}
use runmantle.Actions.Changed.{
  Changed, unchanged, updated, record_action_policy-Changed, record_action_authorization-Changed,
}
use runmantle.Actions.Finished.{
  finish_action-Changed, complete_action_postconditions-Changed, mark_action_unknown-Changed,
}
use runmantle.Actions.Once.{
  Claimed, nothing, spent, Begun, not_begun, begun, approval_row_key, claim_approval-Claimed,
  consume_approval-Claimed, mark_action_executing-Begun,
}
use runmantle.Actions.Inserted.{Prepared, not_prepared, inserted, prepare_action-Prepared}

Changed-AreCounted : {s t : Store} → AreCounted s → Changed s t → AreCounted t
Changed-AreCounted counted unchanged = counted
Changed-AreCounted {s} counted (updated old row event_type _ found step) =
    update-AreCounted s old row event_type counted found step

Claimed-AreCounted : {s t : Store} → AreCounted s → Claimed s t → AreCounted t
unfolding count_events
Claimed-AreCounted counted nothing = counted
Claimed-AreCounted counted (spent now action_id a found unspent) = λ id. counted id

Claimed-actions : {s t : Store} → Claimed s t → t.actions ≡ s.actions
Claimed-actions nothing = refl
Claimed-actions (spent now action_id a found unspent) = refl

Begun-AreCounted : {s t : Store} → AreCounted s → Begun s t → AreCounted t
Begun-AreCounted counted not_begun = counted
Begun-AreCounted counted (begun {claimed} old row taken found before after) =
    update-AreCounted claimed old row LifecycleEventType.action_execution_started
      (Claimed-AreCounted counted taken)
      (ap (find_action row.action_id) (Claimed-actions taken) ∙ found)
      (omega (arith, ap flag before, ap flag after))

Prepared-AreCounted : {s t : Store} → AreCounted s → Prepared s t → AreCounted t
unfolding count_events find_action first_where
Prepared-AreCounted counted not_prepared = counted
Prepared-AreCounted {s} counted (inserted row absent fresh) = λ other.
    elim (Bool-cases (row.action_id == other)) [
      | inl same ↦
          let here = (eq_iff row.action_id other).0 same in
          let none_before = ap (λ x. find_action x s.actions) (sym here) ∙ absent in
          rw same (counted other ∙ ap starts_of none_before ∙ sym (ap flag fresh))
      | inr different ↦ rw different (counted other)
    ]

-- The log has as many consumptions of each approval as its row says.
abbrev AreSpent : Store → Type 0
AreSpent s =
    (approval_id : String)
    → count_events is_consumption approval_id s.events
      ≡ flag (is_consumed (find_approval_row approval_id s.approvals))

Changed-AreSpent : {s t : Store} → AreSpent s → Changed s t → AreSpent t
unfolding count_events
Changed-AreSpent accounted unchanged = accounted
Changed-AreSpent accounted (updated old row event_type other_event found step) =
    λ id. rw other_event (accounted id)

Claimed-AreSpent : {s t : Store} → AreSpent s → Claimed s t → AreSpent t
unfolding count_events find_approval_row put_approval
Claimed-AreSpent accounted nothing = accounted
Claimed-AreSpent {s} accounted (spent now action_id a found unspent) = λ other.
    elim (Bool-cases (a.request.approval_id == other)) [
      | inl same ↦
          let here = (eq_iff a.request.approval_id other).0 same in
          subst
            (λ x.
              count_events is_consumption x
                ((LifecycleEventType.approval_consumed, a.request.approval_id) ∷ s.events)
              ≡ flag (
                  is_consumed
                    (find_approval_row x (put_approval (consume now action_id a) s.approvals))))
            here
            (rw
              (
                find-put_same approval_row_key (consume now action_id a) s.approvals found,
                eq_refl a.request.approval_id,
              )
              (count-here true _ 0 1
                (accounted a.request.approval_id
                  ∙ ap (λ o. flag (is_consumed o)) found
                  ∙ ap flag unspent)
                refl))
      | inr different ↦
          rw
            (
              different,
              find-put_other approval_row_key (consume now action_id a) other s.approvals different,
            )
            (accounted other)
    ]

Begun-AreSpent : {s t : Store} → AreSpent s → Begun s t → AreSpent t
unfolding count_events
Begun-AreSpent accounted not_begun = accounted
Begun-AreSpent accounted (begun old row taken found before after) =
    λ id. Claimed-AreSpent accounted taken id

Prepared-AreSpent : {s t : Store} → AreSpent s → Prepared s t → AreSpent t
unfolding count_events
Prepared-AreSpent accounted not_prepared = accounted
Prepared-AreSpent accounted (inserted row absent fresh) = λ id. accounted id

-- Every transaction is one of these.
data Transaction (s t : Store) : Type 0 where
  changes : Changed s t → Transaction s t
  begins : Begun s t → Transaction s t
  takes : Claimed s t → Transaction s t
  inserts : Prepared s t → Transaction s t
  moves :
      t.actions ≡ s.actions
      → t.events ≡ s.events
      → ((approval_id : String)
          → is_consumed (find_approval_row approval_id t.approvals)
            ≡ is_consumed (find_approval_row approval_id s.approvals))
      → Transaction s t

Step-Transaction : {s t : Store} → Step s t → Transaction s t
Step-Transaction {s} (prepares r dry now) = inserts (prepare_action-Prepared r dry now s)
Step-Transaction {s} (decides id version d) = changes (record_action_policy-Changed id version d s)
Step-Transaction {s} (authorizes id version a) =
    changes (record_action_authorization-Changed id version a s)
Step-Transaction {s} (starts id version now owner claim) =
    begins (mark_action_executing-Begun id version now owner claim s)
Step-Transaction {s} (finishes dumps id version r) =
    changes (finish_action-Changed dumps id version r s)
Step-Transaction {s} (completes id version now) =
    changes (complete_action_postconditions-Changed id version now s)
Step-Transaction {s} (gives_up id version now) =
    changes (mark_action_unknown-Changed id version now s)
Step-Transaction {s} (consumes id now hash scope consumer) =
    takes (consume_approval-Claimed id now hash scope consumer s)
Step-Transaction {s} (claims consumer now hash scope id made) =
    takes (claim_approval-Claimed consumer now hash scope id s made)
Step-Transaction (others tasks approvals kept) = moves refl refl kept

Transaction-AreCounted : {s t : Store} → AreCounted s → Transaction s t → AreCounted t
Transaction-AreCounted counted (changes c) = Changed-AreCounted counted c
Transaction-AreCounted counted (begins c) = Begun-AreCounted counted c
Transaction-AreCounted counted (takes c) = Claimed-AreCounted counted c
Transaction-AreCounted counted (inserts c) = Prepared-AreCounted counted c
Transaction-AreCounted counted (moves same_actions same_events kept) = λ id.
    ap (count_events is_start id) same_events
    ∙ counted id
    ∙ ap (λ rows. starts_of (find_action id rows)) (sym same_actions)

Transaction-AreSpent : {s t : Store} → AreSpent s → Transaction s t → AreSpent t
Transaction-AreSpent accounted (changes c) = Changed-AreSpent accounted c
Transaction-AreSpent accounted (begins c) = Begun-AreSpent accounted c
Transaction-AreSpent accounted (takes c) = Claimed-AreSpent accounted c
Transaction-AreSpent accounted (inserts c) = Prepared-AreSpent accounted c
Transaction-AreSpent accounted (moves same_actions same_events kept) =
    λ id. ap (count_events is_consumption id) same_events ∙ accounted id ∙ sym (ap flag (kept id))

Steps-AreCounted : {s t : Store} → AreCounted s → Steps s t → AreCounted t
Steps-AreCounted counted start = counted
Steps-AreCounted counted (next before step) =
    Transaction-AreCounted (Steps-AreCounted counted before) (Step-Transaction step)

Steps-AreSpent : {s t : Store} → AreSpent s → Steps s t → AreSpent t
Steps-AreSpent accounted start = accounted
Steps-AreSpent accounted (next before step) =
    Transaction-AreSpent (Steps-AreSpent accounted before) (Step-Transaction step)

-- Tables without actions, and an empty log.
abbrev pub new_store : List TaskRow → Store
new_store tasks = record { tasks = tasks; actions = []; approvals = []; events = [] }

flag-le : (b : Bool) → flag b ≤ 1
flag-le true = omega arith
flag-le false = omega arith

starts_of-le : (o : Option StoredAction) → starts_of o ≤ 1
starts_of-le none = omega arith
starts_of-le (some a) = flag-le (has_started a.status)

-- From tables without actions, however the transactions of any processes interleave, and with
-- whatever arguments they are called, the log of the actions' and approvals' transactions has as
-- many starts of an action as its row's status says, one where an execution has started and none
-- before, so never two. The other transactions on these tables may change the tasks, and add,
-- decide and revoke approvals.
pub Steps-started_once :
    (tasks : List TaskRow) (t : Store) (action_id : String)
    → Steps (new_store tasks) t
    → (count_events is_start action_id t.events ≡ starts_of (find_action action_id t.actions))
      × (count_events is_start action_id t.events ≤ 1)
unfolding count_events find_action first_where
Steps-started_once tasks t action_id steps =
    let counted = Steps-AreCounted {s = new_store tasks} (λ id. refl) steps action_id in
    (counted, omega (arith, counted, starts_of-le (find_action action_id t.actions)))

-- From tables without actions and approvals, however the transactions interleave, an approval has
-- one consumption in the log where its row is consumed and none otherwise, so no approval is
-- consumed twice: by a start of an action, by a recovery that claims it as an action does, or by
-- `consume_approval`. The other transactions may change the tasks and the approvals in any way
-- that leaves consumed approvals consumed and the others not.
pub Steps-consumed_once :
    (tasks : List TaskRow) (t : Store) (approval_id : String)
    → Steps (new_store tasks) t
    → (count_events is_consumption approval_id t.events
        ≡ flag (is_consumed (find_approval_row approval_id t.approvals)))
      × (count_events is_consumption approval_id t.events ≤ 1)
unfolding count_events find_approval_row first_where
Steps-consumed_once tasks t approval_id steps =
    let accounted = Steps-AreSpent {s = new_store tasks} (λ id. refl) steps approval_id in
    (
      accounted,
      omega (arith, accounted, flag-le (is_consumed (find_approval_row approval_id t.approvals))),
    )
