-- ===== src/Automation/Execution.antt =====
-- backend/app/modules/automation/application: execution_service.py and event_handler.py. An action's
-- handler works on the context `C` and the database `S`, either of which it may have changed when it
-- raises; it reads the context variable `automation_execution_depth` and publishes events while it
-- runs, and the bus calls the automation handler within the call. `priority`, a 32-bit column, is
-- counted from its least value; times are kept only where the code tests them.
use ai_customer_support_plat.Prelude.{
  ℕ, zero, suc, Bool, true, false, ◌&&◌, ◌||◌, List, [], ◌∷◌, Option, none, some, leb, ltb, ◌==◌,
  if◌then◌else◌, filter_by, Text, text_eq, codes, String, take, sort_by, Attempt, returns, raises,
}
use ai_customer_support_plat.Automation.Values.{Floats}
use ai_customer_support_plat.Automation.Conditions.{
  Items, AutomationContext, ValueError, evaluate_conditions,
}

pub data ExecutionStatus : Type 0 where
  running completed failed skipped : ExecutionStatus

pub data StepType : Type 0 where
  condition action : StepType

pub record Automation (F A : Type 0) : Type 0 where
  pub id : ℕ
  pub organization_id : ℕ
  pub enabled : Bool
  pub trigger_type : Option Text
  pub conditions : Option (Option Text × Items F)
  pub actions : List A
  pub priority : ℕ
  pub created_at : ℕ

pub record AutomationExecutionStep : Type 0 where
  pub step_type : StepType
  pub status : ExecutionStatus
  pub error : Option Text

-- An execution with its steps; `audited` if an audit entry was written, `is_completed` if
-- `completed_at` is set.
pub record AutomationExecution : Type 0 where
  pub automation_id : ℕ
  pub organization_id : ℕ
  pub trigger_event : Text
  pub status : ExecutionStatus
  pub is_completed : Bool
  pub error : Option Text
  pub steps : List AutomationExecutionStep
  pub audited : Bool

-- A `DomainEvent` whose payload is `P`; `execution_depth` is 0 where the payload has none.
pub record Event (P : Type 0) : Type 0 where
  pub name : Text
  pub organization_id : Option ℕ
  pub execution_depth : ℕ
  pub payload : P

abbrev triggers : List (String × String)
triggers =
    ("conversation.created", "CONVERSATION_CREATED")
    ∷ ("conversation.updated", "CONVERSATION_UPDATED")
    ∷ ("conversation.assigned", "CONVERSATION_ASSIGNED")
    ∷ ("conversation.reopened", "CONVERSATION_REOPENED")
    ∷ ("conversation.closed", "CONVERSATION_CLOSED")
    ∷ ("message.received", "MESSAGE_RECEIVED")
    ∷ ("message.sent", "MESSAGE_SENT")
    ∷ ("ticket.created", "TICKET_CREATED")
    ∷ ("ticket.updated", "TICKET_UPDATED")
    ∷ ("ticket.assigned", "TICKET_ASSIGNED")
    ∷ ("ticket.resolved", "TICKET_RESOLVED")
    ∷ ("ticket.reopened", "TICKET_REOPENED")
    ∷ ("ai.escalated", "AI_ESCALATED")
    ∷ ("ai.resolved", "AI_RESOLVED")
    ∷ ("ai.low_confidence", "AI_LOW_CONFIDENCE")
    ∷ ("customer.created", "CUSTOMER_CREATED")
    ∷ ("customer.updated", "CUSTOMER_UPDATED")
    ∷ ("missed_chat", "MISSED_CHAT")
    ∷ []

unfoldable pub find_trigger : Text → List (String × String) → Option Text
unfolding text_eq
find_trigger name [] = none
find_trigger name ((event, trigger) ∷ rest) =
    if text_eq name (codes event) then some (codes trigger) else find_trigger name rest

-- `EVENT_TO_TRIGGER.get(event_name)`
unfoldable pub event_to_trigger : Text → Option Text
unfolding find_trigger
event_to_trigger name = find_trigger name triggers

abbrev pub max_execution_depth : ℕ
max_execution_depth = 3

-- `str(exc)[:2000]`
unfoldable pub clip : Text → Text
clip message = take 2000 message

abbrev pub opt_text_eq : Option Text → Text → Bool
opt_text_eq none t = false
opt_text_eq (some s) t = text_eq s t

-- `order_by(Automation.priority.desc(), Automation.created_at.asc())`
abbrev pub runs_before : {F A : Type 0} → Automation F A → Automation F A → Bool
runs_before a b =
    ltb b.priority a.priority || (a.priority == b.priority && ltb a.created_at b.created_at)

unfoldable pub matching_automations :
    {F A : Type 0} → ℕ → Text → List (Automation F A) → List (Automation F A)
unfolding sort_by
matching_automations org trigger rows =
    filter_by (λ a. opt_text_eq a.trigger_type trigger)
      (sort_by runs_before (filter_by (λ a. a.organization_id == org && a.enabled) rows))

-- The handlers and what they work on.
pub record Engine (F C S A P : Type 0) : Type 0 where
  pub automations : S → List (Automation F A)
  pub build : ℕ → Event P → S → C
  pub view : C → AutomationContext F
  pub store : AutomationExecution → S → S
  pub error_text : ValueError → Text
  pub execute_action : (Event P → S → S) → ℕ → A → C × S → Attempt Text (Unit {0}) × (C × S)

module _ {F C S A P : Type 0} (fl : Floats F) (engine : Engine F C S A P) where
  abbrev pub action_step : Attempt Text (Unit {0}) → AutomationExecutionStep
  action_step (returns done) = record { step_type = action; status = completed; error = none }
  action_step (raises message) = record {
    step_type = action;
    status = failed;
    error = some (clip message);
  }

  -- The loop over the actions, up to the first that raises: its steps, its error and the state.
  unfoldable pub run_actions :
      (Event P → S → S) → ℕ → List A → C × S → List AutomationExecutionStep × Option Text × (C × S)
  unfolding clip
  run_actions publish depth [] s = ([], none, s)
  run_actions publish depth (a ∷ rest) s =
      let (result, s1) = engine.execute_action publish depth a s in
      let (steps, error, s2) = run_actions publish depth rest s1 in
      elim result [
        | returns done ↦ (action_step (returns done) ∷ steps, error, s2)
        | raises message ↦ (action_step (raises message) ∷ [], some (clip message), s1)
      ]

  abbrev pub condition_step : ExecutionStatus → Option Text → AutomationExecutionStep
  condition_step status error = record { step_type = condition; status = status; error = error }

  abbrev pub final_status : Option Text → ExecutionStatus
  final_status none = completed
  final_status (some e) = failed

  abbrev pub is_audited : ExecutionStatus → Bool
  is_audited completed = true
  is_audited failed = true
  is_audited _ = false

  abbrev pub execution :
      Automation F A
      → Text
      → ExecutionStatus
      → Option Text
      → List AutomationExecutionStep
      → AutomationExecution
  execution automation event status error steps = record {
    automation_id = automation.id;
    organization_id = automation.organization_id;
    trigger_event = event;
    status = status;
    is_completed = true;
    error = error;
    steps = steps;
    audited = is_audited status;
  }

  unfoldable pub run_automation :
      (Event P → S → S) → ℕ → Automation F A → Text → C × S → AutomationExecution × (C × S)
  unfolding evaluate_conditions run_actions clip
  run_automation publish depth automation event (ctx, db) =
      elim (evaluate_conditions fl (engine.view ctx) automation.conditions) [
        | raises e ↦
            let error = some (clip (engine.error_text e)) in
            (execution automation event failed error (condition_step failed error ∷ []), (ctx, db))
        | returns matched ↦
            if matched
            then (let (steps, error, s) = run_actions publish depth automation.actions (ctx, db) in
                (
                  execution automation event (final_status error) error
                      (condition_step completed none ∷ steps),
                  s,
                ))
            else (
              execution automation event skipped none (condition_step skipped none ∷ []),
              (ctx, db),
            )
      ]

  unfoldable pub run_each :
      (Event P → S → S)
      → ℕ
      → List (Automation F A)
      → Text
      → C × S
      → List AutomationExecution × (C × S)
  unfolding run_automation
  run_each publish depth [] event s = ([], s)
  run_each publish depth (a ∷ rest) event s =
      let (e, (ctx, db)) = run_automation publish depth a event s in
      let (es, s2) = run_each publish depth rest event (ctx, engine.store e db) in (e ∷ es, s2)

  unfoldable pub execute_for_event :
      (Event P → S → S) → ℕ → Event P → S → List AutomationExecution × S
  unfolding event_to_trigger matching_automations run_each
  execute_for_event publish org event db =
      if leb max_execution_depth event.execution_depth
      then ([], db)
      else elim (event_to_trigger event.name) [
        | none ↦ ([], db)
        | some trigger ↦
            let rows = matching_automations org trigger (engine.automations db) in
            let (es, s) =
              run_each publish event.execution_depth rows event.name
                (engine.build org event db, db) in
            (es, s.1)
      ]

  -- `handle_domain_event`, with events nested at most `fuel` deep.
  unfoldable pub handle_domain_event : ℕ → Event P → S → S
  unfolding execute_for_event
  handle_domain_event zero event db = db
  handle_domain_event (suc fuel) event db = elim event.organization_id [
    | none ↦ db
    | some org ↦ (execute_for_event (handle_domain_event fuel) org event db).1
  ]
