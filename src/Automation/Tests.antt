-- ===== src/Automation/Tests.antt =====
-- Whole numbers stand for the floating-point ones. The database is the log of the tags that were set;
-- the action `tag n` logs `n`, `broken` raises, and `assign` publishes `conversation.assigned`.
use ai_customer_support_plat.Prelude.{
  ℕ, suc, ◌≡◌, refl, inr, true, false, not, ◌||◌, List, [], ◌∷◌, ◌++◌, none, some, ltb, leb, ◌==◌,
  length, if◌then◌else◌, codes, Text, text_eq, lower_code, lower, upper_code, upper, is_empty,
  starts_with, take, sort_by, insert, is_within, ends_with, drop, Attempt, returns, raises, length,
}
use ai_customer_support_plat.Automation.Values.{
  null, string, number, Floats, value_eq, normalize, numeric, is_falsy, str_of, lower_or_empty,
  is_blank, is_among, compare_values,
}
use ai_customer_support_plat.Automation.Conditions.{
  find_operator, operator_of, Items, group, test, no_items, with_item, AutomationContext, texts,
  lookup, get_field, is_or, unknown_operator, eval_item, evaluate_conditions,
}
use ai_customer_support_plat.Automation.Meaning.{
  is_known, are_known, has_items, holds, some_holds, all_hold, evaluate_conditions_lem,
}
use ai_customer_support_plat.Automation.Execution.{
  Automation, Event, Engine, find_trigger, event_to_trigger, clip, failed, matching_automations,
  run_actions, run_automation, run_each, execute_for_event, handle_domain_event, skipped,
}
use ai_customer_support_plat.Automation.Runs.{
  after, ran, fails, IsEnded, ended_status, is_status, is_matched, run_automation_lem,
}
use ai_customer_support_plat.Automation.Cascade.{IsDeeper, handle_domain_event-IsBounded}

service : Unit {0}
unfolding text_eq lower_code lower upper_code upper is_empty starts_with take drop sort_by insert
    is_within ends_with value_eq normalize numeric is_falsy str_of lower_or_empty is_blank is_among
    compare_values find_operator operator_of texts lookup get_field is_or eval_item
    evaluate_conditions is_known has_items holds find_trigger event_to_trigger clip
    matching_automations run_actions run_automation run_each execute_for_event handle_domain_event
    after ran fails
service = tt

abbrev whole : Floats ℕ
whole = record {
  float_lt = ltb;
  float_le = leb;
  float_eq = λ a b. a == b;
  float_of = λ s. none;
  float_bool = λ b. if b then 1 else 0;
  float_zero = 0;
  str = λ v. [];
}

abbrev context : AutomationContext ℕ
context = record {
  intent = some (codes "REFUND");
  sentiment = none;
  ai_confidence = some 4;
  channel = some (codes "WEB_CHAT");
  status = some (codes "OPEN");
  priority = none;
  tags = codes "vip" ∷ [];
  metadata = [];
}

-- A refund, or a low confidence.
abbrev refund_or_low : Items ℕ
refund_or_low =
    with_item (test (codes "intent") (some (codes "EQUALS")) (string (codes "refund")))
      (with_item (test (codes "ai_confidence") (some (codes "LESS_THAN")) (number 2)) no_items)

abbrev misspelt : Items ℕ
misspelt = with_item (test (codes "intent") none (string (codes "refund"))) (
    with_item (group none (with_item (test (codes "tags") (some (codes "HAS")) null) no_items))
      no_items)

condition_tests :
    (evaluate_conditions whole context (some (some (codes "or"), refund_or_low)) ≡ returns true)
    × (evaluate_conditions whole context (some (none, refund_or_low)) ≡ returns false)
    × (evaluate_conditions whole context (some (some (codes "OR"), misspelt))
        ≡ raises unknown_operator)
    × (evaluate_conditions whole context (some (some (codes "OR"), no_items)) ≡ returns true)
unfolding service
condition_tests = (refl, refl, refl, refl)

evaluate_conditions_lem_example :
    (evaluate_conditions whole context none ≡ returns true)
    × (evaluate_conditions whole context (some (some (codes "or"), refund_or_low)) ≡ (
        if are_known refund_or_low
        then returns (
            if is_or (some (codes "or"))
            then not (has_items refund_or_low) || some_holds whole context refund_or_low
            else all_hold whole context refund_or_low)
        else raises unknown_operator))
evaluate_conditions_lem_example =
    evaluate_conditions_lem whole context (some (codes "or")) refund_or_low

data Action : Type 0 where
  tag : ℕ → Action
  broken assign : Action

abbrev assigned : ℕ → Event (Unit {0})
assigned depth = record {
  name = codes "conversation.assigned";
  organization_id = some 1;
  execution_depth = depth;
  payload = tt;
}

abbrev Db : Type 0
Db = List (Automation ℕ Action) × List ℕ

abbrev run_action :
    (Event (Unit {0}) → Db → Db)
    → ℕ
    → Action
    → AutomationContext ℕ × Db
    → Attempt Text (Unit {0}) × (AutomationContext ℕ × Db)
run_action publish depth (tag n) (ctx, (rows, log)) = (returns tt, (ctx, (rows, log ++ n ∷ [])))
run_action publish depth broken (ctx, db) = (raises (codes "boom"), (ctx, db))
run_action publish depth assign (ctx, db) = (returns tt, (ctx, publish (assigned (suc depth)) db))

abbrev engine : Engine ℕ (AutomationContext ℕ) Db Action (Unit {0})
engine = record {
  automations = λ db. db.0;
  build = λ org e db. context;
  view = λ c. c;
  store = λ x db. db;
  error_text = λ e. codes "unknown";
  execute_action = run_action;
}

abbrev automation : ℕ → List Action → Automation ℕ Action
automation i actions = record {
  id = i;
  organization_id = 1;
  enabled = true;
  trigger_type = some (codes "CONVERSATION_ASSIGNED");
  conditions =
      some (none, with_item (test (codes "tags") (some (codes "IS_NOT_EMPTY")) null) no_items);
  actions = actions;
  priority = i;
  created_at = 0;
}

-- Publishing that is ignored.
abbrev ignore : Event (Unit {0}) → Db → Db
ignore e db = db

abbrev stops : Automation ℕ Action
stops = automation 7 (tag 1 ∷ broken ∷ tag 2 ∷ [])

abbrev empty_db : Db
empty_db = ([], [])

execution_tests :
    ((run_automation whole engine ignore 0 stops
        (codes "conversation.assigned")
        (context, empty_db)).0.status
      ≡ failed)
    × ((run_automation whole engine ignore 0 stops
          (codes "conversation.assigned")
          (context, empty_db)).1.1.1
        ≡ 1 ∷ [])
    × ((handle_domain_event whole engine 9
          (assigned 0)
          (automation 7 (tag 7 ∷ []) ∷ automation 8 (tag 8 ∷ assign ∷ []) ∷ [], [])).1
        ≡ 8 ∷ 8 ∷ 8 ∷ 7 ∷ 7 ∷ 7 ∷ [])
unfolding service
execution_tests = (refl, refl, refl)

run_automation_lem_example :
    IsEnded whole engine ignore 0
      (run_automation whole engine ignore 0 stops (codes "x") (context, empty_db)).0
    × ((run_automation whole engine ignore 0 stops (codes "x") (context, empty_db)).0.status
        ≡ ended_status
            (evaluate_conditions whole context stops.conditions)
            (fails engine ignore 0 stops.actions (context, empty_db)))
    × ((run_automation whole engine ignore 0 stops (codes "x") (context, empty_db)).0.audited
        ≡ not (
            is_status
              (ended_status
                (evaluate_conditions whole context stops.conditions)
                (fails engine ignore 0 stops.actions (context, empty_db)))
              skipped))
    × ((run_automation whole engine ignore 0 stops (codes "x") (context, empty_db)).1 ≡ (
        if is_matched (evaluate_conditions whole context stops.conditions)
        then after engine ignore 0
            (ran engine ignore 0 stops.actions (context, empty_db))
            stops.actions
            (context, empty_db)
        else (context, empty_db)))
    × (length (run_automation whole engine ignore 0 stops (codes "x") (context, empty_db)).0.steps
        ≡ suc (
            if is_matched (evaluate_conditions whole context stops.conditions)
            then ran engine ignore 0 stops.actions (context, empty_db)
            else 0))
run_automation_lem_example =
    run_automation_lem whole engine ignore 0 stops (codes "x") context empty_db

run_action-deeper :
    (p q : Event (Unit {0}) → Db → Db) (depth : ℕ)
    → ((e : Event (Unit {0})) (db : Db) → IsDeeper depth e → p e db ≡ q e db)
    → (a : Action) (s : AutomationContext ℕ × Db) → run_action p depth a s ≡ run_action q depth a s
run_action-deeper p q depth agree (tag n) s = refl
run_action-deeper p q depth agree broken s = refl
run_action-deeper p q depth agree assign (ctx, db) =
    rw (agree (assigned (suc depth)) db (inr refl)) refl

handle_domain_event-IsBounded_example :
    handle_domain_event whole engine 9 (assigned 0) (automation 8 (tag 8 ∷ assign ∷ []) ∷ [], [])
    ≡ handle_domain_event whole engine 3 (assigned 0) (automation 8 (tag 8 ∷ assign ∷ []) ∷ [], [])
handle_domain_event-IsBounded_example =
    handle_domain_event-IsBounded whole engine run_action-deeper 6 (assigned 0)
      (automation 8 (tag 8 ∷ assign ∷ []) ∷ [], [])
