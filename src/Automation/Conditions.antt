-- ===== src/Automation/Conditions.antt =====
-- backend/app/modules/automation/application: the condition trees of condition_service.py and
-- `AutomationContext.get_field` of context_builder.py. An unknown operator raises `ValueError`.
use ai_customer_support_plat.Prelude.{
  Bool, true, false, ◌&&◌, ◌||◌, List, [], ◌∷◌, Option, none, some, if◌then◌else◌, Text, text_eq,
  upper, codes, String, Attempt, returns, raises, ◌>>=◌,
}
use ai_customer_support_plat.Automation.Values.{
  ConditionOperator, equals, not_equals, contains_text, not_contains, begins, ends, is_in, not_in,
  greater_than, less_than, greater_or_equal, less_or_equal, is_empty_value, is_not_empty, Value,
  null, string, number, array, Values, Floats, compare_values,
}

abbrev operators : List (String × ConditionOperator)
operators =
    ("EQUALS", equals)
    ∷ ("NOT_EQUALS", not_equals)
    ∷ ("CONTAINS", contains_text)
    ∷ ("NOT_CONTAINS", not_contains)
    ∷ ("STARTS_WITH", begins)
    ∷ ("ENDS_WITH", ends)
    ∷ ("IN", is_in)
    ∷ ("NOT_IN", not_in)
    ∷ ("GREATER_THAN", greater_than)
    ∷ ("LESS_THAN", less_than)
    ∷ ("GREATER_OR_EQUAL", greater_or_equal)
    ∷ ("LESS_OR_EQUAL", less_or_equal)
    ∷ ("IS_EMPTY", is_empty_value)
    ∷ ("IS_NOT_EMPTY", is_not_empty)
    ∷ []

unfoldable pub find_operator : Text → List (String × ConditionOperator) → Option ConditionOperator
unfolding text_eq
find_operator s [] = none
find_operator s ((name, op) ∷ ops) = if text_eq s (codes name) then some op else find_operator s ops

-- `ConditionOperator(s)`, with the default of an absent key.
unfoldable pub operator_of : Option Text → Option ConditionOperator
unfolding find_operator
operator_of none = some equals
operator_of (some s) = find_operator s operators

-- A condition group, or one condition: its field, operator and value. The `conditions` of a group
-- that are `None` are empty.
mutual
  pub data Item (F : Type 0) : Type 0 where
    group : Option Text → Items F → Item F
    test : Text → Option Text → Value F → Item F

  pub data Items (F : Type 0) : Type 0 where
    no_items : Items F
    with_item : Item F → Items F → Items F

pub record AutomationContext (F : Type 0) : Type 0 where
  pub intent : Option Text
  pub sentiment : Option Text
  pub ai_confidence : Option F
  pub channel : Option Text
  pub status : Option Text
  pub priority : Option Text
  pub tags : List Text
  pub metadata : List (Text × Value F)

abbrev pub text_value : {F : Type 0} → Option Text → Value F
text_value none = null
text_value (some s) = string s

abbrev pub number_value : {F : Type 0} → Option F → Value F
number_value none = null
number_value (some x) = number x

unfoldable pub texts : {F : Type 0} → List Text → Values F
texts [] = Values.nil
texts (s ∷ ss) = Values.cons (string s) (texts ss)

-- `self.metadata.get(path)`
unfoldable pub lookup : {F : Type 0} → Text → List (Text × Value F) → Value F
unfolding text_eq
lookup path [] = null
lookup path ((key, v) ∷ rest) = if text_eq key path then v else lookup path rest

unfoldable pub get_field : {F : Type 0} → AutomationContext F → Text → Value F
unfolding text_eq lookup texts
get_field ctx path =
    if text_eq path (codes "intent")
    then text_value ctx.intent
    else if text_eq path (codes "sentiment")
    then text_value ctx.sentiment
    else if text_eq path (codes "ai_confidence")
    then number_value ctx.ai_confidence
    else if text_eq path (codes "channel")
    then text_value ctx.channel
    else if text_eq path (codes "status") || text_eq path (codes "conversation.status")
    then text_value ctx.status
    else if text_eq path (codes "priority") || text_eq path (codes "conversation.priority")
    then text_value ctx.priority
    else if text_eq path (codes "tags")
    then array (texts ctx.tags)
    else lookup path ctx.metadata

-- `(group.get("logic") or "AND").upper() == "OR"`
unfoldable pub is_or : Option Text → Bool
unfolding text_eq
is_or none = false
is_or (some s) = text_eq (upper s) (codes "OR")

pub data ValueError : Type 0 where
  unknown_operator : ValueError

abbrev pub find_test :
    {F : Type 0} → Floats F → Option ConditionOperator → Value F → Value F → Attempt ValueError Bool
find_test fl none actual expected = raises unknown_operator
find_test fl (some op) actual expected = returns (compare_values fl op actual expected)

-- The results of the items are all computed before they are combined.
unfoldable mutual
  unfolding operator_of get_field is_or

  pub eval_item : {F : Type 0} → Floats F → AutomationContext F → Item F → Attempt ValueError Bool
  eval_item fl ctx (group logic items) = eval_items fl ctx (is_or logic) items
  eval_item fl ctx (test field operator expected) =
      find_test fl (operator_of operator) (get_field ctx field) expected

  pub eval_items :
      {F : Type 0} → Floats F → AutomationContext F → Bool → Items F → Attempt ValueError Bool
  eval_items fl ctx any_of no_items = returns true
  eval_items fl ctx any_of (with_item x xs) = do
    first ← eval_item fl ctx x
    rest ← eval_rest fl ctx any_of xs
    returns (if any_of then first || rest else first && rest)

  -- `any` and `all` of the items after the first.
  pub eval_rest :
      {F : Type 0} → Floats F → AutomationContext F → Bool → Items F → Attempt ValueError Bool
  eval_rest fl ctx any_of no_items = returns (if any_of then false else true)
  eval_rest fl ctx any_of (with_item x xs) = do
    first ← eval_item fl ctx x
    rest ← eval_rest fl ctx any_of xs
    returns (if any_of then first || rest else first && rest)

-- `conditions` that are `None` or an empty object hold. The outermost object is read as a group.
unfoldable pub evaluate_conditions :
    {F : Type 0}
    → Floats F
    → AutomationContext F
    → Option (Option Text × Items F)
    → Attempt ValueError Bool
unfolding eval_items is_or
evaluate_conditions fl ctx none = returns true
evaluate_conditions fl ctx (some (logic, items)) = eval_items fl ctx (is_or logic) items
