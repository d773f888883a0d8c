-- ===== src/Automation/Meaning.antt =====
-- When a condition tree has a value and which one it is, and the pairs of opposite operators.
use ai_customer_support_plat.Prelude.{
  ◌≡◌, refl, Bool, true, false, not, ◌&&◌, ◌||◌, Option, none, some, if◌then◌else◌, Text, Attempt,
  returns, raises, ◌>>=◌, is_some,
}
use ai_customer_support_plat.Automation.Values.{ConditionOperator, Value, Floats, compare_values}
use ai_customer_support_plat.Automation.Conditions.{
  Item, Items, group, test, no_items, with_item, AutomationContext, operator_of, get_field, is_or,
  find_test, eval_item, eval_items, eval_rest, evaluate_conditions, unknown_operator, ValueError,
}

-- Every operator of the tree, at whatever depth, is known.
unfoldable mutual
  pub is_known : {F : Type 0} → Item F → Bool
  is_known (group logic items) = are_known items
  is_known (test field operator expected) = is_some (operator_of operator)

  pub are_known : {F : Type 0} → Items F → Bool
  are_known no_items = true
  are_known (with_item x xs) = is_known x && are_known xs

unfoldable pub has_items : {F : Type 0} → Items F → Bool
has_items no_items = false
has_items (with_item x xs) = true

-- What a tree means, where operators are known: a group without items holds, one with the logic `OR`
-- holds when an item does, any other when all do.
abbrev test_meaning : {F : Type 0} → Floats F → Option ConditionOperator → Value F → Value F → Bool
test_meaning fl none actual expected = false
test_meaning fl (some op) actual expected = compare_values fl op actual expected

unfoldable mutual
  pub holds : {F : Type 0} → Floats F → AutomationContext F → Item F → Bool
  holds fl ctx (group logic items) =
      if is_or logic
      then not (has_items items) || some_holds fl ctx items
      else all_hold fl ctx items
  holds fl ctx (test field operator expected) =
      test_meaning fl (operator_of operator) (get_field ctx field) expected

  pub some_holds : {F : Type 0} → Floats F → AutomationContext F → Items F → Bool
  some_holds fl ctx no_items = false
  some_holds fl ctx (with_item x xs) = holds fl ctx x || some_holds fl ctx xs

  pub all_hold : {F : Type 0} → Floats F → AutomationContext F → Items F → Bool
  all_hold fl ctx no_items = true
  all_hold fl ctx (with_item x xs) = holds fl ctx x && all_hold fl ctx xs

abbrev outcome : Bool → Bool → Attempt ValueError Bool
outcome known value = if known then returns value else raises unknown_operator

pair-outcome :
    (any_of k l a b : Bool)
    → (outcome k a >>= (λ first.
        outcome l b >>= (λ rest. returns (if any_of then first || rest else first && rest))))
      ≡ outcome (k && l) (if any_of then a || b else a && b)
pair-outcome any_of true true a b = refl
pair-outcome any_of true false a b = refl
pair-outcome any_of false l a b = refl

found :
    {F : Type 0} (fl : Floats F) (o : Option ConditionOperator) (a e : Value F)
    → find_test fl o a e ≡ outcome (is_some o) (test_meaning fl o a e)
found fl none a e = refl
found fl (some op) a e = refl

mutual
  unfolding is_known holds eval_item has_items

  eval_items-outcome :
      {F : Type 0} (fl : Floats F) (ctx : AutomationContext F) (any_of : Bool) (xs : Items F)
      → eval_items fl ctx any_of xs
        ≡ outcome
            (are_known xs)
            (if any_of then not (has_items xs) || some_holds fl ctx xs else all_hold fl ctx xs)
  eval_items-outcome fl ctx true no_items = refl
  eval_items-outcome fl ctx false no_items = refl
  eval_items-outcome fl ctx true (with_item x xs) =
      rw (eval_item-outcome fl ctx x, eval_rest-outcome fl ctx true xs)
        (pair-outcome true (is_known x) (are_known xs) (holds fl ctx x) (some_holds fl ctx xs))
  eval_items-outcome fl ctx false (with_item x xs) =
      rw (eval_item-outcome fl ctx x, eval_rest-outcome fl ctx false xs)
        (pair-outcome false (is_known x) (are_known xs) (holds fl ctx x) (all_hold fl ctx xs))

  eval_item-outcome :
      {F : Type 0} (fl : Floats F) (ctx : AutomationContext F) (x : Item F)
      → eval_item fl ctx x ≡ outcome (is_known x) (holds fl ctx x)
  eval_item-outcome fl ctx (group logic items) = eval_items-outcome fl ctx (is_or logic) items
  eval_item-outcome fl ctx (test field operator expected) =
      found fl (operator_of operator) (get_field ctx field) expected

  eval_rest-outcome :
      {F : Type 0} (fl : Floats F) (ctx : AutomationContext F) (any_of : Bool) (xs : Items F)
      → eval_rest fl ctx any_of xs
        ≡ outcome (are_known xs) (if any_of then some_holds fl ctx xs else all_hold fl ctx xs)
  eval_rest-outcome fl ctx true no_items = refl
  eval_rest-outcome fl ctx false no_items = refl
  eval_rest-outcome fl ctx true (with_item x xs) =
      rw (eval_item-outcome fl ctx x, eval_rest-outcome fl ctx true xs)
        (pair-outcome true (is_known x) (are_known xs) (holds fl ctx x) (some_holds fl ctx xs))
  eval_rest-outcome fl ctx false (with_item x xs) =
      rw (eval_item-outcome fl ctx x, eval_rest-outcome fl ctx false xs)
        (pair-outcome false (is_known x) (are_known xs) (holds fl ctx x) (all_hold fl ctx xs))

module _ {F : Type 0} (fl : Floats F) (ctx : AutomationContext F) where
  -- Conditions that are absent hold. For any other tree `evaluate_conditions` raises exactly when
  -- some operator in it, at whatever depth, is unknown, even where the other items decide; when all
  -- are known it returns what the tree means: under the logic `OR` (in any case) that the group has
  -- no items or one of them holds, under any other logic that all of them hold.
  pub evaluate_conditions_lem :
      (logic : Option Text) (items : Items F)
      → (evaluate_conditions fl ctx none ≡ returns true)
        × (evaluate_conditions fl ctx (some (logic, items)) ≡ (
            if are_known items
            then returns (
                if is_or logic
                then not (has_items items) || some_holds fl ctx items
                else all_hold fl ctx items)
            else raises unknown_operator))
  unfolding evaluate_conditions
  evaluate_conditions_lem logic items = (refl, eval_items-outcome fl ctx (is_or logic) items)
