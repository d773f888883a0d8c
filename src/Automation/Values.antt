-- ===== src/Automation/Values.antt =====
-- backend/app/modules/automation/application/condition_service.py: `_compare` with `_normalize` and
-- `_numeric`, on JSON values that are no objects. Python's `float` and its operations, and `str` of a
-- value that is no string, are parameters; texts are ASCII.
use ai_customer_support_plat.Prelude.{
  Bool, true, false, not, ◌&&◌, ◌||◌, Option, none, some, if◌then◌else◌, Text, [], text_eq,
  is_empty, lower, upper, starts_with, ends_with, is_within,
}

pub data ConditionOperator : Type 0 where
  equals not_equals contains_text not_contains begins ends is_in not_in greater_than less_than
        greater_or_equal less_or_equal is_empty_value is_not_empty :
      ConditionOperator

mutual
  pub data Value (F : Type 0) : Type 0 where
    null : Value F
    string : Text → Value F
    number : F → Value F
    boolean : Bool → Value F
    array : Values F → Value F

  pub data Values (F : Type 0) : Type 0 where
    nil : Values F
    cons : Value F → Values F → Values F

-- Python's `float` as the type `F`, and `str` of a value.
pub record Floats (F : Type 0) : Type 0 where
  pub float_lt : F → F → Bool
  pub float_le : F → F → Bool
  pub float_eq : F → F → Bool
  pub float_of : Text → Option F
  pub float_bool : Bool → F
  pub float_zero : F
  pub str : Value F → Text

abbrev pub bool_eq : Bool → Bool → Bool
bool_eq true b = b
bool_eq false b = not b

-- Python's `==`; a Boolean equals the number that it stands for.
unfoldable mutual
  unfolding text_eq

  pub value_eq : {F : Type 0} → Floats F → Value F → Value F → Bool
  value_eq fl null null = true
  value_eq fl (string s) (string t) = text_eq s t
  value_eq fl (number a) (number b) = fl.float_eq a b
  value_eq fl (number a) (boolean b) = fl.float_eq a (fl.float_bool b)
  value_eq fl (boolean a) (number b) = fl.float_eq (fl.float_bool a) b
  value_eq fl (boolean a) (boolean b) = bool_eq a b
  value_eq fl (array xs) (array ys) = values_eq fl xs ys
  value_eq fl _ _ = false

  pub values_eq : {F : Type 0} → Floats F → Values F → Values F → Bool
  values_eq fl nil nil = true
  values_eq fl (cons x xs) (cons y ys) = value_eq fl x y && values_eq fl xs ys
  values_eq fl _ _ = false

module _ {F : Type 0} (fl : Floats F) where
  -- `_normalize`
  unfoldable pub normalize : Value F → Value F
  normalize (string s) = string (upper s)
  normalize v = v

  -- `_numeric`: `None`, lists and unreadable strings count as 0.0.
  unfoldable pub numeric : Value F → F
  numeric (string s) = elim (fl.float_of s) [ none ↦ fl.float_zero | some x ↦ x ]
  numeric (number x) = x
  numeric (boolean b) = fl.float_bool b
  numeric _ = fl.float_zero

  -- `not v`
  unfoldable pub is_falsy : Value F → Bool
  is_falsy null = true
  is_falsy (string s) = is_empty s
  is_falsy (number x) = fl.float_eq x fl.float_zero
  is_falsy (boolean b) = not b
  is_falsy (array nil) = true
  is_falsy (array (cons x xs)) = false

  unfoldable pub str_of : Value F → Text
  str_of (string s) = s
  str_of v = fl.str v

  -- `str(v or "").lower()`
  unfoldable pub lower_or_empty : Value F → Text
  unfolding is_falsy str_of
  lower_or_empty v = lower (if is_falsy v then [] else str_of v)

  -- `v is None or v == "" or v == []`
  unfoldable pub is_blank : Value F → Bool
  is_blank null = true
  is_blank (string s) = is_empty s
  is_blank (array nil) = true
  is_blank _ = false

  abbrev pub is_none : Value F → Bool
  is_none null = true
  is_none _ = false

  -- `normalize(actual) in [normalize(v) for v in values]`
  unfoldable pub is_among : Value F → Values F → Bool
  unfolding value_eq normalize
  is_among a nil = false
  is_among a (cons x xs) = value_eq fl (normalize a) (normalize x) || is_among a xs

  -- `expected if isinstance(expected, list) else [expected]`
  abbrev pub as_values : Value F → Values F
  as_values (array xs) = xs
  as_values v = cons v nil

  unfoldable pub compare_values : ConditionOperator → Value F → Value F → Bool
  unfolding value_eq normalize numeric lower_or_empty str_of is_blank is_among
  compare_values is_empty_value a e = is_blank a
  compare_values is_not_empty a e = not (is_blank a)
  compare_values equals a e = value_eq fl (normalize a) (normalize e)
  compare_values not_equals a e = not (value_eq fl (normalize a) (normalize e))
  compare_values contains_text a e =
      not (is_none e) && is_within (lower (str_of e)) (lower_or_empty a)
  compare_values not_contains a e =
      is_none e || not (is_within (lower (str_of e)) (lower_or_empty a))
  compare_values begins a e = starts_with (lower_or_empty e) (lower_or_empty a)
  compare_values ends a e = ends_with (lower_or_empty a) (lower_or_empty e)
  compare_values is_in a e = is_among a (as_values e)
  compare_values not_in a e = not (is_among a (as_values e))
  compare_values greater_than a e = fl.float_lt (numeric e) (numeric a)
  compare_values less_than a e = fl.float_lt (numeric a) (numeric e)
  compare_values greater_or_equal a e = fl.float_le (numeric e) (numeric a)
  compare_values less_or_equal a e = fl.float_le (numeric a) (numeric e)
