-- ===== src/Policy/Condition.antt =====
-- Conditions of policy_engine/evaluator.py: `_OPERATORS`, `_evaluate_condition` and
-- `_all_conditions_match`.
use device_weave.Prelude.{
  Bool, true, false, not, ◌||◌, Option, none, some, List, [], ◌∷◌, if◌then◌else◌,
}
use device_weave.Prelude.Int.{ℤ, pos, ltb_ℤ, eqb_ℤ}
use device_weave.Prelude.Text.{String, str_eq, str_lt}
use device_weave.Policy.Data.{Value, null, bool, num, str, Context, get, Condition}

pub data Operator : Type 0 where
  gt lt ge le eq ne : Operator

-- `_OPERATORS.get(operator_str)`
unfoldable pub operator_of : Option String → Option Operator
operator_of none = none
operator_of (some s) =
    if str_eq s ">"
    then some Operator.gt
    else if str_eq s "<"
    then some Operator.lt
    else if str_eq s ">="
    then some Operator.ge
    else if str_eq s "<="
    then some Operator.le
    else if str_eq s "=="
    then some Operator.eq
    else if str_eq s "!="
    then some Operator.ne
    else none

-- `True` and `False` are the numbers 1 and 0.
abbrev pub of_bool : Bool → ℤ
of_bool true = pos 1000
of_bool false = pos 0

-- `a == b`, which never raises.
unfoldable pub value_eq : Value → Value → Bool
value_eq null null = true
value_eq (bool a) (bool b) = eqb_ℤ (of_bool a) (of_bool b)
value_eq (bool a) (num y) = eqb_ℤ (of_bool a) y
value_eq (num x) (bool b) = eqb_ℤ x (of_bool b)
value_eq (num x) (num y) = eqb_ℤ x y
value_eq (str s) (str t) = str_eq s t
value_eq _ _ = false

-- `a < b`; `none` is a `TypeError`.
unfoldable pub value_lt : Value → Value → Option Bool
unfolding str_lt
value_lt (bool a) (bool b) = some (ltb_ℤ (of_bool a) (of_bool b))
value_lt (bool a) (num y) = some (ltb_ℤ (of_bool a) y)
value_lt (num x) (bool b) = some (ltb_ℤ x (of_bool b))
value_lt (num x) (num y) = some (ltb_ℤ x y)
value_lt (str s) (str t) = some (str_lt s t)
value_lt _ _ = none

abbrev or_equal : Option Bool → Bool → Option Bool
or_equal none e = none
or_equal (some l) e = some (l || e)

-- `op_fn(ctx_value, threshold)`
unfoldable pub apply : Operator → Value → Value → Option Bool
unfolding value_lt value_eq
apply Operator.gt a b = value_lt b a
apply Operator.lt a b = value_lt a b
apply Operator.ge a b = or_equal (value_lt b a) (value_eq a b)
apply Operator.le a b = or_equal (value_lt a b) (value_eq a b)
apply Operator.eq a b = some (value_eq a b)
apply Operator.ne a b = some (not (value_eq a b))

-- `context.get(field)`, where `None` is no value.
unfoldable pub context_value : Context → Option String → Option Value
unfolding get
context_value c none = none
context_value c (some f) = elim (get c f) [
  | none ↦ none
  | some v ↦ elim v [ null ↦ none | other ↦ some other ]
]

-- A `TypeError` is no match.
abbrev pub or_false : Option Bool → Bool
or_false none = false
or_false (some result) = result

unfoldable pub evaluate : Option Value → Option Operator → Value → Bool
evaluate none op threshold = false
evaluate (some v) none threshold = false
evaluate (some v) (some op) threshold = or_false (apply op v threshold)

unfoldable pub evaluate_condition : Condition → Context → Bool
unfolding evaluate
evaluate_condition cond context =
    evaluate (context_value context cond.field) (operator_of cond.operator) cond.value

unfoldable pub all_conditions_match : List Condition → Context → Bool
all_conditions_match [] context = true
all_conditions_match (cond ∷ conds) context =
    if not (evaluate_condition cond context) then false else all_conditions_match conds context
