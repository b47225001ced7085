-- ===== src/Validator.antt =====
-- policy_authoring/validator.py: the checks of one condition and of the list of conditions.
pub mod Typed
pub mod Policies
pub mod Checks
pub mod Acts
pub mod WellFormed
mod Tests
use device_weave.Prelude.{
  Bool, true, false, not, ◌&&◌, ◌||◌, all, Option, none, some, List, [], ◌∷◌, if◌then◌else◌,
}
use device_weave.Rooms.Label.{is_room_label}
use device_weave.Prelude.Text.{String, str_eq, str_in}
use device_weave.Policy.Data.{Value, null, bool, num, str, Dict, get, Condition}

-- A value of the raw JSON: a scalar, or a list or an object.
pub data Raw : Type 0 where
  scalar : Value → Raw
  compound : Raw

-- An element of the raw list: an object, or something else.
pub data RawCondition : Type 0 where
  object : Dict Raw → RawCondition
  other : RawCondition

-- `ValidationError` by the check that raises it. `unhashable` is the `TypeError` that the test for
-- membership raises on a list or an object.
pub data ValidationError : Type 0 where
  not_an_object disallowed_keys missing_key bad_field bad_operator bad_value unhashable :
      ValidationError
  empty_conditions : ValidationError

pub data Checked (A : Type 0) : Type 0 where
  accepted : A → Checked A
  rejected : ValidationError → Checked A

abbrev pub condition_keys : List String
condition_keys = "field" ∷ "operator" ∷ "value" ∷ []

abbrev pub numeric_fields : List String
numeric_fields = "temperature" ∷ "humidity" ∷ "time_hour" ∷ "cloud_cover_pct" ∷ []

abbrev pub boolean_fields : List String
boolean_fields = "is_home" ∷ "is_overcast" ∷ []

abbrev pub string_fields : List String
string_fields = "room" ∷ []

abbrev pub condition_fields : List String
condition_fields =
    "temperature" ∷ "humidity" ∷ "time_hour" ∷ "cloud_cover_pct" ∷ "is_home" ∷ "is_overcast"
    ∷ "room" ∷ []

abbrev pub operators : List String
operators = ">" ∷ "<" ∷ ">=" ∷ "<=" ∷ "==" ∷ "!=" ∷ []

-- `is_room_label(value, allow_unknown=True)`; a value that is no text is no label.
abbrev pub is_room_value : Raw → Bool
is_room_value (scalar (str s)) = is_room_label s
is_room_value _ = false

abbrev pub is_number : Raw → Bool
is_number (scalar (num x)) = true
is_number _ = false

abbrev pub is_boolean : Raw → Bool
is_boolean (scalar (bool b)) = true
is_boolean _ = false

-- The type of the value, by the field.
unfoldable pub value_fits : String → String → Raw → Option ValidationError
value_fits field operator value =
    if str_in field numeric_fields
    then (if is_number value then none else some bad_value)
    else if str_in field boolean_fields
    then (if is_boolean value then none else some bad_value)
    else if str_in field string_fields
    then (if not (str_in operator ("==" ∷ "!=" ∷ []))
        then some bad_operator
        else if is_room_value value
        then none
        else some bad_value)
    else none

abbrev pub with_value : String → String → Raw → Option ValidationError → Checked Condition
with_value field operator value (some e) = rejected e
with_value field operator (scalar v) none =
    accepted (record { field = some field; operator = some operator; value = v })
with_value field operator compound none = rejected bad_value

abbrev pub with_operator : String → Raw → Raw → Checked Condition
with_operator field (scalar (str operator)) value =
    if str_in operator operators
    then with_value field operator value (value_fits field operator value)
    else rejected bad_operator
with_operator field (scalar _) value = rejected bad_operator
with_operator field compound value = rejected unhashable

abbrev pub with_field : Raw → Raw → Raw → Checked Condition
with_field (scalar (str field)) operator value =
    if str_in field condition_fields then with_operator field operator value else rejected bad_field
with_field (scalar _) operator value = rejected bad_field
with_field compound operator value = rejected unhashable

abbrev pub with_keys : Option Raw → Option Raw → Option Raw → Checked Condition
with_keys (some field) (some operator) (some value) = with_field field operator value
with_keys _ _ _ = rejected missing_key

-- `_validate_condition`, with the condition that it lets through.
unfoldable pub validate_condition : RawCondition → Checked Condition
unfolding value_fits get
validate_condition other = rejected not_an_object
validate_condition (object d) =
    if all (λ p. str_in p.0 condition_keys) d
    then with_keys (get d "field") (get d "operator") (get d "value")
    else rejected disallowed_keys

abbrev pub and_then : Checked Condition → Checked (List Condition) → Checked (List Condition)
and_then (rejected e) rest = rejected e
and_then (accepted c) (rejected e) = rejected e
and_then (accepted c) (accepted cs) = accepted (c ∷ cs)

-- The loop over the conditions: the first error is the one that is raised.
unfoldable pub validate_each : List RawCondition → Checked (List Condition)
unfolding validate_condition
validate_each [] = accepted []
validate_each (r ∷ rs) = and_then (validate_condition r) (validate_each rs)

-- The check of a list of conditions in `validate_policy`.
unfoldable pub validate_conditions : List RawCondition → Checked (List Condition)
unfolding validate_each
validate_conditions [] = rejected empty_conditions
validate_conditions (r ∷ rs) = validate_each (r ∷ rs)
