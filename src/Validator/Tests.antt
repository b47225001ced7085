-- ===== src/Validator/Tests.antt =====
-- Runs and instances for validator.py.
use device_weave.Prelude.{◌≡◌, refl, none, some, [], ◌∷◌}
use device_weave.Prelude.Int.{pos}
use device_weave.Prelude.Text.{strip_text}
use device_weave.Policy.DeviceTypes.{canonical_device_type}
use device_weave.Policy.Data.{str, num, get, Condition}
use device_weave.Policy.Condition.{Operator, operator_of}
use device_weave.RuleSet.Dim.{Field}
use device_weave.RuleSet.Region.Matches.{IsTyped}
use device_weave.Rooms.Label.{is_room_label, validate_label, is_label}
use device_weave.Validator.{
  scalar, compound, RawCondition, object, accepted, rejected, unhashable, validate_condition,
  value_fits,
}
use device_weave.Validator.Typed.{IsUnordered, validate_condition-IsTyped}
use device_weave.Validator.Policies.{
  atom, leaf, mapping, items, RawPolicy, dict, passed, failed, low_confidence, Policy,
  validate_policy, check_scope, check_action, check_confidence, resolve_id,
}
use device_weave.Validator.WellFormed.{IsWellFormed, validate_policy-IsWellFormed}

abbrev raw : RawCondition
raw = object (
    ("field", scalar (str "room"))
    ∷ ("operator", scalar (str "=="))
    ∷ ("value", scalar (str "den"))
    ∷ [])

abbrev in_den : Condition
in_den = record { field = some "room"; operator = some "=="; value = str "den" }

accepts : validate_condition raw ≡ accepted in_den
unfolding validate_condition value_fits is_room_label validate_label strip_text is_label
accepts = refl

-- A list as the operator raises a `TypeError`.
raises :
    validate_condition
      (object (("field", scalar (str "room")) ∷ ("operator", compound) ∷ ("value", compound) ∷ []))
    ≡ rejected unhashable
unfolding validate_condition
raises = refl

in_den-IsUnordered : IsUnordered in_den
unfolding operator_of
in_den-IsUnordered Field.room op f o k = cc
in_den-IsUnordered f Operator.eq g o k = tt
in_den-IsUnordered f op g o k = cc

validate_condition-IsTyped_example : IsTyped in_den
validate_condition-IsTyped_example =
    validate_condition-IsTyped raw in_den accepts in_den-IsUnordered

abbrev den_rule : RawPolicy
den_rule = dict (
    ("rule_id", leaf (str " auto "))
    ∷ ("scope", mapping (("device_type", atom (str "SmartBulb")) ∷ []))
    ∷ ("conditions", items (raw ∷ []))
    ∷ (
      "action",
      mapping (("type", atom (str "block")) ∷ ("reason", atom (str "Nobody reads there")) ∷ []),
    )
    ∷ ("confidence", leaf (num (pos 900)))
    ∷ [])

abbrev den_policy : Policy
den_policy = record {
  rule_id = "c0ffee";
  device_type = "light";
  conditions = in_den ∷ [];
  action = record { action_type = "block"; reason = "Nobody reads there"; params = none };
  confidence = pos 900;
}

passes : validate_policy "c0ffee" den_rule ≡ passed den_policy
unfolding validate_policy value_fits is_room_label validate_label strip_text is_label get
    check_scope check_action check_confidence resolve_id canonical_device_type
passes = refl

unsure :
    validate_policy "c0ffee" (
      dict (
        ("rule_id", leaf (str "r1"))
        ∷ ("scope", mapping (("device_type", atom (str "fan")) ∷ []))
        ∷ ("conditions", items (raw ∷ []))
        ∷ ("action", mapping (("type", atom (str "block")) ∷ ("reason", atom (str "Quiet")) ∷ []))
        ∷ ("confidence", leaf (num (pos 849)))
        ∷ []))
    ≡ failed low_confidence
unfolding validate_policy value_fits is_room_label validate_label strip_text is_label get
    check_scope check_action check_confidence resolve_id canonical_device_type
unsure = refl

validate_policy-IsWellFormed_example : IsWellFormed den_policy
validate_policy-IsWellFormed_example =
    validate_policy-IsWellFormed "c0ffee" den_rule den_policy refl passes
