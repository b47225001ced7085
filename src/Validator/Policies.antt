-- ===== src/Validator/Policies.antt =====
-- validate_policy of policy_authoring/validator.py: its checks of a compiled policy, in their order.
-- A confidence is in thousandths, and the fresh UUID4 text is an argument.
use device_weave.Prelude.{
  Bool, true, false, not, ◌&&◌, ◌||◌, all, Option, none, some, List, [], ◌∷◌, if◌then◌else◌,
}
use device_weave.Prelude.Int.{ℤ, pos, ltb_ℤ, leb_ℤ}
use device_weave.Prelude.Text.{String, str_eq, str_in, strip_text}
use device_weave.Policy.Data.{Value, bool, num, str, Dict, get, Condition, Params}
use device_weave.Policy.DeviceTypes.{canonical_device_type, policy_scope_types}
use device_weave.Validator.{
  RawCondition, ValidationError, Checked, accepted, rejected, validate_conditions,
}

-- A value inside `scope` or `action`.
pub data Entry : Type 0 where
  atom : Value → Entry
  dictionary : Params → Entry
  sequence : Entry

-- A value of the policy's top level: a scalar, an object or a list.
pub data Part : Type 0 where
  leaf : Value → Part
  mapping : Dict Entry → Part
  items : List RawCondition → Part

pub data RawPolicy : Type 0 where
  not_a_dict : RawPolicy
  dict : Dict Part → RawPolicy

-- `ValidationError` by the check, and the `TypeError` of a membership test on a list or an object.
pub data PolicyError : Type 0 where
  no_object refused_by_compiler extra_fields missing_field bad_scope no_conditions : PolicyError
  bad_condition : ValidationError → PolicyError
  bad_action bad_reason bad_params bad_confidence low_confidence type_error : PolicyError

pub data Step (A : Type 0) : Type 0 where
  passed : A → Step A
  failed : PolicyError → Step A

pub record Action : Type 0 where
  pub action_type : String
  pub reason : String
  pub params : Option Params

pub record Policy : Type 0 where
  pub rule_id : String
  pub device_type : String
  pub conditions : List Condition
  pub action : Action
  pub confidence : ℤ

abbrev pub top_keys : List String
top_keys = "rule_id" ∷ "scope" ∷ "conditions" ∷ "action" ∷ "confidence" ∷ []

abbrev pub action_types : List String
action_types = "block" ∷ "allow" ∷ "modify" ∷ []

abbrev pub confidence_threshold : ℤ
confidence_threshold = pos 850

-- What `canonical_device_type` makes of an entry: a value that is no text gives "".
abbrev pub entry_text : Option Entry → Option String
entry_text (some (atom (str s))) = some s
entry_text _ = none

abbrev pub has {ℓ} : {A : Type ℓ} → Option A → Bool
has none = false
has (some _) = true

unfoldable pub check_scope : Part → Step String
unfolding canonical_device_type get
check_scope (leaf v) = failed bad_scope
check_scope (items cs) = failed bad_scope
check_scope (mapping d) =
    let device_type = canonical_device_type (entry_text (get d "device_type")) in
    if not (has (get d "device_type") && all (λ p. str_eq p.0 "device_type") d)
    then failed bad_scope
    else if str_in device_type policy_scope_types
    then passed device_type
    else failed bad_scope

abbrev pub of_checked : Checked (List Condition) → Step (List Condition)
of_checked (accepted cs) = passed cs
of_checked (rejected e) = failed (bad_condition e)

unfoldable pub check_conditions : Part → Step (List Condition)
unfolding validate_conditions
check_conditions (leaf v) = failed no_conditions
check_conditions (mapping d) = failed no_conditions
check_conditions (items []) = failed no_conditions
check_conditions (items (c ∷ cs)) = of_checked (validate_conditions (c ∷ cs))

abbrev pub check_params : String → String → Option Entry → Step Action
check_params kind reason none =
    passed (record { action_type = kind; reason = reason; params = none })
check_params kind reason (some (dictionary d)) =
    passed (record { action_type = kind; reason = reason; params = some d })
check_params kind reason (some _) = failed bad_params

abbrev pub check_reason : String → Option Entry → Option Entry → Step Action
check_reason kind (some (atom (str reason))) params =
    if str_eq (strip_text reason) "" then failed bad_reason else check_params kind reason params
check_reason kind _ params = failed bad_reason

abbrev pub check_type : Option Entry → Option Entry → Option Entry → Step Action
check_type (some (atom (str kind))) reason params =
    if str_in kind action_types then check_reason kind reason params else failed bad_action
check_type (some (dictionary d)) reason params = failed type_error
check_type (some sequence) reason params = failed type_error
check_type _ reason params = failed bad_action

unfoldable pub check_action : Part → Step Action
unfolding get strip_text
check_action (leaf v) = failed bad_action
check_action (items cs) = failed bad_action
check_action (mapping d) = check_type (get d "type") (get d "reason") (get d "params")

unfoldable pub check_confidence : Part → Step ℤ
check_confidence (leaf (num x)) =
    if not (leb_ℤ (pos 0) x && leb_ℤ x (pos 1000))
    then failed bad_confidence
    else if ltb_ℤ x confidence_threshold
    then failed low_confidence
    else passed x
check_confidence _ = failed bad_confidence

abbrev pub resolved : String → String → String
resolved fresh id = if str_eq id "" || str_eq id "auto" then fresh else id

unfoldable pub resolve_id : String → Part → String
unfolding strip_text
resolve_id fresh (leaf (str s)) = resolved fresh (strip_text s)
resolve_id fresh _ = fresh

-- The first check that fails is the one that is reported.
abbrev pub assemble :
    String → Step String → Step (List Condition) → Step Action → Step ℤ → Step Policy
assemble id (failed e) cs a c = failed e
assemble id (passed t) (failed e) a c = failed e
assemble id (passed t) (passed cs) (failed e) c = failed e
assemble id (passed t) (passed cs) (passed a) (failed e) = failed e
assemble id (passed t) (passed cs) (passed a) (passed c) =
    passed (record { rule_id = id; device_type = t; conditions = cs; action = a; confidence = c })

abbrev pub check_parts :
    String → Option Part → Option Part → Option Part → Option Part → Option Part → Step Policy
check_parts fresh (some id) (some scope) (some conditions) (some action) (some confidence) =
    assemble (resolve_id fresh id) (check_scope scope) (check_conditions conditions)
      (check_action action) (check_confidence confidence)
check_parts fresh _ _ _ _ _ = failed missing_field

abbrev pub is_refused : Option Part → Bool
is_refused (some (leaf (bool true))) = true
is_refused _ = false

unfoldable pub validate_policy : String → RawPolicy → Step Policy
unfolding get check_scope check_conditions check_action check_confidence resolve_id
validate_policy fresh not_a_dict = failed no_object
validate_policy fresh (dict d) =
    if is_refused (get d "rejected")
    then failed refused_by_compiler
    else if not (all (λ p. str_in p.0 top_keys) d)
    then failed extra_fields
    else check_parts fresh (get d "rule_id") (get d "scope") (get d "conditions") (get d "action")
        (get d "confidence")
