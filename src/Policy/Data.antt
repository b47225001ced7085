-- ===== src/Policy/Data.antt =====
-- The data of policy_engine/: values, conditions, rules, contexts and decisions. A dict entry that
-- the source reads by `get` is an `Option` or a `Value`, which is `null` where the key is missing.
-- A number is a whole number of thousandths.
use device_weave.Prelude.{Bool, Option, none, some, List, [], ◌∷◌, if◌then◌else◌}
use device_weave.Prelude.Int.{ℤ}
use device_weave.Prelude.Text.{String, str_eq}

-- A JSON scalar.
pub data Value : Type 0 where
  null : Value
  bool : Bool → Value
  num : ℤ → Value
  str : String → Value

abbrev pub Dict {ℓ} : Type ℓ → Type ℓ
Dict V = List (String × V)

-- `d.get(k)`
unfoldable pub get {ℓ} : {V : Type ℓ} → Dict V → String → Option V
get [] k = none
get ((j, v) ∷ d) k = if str_eq j k then some v else get d k

abbrev pub Params : Type 0
Params = Dict Value

abbrev pub Context : Type 0
Context = Dict Value

pub record Condition : Type 0 where
  pub field : Option String
  pub operator : Option String
  pub value : Value

-- A stored policy: `scope.device_type`, `conditions` and the `action` with its parts. `stored_type`
-- is the `device_type` that `save_policy` writes beside them. A rule has the keys `rule_id` and
-- `action.reason`, which `compute_verdict` reads by `[ ]`: `save_policy` writes the one, and
-- `_validate_action` refuses an action without the other. Their `none` is a stored null, which the
-- decision passes on.
pub record Rule : Type 0 where
  pub rule_id : Option String
  pub device_type : Option String
  pub stored_type : Option String
  pub conditions : List Condition
  pub action_type : String
  pub reason : Option String
  pub params : Params

pub data Verdict : Type 0 where
  allow block modify : Verdict

pub record PolicyDecision : Type 0 where
  pub verdict : Verdict
  pub reason : Option String
  pub rule_id : Option String
  pub modified_params : Option Params
