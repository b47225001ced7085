-- ===== src/Execution.antt =====
-- execution_planner.py: the plan of a scene and the execution of its steps. The checks of the
-- steps of one request run in the order of the steps, since nothing is awaited before them.
pub mod OneRequest
pub mod SingleUse
pub mod NoToken
mod Tests
use device_weave.Prelude.{
  Bool, true, false, not, Option, none, some, List, [], ◌∷◌, if◌then◌else◌, map,
}
use device_weave.Prelude.Text.{String, str_eq, str_in}
use device_weave.Policy.Data.{Params}
use device_weave.Policy.Clamp.{Device, clamp_numeric_params}
use device_weave.Access.Authorizer.{Moment, Authorizer}
use device_weave.Access.Request.{RequestAuth, Denial, check_step}

pub record ExecutionStep : Type 0 where
  pub device : Device
  pub action : String
  pub params : Params

-- What the adapter gives: a result, or the error code of the exception.
pub data Attempt : Type 0 where
  done : Params → Attempt
  failed : String → Attempt

-- `StepResult` by its outcome: `denied` has the error code `access_denied`.
pub data StepOutcome : Type 0 where
  denied : Denial → StepOutcome
  attempted : Attempt → StepOutcome

pub record StepResult : Type 0 where
  pub device_id : String
  pub device_name : String
  pub action : String
  pub outcome : StepOutcome

-- `StepResult.success`
abbrev pub success : StepResult → Bool
success r = elim r.outcome [
  | denied _ ↦ false
  | attempted a ↦ elim a [ done _ ↦ true | failed _ ↦ false ]
]

abbrev pub plan_device_execution : Device → String → Params → List ExecutionStep
plan_device_execution device action params =
    record { device = device; action = action; params = params } ∷ []

-- One entry of a scene's `actions`.
pub record ActionSpec : Type 0 where
  pub device_id : String
  pub action : String
  pub params : Option Params

-- `device_index.get`: the last device with an id is the one in the index.
unfoldable pub find_device : List Device → String → Option Device
find_device [] id = none
find_device (d ∷ ds) id =
    let later = find_device ds id in
    elim later [ some e ↦ some e | none ↦ if str_eq d.id id then some d else none ]

abbrev pub or_empty : Option Params → Params
or_empty none = []
or_empty (some p) = p

abbrev pub supported : Option Device → ActionSpec → Option ExecutionStep
supported none spec = none
supported (some device) spec =
    if str_in spec.action device.capabilities
    then some (record { device = device; action = spec.action; params = or_empty spec.params })
    else none

abbrev pub cons_some {ℓ} : {A : Type ℓ} → Option A → List A → List A
cons_some none xs = xs
cons_some (some x) xs = x ∷ xs

unfoldable pub plan_scene_execution : List ActionSpec → List Device → List ExecutionStep
unfolding find_device
plan_scene_execution [] catalog = []
plan_scene_execution (spec ∷ specs) catalog =
    cons_some (supported (find_device catalog spec.device_id) spec)
      (plan_scene_execution specs catalog)

module _ {S : Type 0} (z : Authorizer S) (adapter : Device → String → Params → Attempt) where
  abbrev pub result_of : ExecutionStep → StepOutcome → StepResult
  result_of step outcome = record {
    device_id = step.device.id;
    device_name = step.device.name;
    action = step.action;
    outcome = outcome;
  }

  abbrev pub after_check : ExecutionStep → Option Denial → StepOutcome
  after_check step (some why) = denied why
  after_check step none =
      attempted (
        adapter step.device step.action
          (clamp_numeric_params (some step.params) (some step.device)))

  -- `_execute_one`, at the moment its check runs.
  unfoldable pub execute_one :
      Option RequestAuth → S → Moment → ExecutionStep → StepResult × Option RequestAuth × S
  execute_one auth ledger t step =
      let (why, auth', ledger') = check_step z auth ledger t step.device step.action in
      (result_of step (after_check step why), auth', ledger')

  -- `execute_steps`
  unfoldable pub execute_steps :
      Option RequestAuth
      → S
      → List (Moment × ExecutionStep)
      → List StepResult × Option RequestAuth × S
  execute_steps auth ledger [] = ([], auth, ledger)
  execute_steps auth ledger ((t, step) ∷ rest) =
      let (r, auth', ledger') = execute_one auth ledger t step in
      let (rs, auth'', ledger'') = execute_steps auth' ledger' rest in (r ∷ rs, auth'', ledger'')
