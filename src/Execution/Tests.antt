-- ===== src/Execution/Tests.antt =====
-- Runs and instances for execution_planner.py, access_control.py and param_clamp.py.
use device_weave.Prelude.{◌≡◌, refl, true, false, none, some, List, [], ◌∷◌, map}
use device_weave.Prelude.Int.{pos}
use device_weave.Prelude.Text.{String}
use device_weave.Policy.Data.{num, Dict, get, Params}
use device_weave.Policy.Clamp.{Device, mapping, clamp_numeric_params, capability_ranges}
use device_weave.Policy.Clamp.Bounds.{AreClamped, clamp_numeric_params-AreClamped}
use device_weave.Access.Authorizer.{ToolPolicy, Principal, Moment, Authorizer}
use device_weave.Access.Sample.{sample, sample_require, spend, sample-IsSingleUse}
use device_weave.Access.Request.{
  authorize_tool, is_physical_access, check_step, require_physical_access,
}
use device_weave.Execution.{ExecutionStep, Attempt, done, execute_one, execute_steps}
use device_weave.Execution.NoToken.{tokenless, execute_steps-tokenless}
use device_weave.Execution.{result_of}
use device_weave.Execution.SingleUse.{Request, opened, serve, serve_all, token_opens_once}

abbrev adapter : Device → String → Params → Attempt
adapter device action params = done params

abbrev door : Device
door = record {
  id = "door";
  name = "Front door";
  device_type = "WyzeLock";
  capabilities = "lock" ∷ "unlock" ∷ [];
  capability_ranges = some (("duration", mapping (("max", num (pos 60000)) ∷ [])) ∷ []);
}

abbrev unlock : ExecutionStep
unlock = record { device = door; action = "unlock"; params = ("duration", num (pos 90000)) ∷ [] }

abbrev lock : ExecutionStep
lock = record { device = door; action = "lock"; params = [] }

abbrev noon : Moment
noon = record { now = 1000000; audit = false; fails = false }

abbrev caller : Principal
caller = record {
  method = "jwt";
  subject = some "me";
  scopes = "execute" ∷ "destructive" ∷ [];
  issued_at = some 980;
  expires_at = some 1300;
  jti = some "t1";
  actors = [];
}

abbrev policies : Dict ToolPolicy
policies = ("execute", record { scope = "execute"; step_up = false; delegable = none }) ∷ []

abbrev door_keeper : Authorizer (List String)
door_keeper = sample policies

abbrev asking : Request
asking = record {
  principal = caller;
  moment = noon;
  tool = "execute";
  steps = (noon, unlock) ∷ (noon, unlock) ∷ [];
}

opens : opened door_keeper adapter [] asking ≡ true
unfolding serve authorize_tool sample_require spend execute_steps is_physical_access execute_one
    check_step require_physical_access get
opens = refl

token_opens_once_example :
    opened door_keeper adapter
      (serve_all door_keeper adapter (serve door_keeper adapter [] asking).2 [])
      asking
    ≡ false
token_opens_once_example =
    token_opens_once door_keeper (sample-IsSingleUse policies) adapter [] asking asking [] refl
      opens

execute_steps-tokenless_example :
    execute_steps door_keeper adapter none [] ((noon, unlock) ∷ (noon, lock) ∷ []) ≡ (
      map
          (λ (s : Moment × ExecutionStep).
            result_of door_keeper adapter s.1 (tokenless door_keeper adapter s.1))
          ((noon, unlock) ∷ (noon, lock) ∷ []),
      none,
      [],
    )
execute_steps-tokenless_example =
    execute_steps-tokenless door_keeper adapter [] ((noon, unlock) ∷ (noon, lock) ∷ [])

-- A mapping that names only `min` keeps the default ceiling of 100, here below the floor.
abbrev strip_light : Device
strip_light = record {
  id = "strip";
  name = "Strip";
  device_type = "GoveeBulb";
  capabilities = "set_brightness" ∷ [];
  capability_ranges = some (("brightness", mapping (("min", num (pos 150000)) ∷ [])) ∷ []);
}

below_its_floor :
    clamp_numeric_params (some (("brightness", num (pos 200000)) ∷ [])) (some strip_light)
    ≡ ("brightness", num (pos 100000)) ∷ []
unfolding clamp_numeric_params
below_its_floor = refl

clamp_numeric_params-AreClamped_example :
    AreClamped
      (capability_ranges (some door))
      unlock.params
      (clamp_numeric_params (some unlock.params) (some door))
clamp_numeric_params-AreClamped_example =
    clamp_numeric_params-AreClamped (some unlock.params) (some door)
