-- ===== src/Execution/NoToken.antt =====
-- A run with no authenticated caller: a scheduled job, the SMS handler or an open route.
use device_weave.Prelude.{◌≡◌, refl, none, List, [], ◌∷◌, map, if◌then◌else◌, Bool-cases, inl, inr}
use device_weave.Prelude.Text.{String}
use device_weave.Policy.Data.{Params}
use device_weave.Policy.Clamp.{Device}
use device_weave.Access.Authorizer.{Moment, Authorizer}
use device_weave.Access.Request.{no_token, is_physical_access, check_step}
use device_weave.Execution.{
  ExecutionStep, Attempt, StepOutcome, denied, result_of, after_check, execute_one, execute_steps,
}

module _ {S : Type 0} (z : Authorizer S) (adapter : Device → String → Params → Attempt) where
  abbrev pub tokenless : ExecutionStep → StepOutcome
  tokenless step =
      if is_physical_access step.device step.action
      then denied no_token
      else after_check z adapter step none

  execute_one-tokenless :
      (o : S) (t : Moment) (step : ExecutionStep)
      → execute_one z adapter none o t step ≡ (result_of z adapter step (tokenless step), none, o)
  unfolding execute_one check_step
  execute_one-tokenless o t step = elim (Bool-cases (is_physical_access step.device step.action)) [
    | inl physical ↦ simp physical refl
    | inr harmless ↦ simp harmless refl
  ]

  -- With no caller bound, `execute_steps` gives one result per step, in order: `no_token` for a step
  -- that grants physical access and the adapter's answer for any other. It leaves the ledger alone.
  pub execute_steps-tokenless :
      (o : S) (steps : List (Moment × ExecutionStep))
      → execute_steps z adapter none o steps
        ≡ (map (λ s. result_of z adapter s.1 (tokenless s.1)) steps, none, o)
  unfolding execute_steps
  execute_steps-tokenless o [] = refl
  execute_steps-tokenless o ((t, step) ∷ rest) =
      rw (execute_one-tokenless o t step, execute_steps-tokenless o rest) refl
