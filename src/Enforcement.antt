-- ===== src/Enforcement.antt =====
-- policy_engine/middleware.py: the gate before every device action.
pub mod Batch
mod Tests
use device_weave.Prelude.{ℕ, Bool, true, false, Option, none, some, List, [], ◌∷◌}
use device_weave.Prelude.Text.{String}
use device_weave.Policy.Data.{Params, Context, Rule, Verdict, allow, block, modify, PolicyDecision}
use device_weave.Policy.DeviceTypes.{canonical_device_type}
use device_weave.Policy.Evaluator.{allow_decision, compute_verdict}
use device_weave.Policy.Clamp.{Device, clamp_numeric_params}
use device_weave.Policy.Loader.{Scan, Cache, get_policies_for_device}
use device_weave.Execution.{ExecutionStep, or_empty}

-- What one call finds: whether a table is configured, the clock, and a scan if it comes to one.
pub record Poll : Type 0 where
  pub configured : Bool
  pub now : ℕ
  pub scan : Scan

abbrev pub is_blocked : PolicyDecision → Bool
is_blocked d = elim d.verdict [ block ↦ true | _ ↦ false ]

abbrev pub is_modified : PolicyDecision → Bool
is_modified d = elim d.verdict [ modify ↦ true | _ ↦ false ]

abbrev pub clamped : PolicyDecision → Option Device → Verdict → PolicyDecision
clamped d (some device) modify = record {
  verdict = d.verdict;
  reason = d.reason;
  rule_id = d.rule_id;
  modified_params = some (clamp_numeric_params (some (or_empty d.modified_params)) (some device));
}
clamped d _ _ = d

-- One entry of the blocked records.
pub record Blocked : Type 0 where
  pub device_id : String
  pub device_name : String
  pub action : String
  pub reason : Option String
  pub rule_id : Option String

module _ (dumps : Params → String) where
  abbrev pub decide : List Rule → String → String → Context → Option Device → PolicyDecision
  decide [] device_type action context device = allow_decision
  decide (p ∷ ps) device_type action context device =
      let d = compute_verdict dumps (p ∷ ps) device_type action context in
      clamped d device d.verdict

  -- `enforce`, with the context at hand and the cache afterwards.
  unfoldable pub enforce :
      Poll → Cache → String → String → Context → Option Device → PolicyDecision × Cache
  enforce poll cache device_type action context device = elim poll.configured [
    | false ↦ (allow_decision, cache)
    | true ↦
        let (policies, cache') =
          get_policies_for_device true poll.scan poll.now cache
            (canonical_device_type (some device_type)) in
        (decide policies device_type action context device, cache')
  ]

  abbrev pub enforce_step : Poll → Cache → Context → ExecutionStep → PolicyDecision × Cache
  enforce_step poll cache context step =
      enforce poll cache step.device.device_type step.action context (some step.device)

  abbrev pub with_params : ExecutionStep → Option Params → ExecutionStep
  with_params step params = record {
    device = step.device;
    action = step.action;
    params = or_empty params;
  }

  abbrev pub blocked_record : ExecutionStep → PolicyDecision → Blocked
  blocked_record step d = record {
    device_id = step.device.id;
    device_name = step.device.name;
    action = step.action;
    reason = d.reason;
    rule_id = d.rule_id;
  }

  -- What one round of the loop appends.
  abbrev pub sort_step :
      ExecutionStep
      → PolicyDecision
      → Verdict
      → List ExecutionStep × List Blocked
      → List ExecutionStep × List Blocked
  sort_step step d block (allowed, refused) = (allowed, blocked_record step d ∷ refused)
  sort_step step d modify (allowed, refused) =
      (with_params step d.modified_params ∷ allowed, refused)
  sort_step step d allow (allowed, refused) = (step ∷ allowed, refused)

  -- `filter_steps`, with the poll that each step meets.
  unfoldable pub filter_steps :
      Cache → Context → List (Poll × ExecutionStep) → (List ExecutionStep × List Blocked) × Cache
  unfolding enforce
  filter_steps cache context [] = (([], []), cache)
  filter_steps cache context ((poll, step) ∷ steps) =
      let (d, cache') = enforce_step poll cache context step in
      let (sorted, cache'') = filter_steps cache' context steps in
      (sort_step step d d.verdict sorted, cache'')
