-- ===== src/Enforcement/Tests.antt =====
-- Runs and instances for middleware.py and policy_loader.py.
use device_weave.Prelude.{◌≡◌, refl, true, none, some, List, [], ◌∷◌, map}
use device_weave.Prelude.Int.{pos}
use device_weave.Prelude.Text.{String}
use device_weave.Policy.Data.{num, Params, Context, Rule}
use device_weave.Policy.Evaluator.{compute_verdict}
use device_weave.Policy.Clamp.{Device}
use device_weave.Policy.Loader.{Row, Cache, empty_cache, all_pages, cached, reload}
use device_weave.Policy.Loader.Grouping.{IsFiled, compute_verdict-cached}
use device_weave.Execution.{ExecutionStep}
use device_weave.Enforcement.{Poll, clamped, enforce, filter_steps}
use device_weave.Enforcement.Batch.{decision, split_by, enforce_reloaded, filter_steps_cached}

abbrev dumps : Params → String
dumps p = ""

abbrev dim : Rule
dim = record {
  rule_id = some "dim";
  device_type = some "light";
  stored_type = some "light";
  conditions =
      record { field = some "time_hour"; operator = some ">="; value = num (pos 22000) } ∷ [];
  action_type = "modify";
  reason = some "late";
  params = ("brightness", num (pos 130000)) ∷ [];
}

abbrev row : Row
row = record { filed_under = some "light"; rule = dim }

abbrev lamp : Device
lamp = record {
  id = "lamp";
  name = "Lamp";
  device_type = "GoveeBulb";
  capabilities = "turn_on" ∷ [];
  capability_ranges = none;
}

abbrev night : Context
night = ("time_hour", num (pos 23000)) ∷ []

row-IsFiled : IsFiled row
unfolding IsFiled
row-IsFiled = ("light", refl, refl, refl)

compute_verdict-cached_example :
    compute_verdict dumps
      (cached (reload true (some ((row ∷ []) ∷ [])) 5 empty_cache) "GoveeBulb")
      "GoveeBulb"
      "turn_on"
      night
    ≡ compute_verdict dumps
        (map (λ (r : Row). r.rule) (all_pages ((row ∷ []) ∷ [])))
        "GoveeBulb"
        "turn_on"
        night
compute_verdict-cached_example =
    compute_verdict-cached dumps ((row ∷ []) ∷ []) 5 empty_cache "GoveeBulb" "turn_on" night
      (unfold all_pages in (row-IsFiled, tt))

enforce_reloaded_example :
    (enforce dumps
      (record { configured = true; now = 5; scan = some ((row ∷ []) ∷ []) })
      empty_cache
      "GoveeBulb"
      "turn_on"
      night
      (some lamp)).0
    ≡ (let d =
          compute_verdict dumps
            (map (λ (r : Row). r.rule) (all_pages ((row ∷ []) ∷ [])))
            "GoveeBulb"
            "turn_on"
            night in
        clamped d (some lamp) d.verdict)
enforce_reloaded_example =
    enforce_reloaded dumps ((row ∷ []) ∷ []) 5 empty_cache "GoveeBulb" "turn_on" night (some lamp)
      (unfold all_pages in (row-IsFiled, tt)) refl

abbrev late_cache : Cache
late_cache = record { entries = ("light", dim ∷ []) ∷ []; expiry = 60005 }

abbrev batch : List (Poll × ExecutionStep)
batch =
    (
      record { configured = true; now = 6; scan = none },
      record { device = lamp; action = "turn_on"; params = [] },
    )
    ∷ []

filter_steps_cached_example : filter_steps dumps late_cache night batch ≡ (
  split_by dumps (decision dumps late_cache night) (map (λ (s : Poll × ExecutionStep). s.1) batch),
  late_cache,
)
filter_steps_cached_example = filter_steps_cached dumps late_cache night batch ((refl, refl), tt)
