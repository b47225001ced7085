-- ===== src/RuleSet/Tests.antt =====
-- Runs of rule_set_checker.py on small rule sets, and its theorems at concrete inputs.
use device_weave.Prelude.{◌≡◌, refl, true, false, not, ◌&&◌, some, List, [], ◌∷◌, All, map}
use mathlib.Core.List.{Memᴰ}
use device_weave.Prelude.Int.{pos, negsuc, suc_ℤ, pred_ℤ}
use device_weave.Prelude.Text.{String, codes_lt, str_lt}
use device_weave.Prelude.Order.{bool_lt}
use device_weave.Policy.Data.{num, bool, Params, Rule, Condition, get, block}
use device_weave.Policy.DeviceTypes.{canonical_device_type}
use device_weave.Policy.Condition.{
  operator_of, context_value, evaluate_condition, all_conditions_match, apply,
}
use device_weave.Policy.Evaluator.{
  is_safe, key_lt, rule_winner_key, min_rule, applies, matching, pick_modify, pick, compute_verdict,
}
use device_weave.Policy.Evaluator.Winner.{Winner}
use device_weave.RuleSet.Interval
use device_weave.RuleSet.Interval.{Interval, fin, first_int, last_int, int_bounds, ext_lt, ext_eq}
use device_weave.RuleSet.Interval.Laws.{contains, above, below}
use device_weave.RuleSet.Interval.Whole.{scale, in_bounds, contains-int_bounds}
use device_weave.RuleSet.Labels
use device_weave.RuleSet.Labels.{both_included, diff, common}
use device_weave.RuleSet.Labels.Laws as LabelLaws
use device_weave.RuleSet.Labels.Laws.{holds, included}
use device_weave.RuleSet.Dim.{Field, full, dim_empty, dim_intersect, dim_minus, closed}
use device_weave.RuleSet.Dim.Laws.{dim_has}
use device_weave.RuleSet.Box.{
  is_empty, put, box_empty, box_intersect, minus_fields, box_minus, minus_each, region_minus,
}
use device_weave.RuleSet.Box.Laws.{Ctx, in_box, in_region}
use device_weave.RuleSet.Box.Minus.{in_region-region_minus}
use device_weave.RuleSet.Region.{
  field_of, condition_dims, narrow_box, narrow, narrow_by, region_from, rule_region,
}
use device_weave.RuleSet.Region.Matches.{to_context, IsTyped}
use device_weave.RuleSet.Region.Exact.{IsPossible, rule_region_exact, rule_region-IsFit}
use device_weave.RuleSet.Analyze.{
  Finding, unsatisfiable, unsatisfiable_finding, shadowed, group, append_entry, unsatisfied,
  groups_findings, entries_findings, entry_findings, modify_findings, modify_conflicts,
  is_redundant, same_effect, params_eq, entry, preferred, device, is_shadowed, Invariant, gaps,
  invariant_findings, analyze,
}
use device_weave.RuleSet.Analyze.Invariants.{IsTypedRule, analyze_guarantees_invariants}
use device_weave.RuleSet.Analyze.Shadowed.{shadowed_never_wins}
use device_weave.RuleSet.Analyze.Unsatisfiable.{NamesDead, analyze_reports_unsatisfiable}

evaluator : Unit {0}
unfolding compute_verdict is_safe pick pick_modify matching min_rule rule_winner_key key_lt bool_lt
    codes_lt str_lt applies canonical_device_type all_conditions_match evaluate_condition
    context_value apply
evaluator = tt

sets : Unit {0}
unfolding Interval.empty Interval.intersect Interval.minus first_int last_int suc_ℤ pred_ℤ
    Labels.empty Labels.intersect Labels.minus Labels.complement Labels.unless_empty
    Labels.bools_empty Labels.bools_intersect Labels.bools_minus full dim_empty dim_intersect
    dim_minus dim_has contains above below scale holds included LabelLaws.contains in_box
sets = tt

checker : Unit {0}
unfolding sets device operator_of field_of condition_dims narrow_box narrow narrow_by region_from
    rule_region put box_empty box_intersect minus_fields box_minus minus_each region_minus analyze
    group append_entry unsatisfied groups_findings entries_findings entry_findings modify_findings
    modify_conflicts is_shadowed preferred rule_winner_key key_lt bool_lt codes_lt str_lt
    is_redundant same_effect params_eq invariant_findings gaps get
checker = tt

abbrev no_dumps : Params → String
no_dumps _ = ""

abbrev below_65 : Condition
below_65 = record { field = some "temperature"; operator = some "<"; value = num (pos 65_000) }

abbrev at_night : Condition
at_night = record { field = some "time_hour"; operator = some ">="; value = num (pos 22_000) }

-- "Never run the fan when it is cold", and a slower fan on cold nights.
abbrev cold_block : Rule
cold_block = record {
  rule_id = some "r1";
  device_type = some "fan";
  stored_type = some "fan";
  conditions = below_65 ∷ [];
  action_type = "block";
  reason = some "too cold";
  params = [];
}

abbrev night_modify : Rule
night_modify = record {
  rule_id = some "r2";
  device_type = some "fan";
  stored_type = some "fan";
  conditions = below_65 ∷ at_night ∷ [];
  action_type = "modify";
  reason = some "quiet";
  params = ("speed", num (pos 1_000)) ∷ [];
}

abbrev cold_rules : List Rule
cold_rules = cold_block ∷ night_modify ∷ []

abbrev cold_night : Ctx
cold_night Field.temperature = pos 60_000
cold_night Field.humidity = pos 50_000
cold_night Field.cloud_cover_pct = pos 0
cold_night Field.time_hour = pos 23
cold_night Field.is_home = true
cold_night Field.is_overcast = false
cold_night Field.room = "Office"

abbrev never_below_60 : Invariant
never_below_60 = record {
  name = "no fan in the cold";
  device_type = "fan";
  conditions =
      record { field = some "temperature"; operator = some "<="; value = num (pos 60_000) } ∷ [];
}

cold_night-IsPossible : IsPossible cold_night
unfolding sets
cold_night-IsPossible = refl

below_65-IsTyped : IsTyped below_65
unfolding operator_of
below_65-IsTyped = record {
  field = Field.temperature;
  named = refl;
  op = _;
  known = refl;
  typed = tt;
}

at_night-IsTyped : IsTyped at_night
unfolding operator_of
at_night-IsTyped = record {
  field = Field.time_hour;
  named = refl;
  op = _;
  known = refl;
  typed = tt;
}

cold_rules-IsTyped : All IsTypedRule cold_rules
cold_rules-IsTyped = (
  record { scope = "fan"; scoped = refl; nonblank = refl; typed = (below_65-IsTyped, tt) },
  (
    record {
      scope = "fan";
      scoped = refl;
      nonblank = refl;
      typed = (below_65-IsTyped, (at_night-IsTyped, tt));
    },
    tt,
  ),
)

never_below_60-IsTyped : All IsTyped never_below_60.conditions
unfolding operator_of
never_below_60-IsTyped =
    (record { field = Field.temperature; named = refl; op = _; known = refl; typed = tt }, tt)

-- The analysis of the two rules: the modifier is shadowed, and the invariant holds.
cold_findings :
    map (λ f. f.kind) (analyze no_dumps cold_rules (never_below_60 ∷ [])) ≡ shadowed ∷ []
unfolding checker
cold_findings = refl

analyze_guarantees_invariants_example :
    (compute_verdict no_dumps cold_rules "fan" "turn_on" (to_context cold_night)).verdict ≡ block
unfolding checker evaluator
analyze_guarantees_invariants_example =
    analyze_guarantees_invariants no_dumps cold_rules (never_below_60 ∷ []) never_below_60 "turn_on"
      cold_night cold_rules-IsTyped never_below_60-IsTyped (Memᴰ.head refl) refl refl refl refl

rule_region_exact_example :
    in_region cold_night (rule_region (below_65 ∷ at_night ∷ []))
    ≡ all_conditions_match (below_65 ∷ at_night ∷ []) (to_context cold_night)
rule_region_exact_example =
    rule_region_exact cold_night (below_65 ∷ at_night ∷ [])
      (below_65-IsTyped, (at_night-IsTyped, tt)) cold_night-IsPossible

-- Two modifiers that match the same contexts; the lower id wins, and the other is shadowed.
abbrev first_modify : Rule
first_modify = record night_modify { rule_id = some "r1"; conditions = at_night ∷ [] }

abbrev night_rules : List Rule
night_rules = first_modify ∷ night_modify ∷ []

night_rules-IsTyped : All IsTypedRule night_rules
night_rules-IsTyped = (
  record { scope = "fan"; scoped = refl; nonblank = refl; typed = (at_night-IsTyped, tt) },
  ((cold_rules-IsTyped.1).0, tt),
)

shadowed_never_wins_example :
    ¬ Winner no_dumps "fan" (to_context cold_night) "modify" night_rules night_modify
unfolding checker evaluator
shadowed_never_wins_example =
    shadowed_never_wins no_dumps night_rules "fan" "turn_on" cold_night night_rules-IsTyped
      cold_night-IsPossible (entry 1 night_modify) (Memᴰ.tail (Memᴰ.head refl)) refl refl refl

abbrev above_80 : Condition
above_80 = record { field = some "temperature"; operator = some ">"; value = num (pos 80_000) }

above_80-IsTyped : IsTyped above_80
unfolding operator_of
above_80-IsTyped = record {
  field = Field.temperature;
  named = refl;
  op = _;
  known = refl;
  typed = tt;
}

-- A rule whose two conditions contradict each other.
abbrev dead_rule : Rule
dead_rule = record cold_block { rule_id = some "r0"; conditions = above_80 ∷ below_65 ∷ [] }

analyze_reports_unsatisfiable_example :
    ((f : Finding)
      → Memᴰ f (analyze no_dumps (dead_rule ∷ cold_rules) [])
      → f.kind ≡ unsatisfiable
      → NamesDead (dead_rule ∷ cold_rules) f)
    × ((r : Rule)
        → Memᴰ r (dead_rule ∷ cold_rules)
        → is_empty (rule_region r.conditions) ≡ true
        → Memᴰ (unsatisfiable_finding r) (analyze no_dumps (dead_rule ∷ cold_rules) []))
analyze_reports_unsatisfiable_example =
    analyze_reports_unsatisfiable no_dumps (dead_rule ∷ cold_rules) [] (
      (above_80-IsTyped, (below_65-IsTyped, tt)),
      ((below_65-IsTyped, tt), ((below_65-IsTyped, (at_night-IsTyped, tt)), tt)),
    )

dead_findings : map (λ f. f.kind) (analyze no_dumps (dead_rule ∷ []) []) ≡ unsatisfiable ∷ []
unfolding checker
dead_findings = refl

in_region-region_minus_example :
    in_region cold_night (region_minus (rule_region (below_65 ∷ [])) (rule_region (at_night ∷ [])))
    ≡ (in_region cold_night (rule_region (below_65 ∷ []))
        && not (in_region cold_night (rule_region (at_night ∷ []))))
in_region-region_minus_example =
    in_region-region_minus cold_night (rule_region (below_65 ∷ [])) (rule_region (at_night ∷ []))
      (rule_region-IsFit (below_65 ∷ [])) (rule_region-IsFit (at_night ∷ []))

contains-int_bounds_example :
    contains (closed (negsuc 1_499) (pos 2_500)) (scale (negsuc 0))
    ≡ in_bounds (int_bounds (closed (negsuc 1_499) (pos 2_500))) (negsuc 0)
contains-int_bounds_example =
    contains-int_bounds (closed (negsuc 1_499) (pos 2_500)) (negsuc 0) (tt, tt)

-- A validated condition on which the two modules disagree: the evaluator finds that
-- `is_home >= true` matches at home, and the region of the rule is empty.
abbrev home_ge : Condition
home_ge = record { field = some "is_home"; operator = some ">="; value = bool true }

home_ge_disagrees :
    (all_conditions_match (home_ge ∷ []) (to_context cold_night) ≡ true)
    × (rule_region (home_ge ∷ []) ≡ [])
unfolding checker evaluator
home_ge_disagrees = (refl, refl)
