-- ===== src/Policy/Evaluator.antt =====
-- policy_engine/evaluator.py: `rule_winner_key` and `compute_verdict`. The rendering of the
-- parameters, `json.dumps(params, sort_keys=True, default=str)`, is a parameter `dumps`.
pub mod Keys
pub mod Priority
pub mod Winner
pub mod Shuffle
use device_weave.Prelude.{
  ℕ, Bool, true, false, not, ◌&&◌, ◌||◌, Option, none, some, List, [], ◌∷◌, if◌then◌else◌, ltb,
  ◌==◌,
}
use device_weave.Prelude.Text.{String, str_eq, str_in, codes, codes_eq, codes_lt, str_lt, strip}
use device_weave.Prelude.Order.{lex, bool_order, codes_order, str_order}
use device_weave.Policy.Data.{Params, Context, Rule, allow, block, modify, PolicyDecision}
use device_weave.Policy.DeviceTypes.{canonical_device_type}
use device_weave.Policy.Condition.{all_conditions_match}

abbrev pub safe_actions : List String
safe_actions = "turn_off" ∷ "get_status" ∷ []

-- `action in _SAFE_ACTIONS`
unfoldable pub is_safe : String → Bool
is_safe action = str_in action safe_actions

-- The tuple of `rule_winner_key`; the stripped id is kept as its code points.
pub record WinnerKey : Type 0 where
  pub missing : Bool
  pub rid : List ℕ
  pub reason : String
  pub params : String

-- The order of Python's tuples, component by component.
abbrev pub params_lt : WinnerKey → WinnerKey → Bool
params_lt a b = str_lt a.params b.params

abbrev pub reason_lt : WinnerKey → WinnerKey → Bool
reason_lt = lex str_order (λ k. k.reason) params_lt

abbrev pub rid_lt : WinnerKey → WinnerKey → Bool
rid_lt = lex codes_order (λ k. k.rid) reason_lt

unfoldable pub key_lt : WinnerKey → WinnerKey → Bool
key_lt = lex bool_order (λ k. k.missing) rid_lt

abbrev is_nil : List ℕ → Bool
is_nil [] = true
is_nil (_ ∷ _) = false

abbrev or_blank : Option String → String
or_blank none = ""
or_blank (some s) = s

abbrev stripped : Option String → List ℕ
stripped none = []
stripped (some s) = strip (codes s)

module _ (dumps : Params → String) where
  unfoldable pub rule_winner_key : Rule → WinnerKey
  unfolding strip
  rule_winner_key policy = record {
    missing = is_nil (stripped policy.rule_id);
    rid = stripped policy.rule_id;
    reason = or_blank policy.reason;
    params = dumps policy.params;
  }

  -- `min(rules, key=rule_winner_key)` over `best` and the rest: the first of the least.
  unfoldable pub min_rule : Rule → List Rule → Rule
  min_rule best [] = best
  min_rule best (r ∷ rs) =
      min_rule (if key_lt (rule_winner_key r) (rule_winner_key best) then r else best) rs

abbrev pub allow_decision : PolicyDecision
allow_decision = record {
  verdict = allow;
  reason = some "";
  rule_id = none;
  modified_params = none;
}

-- The scope test and the conditions of one round of the loop.
unfoldable pub applies : String → Context → Rule → Bool
applies device_type context policy =
    str_eq (canonical_device_type policy.device_type) (canonical_device_type (some device_type))
    && all_conditions_match policy.conditions context

-- The rules of one action type that the loop collects.
unfoldable pub matching : String → String → Context → List Rule → List Rule
matching kind device_type context [] = []
matching kind device_type context (p ∷ ps) =
    let rest = matching kind device_type context ps in
    if applies device_type context p && str_eq p.action_type kind then p ∷ rest else rest

module _ (dumps : Params → String) where
  unfoldable pub pick_modify : List Rule → PolicyDecision
  pick_modify [] = allow_decision
  pick_modify (m ∷ ms) =
      let p = min_rule dumps m ms in
      record {
        verdict = modify;
        reason = p.reason;
        rule_id = p.rule_id;
        modified_params = some p.params;
      }

  -- `p["action"]["reason"]` and `p["rule_id"]`: a rule has both keys (see `Rule`), so that neither
  -- read raises, and `none` is the null that is stored there.
  unfoldable pub pick : List Rule → List Rule → PolicyDecision
  unfolding pick_modify
  pick [] modifiers = pick_modify modifiers
  pick (b ∷ bs) modifiers =
      let p = min_rule dumps b bs in
      record { verdict = block; reason = p.reason; rule_id = p.rule_id; modified_params = none }

  unfoldable pub compute_verdict : List Rule → String → String → Context → PolicyDecision
  compute_verdict policies device_type action context =
      if is_safe action
      then allow_decision
      else pick (matching "block" device_type context policies)
          (matching "modify" device_type context policies)
