-- ===== src/Policy/Tests.antt =====
-- Runs of policy_engine/, and its theorems at concrete inputs.
use device_weave.Prelude.{
  ℕ, ◌≡◌, refl, sym, ap, ◌∙◌, ◌⊎◌, inl, inr, some, List, [], ◌∷◌, arith, any, if◌then◌else◌,
}
use mathlib.Core.List.{Memᴰ}
use device_weave.Prelude.Int.{pos}
use device_weave.Prelude.Text.{String, codes_lt, str_lt, strip}
use device_weave.Prelude.Order.{bool_lt}
use device_weave.Policy.Data.{num, Params, Context, Rule, Condition, allow, block, modify}
use device_weave.Policy.DeviceTypes.{canonical_device_type}
use device_weave.Policy.Condition.{
  operator_of, context_value, evaluate_condition, all_conditions_match, apply,
}
use device_weave.Policy.Evaluator.{
  is_safe, key_lt, rule_winner_key, min_rule, applies, matching, pick_modify, pick, compute_verdict,
}
use device_weave.Policy.Evaluator.Priority.{claims, compute_verdict_priority}
use device_weave.Policy.Evaluator.Winner.{Reports, compute_verdict-Reports}
use device_weave.Policy.Evaluator.Shuffle.{HasNoTies, compute_verdict_shuffle}

evaluator : Unit {0}
unfolding compute_verdict is_safe pick pick_modify matching min_rule rule_winner_key key_lt bool_lt
    codes_lt str_lt applies canonical_device_type all_conditions_match evaluate_condition
    context_value apply operator_of
evaluator = tt

abbrev no_dumps : Params → String
no_dumps _ = ""

abbrev hot : Condition
hot = record { field = some "temperature"; operator = some ">"; value = num (pos 80_000) }

abbrev rule : String → String → Params → Rule
rule id kind params = record {
  rule_id = some id;
  device_type = some "light";
  stored_type = some "light";
  conditions = hot ∷ [];
  action_type = kind;
  reason = some "hot";
  params = params;
}

abbrev dim : String → Rule
dim id = rule id "modify" (("brightness", num (pos 40_000)) ∷ [])

abbrev two_rules : List Rule
two_rules = dim "b" ∷ dim "a" ∷ []

abbrev swapped : List Rule
swapped = dim "a" ∷ dim "b" ∷ []

abbrev hot_day : Context
hot_day = ("temperature", num (pos 90_000)) ∷ []

-- The lower id wins, and a policy for `light` meets a `SmartBulb`.
lower_id_wins :
    (compute_verdict no_dumps two_rules "SmartBulb" "turn_on" hot_day).rule_id ≡ some "a"
unfolding evaluator
lower_id_wins = refl

block_wins :
    (compute_verdict no_dumps
      (rule "z" "block" [] ∷ two_rules)
      "SmartBulb"
      "turn_on"
      hot_day).verdict
    ≡ block
unfolding evaluator
block_wins = refl

type_is_trimmed : canonical_device_type (some " smartbulb ") ≡ "light"
unfolding canonical_device_type
type_is_trimmed = refl

compute_verdict_priority_example :
    (compute_verdict no_dumps two_rules "SmartBulb" "turn_on" hot_day).verdict ≡ (
      if is_safe "turn_on"
      then allow
      else if any (claims "block" "SmartBulb" hot_day) two_rules
      then block
      else if any (claims "modify" "SmartBulb" hot_day) two_rules
      then modify
      else allow)
compute_verdict_priority_example =
    compute_verdict_priority no_dumps two_rules "SmartBulb" "turn_on" hot_day

compute_verdict-Reports_example :
    let d = compute_verdict no_dumps two_rules "SmartBulb" "turn_on" hot_day in
    Reports no_dumps "SmartBulb" hot_day two_rules d.verdict d
compute_verdict-Reports_example =
    compute_verdict-Reports no_dumps "SmartBulb" hot_day two_rules "turn_on"

swap : (p q r : Rule) → Memᴰ r (p ∷ q ∷ []) → Memᴰ r (q ∷ p ∷ [])
swap p q r (Memᴰ.head e) = Memᴰ.tail (Memᴰ.head e)
swap p q r (Memᴰ.tail (Memᴰ.head e)) = Memᴰ.head e
swap p q r (Memᴰ.tail (Memᴰ.tail m)) = elim m [ ]

-- The two rules differ in their ids, so their keys differ.
one_of : (p q r : Rule) → Memᴰ r (p ∷ q ∷ []) → (r ≡ p) ⊎ (r ≡ q)
one_of p q r (Memᴰ.head e) = inl e
one_of p q r (Memᴰ.tail (Memᴰ.head e)) = inr e
one_of p q r (Memᴰ.tail (Memᴰ.tail m)) = elim m [ ]

agree :
    (p q r : Rule)
    → p ≡ r
    → q ≡ r
    → (p.rule_id ≡ q.rule_id) × (p.reason ≡ q.reason) × (p.params ≡ q.params)
agree p q r e f =
    let g : p ≡ q = e ∙ sym f in (ap (λ s. s.rule_id) g, ap (λ s. s.reason) g, ap (λ s. s.params) g)

keys_differ : ¬ (rule_winner_key no_dumps (dim "b") ≡ rule_winner_key no_dumps (dim "a"))
unfolding rule_winner_key strip
keys_differ e = let rids : ◌≡◌ {A = List ℕ} (98 ∷ []) (97 ∷ []) = ap (λ k. k.rid) e in ground arith

two_rules-HasNoTies : HasNoTies no_dumps two_rules
two_rules-HasNoTies p q m n e = elim (one_of (dim "b") (dim "a") p m) [
  | inl pb ↦ elim (one_of (dim "b") (dim "a") q n) [
    | inl qb ↦ agree p q (dim "b") pb qb
    | inr qa ↦ absurd (
        keys_differ (sym (ap (rule_winner_key no_dumps) pb) ∙ e ∙ ap (rule_winner_key no_dumps) qa))
  ]
  | inr pa ↦ elim (one_of (dim "b") (dim "a") q n) [
    | inl qb ↦ absurd (
        keys_differ
          (sym (ap (rule_winner_key no_dumps) qb) ∙ sym e ∙ ap (rule_winner_key no_dumps) pa))
    | inr qa ↦ agree p q (dim "a") pa qa
  ]
]

compute_verdict_shuffle_example :
    compute_verdict no_dumps two_rules "SmartBulb" "turn_on" hot_day
    ≡ compute_verdict no_dumps swapped "SmartBulb" "turn_on" hot_day
compute_verdict_shuffle_example =
    compute_verdict_shuffle no_dumps two_rules swapped "SmartBulb" "turn_on" hot_day
      (swap (dim "b") (dim "a")) (swap (dim "a") (dim "b")) two_rules-HasNoTies
