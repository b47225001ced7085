-- ===== src/RuleSet/Analyze/Invariants.antt =====
-- What `analyze` of rule_set_checker.py guarantees when it reports no violated invariant: the
-- evaluator blocks the device.
use device_weave.Prelude.{
  ◌≡◌, refl, sym, ap, ◌∙◌, true, false, some, List, [], ◌∷◌, ◌++◌, arith, any, select, All,
  All-select, mem-select, any-append_false, Bool-cases, inl, inr,
}
use mathlib.Core.List.{Memᴰ}
use mathlib.Core.Path.{subst}
use device_weave.Prelude.Text.{String, str_eq}
use device_weave.Policy.Data.{Params, Rule, block}
use device_weave.Policy.DeviceTypes.{canonical_device_type}
use device_weave.Policy.Condition.{all_conditions_match}
use device_weave.Policy.Evaluator.{applies, is_safe, compute_verdict}
use device_weave.Policy.Evaluator.Priority.{claims, compute_verdict_priority, applies_of}
use device_weave.Policy.Evaluator.Winner.{All-mem}
use device_weave.Policy.Evaluator.Shuffle.{any-of_mem}
use device_weave.RuleSet.Box.{is_empty}
use device_weave.RuleSet.Box.Laws.{Ctx, in_region}
use device_weave.RuleSet.Region.{rule_region}
use device_weave.RuleSet.Region.Matches.{to_context, IsTyped}
use device_weave.RuleSet.Region.Exact.{IsPossible, rule_region_exact, rule_region-IsFit}
use device_weave.RuleSet.Analyze.{
  device, is_violation, unsatisfied, groups_findings, Entry, Groups, group, of_type, regions,
  entries_for, Invariant, gaps, invariant_findings, analyze,
}
use device_weave.RuleSet.Analyze.Groups.{
  IsEntry, entries_for-IsEntry, groups-IsGrouped, regions-IsFit, in_regions, covered,
}

-- A rule of the DSL: its scope names a device type, and its conditions are typed: no Boolean or
-- label is ordered, and no label is blank.
pub record IsTypedRule (r : Rule) : Type 0 where
  pub scope : String
  pub scoped : r.device_type ≡ some scope
  pub nonblank : str_eq scope "" ≡ false
  pub typed : All IsTyped r.conditions

device-scope : (r : Rule) (t : IsTypedRule r) → device r ≡ t.scope
unfolding device
device-scope r t = rw (t.scoped, t.nonblank) refl

-- An entry whose region holds the context is a rule that applies in it.
pub IsEntry-applies :
    (rules : List Rule) (d : String) (e : Entry) (c : Ctx)
    → IsEntry rules d e
    → IsTypedRule e.rule
    → IsPossible c
    → in_region c e.region ≡ true
    → applies d (to_context c) e.rule ≡ true
unfolding applies
IsEntry-applies rules d e c h t p k =
    let scope : t.scope ≡ d = sym (device-scope e.rule t) ∙ h.device in
    applies_of d (to_context c) e.rule
      (ap canonical_device_type t.scoped ∙ ap (λ s. canonical_device_type (some s)) scope)
      (sym (rule_region_exact c e.rule.conditions t.typed p)
        ∙ (subst (λ r. in_region c r ≡ true) h.region k))

-- A block among the entries of a device whose region holds the context blocks the device.
pub block_applies :
    (dumps : Params → String) (rules : List Rule) (d action : String) (es : List Entry) (c : Ctx)
    → All (IsEntry rules d) es
    → All IsTypedRule rules
    → IsPossible c
    → is_safe action ≡ false
    → in_region c (regions (select (of_type "block") es)) ≡ true
    → (compute_verdict dumps rules d action (to_context c)).verdict ≡ block
block_applies dumps rules d action es c h t p unsafe k =
    let (e, m, held) = in_regions c (select (of_type "block") es) k in
    let (listed, typed) = mem-select (of_type "block") es e m in
    let is : IsEntry rules d e = All-mem (IsEntry rules d) es e h listed in
    let app : applies d (to_context c) e.rule ≡ true =
      IsEntry-applies rules d e c is (All-mem IsTypedRule rules e.rule t is.listed) p held in
    let claimed : claims "block" d (to_context c) e.rule ≡ true = rw app typed in
    compute_verdict_priority dumps rules d action (to_context c)
    ∙ rw (unsafe, any-of_mem (claims "block" d (to_context c)) rules e.rule is.listed claimed) refl

-- An invariant that is not reported has no gap.
no_gap :
    (g : Groups) (invs : List Invariant) (inv : Invariant)
    → Memᴰ inv invs
    → any is_violation (invariant_findings g invs) ≡ false
    → is_empty (gaps g inv) ≡ true
unfolding invariant_findings
no_gap g [] inv m h = elim m [ ]
no_gap g (x ∷ xs) inv (Memᴰ.head same) h =
    let e : gaps g inv ≡ gaps g x = ap (gaps g) same in rw e (ground arith)
no_gap g (x ∷ xs) inv (Memᴰ.tail m) h = no_gap g xs inv m (elim (Bool-cases (is_empty (gaps g x))) [
  | inl none' ↦ ground arith
  | inr some' ↦ ground arith
])

-- Let every rule name a device type in its scope and have typed conditions, and let the conditions
-- of one of the invariants be typed: known fields and operators, values of the field's kind, no ordering
-- of Booleans or labels, and no blank label. If the analysis reports no violated invariant, then in every
-- possible context in which all conditions of that invariant match, the evaluator blocks the
-- invariant's device for every action that is not safe.
pub analyze_guarantees_invariants :
    (dumps : Params → String) (rules : List Rule) (invs : List Invariant) (inv : Invariant)
    (action : String) (c : Ctx)
    → All IsTypedRule rules
    → All IsTyped inv.conditions
    → Memᴰ inv invs
    → any is_violation (analyze dumps rules invs) ≡ false
    → is_safe action ≡ false
    → IsPossible c
    → all_conditions_match inv.conditions (to_context c) ≡ true
    → (compute_verdict dumps rules inv.device_type action (to_context c)).verdict ≡ block
unfolding analyze
analyze_guarantees_invariants dumps rules invs inv action c t ti m h unsafe p k =
    let g = group 0 rules [] in
    let es = entries_for g inv.device_type in
    let typed = entries_for-IsEntry rules g inv.device_type (groups-IsGrouped rules) in
    let blocks = select (of_type "block") es in
    let fit =
      regions-IsFit rules inv.device_type blocks
        (All-select (IsEntry rules inv.device_type) (of_type "block") es typed) in
    let quiet : any is_violation (invariant_findings g invs) ≡ false =
      any-append_false is_violation (groups_findings dumps g) (invariant_findings g invs) (
        any-append_false is_violation (unsatisfied rules)
          (groups_findings dumps g ++ invariant_findings g invs) h) in
    block_applies dumps rules inv.device_type action es c typed t p unsafe (
      covered c (rule_region inv.conditions) (regions blocks) (rule_region-IsFit inv.conditions) fit
        (unfold gaps in no_gap g invs inv m quiet) (rule_region_exact c inv.conditions ti p ∙ k))
