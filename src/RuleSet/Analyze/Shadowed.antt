-- ===== src/RuleSet/Analyze/Shadowed.antt =====
-- What the finding `shadowed` of rule_set_checker.py says of the evaluator.
use device_weave.Prelude.{
  ◌≡◌, ◌≢◌, sym, ◌∙◌, true, false, ◌&&◌, List, [], ◌++◌, arith, any-append, select, All, All-append,
  All-select, mem-select, Bool-cases, inl, inr, &&-eq-true,
}
use mathlib.Core.List.{Memᴰ}
use mathlib.Core.Path.{subst}
use mathlib.Core.Bool.{true≢false}
use device_weave.Prelude.Text.{String}
use device_weave.Policy.Data.{Params, Rule, Verdict, block, modify}
use device_weave.Policy.Condition.{all_conditions_match}
use device_weave.Policy.Evaluator.{applies, is_safe, compute_verdict, key_lt, rule_winner_key}
use device_weave.Policy.Evaluator.Keys.{before}
use device_weave.Policy.Evaluator.Priority.{claims}
use device_weave.Policy.Evaluator.Winner.{All-mem, Winner}
use device_weave.RuleSet.Box.Laws.{Ctx, in_box, in_region, IsFit}
use device_weave.RuleSet.Region.Matches.{to_context}
use device_weave.RuleSet.Region.Exact.{IsPossible, rule_region_exact, rule_region-IsFit}
use device_weave.RuleSet.Analyze.{
  Entry, group, of_type, other, regions, entries_for, preferred, is_shadowed,
}
use device_weave.RuleSet.Analyze.Groups.{
  IsEntry, entries_for-IsEntry, groups-IsGrouped, regions-IsFit, in_regions, covered,
}
use device_weave.RuleSet.Analyze.Invariants.{IsTypedRule, IsEntry-applies, block_applies}

applies-conditions :
    (d : String) (c : Ctx) (r : Rule)
    → applies d (to_context c) r ≡ true
    → all_conditions_match r.conditions (to_context c) ≡ true
unfolding applies
applies-conditions d c r h = (&&-eq-true _ _ h).1

block-ne-modify : ◌≢◌ {A = Verdict} block modify
block-ne-modify h = cc

module _ (dumps : Params → String) (rules : List Rule) (d action : String) (c : Ctx)
    (typed : All IsTypedRule rules) (possible : IsPossible c) where
  -- A modifier with a lower key whose region holds the context comes before the rule.
  preferred-before :
      (es : List Entry) (e f : Entry)
      → All (IsEntry rules d) es
      → Memᴰ f (preferred dumps es e)
      → in_region c f.region ≡ true
      → Memᴰ f.rule rules
        × (claims "modify" d (to_context c) f.rule ≡ true)
        × (before dumps f.rule e.rule ≡ true)
  unfolding preferred
  preferred-before es e f h m held =
      let (m', less) =
        mem-select (λ g. key_lt (rule_winner_key dumps g.rule) (rule_winner_key dumps e.rule)) _ f
          m in
      let (listed, kind) = mem-select (λ g. of_type "modify" g && other e g) es f m' in
      let is : IsEntry rules d f = All-mem (IsEntry rules d) es f h listed in
      let app : applies d (to_context c) f.rule ≡ true =
        IsEntry-applies rules d f c is (All-mem IsTypedRule rules f.rule typed is.listed) possible
          held in
      (is.listed, rw app ((&&-eq-true _ _ kind).0), less)

  preferred-IsEntry :
      (es : List Entry) (e : Entry)
      → All (IsEntry rules d) es
      → All (IsEntry rules d) (preferred dumps es e)
  unfolding preferred
  preferred-IsEntry es e h = All-select (IsEntry rules d) _ _ (All-select (IsEntry rules d) _ es h)

  -- Let every rule name a device type in its scope and have typed conditions. A modify rule that is
  -- reported as shadowed never determines a modification: in every possible context in which the
  -- verdict for its device is `modify`, the rule that wins is another.
  pub shadowed_never_wins :
      (e : Entry)
      → Memᴰ e (entries_for (group 0 rules []) d)
      → is_shadowed dumps (entries_for (group 0 rules []) d) e ≡ true
      → is_safe action ≡ false
      → (compute_verdict dumps rules d action (to_context c)).verdict ≡ modify
      → ¬ Winner dumps d (to_context c) "modify" rules e.rule
  unfolding is_shadowed
  shadowed_never_wins e m hidden unsafe verdict w =
      let es = entries_for (group 0 rules []) d in
      let h = entries_for-IsEntry rules (group 0 rules []) d (groups-IsGrouped rules) in
      let is : IsEntry rules d e = All-mem (IsEntry rules d) es e h m in
      let t : IsTypedRule e.rule = All-mem IsTypedRule rules e.rule typed is.listed in
      let held : in_region c e.region ≡ true =
        subst (λ r. in_region c r ≡ true) (sym is.region)
          (rule_region_exact c e.rule.conditions t.typed possible
            ∙ applies-conditions d c e.rule ((&&-eq-true _ _ w.claimed).0)) in
      let blocks = select (of_type "block") es in
      let above = preferred dumps es e in
      let fit_blocks =
        regions-IsFit rules d blocks (All-select (IsEntry rules d) (of_type "block") es h) in
      let fit_above = regions-IsFit rules d above (preferred-IsEntry es e h) in
      let cover : in_region c (regions blocks ++ regions above) ≡ true =
        covered c e.region (regions blocks ++ regions above)
          (subst (All IsFit) (sym is.region) (rule_region-IsFit e.rule.conditions))
          (All-append IsFit (regions blocks) (regions above) fit_blocks fit_above) hidden held in
      elim (Bool-cases (in_region c (regions blocks))) [
        | inl blocked ↦ block-ne-modify (
            sym (block_applies dumps rules d action es c h typed possible unsafe blocked) ∙ verdict)
        | inr free ↦
            let (f, m', held') =
              in_regions c above
                (ground (arith, any-append (in_box c) (regions blocks) (regions above))) in
            let (listed, claimed, less) = preferred-before es e f h m' held' in
            true≢false (sym less ∙ All-mem _ rules f.rule w.least listed claimed)
      ]
