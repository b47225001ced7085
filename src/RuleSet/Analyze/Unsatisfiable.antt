-- ===== src/RuleSet/Analyze/Unsatisfiable.antt =====
-- What the finding `unsatisfiable` of rule_set_checker.py says of the evaluator.
use device_weave.Prelude.{
  ◌≡◌, refl, sym, ap, ◌∙◌, Bool, true, false, List, [], ◌∷◌, ◌++◌, All, Bool-cases, inl, inr, ◌⊎◌,
  if◌then◌else◌,
}
use mathlib.Core.List.{Memᴰ}
use mathlib.Core.Bool.{true≢false}
use device_weave.Prelude.Text.{String}
use device_weave.Policy.Data.{Params, Rule}
use device_weave.Policy.Condition.{all_conditions_match}
use device_weave.RuleSet.Box.{Region, is_empty}
use device_weave.RuleSet.Box.Laws.{Ctx, in_region}
use device_weave.RuleSet.Region.{rule_region}
use device_weave.RuleSet.Region.Matches.{to_context, IsTyped}
use device_weave.RuleSet.Region.Exact.{IsPossible, rule_region_exact}
use device_weave.RuleSet.Analyze.{
  Finding, unsatisfiable, Invariant, group, groups_findings, invariant_findings,
  unsatisfiable_finding, unsatisfied, analyze,
}
use device_weave.RuleSet.Analyze.Others.{
  is_unsatisfiable, IsOther-append, groups_findings-IsOther, invariant_findings-IsOther, mem-other,
}

-- The rule matches in no possible context.
unfoldable pub NeverMatches : Rule → Type 0
NeverMatches r = (c : Ctx) → IsPossible c → all_conditions_match r.conditions (to_context c) ≡ false

abbrev pub HasTypedConditions : Rule → Type 0
HasTypedConditions r = All IsTyped r.conditions

in_region-is_empty : (c : Ctx) (r : Region) → is_empty r ≡ true → in_region c r ≡ false
in_region-is_empty c [] h = refl
in_region-is_empty c (b ∷ bs) h = cc

empty-NeverMatches :
    (r : Rule) → HasTypedConditions r → is_empty (rule_region r.conditions) ≡ true → NeverMatches r
unfolding NeverMatches
empty-NeverMatches r t h c p =
    sym (rule_region_exact c r.conditions t p) ∙ in_region-is_empty c (rule_region r.conditions) h

mem-append : (fs gs : List Finding) (f : Finding) → Memᴰ f (fs ++ gs) → Memᴰ f fs ⊎ Memᴰ f gs
mem-append [] gs f m = inr m
mem-append (g ∷ fs) gs f (Memᴰ.head e) = inl (Memᴰ.head e)
mem-append (g ∷ fs) gs f (Memᴰ.tail m) = elim (mem-append fs gs f m) [
  | inl here ↦ inl (Memᴰ.tail here)
  | inr there ↦ inr there
]

mem-left : (fs gs : List Finding) (f : Finding) → Memᴰ f fs → Memᴰ f (fs ++ gs)
mem-left [] gs f m = elim m [ ]
mem-left (g ∷ fs) gs f (Memᴰ.head e) = Memᴰ.head e
mem-left (g ∷ fs) gs f (Memᴰ.tail m) = Memᴰ.tail (mem-left fs gs f m)

-- The finding names a rule of the list that matches in no possible context.
unfoldable pub NamesDead : List Rule → Finding → Type 0
NamesDead rules f = (r : Rule) × Memᴰ r rules × (f ≡ unsatisfiable_finding r) × NeverMatches r

-- The head of a list that has its head under a condition, or the rest.
mem-if :
    (b : Bool) (g f : Finding) (fs : List Finding)
    → Memᴰ f (if b then g ∷ fs else fs)
    → ((b ≡ true) × (f ≡ g)) ⊎ Memᴰ f fs
mem-if true g f fs (Memᴰ.head e) = inl (refl, e)
mem-if true g f fs (Memᴰ.tail m) = inr m
mem-if false g f fs m = inr m

NamesDead-tail : (r : Rule) (rs : List Rule) (f : Finding) → NamesDead rs f → NamesDead (r ∷ rs) f
unfolding NamesDead
NamesDead-tail r rs f (s, m, e, dead) = (s, Memᴰ.tail m, e, dead)

NamesDead-head :
    (r : Rule) (rs : List Rule) (f : Finding)
    → f ≡ unsatisfiable_finding r
    → NeverMatches r
    → NamesDead (r ∷ rs) f
unfolding NamesDead
NamesDead-head r rs f e dead = (r, Memᴰ.head refl, e, dead)

mem-unsatisfied :
    (r : Rule) (rs : List Rule) (f : Finding)
    → Memᴰ f (unsatisfied (r ∷ rs))
    → ((is_empty (rule_region r.conditions) ≡ true) × (f ≡ unsatisfiable_finding r))
      ⊎ Memᴰ f (unsatisfied rs)
unfolding unsatisfied
mem-unsatisfied r rs f m =
    mem-if (is_empty (rule_region r.conditions)) (unsatisfiable_finding r) f (unsatisfied rs) m

none_reported : (f : Finding) → ¬ Memᴰ f (unsatisfied [])
unfolding unsatisfied
none_reported f m = elim m [ ]

unsatisfied-NamesDead :
    (rules : List Rule) (f : Finding)
    → All HasTypedConditions rules
    → Memᴰ f (unsatisfied rules)
    → NamesDead rules f
unsatisfied-NamesDead [] f t m = absurd (none_reported f m)
unsatisfied-NamesDead (r ∷ rs) f (t, ts) m = elim (mem-unsatisfied r rs f m) [
  | inl (none_left, e) ↦ NamesDead-head r rs f e (empty-NeverMatches r t none_left)
  | inr m' ↦ NamesDead-tail r rs f (unsatisfied-NamesDead rs f ts m')
]

unsatisfied-reports :
    (rules : List Rule) (r : Rule)
    → Memᴰ r rules
    → is_empty (rule_region r.conditions) ≡ true
    → Memᴰ (unsatisfiable_finding r) (unsatisfied rules)
unfolding unsatisfied
unsatisfied-reports [] r m h = elim m [ ]
unsatisfied-reports (q ∷ rs) r (Memᴰ.head e) h =
    let here : is_empty (rule_region q.conditions) ≡ true =
      sym (ap (λ (s : Rule). is_empty (rule_region s.conditions)) e) ∙ h in
    simp here (Memᴰ.head (ap unsatisfiable_finding e))
unsatisfied-reports (q ∷ rs) r (Memᴰ.tail m) h =
    let rest = unsatisfied-reports rs r m h in
    elim (Bool-cases (is_empty (rule_region q.conditions))) [
      | inl also ↦ simp also (Memᴰ.tail rest)
      | inr not_this ↦ simp not_this rest
    ]

-- Let the conditions of every rule be typed: known fields and operators, values of the field's
-- kind, no ordering of Booleans or labels, and no blank label. Then every finding of `analyze` of
-- the kind `unsatisfiable` is the one for a rule of the list that matches in no possible context;
-- and every rule of the list whose region is empty has such a finding.
pub analyze_reports_unsatisfiable :
    (dumps : Params → String) (rules : List Rule) (invs : List Invariant)
    → All HasTypedConditions rules
    → ((f : Finding)
        → Memᴰ f (analyze dumps rules invs)
        → f.kind ≡ unsatisfiable
        → NamesDead rules f)
      × ((r : Rule)
          → Memᴰ r rules
          → is_empty (rule_region r.conditions) ≡ true
          → Memᴰ (unsatisfiable_finding r) (analyze dumps rules invs))
unfolding analyze
analyze_reports_unsatisfiable dumps rules invs typed = (
  λ f m k. elim (mem-append (unsatisfied rules) _ f m) [
    | inl here ↦ unsatisfied-NamesDead rules f typed here
    | inr there ↦
        let g = group 0 rules [] in
        let others =
          IsOther-append (groups_findings dumps g) (invariant_findings g invs)
            (groups_findings-IsOther dumps g) (invariant_findings-IsOther g invs) in
        let on : is_unsatisfiable f ≡ true = rw k refl in
        absurd (true≢false (sym on ∙ mem-other _ f others there))
  ],
  λ r m h.
      mem-left (unsatisfied rules) _ (unsatisfiable_finding r) (unsatisfied-reports rules r m h),
)
