-- ===== src/RuleSet/Region/Exact.antt =====
-- `rule_region` of rule_set_checker.py is exact: its boxes hold the contexts in which
-- policy_engine/evaluator.py finds that all conditions match.
use device_weave.Prelude.{
  ◌≡◌, refl, sym, ap, ◌∙◌, Bool, true, false, ◌&&◌, Option, none, some, List, [], ◌∷◌, arith, any,
  any-append, All, All-intro, All-append, Bool-cases, inl, inr, if◌then◌else◌,
}
use device_weave.Prelude.Int.{ℤ}
use device_weave.Policy.Data.{Value, null, bool, num, str, Condition}
use device_weave.Policy.Condition.{Operator, operator_of, evaluate_condition, all_conditions_match}
use device_weave.RuleSet.Dim.{Field, Kind, kind, Dim, full, dim_empty, dim_intersect}
use device_weave.RuleSet.Dim.Laws.{
  Fits, IsOuter, dim_has, dim_has-intersect, dim_empty_sound, dim_narrow-Fits,
}
use device_weave.RuleSet.Box.{Box, put, Region, is_empty}
use device_weave.RuleSet.Box.Laws.{
  Ctx, in_box, in_region, in_box_split, in_box-put, IsFit, put-IsFit,
}
use device_weave.RuleSet.Region.{
  field_of, intervals, numeric_dims, condition_dims, narrow_box, narrow, narrow_by, region_from,
  rule_region,
}
use device_weave.RuleSet.Region.Matches.{to_context, field_of-field_name, IsTyped, condition_has}

intervals-IsOuter : (op : Operator) (v : ℤ) → All (IsOuter Kind.integer) (intervals op v)
unfolding intervals
intervals-IsOuter Operator.gt v = ((tt, tt), tt)
intervals-IsOuter Operator.lt v = ((tt, tt), tt)
intervals-IsOuter Operator.ge v = ((tt, tt), tt)
intervals-IsOuter Operator.le v = ((tt, tt), tt)
intervals-IsOuter Operator.eq v = ((tt, tt), tt)
intervals-IsOuter Operator.ne v = ((tt, tt), ((tt, tt), tt))

condition_dims-IsOuter :
    (k : Kind) (op : Option Operator) (v : Value) → All (IsOuter k) (condition_dims k op v)
unfolding condition_dims numeric_dims
condition_dims-IsOuter Kind.numeric op v = All-intro _ _ (λ d. tt)
condition_dims-IsOuter Kind.integer none v = tt
condition_dims-IsOuter Kind.integer (some op) null = tt
condition_dims-IsOuter Kind.integer (some op) (bool b) = tt
condition_dims-IsOuter Kind.integer (some op) (num v) = intervals-IsOuter op v
condition_dims-IsOuter Kind.integer (some op) (str s) = tt
condition_dims-IsOuter Kind.boolean op v = All-intro _ _ (λ d. tt)
condition_dims-IsOuter Kind.label op v = All-intro _ _ (λ d. tt)

in_region-narrow_box :
    (c : Ctx) (b : Box) (f : Field) (ds : List (Dim (kind f)))
    → IsFit b
    → All (IsOuter (kind f)) ds
    → in_region c (narrow_box b f ds) ≡ (in_box c b && any (λ d. dim_has (kind f) d (c f)) ds)
unfolding narrow_box
in_region-narrow_box c b f [] p q = ground arith
in_region-narrow_box c b f (d ∷ ds) p (q, qs) =
    let part = dim_intersect (kind f) (b f) d in
    let fit : Fits (kind f) part = dim_narrow-Fits (kind f) (b f) d (p f) q in
    elim (Bool-cases (dim_empty (kind f) part)) [
      | inl gone ↦ simp gone (
          ground (
            arith,
            dim_empty_sound (kind f) part (c f) fit gone,
            dim_has-intersect (kind f) (b f) d (c f),
            in_box_split c b f,
            in_region-narrow_box c b f ds p qs,
          ))
      | inr left ↦ simp left (
          ground (
            arith,
            in_box-put c b f part,
            dim_has-intersect (kind f) (b f) d (c f),
            in_box_split c b f,
            in_region-narrow_box c b f ds p qs,
          ))
    ]

narrow_box-IsFit :
    (b : Box) (f : Field) (ds : List (Dim (kind f)))
    → IsFit b
    → All (IsOuter (kind f)) ds
    → All IsFit (narrow_box b f ds)
unfolding narrow_box
narrow_box-IsFit b f [] p q = tt
narrow_box-IsFit b f (d ∷ ds) p (q, qs) =
    let part = dim_intersect (kind f) (b f) d in
    let rest = narrow_box-IsFit b f ds p qs in
    elim (dim_empty (kind f) part)
      as (λ t. All IsFit (if t then narrow_box b f ds else put b f part ∷ narrow_box b f ds)) [
        | true ↦ rest
        | false ↦ (put-IsFit b f part p (dim_narrow-Fits (kind f) (b f) d (p f) q), rest)
      ]

module _ (f : Field) (ds : List (Dim (kind f))) (outer : All (IsOuter (kind f)) ds) where
  in_region-narrow :
      (c : Ctx) (bs : Region)
      → All IsFit bs
      → in_region c (narrow bs f ds) ≡ (in_region c bs && any (λ d. dim_has (kind f) d (c f)) ds)
  unfolding narrow
  in_region-narrow c [] h = refl
  in_region-narrow c (b ∷ bs) (p, h) = ground (
    arith,
    any-append (in_box c) (narrow_box b f ds) (narrow bs f ds),
    in_region-narrow_box c b f ds p outer,
    in_region-narrow c bs h,
  )

  narrow-IsFit : (bs : Region) → All IsFit bs → All IsFit (narrow bs f ds)
  unfolding narrow
  narrow-IsFit [] h = tt
  narrow-IsFit (b ∷ bs) (p, h) =
      All-append IsFit (narrow_box b f ds) _ (narrow_box-IsFit b f ds p outer) (narrow-IsFit bs h)

-- The boxes after one condition, for one of the DSL.
narrow_by_typed :
    (boxes : Region) (cond : Condition) (t : IsTyped cond)
    → narrow_by boxes cond
      ≡ narrow boxes t.field (condition_dims (kind t.field) (some t.op) cond.value)
unfolding narrow_by
narrow_by_typed boxes cond t =
    let found : field_of cond.field ≡ some t.field =
      ap field_of t.named ∙ field_of-field_name t.field in
    λ i. elim (found i) [
      | none ↦ []
      | some f ↦ narrow boxes f (condition_dims (kind f) (t.known i) cond.value)
    ]

in_region-narrow_by :
    (c : Ctx) (boxes : Region) (cond : Condition)
    → IsTyped cond
    → All IsFit boxes
    → in_region c (narrow_by boxes cond)
      ≡ (in_region c boxes && evaluate_condition cond (to_context c))
in_region-narrow_by c boxes cond t h =
    let dims = condition_dims (kind t.field) (some t.op) cond.value in
    ap (in_region c) (narrow_by_typed boxes cond t)
    ∙ in_region-narrow t.field dims (condition_dims-IsOuter _ _ _) c boxes h
    ∙ ap (λ b. in_region c boxes && b) (sym (condition_has c cond t))

narrow_by-IsFit :
    (boxes : Region) (cond : Condition) → All IsFit boxes → All IsFit (narrow_by boxes cond)
unfolding narrow_by
narrow_by-IsFit boxes cond h =
    elim (field_of cond.field)
      as (λ o. All IsFit (elim o [
        | none ↦ []
        | some f ↦ narrow boxes f (condition_dims (kind f) (operator_of cond.operator) cond.value)
      ])) [ none ↦ tt | some f ↦ narrow-IsFit f _ (condition_dims-IsOuter _ _ _) boxes h ]

region_from-IsFit :
    (boxes : Region) (conds : List Condition)
    → All IsFit boxes
    → All IsFit (region_from boxes conds)
unfolding region_from
region_from-IsFit boxes [] h = h
region_from-IsFit boxes (cond ∷ conds) h =
    elim (is_empty (narrow_by boxes cond))
      as (λ t. All IsFit (if t then [] else region_from (narrow_by boxes cond) conds)) [
        | true ↦ tt
        | false ↦ region_from-IsFit (narrow_by boxes cond) conds (narrow_by-IsFit boxes cond h)
      ]

in_region-unless_empty :
    (c : Ctx) (next more : Region) (m : Bool)
    → in_region c more ≡ (in_region c next && m)
    → in_region c (if is_empty next then [] else more) ≡ (in_region c next && m)
in_region-unless_empty c [] more m h = refl
in_region-unless_empty c (x ∷ xs) more m h = h

in_region-region_from :
    (c : Ctx) (boxes : Region) (conds : List Condition)
    → All IsTyped conds
    → All IsFit boxes
    → in_region c (region_from boxes conds)
      ≡ (in_region c boxes && all_conditions_match conds (to_context c))
unfolding region_from all_conditions_match
in_region-region_from c boxes [] ts h = ground arith
in_region-region_from c boxes (cond ∷ conds) (t, ts) h =
    in_region-unless_empty c (narrow_by boxes cond) (region_from (narrow_by boxes cond) conds)
      (all_conditions_match conds (to_context c))
      (in_region-region_from c (narrow_by boxes cond) conds ts (narrow_by-IsFit boxes cond h))
    ∙ ground (arith, in_region-narrow_by c boxes cond t h)

full-IsFit : IsFit full
unfolding full
full-IsFit = λ f. fits f
  where
    fits : (f : Field) → Fits (kind f) (full f)
    fits Field.temperature = tt
    fits Field.humidity = tt
    fits Field.cloud_cover_pct = tt
    fits Field.time_hour = (tt, tt)
    fits Field.is_home = tt
    fits Field.is_overcast = tt
    fits Field.room = tt

-- No interval of the integer field in the region has an infinite end, so `int_bounds` never meets
-- one.
pub rule_region-IsFit : (conds : List Condition) → All IsFit (rule_region conds)
unfolding rule_region
rule_region-IsFit conds = region_from-IsFit (full ∷ []) conds (full-IsFit, tt)

-- A context whose values lie in the domains of the fields.
abbrev pub IsPossible : Ctx → Type 0
IsPossible c = in_box c full ≡ true

-- For typed conditions (known fields and operators, values of the field's kind, no ordering of
-- Booleans or labels, no blank label) and a context whose values lie in the domains of the fields,
-- the evaluator finds that all conditions match exactly when the context is in a box of the region.
pub rule_region_exact :
    (c : Ctx) (conds : List Condition)
    → All IsTyped conds
    → IsPossible c
    → in_region c (rule_region conds) ≡ all_conditions_match conds (to_context c)
unfolding rule_region
rule_region_exact c conds ts p =
    in_region-region_from c (full ∷ []) conds ts (full-IsFit, tt) ∙ ground arith
