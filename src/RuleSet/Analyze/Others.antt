-- ===== src/RuleSet/Analyze/Others.antt =====
-- The findings of rule_set_checker.py after its first loop are of other kinds than `unsatisfiable`.
use device_weave.Prelude.{
  ◌≡◌, refl, ap, ◌∙◌, Bool, true, false, not, List, [], ◌∷◌, ◌++◌, arith, any, any-append,
  Bool-cases, Option-cases, inl, inr, select, if◌then◌else◌,
}
use mathlib.Core.List.{Memᴰ}
use device_weave.Prelude.Text.{String}
use device_weave.Policy.Data.{Params}
use device_weave.RuleSet.Box.{is_empty}
use device_weave.RuleSet.Analyze.{
  Finding, unsatisfiable, redundant, info, rid, Invariant, Entry, Groups, of_type, preferred,
  is_shadowed, is_redundant, params_eq, region_overlap, regions, modify_conflicts, allow_conflicts,
  modify_findings, entry_findings, entries_findings, groups_findings, gaps, invariant_findings,
}

abbrev pub is_unsatisfiable : Finding → Bool
is_unsatisfiable f = elim f.kind [ unsatisfiable ↦ true | _ ↦ false ]

-- No finding of the list is of the kind `unsatisfiable`.
abbrev pub IsOther : List Finding → Type 0
IsOther fs = any is_unsatisfiable fs ≡ false

pub IsOther-append : (fs gs : List Finding) → IsOther fs → IsOther gs → IsOther (fs ++ gs)
IsOther-append fs gs h k = ground (arith, any-append is_unsatisfiable fs gs)

IsOther-if : (b : Bool) (fs : List Finding) → IsOther fs → IsOther (if b then fs else [])
IsOther-if true fs h = h
IsOther-if false fs h = refl

allow_conflicts-IsOther :
    (d : String) (e : Entry) (bs : List Entry) → IsOther (allow_conflicts d e bs)
unfolding allow_conflicts
allow_conflicts-IsOther d e [] = refl
allow_conflicts-IsOther d e (b ∷ bs) = let rest = allow_conflicts-IsOther d e bs in ground arith

module _ (dumps : Params → String) where
  modify_conflicts-IsOther :
      (d : String) (es : List Entry) (e : Entry) (os : List Entry)
      → IsOther (modify_conflicts dumps d es e os)
  unfolding modify_conflicts
  modify_conflicts-IsOther d es e [] = refl
  modify_conflicts-IsOther d es e (o ∷ os) =
      let rest = modify_conflicts-IsOther d es e os in
      elim (Bool-cases (not (params_eq o.rule.params e.rule.params))) [
        | inr same ↦ simp same rest
        | inl differ ↦
            elim (Option-cases
              (region_overlap e.region o.region (regions (select (of_type "block") es)))) [
                | inl apart ↦ simp (differ, apart) rest
                | inr (w, met) ↦ simp (differ, met) rest
              ]
      ]

  modify_findings-IsOther :
      (d : String) (es : List Entry) (e : Entry) → IsOther (modify_findings dumps d es e)
  unfolding modify_findings
  modify_findings-IsOther d es e =
      let conflicts = modify_conflicts-IsOther d es e (preferred dumps es e) in
      elim (Bool-cases (is_shadowed dumps es e)) [
        | inl hidden ↦ simp hidden conflicts
        | inr seen ↦ simp seen conflicts
      ]

  entry_findings-IsOther :
      (d : String) (es : List Entry) (e : Entry) → IsOther (entry_findings dumps d es e)
  unfolding entry_findings
  entry_findings-IsOther d es e =
      let blocks = select (of_type "block") es in
      IsOther-append (if of_type "allow" e then allow_conflicts d e blocks else []) _
        (IsOther-if (of_type "allow" e) (allow_conflicts d e blocks)
          (allow_conflicts-IsOther d e blocks))
        (IsOther-append (if of_type "modify" e then modify_findings dumps d es e else []) _
          (IsOther-if (of_type "modify" e) (modify_findings dumps d es e)
            (modify_findings-IsOther d es e))
          last)
    where
      last : IsOther (
          if is_redundant es e
          then record {
            kind = redundant;
            severity = info;
            rule_ids = rid e.rule ∷ [];
            device_type = d;
          }
            ∷ []
          else [])
      last = elim (Bool-cases (is_redundant es e)) [
        | inl same ↦ simp same refl
        | inr new ↦ simp new refl
      ]

  entries_findings-IsOther :
      (d : String) (es os : List Entry) → IsOther (entries_findings dumps d es os)
  unfolding entries_findings
  entries_findings-IsOther d es [] = refl
  entries_findings-IsOther d es (e ∷ os) =
      IsOther-append (entry_findings dumps d es e) _ (entry_findings-IsOther d es e)
        (entries_findings-IsOther d es os)

  pub groups_findings-IsOther : (g : Groups) → IsOther (groups_findings dumps g)
  unfolding groups_findings
  groups_findings-IsOther [] = refl
  groups_findings-IsOther ((d, es) ∷ g) =
      IsOther-append (entries_findings dumps d es es) _ (entries_findings-IsOther d es es)
        (groups_findings-IsOther g)

pub invariant_findings-IsOther :
    (g : Groups) (invs : List Invariant) → IsOther (invariant_findings g invs)
unfolding invariant_findings
invariant_findings-IsOther g [] = refl
invariant_findings-IsOther g (inv ∷ invs) =
    let rest = invariant_findings-IsOther g invs in
    elim (Bool-cases (is_empty (gaps g inv))) [
      | inl holds ↦ simp holds rest
      | inr fails ↦ simp fails rest
    ]

pub mem-other :
    (fs : List Finding) (f : Finding) → IsOther fs → Memᴰ f fs → is_unsatisfiable f ≡ false
mem-other [] f h m = elim m [ ]
mem-other (g ∷ fs) f h (Memᴰ.head e) = ap is_unsatisfiable e ∙ ground arith
mem-other (g ∷ fs) f h (Memᴰ.tail m) = mem-other fs f (ground arith) m
