-- ===== src/RuleSet/Analyze.antt =====
-- `analyze` and `region_overlap` of policy_authoring/rule_set_checker.py. A finding carries its
-- kind, severity, rule ids and device; its message and its witness context are left out. The
-- rendering of parameters in `rule_winner_key` is the parameter `dumps`.
pub mod Groups
pub mod Invariants
pub mod Shadowed
pub mod Others
pub mod Unsatisfiable
use device_weave.Prelude.{
  ℕ, ◌+◌, Bool, true, false, not, ◌&&◌, ◌||◌, Option, none, some, List, [], ◌∷◌, ◌++◌, map, select,
  length, all, ◌==◌, if◌then◌else◌,
}
use device_weave.Prelude.Text.{String, str_eq, str_in}
use device_weave.Policy.Data.{Value, Params, Dict, get, Condition, Rule}
use device_weave.Policy.Condition.{value_eq}
use device_weave.Policy.Evaluator.{key_lt, rule_winner_key}
use device_weave.RuleSet.Box.{Box, box_intersect, Region, is_empty, region_minus}
use device_weave.RuleSet.Region.{rule_region}

-- The first box of a list that `region_minus` leaves.
abbrev pub first : Region → Option Box
first [] = none
first (b ∷ _) = some b

abbrev or_else : Option Box → Option Box → Option Box
or_else none o = o
or_else (some b) o = some b

-- What `x` and `y` share outside the boxes of `exclude`.
unfoldable pub shared : Box → Box → List Box → Option Box
shared x y exclude = elim (box_intersect x y) [
  | none ↦ none
  | some i ↦ first (region_minus (i ∷ []) exclude)
]

unfoldable pub overlap_with : Box → Region → List Box → Option Box
overlap_with x [] exclude = none
overlap_with x (y ∷ ys) exclude = or_else (shared x y exclude) (overlap_with x ys exclude)

unfoldable pub region_overlap : Region → Region → List Box → Option Box
region_overlap [] b exclude = none
region_overlap (x ∷ xs) b exclude = or_else (overlap_with x b exclude) (region_overlap xs b exclude)

pub data FindingKind : Type 0 where
  unsatisfiable shadowed conflict_block_allow conflict_modify redundant : FindingKind
  invariant_violated : FindingKind

pub data Severity : Type 0 where
  error warning info : Severity

pub record Finding : Type 0 where
  pub kind : FindingKind
  pub severity : Severity
  pub rule_ids : List String
  pub device_type : String

pub record Invariant : Type 0 where
  pub name : String
  pub device_type : String
  pub conditions : List Condition

abbrev pub text_or_none : Option String → String
text_or_none none = "None"
text_or_none (some s) = s

-- `_rid`; a rule has the key, and the value may be `None`.
abbrev pub rid : Rule → String
rid r = text_or_none r.rule_id

-- `_device`: where the scope names no device type, or a blank one, the stored one counts.
unfoldable pub device : Rule → String
device r = elim r.device_type [
  | none ↦ text_or_none r.stored_type
  | some scope ↦ if str_eq scope "" then text_or_none r.stored_type else scope
]

-- `a == b` of two dicts.
unfoldable pub params_eq : Params → Params → Bool
params_eq a b =
    length a == length b && all (λ e. elim (get b e.0) [ none ↦ false | some w ↦ value_eq e.1 w ]) a

-- A rule with its region. `index` is its place in the list and stands for the object's identity.
pub record Entry : Type 0 where
  pub index : ℕ
  pub rule : Rule
  pub region : Region

abbrev pub Groups : Type 0
Groups = Dict (List Entry)

-- `by_device.setdefault(d, []).append(e)`
unfoldable pub append_entry : Groups → String → Entry → Groups
append_entry [] d e = (d, e ∷ []) ∷ []
append_entry ((k, es) ∷ g) d e =
    let rest = append_entry g d e in if str_eq k d then (k, es ++ e ∷ []) ∷ g else (k, es) ∷ rest

abbrev pub unsatisfiable_finding : Rule → Finding
unsatisfiable_finding r = record {
  kind = unsatisfiable;
  severity = error;
  rule_ids = rid r ∷ [];
  device_type = device r;
}

-- The first loop: the rules that match nothing, and the others by device.
unfoldable pub unsatisfied : List Rule → List Finding
unsatisfied [] = []
unsatisfied (r ∷ rs) =
    let rest = unsatisfied rs in
    if is_empty (rule_region r.conditions) then unsatisfiable_finding r ∷ rest else rest

abbrev pub entry : ℕ → Rule → Entry
entry i r = record { index = i; rule = r; region = rule_region r.conditions }

unfoldable pub group : ℕ → List Rule → Groups → Groups
group i [] g = g
group i (r ∷ rs) g =
    group (i + 1) rs
      (if is_empty (rule_region r.conditions) then g else append_entry g (device r) (entry i r))

abbrev pub of_type : String → Entry → Bool
of_type kind e = str_eq e.rule.action_type kind

abbrev pub regions : List Entry → Region
regions [] = []
regions (e ∷ es) = e.region ++ regions es

abbrev pub other : Entry → Entry → Bool
other e f = not (f.index == e.index)

module _ (dumps : Params → String) where
  -- The modifiers with a lower key than the rule's.
  unfoldable pub preferred : List Entry → Entry → List Entry
  preferred es e =
      select (λ f. key_lt (rule_winner_key dumps f.rule) (rule_winner_key dumps e.rule))
        (select (λ f. of_type "modify" f && other e f) es)

  unfoldable pub is_shadowed : List Entry → Entry → Bool
  is_shadowed es e =
      is_empty
        (region_minus e.region (regions (select (of_type "block") es) ++ regions (preferred es e)))

  -- Where a block also matches, neither modifier applies.
  unfoldable pub modify_conflicts : String → List Entry → Entry → List Entry → List Finding
  modify_conflicts d es e [] = []
  modify_conflicts d es e (o ∷ os) =
      let rest = modify_conflicts d es e os in
      if not (params_eq o.rule.params e.rule.params)
      then elim (region_overlap e.region o.region (regions (select (of_type "block") es))) [
        | none ↦ rest
        | some w ↦
            record {
              kind = conflict_modify;
              severity = warning;
              rule_ids = rid o.rule ∷ rid e.rule ∷ [];
              device_type = d;
            }
            ∷ rest
      ]
      else rest

unfoldable pub allow_conflicts : String → Entry → List Entry → List Finding
allow_conflicts d e [] = []
allow_conflicts d e (b ∷ bs) =
    let rest = allow_conflicts d e bs in
    elim (region_overlap e.region b.region []) [
      | none ↦ rest
      | some w ↦
          record {
            kind = conflict_block_allow;
            severity = warning;
            rule_ids = rid e.rule ∷ rid b.rule ∷ [];
            device_type = d;
          }
          ∷ rest
    ]

-- The rules with the same effect as the entry's.
unfoldable pub same_effect : List Entry → Entry → List Entry
same_effect es e =
    select
      (λ f.
        other e f
        && (str_eq f.rule.action_type e.rule.action_type
            && (not (of_type "modify" e) || params_eq f.rule.params e.rule.params)))
      es

unfoldable pub is_redundant : List Entry → Entry → Bool
is_redundant es e =
    let same = regions (same_effect es e) in
    not (is_empty same) && is_empty (region_minus e.region same)

module _ (dumps : Params → String) where
  unfoldable pub modify_findings : String → List Entry → Entry → List Finding
  modify_findings d es e =
      let conflicts = modify_conflicts dumps d es e (preferred dumps es e) in
      if is_shadowed dumps es e
      then record {
        kind = shadowed;
        severity = warning;
        rule_ids =
            rid e.rule
            ∷ (map (λ f. rid f.rule) (select (of_type "block") es)
                ++ map (λ f. rid f.rule) (preferred dumps es e));
        device_type = d;
      }
        ∷ conflicts
      else conflicts

  -- One round of the loop over the rules of a device.
  unfoldable pub entry_findings : String → List Entry → Entry → List Finding
  entry_findings d es e =
      (if of_type "allow" e then allow_conflicts d e (select (of_type "block") es) else [])
      ++ ((if of_type "modify" e then modify_findings d es e else [])
          ++ (if is_redundant es e
              then record {
                kind = redundant;
                severity = info;
                rule_ids = rid e.rule ∷ [];
                device_type = d;
              }
                ∷ []
              else []))

  unfoldable pub entries_findings : String → List Entry → List Entry → List Finding
  entries_findings d es [] = []
  entries_findings d es (e ∷ rest) = entry_findings d es e ++ entries_findings d es rest

  unfoldable pub groups_findings : Groups → List Finding
  groups_findings [] = []
  groups_findings ((d, es) ∷ g) = entries_findings d es es ++ groups_findings g

abbrev pub or_nil : Option (List Entry) → List Entry
or_nil none = []
or_nil (some es) = es

abbrev pub entries_for : Groups → String → List Entry
entries_for g d = or_nil (get g d)

-- The contexts of an invariant that no block covers.
unfoldable pub gaps : Groups → Invariant → Region
gaps g inv =
    region_minus (rule_region inv.conditions)
      (regions (select (of_type "block") (entries_for g inv.device_type)))

abbrev pub violation : Invariant → Finding
violation inv = record {
  kind = invariant_violated;
  severity = error;
  rule_ids = [];
  device_type = inv.device_type;
}

unfoldable pub invariant_findings : Groups → List Invariant → List Finding
invariant_findings g [] = []
invariant_findings g (inv ∷ invs) =
    let rest = invariant_findings g invs in
    if is_empty (gaps g inv) then rest else violation inv ∷ rest

unfoldable pub analyze : (Params → String) → List Rule → List Invariant → List Finding
analyze dumps rules invariants =
    unsatisfied rules
    ++ (groups_findings dumps (group 0 rules [])
        ++ invariant_findings (group 0 rules []) invariants)

-- The findings of `check_new_rule` before it turns to controllability.
abbrev pub is_violation : Finding → Bool
is_violation f = elim f.kind [ invariant_violated ↦ true | _ ↦ false ]

unfoldable pub check_new_rule : (Params → String) → Rule → List Rule → List Invariant → List Finding
check_new_rule dumps new_rule existing invariants =
    let rules =
      new_rule
      ∷ select (λ r. str_eq (device r) (device new_rule) && not (str_eq (rid r) (rid new_rule)))
          existing in
    select (λ f. str_in (rid new_rule) f.rule_ids || is_violation f)
      (analyze dumps rules invariants)
