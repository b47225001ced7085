-- ===== src/RuleSet/Region.antt =====
-- Rules as regions of contexts: `_condition_dims` and `rule_region` of
-- policy_authoring/rule_set_checker.py.
pub mod Matches
pub mod Exact
use device_weave.Prelude.{
  Bool, true, false, not, Option, none, some, List, [], ◌∷◌, ◌++◌, if◌then◌else◌,
}
use device_weave.Prelude.Int.{ℤ}
use device_weave.Prelude.Text.{String, str_eq}
use device_weave.Policy.Data.{Value, null, bool, num, str, Condition}
use device_weave.Policy.Condition.{Operator, operator_of}
use device_weave.RuleSet.Interval.{Interval, Ext, neg_inf, pos_inf, fin}
use device_weave.RuleSet.Labels.{StringSet, BoolSet}
use device_weave.RuleSet.Dim.{Field, Kind, kind, Dim, full, dim_empty, dim_intersect}
use device_weave.RuleSet.Box.{Box, put, Region, is_empty}

-- A field of `FIELDS` by its name.
unfoldable pub field_of : Option String → Option Field
field_of none = none
field_of (some s) =
    if str_eq s "temperature"
    then some Field.temperature
    else if str_eq s "humidity"
    then some Field.humidity
    else if str_eq s "cloud_cover_pct"
    then some Field.cloud_cover_pct
    else if str_eq s "time_hour"
    then some Field.time_hour
    else if str_eq s "is_home"
    then some Field.is_home
    else if str_eq s "is_overcast"
    then some Field.is_overcast
    else if str_eq s "room"
    then some Field.room
    else none

abbrev pub between : Ext → Ext → Bool → Bool → Interval
between lo hi lc hc = record { lo = lo; hi = hi; lo_closed = lc; hi_closed = hc }

-- The table of intervals.
unfoldable pub intervals : Operator → ℤ → List Interval
intervals Operator.gt v = between (fin v) pos_inf false false ∷ []
intervals Operator.ge v = between (fin v) pos_inf true false ∷ []
intervals Operator.lt v = between neg_inf (fin v) false false ∷ []
intervals Operator.le v = between neg_inf (fin v) false true ∷ []
intervals Operator.eq v = between (fin v) (fin v) true true ∷ []
intervals Operator.ne v =
    between neg_inf (fin v) false false ∷ between (fin v) pos_inf false false ∷ []

-- A value that is no number is `nan`, and a condition on it has no interval.
unfoldable pub numeric_dims : Option Operator → Value → List Interval
unfolding intervals
numeric_dims (some op) (num v) = intervals op v
numeric_dims _ _ = []

abbrev only : Bool → BoolSet
only b = record { has_true = b; has_false = not b }

unfoldable pub boolean_dims : Option Operator → Value → List BoolSet
boolean_dims (some Operator.eq) (bool b) = only b ∷ []
boolean_dims (some Operator.ne) (bool b) = only (not b) ∷ []
boolean_dims _ _ = []

unfoldable pub label_dims : Option Operator → Value → List StringSet
label_dims (some Operator.eq) (str s) =
    if str_eq s "" then [] else record { include = some (s ∷ []); exclude = [] } ∷ []
label_dims (some Operator.ne) (str s) =
    if str_eq s "" then [] else record { include = none; exclude = s ∷ [] } ∷ []
label_dims _ _ = []

unfoldable pub condition_dims : (k : Kind) → Option Operator → Value → List (Dim k)
unfolding numeric_dims boolean_dims label_dims
condition_dims Kind.numeric op v = numeric_dims op v
condition_dims Kind.integer op v = numeric_dims op v
condition_dims Kind.boolean op v = boolean_dims op v
condition_dims Kind.label op v = label_dims op v

-- `box` narrowed by each set of `dims`, less what is empty.
unfoldable pub narrow_box : Box → (f : Field) → List (Dim (kind f)) → List Box
narrow_box b f [] = []
narrow_box b f (d ∷ ds) =
    let part = dim_intersect (kind f) (b f) d in
    let rest = narrow_box b f ds in if dim_empty (kind f) part then rest else put b f part ∷ rest

unfoldable pub narrow : Region → (f : Field) → List (Dim (kind f)) → Region
narrow [] f ds = []
narrow (b ∷ bs) f ds = narrow_box b f ds ++ narrow bs f ds

unfoldable pub narrow_by : Region → Condition → Region
narrow_by boxes cond = elim (field_of cond.field) [
  | none ↦ []
  | some f ↦ narrow boxes f (condition_dims (kind f) (operator_of cond.operator) cond.value)
]

-- The loop of `rule_region` over the conditions.
unfoldable pub region_from : Region → List Condition → Region
region_from boxes [] = boxes
region_from boxes (cond ∷ conds) =
    let next = narrow_by boxes cond in
    let more = region_from next conds in if is_empty next then [] else more

unfoldable pub rule_region : List Condition → Region
rule_region conds = region_from (full ∷ []) conds
