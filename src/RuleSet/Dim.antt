-- ===== src/RuleSet/Dim.antt =====
-- The fields of a context and the sets of their values: `FIELDS`, `NUMERIC_DOMAINS`, `_full`,
-- `_dim_empty`, `_dim_intersect` and `_dim_minus` of policy_authoring/rule_set_checker.py.
pub mod Laws
use device_weave.Prelude.{Bool, true, false, not, none, List, [], ◌∷◌, select}
use device_weave.Prelude.Int.{ℤ, pos, negsuc}
use device_weave.RuleSet.Interval
use device_weave.RuleSet.Interval.{Interval, fin}
use device_weave.RuleSet.Labels
use device_weave.RuleSet.Labels.{StringSet, BoolSet}

pub data Field : Type 0 where
  temperature humidity cloud_cover_pct time_hour is_home is_overcast room : Field

abbrev pub fields : List Field
fields =
    Field.temperature ∷ Field.humidity ∷ Field.cloud_cover_pct ∷ Field.time_hour ∷ Field.is_home
    ∷ Field.is_overcast ∷ Field.room ∷ []

-- What kind of value a field has. The source asks for the class of the set instead.
pub data Kind : Type 0 where
  numeric integer boolean label : Kind

abbrev pub kind : Field → Kind
kind Field.temperature = Kind.numeric
kind Field.humidity = Kind.numeric
kind Field.cloud_cover_pct = Kind.numeric
kind Field.time_hour = Kind.integer
kind Field.is_home = Kind.boolean
kind Field.is_overcast = Kind.boolean
kind Field.room = Kind.label

abbrev pub Dim : Kind → Type 0
Dim Kind.numeric = Interval
Dim Kind.integer = Interval
Dim Kind.boolean = BoolSet
Dim Kind.label = StringSet

-- A closed interval between two numbers of thousandths.
abbrev pub closed : ℤ → ℤ → Interval
closed lo hi = record { lo = fin lo; hi = fin hi; lo_closed = true; hi_closed = true }

abbrev pub everything : BoolSet
everything = record { has_true = true; has_false = true }

unfoldable pub full : (f : Field) → Dim (kind f)
full Field.temperature = closed (negsuc 79_999) (pos 150_000)
full Field.humidity = closed (pos 0) (pos 100_000)
full Field.cloud_cover_pct = closed (pos 0) (pos 100_000)
full Field.time_hour = closed (pos 0) (pos 23_000)
full Field.is_home = everything
full Field.is_overcast = everything
full Field.room = record { include = none; exclude = [] }

unfoldable pub dim_empty : (k : Kind) → Dim k → Bool
dim_empty Kind.numeric d = Interval.empty false d
dim_empty Kind.integer d = Interval.empty true d
dim_empty Kind.boolean d = Labels.bools_empty d
dim_empty Kind.label d = Labels.empty d

unfoldable pub dim_intersect : (k : Kind) → Dim k → Dim k → Dim k
dim_intersect Kind.numeric a b = Interval.intersect a b
dim_intersect Kind.integer a b = Interval.intersect a b
dim_intersect Kind.boolean a b = Labels.bools_intersect a b
dim_intersect Kind.label a b = Labels.intersect a b

unfoldable pub dim_minus : (k : Kind) → Dim k → Dim k → List (Dim k)
dim_minus Kind.numeric a b = select (λ p. not (Interval.empty false p)) (Interval.minus a b)
dim_minus Kind.integer a b = select (λ p. not (Interval.empty true p)) (Interval.minus a b)
dim_minus Kind.boolean a b = Labels.bools_minus a b
dim_minus Kind.label a b = Labels.minus a b
