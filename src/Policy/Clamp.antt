-- ===== src/Policy/Clamp.antt =====
-- policy_engine/param_clamp.py: numeric parameters inside a device's declared ranges. Every number
-- is finite, and `_snap` is the identity on thousandths.
pub mod Bounds
use device_weave.Prelude.{
  Bool, true, false, not, ◌&&◌, ◌||◌, Option, none, some, List, [], ◌∷◌, if◌then◌else◌,
}
use device_weave.Prelude.Int.{ℤ, pos, ltb_ℤ}
use device_weave.Prelude.Text.{String, str_eq}
use device_weave.Policy.Data.{Value, null, bool, num, str, Dict, get, Params}

-- A declared range: a list or tuple, a mapping, or something else.
pub data RangeSpec : Type 0 where
  sequence : List Value → RangeSpec
  mapping : Dict Value → RangeSpec
  other : RangeSpec

-- A device of the catalog. `capability_ranges` is `none` where it is missing or no mapping.
pub record Device : Type 0 where
  pub id : String
  pub name : String
  pub device_type : String
  pub capabilities : List String
  pub capability_ranges : Option (Dict RangeSpec)

-- The two sides of a range.
pub record Bound : Type 0 where
  pub lo : Option ℤ
  pub hi : Option ℤ

abbrev pub default_ranges : Dict Bound
default_ranges = ("brightness", record { lo = some (pos 0); hi = some (pos 100000) }) ∷ []

-- `_bound` of an entry that may be missing.
unfoldable pub bound : Option Value → Option ℤ
bound (some (num x)) = some x
bound _ = none

abbrev pub is_some {ℓ} : {A : Type ℓ} → Option A → Bool
is_some none = false
is_some (some _) = true

-- An entry that is there, is not null and is no number.
unfoldable pub is_unreadable : Option Value → Bool
is_unreadable none = false
is_unreadable (some null) = false
is_unreadable (some (num _)) = false
is_unreadable (some _) = true

-- The last two tests of `_parse_range`.
unfoldable pub checked : Option ℤ → Option ℤ → Option Bound
checked none none = none
checked (some lo) (some hi) =
    if ltb_ℤ hi lo then none else some (record { lo = some lo; hi = some hi })
checked lo hi = some (record { lo = lo; hi = hi })

unfoldable pub parse_range : RangeSpec → Option Bound
unfolding bound is_unreadable checked
parse_range (sequence (a ∷ b ∷ [])) = checked (bound (some a)) (bound (some b))
parse_range (sequence _) = none
parse_range (mapping d) =
    let lo = get d "min" in
    let hi = get d "max" in
    if is_unreadable lo || is_unreadable hi then none else checked (bound lo) (bound hi)
parse_range other = none

-- A side that the mapping does not name keeps the range before it.
unfoldable pub keep_sides : Dict Value → Bound → Bound → Bound
unfolding get
keep_sides d old new = record {
  lo = if is_some (get d "min") then new.lo else old.lo;
  hi = if is_some (get d "max") then new.hi else old.hi;
}

unfoldable pub merge : Option Bound → RangeSpec → Bound → Bound
unfolding keep_sides
merge (some old) (mapping d) new = keep_sides d old new
merge _ _ new = new

-- The loop over the declared ranges.
unfoldable pub declare : Dict Bound → Dict RangeSpec → Dict Bound
unfolding parse_range merge get
declare ranges [] = ranges
declare ranges ((key, spec) ∷ rest) = elim (parse_range spec) [
  | none ↦ declare ranges rest
  | some b ↦ declare ((key, merge (get ranges key) spec b) ∷ ranges) rest
]

unfoldable pub capability_ranges : Option Device → Dict Bound
unfolding declare
capability_ranges none = default_ranges
capability_ranges (some device) = elim device.capability_ranges [
  | none ↦ default_ranges
  | some declared ↦ declare default_ranges declared
]

unfoldable pub raise_to : Option ℤ → ℤ → ℤ
raise_to none x = x
raise_to (some lo) x = if ltb_ℤ x lo then lo else x

unfoldable pub lower_to : Option ℤ → ℤ → ℤ
lower_to none x = x
lower_to (some hi) x = if ltb_ℤ hi x then hi else x

unfoldable pub clamp : Option Bound → Value → Value
unfolding raise_to lower_to
clamp (some b) (num x) = num (lower_to b.hi (raise_to b.lo x))
clamp _ v = v

unfoldable pub clamp_params : Dict Bound → Params → Params
unfolding clamp get
clamp_params ranges [] = []
clamp_params ranges ((key, value) ∷ rest) =
    (key, clamp (get ranges key) value) ∷ clamp_params ranges rest

unfoldable pub clamp_numeric_params : Option Params → Option Device → Params
unfolding clamp_params capability_ranges
clamp_numeric_params none device = []
clamp_numeric_params (some params) device = clamp_params (capability_ranges device) params
