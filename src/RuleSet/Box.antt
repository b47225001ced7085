-- ===== src/RuleSet/Box.antt =====
-- Boxes and regions of contexts: `box_empty`, `box_intersect`, `box_minus`, `region_minus` and
-- `region_overlap` of policy_authoring/rule_set_checker.py. A box is a set for each field.
pub mod Laws
pub mod Minus
use device_weave.Prelude.{
  Bool, true, false, Option, none, some, List, [], ◌∷◌, ◌++◌, map, any, if◌then◌else◌,
}
use device_weave.RuleSet.Dim.{
  Field, fields, Kind, kind, Dim, full, dim_empty, dim_intersect, dim_minus,
}

abbrev pub Box : Type 0
Box = (f : Field) → Dim (kind f)

-- `nb = dict(b); nb[field] = d`
unfoldable pub put : Box → (f : Field) → Dim (kind f) → Box
put b Field.temperature d Field.temperature = d
put b Field.temperature d g = b g
put b Field.humidity d Field.humidity = d
put b Field.humidity d g = b g
put b Field.cloud_cover_pct d Field.cloud_cover_pct = d
put b Field.cloud_cover_pct d g = b g
put b Field.time_hour d Field.time_hour = d
put b Field.time_hour d g = b g
put b Field.is_home d Field.is_home = d
put b Field.is_home d g = b g
put b Field.is_overcast d Field.is_overcast = d
put b Field.is_overcast d g = b g
put b Field.room d Field.room = d
put b Field.room d g = b g

unfoldable pub box_empty : Box → Bool
unfolding dim_empty
box_empty b = any (λ f. dim_empty (kind f) (b f)) fields

abbrev pub meet : Box → Box → Box
meet a b f = dim_intersect (kind f) (a f) (b f)

unfoldable pub box_intersect : Box → Box → Option Box
box_intersect a b = if box_empty (meet a b) then none else some (meet a b)

-- The loop of `box_minus` over the fields that are left.
unfoldable pub minus_fields : List Field → Box → Box → List Box
minus_fields [] rest b = []
minus_fields (f ∷ fs) rest b =
    map (λ part. put rest f part) (dim_minus (kind f) (rest f) (b f))
    ++ minus_fields fs (put rest f (dim_intersect (kind f) (rest f) (b f))) b

unfoldable pub box_minus : Box → Box → List Box
box_minus a b = elim (box_intersect a b) [ none ↦ a ∷ [] | some _ ↦ minus_fields fields a b ]

abbrev pub Region : Type 0
Region = List Box

-- One round of `region_minus`.
unfoldable pub minus_each : Region → Box → Region
minus_each [] b = []
minus_each (r ∷ rs) b = box_minus r b ++ minus_each rs b

abbrev pub is_empty : Region → Bool
is_empty [] = true
is_empty (_ ∷ _) = false

unfoldable pub region_minus : Region → List Box → Region
region_minus region [] = region
region_minus region (b ∷ bs) =
    let rest = minus_each region b in
    let more = region_minus rest bs in if is_empty rest then rest else more
