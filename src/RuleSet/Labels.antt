-- ===== src/RuleSet/Labels.antt =====
-- `class StringSet` of policy_authoring/rule_set_checker.py, and the sets of Booleans. A frozenset
-- of labels is a list of them; only membership is read.
pub mod Laws
use device_weave.Prelude.{
  Bool, true, false, not, ◌&&◌, ◌||◌, Option, none, some, List, [], ◌∷◌, ◌++◌, select,
  if◌then◌else◌,
}
use device_weave.Prelude.Text.{String, str_in}

-- `self & other` and `self - other` of two frozensets.
unfoldable pub common : List String → List String → List String
common xs ys = select (λ x. str_in x ys) xs

unfoldable pub diff : List String → List String → List String
diff xs ys = select (λ x. not (str_in x ys)) xs

abbrev pub is_nil : List String → Bool
is_nil [] = true
is_nil (_ ∷ _) = false

-- `include` of `none` is every label.
pub record StringSet : Type 0 where
  pub include : Option (List String)
  pub exclude : List String

unfoldable pub empty : StringSet → Bool
unfolding diff
empty s = elim s.include [ none ↦ false | some xs ↦ is_nil (diff xs s.exclude) ]

unfoldable pub both_included : Option (List String) → Option (List String) → Option (List String)
unfolding common
both_included none ys = ys
both_included (some xs) none = some xs
both_included (some xs) (some ys) = some (common xs ys)

unfoldable pub intersect : StringSet → StringSet → StringSet
unfolding both_included
intersect a b = record {
  include = both_included a.include b.include;
  exclude = a.exclude ++ b.exclude;
}

unfoldable pub complement_of : Option (List String) → List String → StringSet
unfolding diff
complement_of none [] = record { include = some []; exclude = [] }
complement_of none (x ∷ xs) = record { include = some (x ∷ xs); exclude = [] }
complement_of (some xs) ys = record { include = none; exclude = diff xs ys }

unfoldable pub complement : StringSet → StringSet
unfolding complement_of
complement s = complement_of s.include s.exclude

unfoldable pub unless_empty : StringSet → List StringSet
unless_empty s = if empty s then [] else s ∷ []

unfoldable pub minus : StringSet → StringSet → List StringSet
minus a b = unless_empty (intersect a (complement b))

-- A frozenset of Booleans.
pub record BoolSet : Type 0 where
  pub has_true : Bool
  pub has_false : Bool

unfoldable pub bools_empty : BoolSet → Bool
bools_empty s = not (s.has_true || s.has_false)

unfoldable pub bools_intersect : BoolSet → BoolSet → BoolSet
bools_intersect a b = record {
  has_true = a.has_true && b.has_true;
  has_false = a.has_false && b.has_false;
}

unfoldable pub bools_minus : BoolSet → BoolSet → List BoolSet
unfolding bools_empty
bools_minus a b =
    let rest : BoolSet = record {
      has_true = a.has_true && not b.has_true;
      has_false = a.has_false && not b.has_false;
    } in
    if bools_empty rest then [] else rest ∷ []
