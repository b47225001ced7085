-- ===== src/RuleSet/Labels/Laws.antt =====
-- The labels that a `StringSet` holds, and that its operations are those on sets of labels.
use device_weave.Prelude.{
  ◌≡◌, refl, Bool, true, false, not, ◌&&◌, Option, none, some, List, [], ◌∷◌, arith, any, ap, ◌∙◌,
  Bool-cases, inl, inr, if◌then◌else◌, select,
}
use device_weave.Prelude.Text.{String, str_eq, str_in, eq_iff, str_in-append}
use device_weave.RuleSet.Labels.{
  common, diff, is_nil, StringSet, empty, both_included, intersect, complement_of, complement,
  unless_empty, minus, BoolSet, bools_empty, bools_intersect, bools_minus,
}

unfoldable pub included : Option (List String) → String → Bool
included none v = true
included (some xs) v = str_in v xs

unfoldable pub contains : StringSet → String → Bool
contains s v = included s.include v && not (str_in v s.exclude)

-- A label that equals another passes the tests that it passes.
same_test : (v x : String) (p : String → Bool) → str_eq v x ≡ true → p v ≡ p x
same_test v x p h = ap p ((eq_iff v x).0 h)

str_in-select :
    (v : String) (p : String → Bool) (xs : List String)
    → str_in v (select p xs) ≡ (str_in v xs && p v)
str_in-select v p [] = refl
str_in-select v p (x ∷ xs) = elim (Bool-cases (p x)) [
  | inl kept ↦ rw (kept, if◌then◌else◌) (ground (arith, str_in-select v p xs, same_test v x p))
  | inr dropped ↦
      rw (dropped, if◌then◌else◌) (ground (arith, str_in-select v p xs, same_test v x p))
]

str_in-common :
    (v : String) (xs ys : List String) → str_in v (common xs ys) ≡ (str_in v xs && str_in v ys)
unfolding common
str_in-common v xs ys = str_in-select v (λ x. str_in x ys) xs

str_in-diff :
    (v : String) (xs ys : List String) → str_in v (diff xs ys) ≡ (str_in v xs && not (str_in v ys))
unfolding diff
str_in-diff v xs ys = str_in-select v (λ x. not (str_in x ys)) xs

included-both :
    (a b : Option (List String)) (v : String)
    → included (both_included a b) v ≡ (included a v && included b v)
unfolding included both_included
included-both none b v = refl
included-both (some xs) none v = ground arith
included-both (some xs) (some ys) v = str_in-common v xs ys

pub contains-intersect :
    (a b : StringSet) (v : String) → contains (intersect a b) v ≡ (contains a v && contains b v)
unfolding contains intersect
contains-intersect a b v =
    ground (arith, included-both a.include b.include v, str_in-append v a.exclude b.exclude)

contains-complement_of :
    (i : Option (List String)) (e : List String) (v : String)
    → contains (complement_of i e) v ≡ not (included i v && not (str_in v e))
unfolding contains complement_of included
contains-complement_of none [] v = refl
contains-complement_of none (x ∷ xs) v = ground arith
contains-complement_of (some xs) ys v = ground (arith, str_in-diff v xs ys)

contains-complement : (s : StringSet) (v : String) → contains (complement s) v ≡ not (contains s v)
unfolding complement
contains-complement s v = contains-complement_of s.include s.exclude v ∙ (unfold contains in refl)

-- A difference with nothing left in it holds no label.
is_nil-str_in : (v : String) (xs : List String) → is_nil xs ≡ true → str_in v xs ≡ false
is_nil-str_in v [] h = refl
is_nil-str_in v (x ∷ xs) h = cc

contains-nil :
    (i : Option (List String)) (e : List String) (v : String)
    → empty (record { include = i; exclude = e }) ≡ true
    → (included i v && not (str_in v e)) ≡ false
unfolding empty included
contains-nil none e v h = cc
contains-nil (some xs) e v h =
    let left : str_in v (diff xs e) ≡ false = ground (arith, is_nil-str_in v (diff xs e)) in
    ground (arith, str_in-diff v xs e)

pub empty_sound : (s : StringSet) (v : String) → empty s ≡ true → contains s v ≡ false
unfolding empty contains
empty_sound s v h = ground (arith, contains-nil s.include s.exclude v)

contains-unless_empty :
    (s : StringSet) (v : String) → any (λ t. contains t v) (unless_empty s) ≡ contains s v
unfolding unless_empty
contains-unless_empty s v = ground (arith, empty_sound s v)

pub contains-minus :
    (a b : StringSet) (v : String)
    → any (λ s. contains s v) (minus a b) ≡ (contains a v && not (contains b v))
unfolding minus
contains-minus a b v =
    rw (contains-unless_empty (intersect a (complement b)) v)
      (rw (contains-intersect a (complement b) v, contains-complement b v) refl)

-- A set of Booleans.
unfoldable pub holds : BoolSet → Bool → Bool
holds s true = s.has_true
holds s false = s.has_false

pub holds-intersect :
    (a b : BoolSet) (v : Bool) → holds (bools_intersect a b) v ≡ (holds a v && holds b v)
unfolding holds bools_intersect
holds-intersect a b true = refl
holds-intersect a b false = refl

pub bools_empty_sound : (s : BoolSet) (v : Bool) → bools_empty s ≡ true → holds s v ≡ false
unfolding holds bools_empty
bools_empty_sound s true h = ground arith
bools_empty_sound s false h = ground arith

pub holds-minus :
    (a b : BoolSet) (v : Bool)
    → any (λ s. holds s v) (bools_minus a b) ≡ (holds a v && not (holds b v))
unfolding holds bools_minus bools_empty
holds-minus a b true = ground arith
holds-minus a b false = ground arith
