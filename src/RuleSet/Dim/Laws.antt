-- ===== src/RuleSet/Dim/Laws.antt =====
-- The values that a set of one field holds, whatever the kind of the field.
use device_weave.Prelude.{
  ◌≡◌, refl, Bool, true, false, not, ◌&&◌, List, [], ◌∷◌, arith, any, select, All, All-intro,
  All-map, All-select, Bool-cases, inl, inr, ◌∙◌,
}
use device_weave.Prelude.Text.{String}
use device_weave.Prelude.Int.{ℤ}
use device_weave.RuleSet.Interval
use device_weave.RuleSet.Interval.{Interval}
use device_weave.RuleSet.Interval.Laws
use device_weave.RuleSet.Interval.Whole.{scale, empty_int_sound}
use device_weave.RuleSet.Interval.Bounded.{
  IsBounded, IsProper, IsBounded-IsProper, intersect-IsBounded, minus-IsBounded,
}
use device_weave.RuleSet.Labels.Laws as LabelLaws
use device_weave.RuleSet.Dim.{Kind, Dim, dim_empty, dim_intersect, dim_minus}

-- A value of a field: a number in thousandths, a whole number, a Boolean or a text.
abbrev pub Point : Kind → Type 0
Point Kind.numeric = ℤ
Point Kind.integer = ℤ
Point Kind.boolean = Bool
Point Kind.label = String

unfoldable pub dim_has : (k : Kind) → Dim k → Point k → Bool
dim_has Kind.numeric d v = Laws.contains d v
dim_has Kind.integer d v = Laws.contains d (scale v)
dim_has Kind.boolean d v = LabelLaws.holds d v
dim_has Kind.label d v = LabelLaws.contains d v

-- On the integer field the ends are finite, so that `int_bounds` is defined.
abbrev pub Fits : (k : Kind) → Dim k → Type 0
Fits Kind.numeric d = Unit
Fits Kind.integer d = IsBounded d
Fits Kind.boolean d = Unit
Fits Kind.label d = Unit

pub dim_has-intersect :
    (k : Kind) (a b : Dim k) (v : Point k)
    → dim_has k (dim_intersect k a b) v ≡ (dim_has k a v && dim_has k b v)
unfolding dim_has dim_intersect
dim_has-intersect Kind.numeric a b v = Laws.contains-intersect a b v
dim_has-intersect Kind.integer a b v = Laws.contains-intersect a b (scale v)
dim_has-intersect Kind.boolean a b v = LabelLaws.holds-intersect a b v
dim_has-intersect Kind.label a b v = LabelLaws.contains-intersect a b v

pub dim_empty_sound :
    (k : Kind) (d : Dim k) (v : Point k) → Fits k d → dim_empty k d ≡ true → dim_has k d v ≡ false
unfolding dim_has dim_empty
dim_empty_sound Kind.numeric d v f h = Laws.empty_sound d v h
dim_empty_sound Kind.integer d v f h = empty_int_sound d v f h
dim_empty_sound Kind.boolean d v f h = LabelLaws.bools_empty_sound d v h
dim_empty_sound Kind.label d v f h = LabelLaws.empty_sound d v h

-- To leave out the sets that hold nothing changes no value.
any-nonempty :
    {A : Type 0} (has gone : A → Bool) (xs : List A)
    → All (λ x. gone x ≡ true → has x ≡ false) xs
    → any has (select (λ x. not (gone x)) xs) ≡ any has xs
any-nonempty has gone [] h = refl
any-nonempty has gone (x ∷ xs) (p, h) = elim (Bool-cases (gone x)) [
  | inl empty ↦ simp empty (ground (arith, p empty, any-nonempty has gone xs h))
  | inr kept ↦ simp kept (ground (arith, any-nonempty has gone xs h))
]

pub dim_has-minus :
    (k : Kind) (a b : Dim k) (v : Point k)
    → Fits k a
    → Fits k b
    → any (λ d. dim_has k d v) (dim_minus k a b) ≡ (dim_has k a v && not (dim_has k b v))
unfolding dim_has dim_minus
dim_has-minus Kind.numeric a b v p q =
    any-nonempty (λ d. Laws.contains d v) (Interval.empty false) (Interval.minus a b)
      (All-intro _ (Interval.minus a b) (λ d h. Laws.empty_sound d v h))
    ∙ Laws.contains-minus a b v
dim_has-minus Kind.integer a b v p q =
    any-nonempty (λ d. Laws.contains d (scale v)) (Interval.empty true) (Interval.minus a b)
      (All-map IsBounded _ (Interval.minus a b) (λ d f h. empty_int_sound d v f h)
        (minus-IsBounded a b p q))
    ∙ Laws.contains-minus a b (scale v)
dim_has-minus Kind.boolean a b v p q = LabelLaws.holds-minus a b v
dim_has-minus Kind.label a b v p q = LabelLaws.contains-minus a b v

pub dim_intersect-Fits :
    (k : Kind) (a b : Dim k) → Fits k a → Fits k b → Fits k (dim_intersect k a b)
unfolding dim_intersect
dim_intersect-Fits Kind.numeric a b p q = tt
dim_intersect-Fits Kind.integer a b p q = intersect-IsBounded a b p (IsBounded-IsProper b q)
dim_intersect-Fits Kind.boolean a b p q = tt
dim_intersect-Fits Kind.label a b p q = tt

pub dim_minus-Fits : (k : Kind) (a b : Dim k) → Fits k a → Fits k b → All (Fits k) (dim_minus k a b)
unfolding dim_minus
dim_minus-Fits Kind.numeric a b p q = All-intro _ _ (λ d. tt)
dim_minus-Fits Kind.integer a b p q = All-select _ _ (Interval.minus a b) (minus-IsBounded a b p q)
dim_minus-Fits Kind.boolean a b p q = All-intro _ _ (λ d. tt)
dim_minus-Fits Kind.label a b p q = All-intro _ _ (λ d. tt)

-- A set of a condition may have an infinite end on its outer side.
abbrev pub IsOuter : (k : Kind) → Dim k → Type 0
IsOuter Kind.numeric d = Unit
IsOuter Kind.integer d = IsProper d
IsOuter Kind.boolean d = Unit
IsOuter Kind.label d = Unit

pub dim_narrow-Fits :
    (k : Kind) (a b : Dim k) → Fits k a → IsOuter k b → Fits k (dim_intersect k a b)
unfolding dim_intersect
dim_narrow-Fits Kind.numeric a b p q = tt
dim_narrow-Fits Kind.integer a b p q = intersect-IsBounded a b p q
dim_narrow-Fits Kind.boolean a b p q = tt
dim_narrow-Fits Kind.label a b p q = tt
