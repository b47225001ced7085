-- ===== src/RuleSet/Box/Minus.antt =====
-- `box_minus` and `region_minus` of rule_set_checker.py subtract sets of contexts.
use device_weave.Prelude.{
  ◌≡◌, refl, true, false, not, ◌&&◌, none, some, List, [], ◌∷◌, map, arith, any, all, any-append,
  All, All-append, Bool-cases, inl, inr, if◌then◌else◌,
}
use device_weave.RuleSet.Dim.{Field, fields, kind, Dim, dim_empty, dim_minus}
use device_weave.RuleSet.Dim.Laws.{
  Fits, dim_has-intersect, dim_empty_sound, dim_intersect-Fits, dim_minus-Fits,
}
use device_weave.RuleSet.Box.{
  Box, put, box_empty, meet, box_intersect, minus_fields, box_minus, Region, minus_each, is_empty,
  region_minus,
}
use device_weave.RuleSet.Box.Laws.{
  Ctx, has_at, in_box, in_region, IsFit, put-IsFit, any-minus_fields,
}

in_box-all : (c : Ctx) (b : Box) → in_box c b ≡ all (has_at c b) fields
unfolding in_box
in_box-all c b = ground arith

all-meet :
    (c : Ctx) (a b : Box) (fs : List Field)
    → all (has_at c (meet a b)) fs ≡ (all (has_at c a) fs && all (has_at c b) fs)
all-meet c a b [] = refl
all-meet c a b (f ∷ fs) =
    ground (arith, dim_has-intersect (kind f) (a f) (b f) (c f), all-meet c a b fs)

in_box-meet : (c : Ctx) (a b : Box) → in_box c (meet a b) ≡ (in_box c a && in_box c b)
in_box-meet c a b =
    rw (in_box-all c (meet a b), in_box-all c a, in_box-all c b) (all-meet c a b fields)

meet-IsFit : (a b : Box) → IsFit a → IsFit b → IsFit (meet a b)
meet-IsFit a b p q = λ f. dim_intersect-Fits (kind f) (a f) (b f) (p f) (q f)

empty_field :
    (c : Ctx) (b : Box) (fs : List Field)
    → IsFit b
    → any (λ f. dim_empty (kind f) (b f)) fs ≡ true
    → all (has_at c b) fs ≡ false
empty_field c b [] p h = cc
empty_field c b (f ∷ fs) p h =
    ground (arith, dim_empty_sound (kind f) (b f) (c f) (p f), empty_field c b fs p)

pub box_empty_sound : (c : Ctx) (b : Box) → IsFit b → box_empty b ≡ true → in_box c b ≡ false
unfolding box_empty
box_empty_sound c b p h = rw (in_box-all c b) (empty_field c b fields p h)

-- `box_minus a b` holds the contexts of `a` outside `b`.
pub in_region-box_minus :
    (c : Ctx) (a b : Box)
    → IsFit a
    → IsFit b
    → in_region c (box_minus a b) ≡ (in_box c a && not (in_box c b))
unfolding box_minus box_intersect
in_region-box_minus c a b p q = elim (Bool-cases (box_empty (meet a b))) [
  | inl apart ↦
      ground (arith, box_empty_sound c (meet a b) (meet-IsFit a b p q) apart, in_box-meet c a b)
  | inr overlap ↦ ground (arith, any-minus_fields c fields a b p q, in_box-all c b)
]

map-put-IsFit :
    (b : Box) (f : Field) (ds : List (Dim (kind f)))
    → IsFit b
    → All (Fits (kind f)) ds
    → All IsFit (map (λ d. put b f d) ds)
map-put-IsFit b f [] p h = tt
map-put-IsFit b f (d ∷ ds) p (q, h) = (put-IsFit b f d p q, map-put-IsFit b f ds p h)

minus_fields-IsFit :
    (fs : List Field) (rest b : Box) → IsFit rest → IsFit b → All IsFit (minus_fields fs rest b)
unfolding minus_fields
minus_fields-IsFit [] rest b p q = tt
minus_fields-IsFit (f ∷ fs) rest b p q =
    All-append IsFit (map (λ d. put rest f d) (dim_minus (kind f) (rest f) (b f))) _
      (map-put-IsFit rest f _ p (dim_minus-Fits (kind f) (rest f) (b f) (p f) (q f)))
      (minus_fields-IsFit fs _ b
        (put-IsFit rest f _ p (dim_intersect-Fits (kind f) (rest f) (b f) (p f) (q f))) q)

pub box_minus-IsFit : (a b : Box) → IsFit a → IsFit b → All IsFit (box_minus a b)
unfolding box_minus
box_minus-IsFit a b p q =
    elim (box_intersect a b)
      as (λ o. All IsFit (elim o [ none ↦ a ∷ [] | some _ ↦ minus_fields fields a b ])) [
        | none ↦ (p, tt)
        | some _ ↦ minus_fields-IsFit fields a b p q
      ]

minus_each-IsFit : (rs : Region) (b : Box) → All IsFit rs → IsFit b → All IsFit (minus_each rs b)
unfolding minus_each
minus_each-IsFit [] b h q = tt
minus_each-IsFit (r ∷ rs) b (p, h) q =
    All-append IsFit (box_minus r b) _ (box_minus-IsFit r b p q) (minus_each-IsFit rs b h q)

in_region-minus_each :
    (c : Ctx) (rs : Region) (b : Box)
    → All IsFit rs
    → IsFit b
    → in_region c (minus_each rs b) ≡ (in_region c rs && not (in_box c b))
unfolding minus_each
in_region-minus_each c [] b h q = refl
in_region-minus_each c (r ∷ rs) b (p, h) q = ground (
  arith,
  any-append (in_box c) (box_minus r b) (minus_each rs b),
  in_region-box_minus c r b p q,
  in_region-minus_each c rs b h q,
)

-- For regions whose whole-number fields have finite ends, as those of `rule_region` do,
-- `region_minus region others` holds the contexts of the region outside all the others.
pub in_region-region_minus :
    (c : Ctx) (rs bs : Region)
    → All IsFit rs
    → All IsFit bs
    → in_region c (region_minus rs bs) ≡ (in_region c rs && not (in_region c bs))
unfolding region_minus
in_region-region_minus c rs [] h k = ground arith
in_region-region_minus c rs (b ∷ bs) h (q, k) =
    let step = in_region-minus_each c rs b h q in
    let later = in_region-region_minus c (minus_each rs b) bs (minus_each-IsFit rs b h q) k in
    after (minus_each rs b) step later
  where
    after :
        (rest : Region)
        → in_region c rest ≡ (in_region c rs && not (in_box c b))
        → in_region c (region_minus rest bs) ≡ (in_region c rest && not (in_region c bs))
        → in_region c (if is_empty rest then rest else region_minus rest bs)
          ≡ (in_region c rs && not (in_region c (b ∷ bs)))
    after [] e l = ground arith
    after (x ∷ xs) e l = ground arith

pub region_minus-IsFit :
    (rs bs : Region) → All IsFit rs → All IsFit bs → All IsFit (region_minus rs bs)
unfolding region_minus
region_minus-IsFit rs [] h k = h
region_minus-IsFit rs (b ∷ bs) h (q, k) =
    let rest : All IsFit (minus_each rs b) = minus_each-IsFit rs b h q in
    elim (is_empty (minus_each rs b))
      as (λ t. All IsFit (if t then minus_each rs b else region_minus (minus_each rs b) bs)) [
        | true ↦ rest
        | false ↦ region_minus-IsFit (minus_each rs b) bs rest k
      ]
