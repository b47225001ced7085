-- ===== src/RuleSet/Box/Laws.antt =====
-- The contexts in a box, and that the operations on boxes and regions are those on sets of
-- contexts.
use device_weave.Prelude.{
  ◌≡◌, refl, Bool, not, ◌&&◌, List, [], ◌∷◌, map, arith, any, all, any-append,
}
use device_weave.RuleSet.Dim.{Field, kind, Dim, dim_intersect, dim_minus}
use device_weave.RuleSet.Dim.Laws.{
  Point, dim_has, Fits, dim_has-intersect, dim_has-minus, dim_intersect-Fits,
}
use device_weave.RuleSet.Box.{Box, put, minus_fields, Region}

-- A context with a value for every field.
abbrev pub Ctx : Type 0
Ctx = (f : Field) → Point (kind f)

abbrev pub has_at : Ctx → Box → Field → Bool
has_at c b f = dim_has (kind f) (b f) (c f)

unfoldable pub in_box : Ctx → Box → Bool
in_box c b =
    has_at c b Field.temperature
    && (has_at c b Field.humidity
        && (has_at c b Field.cloud_cover_pct
            && (has_at c b Field.time_hour
                && (has_at c b Field.is_home
                    && (has_at c b Field.is_overcast && has_at c b Field.room)))))

-- All fields but one.
pub in_others : Ctx → Box → Field → Bool
in_others c b Field.temperature =
    has_at c b Field.humidity
    && (has_at c b Field.cloud_cover_pct
        && (has_at c b Field.time_hour
            && (has_at c b Field.is_home
                && (has_at c b Field.is_overcast && has_at c b Field.room))))
in_others c b Field.humidity =
    has_at c b Field.temperature
    && (has_at c b Field.cloud_cover_pct
        && (has_at c b Field.time_hour
            && (has_at c b Field.is_home
                && (has_at c b Field.is_overcast && has_at c b Field.room))))
in_others c b Field.cloud_cover_pct =
    has_at c b Field.temperature
    && (has_at c b Field.humidity
        && (has_at c b Field.time_hour
            && (has_at c b Field.is_home
                && (has_at c b Field.is_overcast && has_at c b Field.room))))
in_others c b Field.time_hour =
    has_at c b Field.temperature
    && (has_at c b Field.humidity
        && (has_at c b Field.cloud_cover_pct
            && (has_at c b Field.is_home
                && (has_at c b Field.is_overcast && has_at c b Field.room))))
in_others c b Field.is_home =
    has_at c b Field.temperature
    && (has_at c b Field.humidity
        && (has_at c b Field.cloud_cover_pct
            && (has_at c b Field.time_hour
                && (has_at c b Field.is_overcast && has_at c b Field.room))))
in_others c b Field.is_overcast =
    has_at c b Field.temperature
    && (has_at c b Field.humidity
        && (has_at c b Field.cloud_cover_pct
            && (has_at c b Field.time_hour && (has_at c b Field.is_home && has_at c b Field.room))))
in_others c b Field.room =
    has_at c b Field.temperature
    && (has_at c b Field.humidity
        && (has_at c b Field.cloud_cover_pct
            && (has_at c b Field.time_hour
                && (has_at c b Field.is_home && has_at c b Field.is_overcast))))

pub in_box_split : (c : Ctx) (b : Box) (f : Field) → in_box c b ≡ (has_at c b f && in_others c b f)
unfolding in_box in_others
in_box_split c b Field.temperature = ground arith
in_box_split c b Field.humidity = ground arith
in_box_split c b Field.cloud_cover_pct = ground arith
in_box_split c b Field.time_hour = ground arith
in_box_split c b Field.is_home = ground arith
in_box_split c b Field.is_overcast = ground arith
in_box_split c b Field.room = ground arith

in_others-put :
    (c : Ctx) (b : Box) (f : Field) (d : Dim (kind f)) → in_others c (put b f d) f ≡ in_others c b f
unfolding put in_others
in_others-put c b Field.temperature d = refl
in_others-put c b Field.humidity d = refl
in_others-put c b Field.cloud_cover_pct d = refl
in_others-put c b Field.time_hour d = refl
in_others-put c b Field.is_home d = refl
in_others-put c b Field.is_overcast d = refl
in_others-put c b Field.room d = refl

put_same : (b : Box) (f : Field) (d : Dim (kind f)) → put b f d f ≡ d
unfolding put
put_same b Field.temperature d = refl
put_same b Field.humidity d = refl
put_same b Field.cloud_cover_pct d = refl
put_same b Field.time_hour d = refl
put_same b Field.is_home d = refl
put_same b Field.is_overcast d = refl
put_same b Field.room d = refl

-- A box with one field replaced.
pub in_box-put :
    (c : Ctx) (b : Box) (f : Field) (d : Dim (kind f))
    → in_box c (put b f d) ≡ (dim_has (kind f) d (c f) && in_others c b f)
in_box-put c b f d = rw (in_box_split c (put b f d) f, in_others-put c b f d, put_same b f d) refl

any-map-put :
    (c : Ctx) (b : Box) (f : Field) (ds : List (Dim (kind f)))
    → any (in_box c) (map (λ d. put b f d) ds)
      ≡ (any (λ d. dim_has (kind f) d (c f)) ds && in_others c b f)
any-map-put c b f [] = refl
any-map-put c b f (d ∷ ds) = ground (arith, in_box-put c b f d, any-map-put c b f ds)

-- Every set of the box is one for which `_dim_empty` is defined.
abbrev pub IsFit : Box → Type 0
IsFit b = (f : Field) → Fits (kind f) (b f)

put-Fits :
    (b : Box) (f : Field) (d : Dim (kind f)) (g : Field)
    → Fits (kind g) (b g)
    → Fits (kind f) d
    → Fits (kind g) (put b f d g)
unfolding put
put-Fits b Field.temperature d Field.temperature h p = p
put-Fits b Field.temperature d g h p = h
put-Fits b Field.humidity d Field.humidity h p = p
put-Fits b Field.humidity d g h p = h
put-Fits b Field.cloud_cover_pct d Field.cloud_cover_pct h p = p
put-Fits b Field.cloud_cover_pct d g h p = h
put-Fits b Field.time_hour d Field.time_hour h p = p
put-Fits b Field.time_hour d g h p = h
put-Fits b Field.is_home d Field.is_home h p = p
put-Fits b Field.is_home d g h p = h
put-Fits b Field.is_overcast d Field.is_overcast h p = p
put-Fits b Field.is_overcast d g h p = h
put-Fits b Field.room d Field.room h p = p
put-Fits b Field.room d g h p = h

pub put-IsFit :
    (b : Box) (f : Field) (d : Dim (kind f)) → IsFit b → Fits (kind f) d → IsFit (put b f d)
put-IsFit b f d h p = λ g. put-Fits b f d g (h g) p

abbrev pub in_region : Ctx → Region → Bool
in_region c = any (in_box c)

-- What the loop collects: the contexts of `rest` outside `b` in one of the fields left.
pub any-minus_fields :
    (c : Ctx) (fs : List Field) (rest b : Box)
    → IsFit rest
    → IsFit b
    → any (in_box c) (minus_fields fs rest b) ≡ (in_box c rest && not (all (has_at c b) fs))
unfolding minus_fields
any-minus_fields c [] rest b p q = ground arith
any-minus_fields c (f ∷ fs) rest b p q =
    let kept = dim_intersect (kind f) (rest f) (b f) in
    let next = put rest f kept in
    let fit : IsFit next =
      put-IsFit rest f kept p (dim_intersect-Fits (kind f) (rest f) (b f) (p f) (q f)) in
    ground (
      arith,
      any-append (in_box c) (map (λ d. put rest f d) (dim_minus (kind f) (rest f) (b f)))
          (minus_fields fs next b),
      any-map-put c rest f (dim_minus (kind f) (rest f) (b f)),
      any-minus_fields c fs next b fit q,
      dim_has-minus (kind f) (rest f) (b f) (c f) (p f) (q f),
      in_box-put c rest f kept,
      dim_has-intersect (kind f) (rest f) (b f) (c f),
      in_box_split c rest f,
    )
