-- ===== src/RuleSet/Interval/Laws.antt =====
-- The numbers that an interval holds, and that the operations of rule_set_checker.py on intervals
-- are those on sets of numbers.
use device_weave.Prelude.{◌≡◌, refl, Bool, true, false, not, ◌&&◌, arith, if◌then◌else◌, any}
use device_weave.Prelude.Int.{ℤ, ltb_ℤ, leb_ℤ}
use device_weave.RuleSet.Interval.{
  Ext, neg_inf, pos_inf, fin, ext_lt, ext_eq, Interval, empty, intersect, minus,
}

-- The number lies on the inner side of an end.
unfoldable pub above : Ext → Bool → ℤ → Bool
above neg_inf closed v = true
above pos_inf closed v = false
above (fin x) closed v = if closed then leb_ℤ x v else ltb_ℤ x v

unfoldable pub below : Ext → Bool → ℤ → Bool
below neg_inf closed v = false
below pos_inf closed v = true
below (fin x) closed v = if closed then leb_ℤ v x else ltb_ℤ v x

unfoldable pub contains : Interval → ℤ → Bool
contains i v = above i.lo i.lo_closed v && below i.hi i.hi_closed v

below-not : (e : Ext) (c : Bool) (v : ℤ) → below e (not c) v ≡ not (above e c v)
unfolding above below
below-not neg_inf c v = refl
below-not pos_inf c v = refl
below-not (fin x) c v = ground arith

above-not : (e : Ext) (c : Bool) (v : ℤ) → above e (not c) v ≡ not (below e c v)
unfolding above below
above-not neg_inf c v = refl
above-not pos_inf c v = refl
above-not (fin x) c v = ground arith

-- The inner of two lower ends bounds what both do.
abbrev pub max_end : Ext → Bool → Ext → Bool → Ext × Bool
max_end x c y d = if ext_lt y x then (x, c) else if ext_lt x y then (y, d) else (x, c && d)

abbrev pub min_end : Ext → Bool → Ext → Bool → Ext × Bool
min_end x c y d = if ext_lt x y then (x, c) else if ext_lt y x then (y, d) else (x, c && d)

above-max_end :
    (x : Ext) (c : Bool) (y : Ext) (d : Bool) (v : ℤ)
    → above (max_end x c y d).0 (max_end x c y d).1 v ≡ (above x c v && above y d v)
unfolding above ext_lt
above-max_end neg_inf c neg_inf d v = refl
above-max_end neg_inf c pos_inf d v = refl
above-max_end neg_inf c (fin y) d v = ground arith
above-max_end pos_inf c neg_inf d v = refl
above-max_end pos_inf c pos_inf d v = refl
above-max_end pos_inf c (fin y) d v = ground arith
above-max_end (fin x) c neg_inf d v = ground arith
above-max_end (fin x) c pos_inf d v = ground arith
above-max_end (fin x) c (fin y) d v = ground arith

below-min_end :
    (x : Ext) (c : Bool) (y : Ext) (d : Bool) (v : ℤ)
    → below (min_end x c y d).0 (min_end x c y d).1 v ≡ (below x c v && below y d v)
unfolding below ext_lt
below-min_end neg_inf c neg_inf d v = refl
below-min_end neg_inf c pos_inf d v = refl
below-min_end neg_inf c (fin y) d v = ground arith
below-min_end pos_inf c neg_inf d v = refl
below-min_end pos_inf c pos_inf d v = refl
below-min_end pos_inf c (fin y) d v = ground arith
below-min_end (fin x) c neg_inf d v = ground arith
below-min_end (fin x) c pos_inf d v = ground arith
below-min_end (fin x) c (fin y) d v = ground arith

pub contains-intersect :
    (a b : Interval) (v : ℤ) → contains (intersect a b) v ≡ (contains a v && contains b v)
unfolding contains intersect
contains-intersect a b v = ground (
  arith,
  above-max_end a.lo a.lo_closed b.lo b.lo_closed v,
  below-min_end a.hi a.hi_closed b.hi b.hi_closed v,
)

pub contains-minus :
    (a b : Interval) (v : ℤ)
    → any (λ i. contains i v) (minus a b) ≡ (contains a v && not (contains b v))
unfolding minus
contains-minus a b v =
    let left : Interval = record {
      lo = a.lo;
      hi = b.lo;
      lo_closed = a.lo_closed;
      hi_closed = not b.lo_closed;
    } in
    let right : Interval = record {
      lo = b.hi;
      hi = a.hi;
      lo_closed = not b.hi_closed;
      hi_closed = a.hi_closed;
    } in
    rw (contains-intersect left a v, contains-intersect right a v)
      (unfold contains in
        ground (arith, below-not b.lo b.lo_closed v, above-not b.hi b.hi_closed v))

-- An interval that `empty` calls empty holds no number.
ends_empty : Ext → Bool → Ext → Bool → Bool
ends_empty lo lc hi hc =
    if ext_lt hi lo then true else if ext_eq lo hi then not (lc && hc) else false

ends_empty_sound :
    (lo : Ext) (lc : Bool) (hi : Ext) (hc : Bool) (v : ℤ)
    → ends_empty lo lc hi hc ≡ true
    → (above lo lc v && below hi hc v) ≡ false
unfolding ends_empty above below ext_lt ext_eq
ends_empty_sound neg_inf lc neg_inf hc v h = refl
ends_empty_sound neg_inf lc pos_inf hc v h = cc
ends_empty_sound neg_inf lc (fin y) hc v h = cc
ends_empty_sound pos_inf lc hi hc v h = refl
ends_empty_sound (fin x) lc neg_inf hc v h = ground arith
ends_empty_sound (fin x) lc pos_inf hc v h = cc
ends_empty_sound (fin x) lc (fin y) hc v h = ground arith

pub empty_sound : (i : Interval) (v : ℤ) → empty false i ≡ true → contains i v ≡ false
unfolding contains empty ends_empty
empty_sound i v h = ends_empty_sound i.lo i.lo_closed i.hi i.hi_closed v h
