-- ===== src/RuleSet/Interval.antt =====
-- `class Interval` of policy_authoring/rule_set_checker.py. A Python number is a whole number of
-- thousandths, and an end of an interval is such a number or an infinity.
pub mod Laws
pub mod Bounded
pub mod Whole
use device_weave.Prelude.{
  ℕ, zero, suc, ◌+◌, ◌-◌, ◌*◌, ◌/◌, ◌%◌, Bool, true, false, not, ◌&&◌, ◌||◌, Option, none, some,
  List, [], ◌∷◌, ltb, leb, ◌==◌, if◌then◌else◌,
}
use device_weave.Prelude.Int.{ℤ, pos, negsuc, ltb_ℤ, leb_ℤ, eqb_ℤ, suc_ℤ, pred_ℤ}

pub data Ext : Type 0 where
  neg_inf pos_inf : Ext
  fin : ℤ → Ext

unfoldable pub ext_lt : Ext → Ext → Bool
ext_lt neg_inf neg_inf = false
ext_lt neg_inf _ = true
ext_lt pos_inf _ = false
ext_lt (fin x) neg_inf = false
ext_lt (fin x) pos_inf = true
ext_lt (fin x) (fin y) = ltb_ℤ x y

unfoldable pub ext_eq : Ext → Ext → Bool
ext_eq neg_inf neg_inf = true
ext_eq pos_inf pos_inf = true
ext_eq (fin x) (fin y) = eqb_ℤ x y
ext_eq _ _ = false

pub record Interval : Type 0 where
  pub lo : Ext
  pub hi : Ext
  pub lo_closed : Bool
  pub hi_closed : Bool

-- Thousandths in one.
abbrev pub unit : ℕ
unit = 1000

-- `math.floor` and `math.ceil` of a number, as whole numbers.
unfoldable pub floor : ℤ → ℤ
floor (pos n) = pos (n / unit)
floor (negsuc n) = negsuc (n / unit)

unfoldable pub ceil : ℤ → ℤ
ceil (pos n) = pos ((n + 999) / unit)
ceil (negsuc n) = let m = (n + 1) / unit in if m == 0 then pos 0 else negsuc (m - 1)

-- `float(x).is_integer()`
unfoldable pub is_integer : ℤ → Bool
is_integer (pos n) = n % unit == 0
is_integer (negsuc n) = (n + 1) % unit == 0

-- The least and the greatest whole number in the interval. `math.floor` of an infinity raises in
-- Python; here the result is `none` then, and no interval of a box has an infinite end.
unfoldable pub first_int : ℤ → Bool → ℤ
unfolding floor ceil is_integer
first_int x closed = if not closed && is_integer x then suc_ℤ (floor x) else ceil x

unfoldable pub last_int : ℤ → Bool → ℤ
unfolding floor ceil is_integer
last_int x closed = if not closed && is_integer x then pred_ℤ (ceil x) else floor x

unfoldable pub bounds_of : Ext → Ext → Bool → Bool → Option (ℤ × ℤ)
bounds_of (fin l) (fin h) lc hc =
    let lo = first_int l lc in let hi = last_int h hc in if leb_ℤ lo hi then some (lo, hi) else none
bounds_of _ _ _ _ = none

unfoldable pub int_bounds : Interval → Option (ℤ × ℤ)
unfolding bounds_of
int_bounds i = bounds_of i.lo i.hi i.lo_closed i.hi_closed

-- `Interval.empty(integer)`
unfoldable pub empty : Bool → Interval → Bool
unfolding int_bounds ext_lt ext_eq
empty true i = elim (int_bounds i) [ none ↦ true | some _ ↦ false ]
empty false i =
    if ext_lt i.hi i.lo
    then true
    else if ext_eq i.lo i.hi
    then not (i.lo_closed && i.hi_closed)
    else false

-- The end of an intersection: the inner one, closed if both are at a tie.
unfoldable pub inner_lo : Interval → Interval → Ext × Bool
unfolding ext_lt
inner_lo a b =
    if ext_lt b.lo a.lo
    then (a.lo, a.lo_closed)
    else if ext_lt a.lo b.lo
    then (b.lo, b.lo_closed)
    else (a.lo, a.lo_closed && b.lo_closed)

unfoldable pub inner_hi : Interval → Interval → Ext × Bool
unfolding ext_lt
inner_hi a b =
    if ext_lt a.hi b.hi
    then (a.hi, a.hi_closed)
    else if ext_lt b.hi a.hi
    then (b.hi, b.hi_closed)
    else (a.hi, a.hi_closed && b.hi_closed)

unfoldable pub intersect : Interval → Interval → Interval
unfolding inner_lo inner_hi
intersect a b =
    let (lo, lc) = inner_lo a b in
    let (hi, hc) = inner_hi a b in record { lo = lo; hi = hi; lo_closed = lc; hi_closed = hc }

-- The parts of `a` below and above `b`; a part may be empty.
unfoldable pub minus : Interval → Interval → List Interval
unfolding intersect
minus a b =
    intersect
      (record { lo = a.lo; hi = b.lo; lo_closed = a.lo_closed; hi_closed = not b.lo_closed }) a
    ∷ intersect
        (record { lo = b.hi; hi = a.hi; lo_closed = not b.hi_closed; hi_closed = a.hi_closed }) a
    ∷ []
