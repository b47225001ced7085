-- ===== src/Policy/Clamp/Bounds.antt =====
-- Where a clamped parameter ends up, for param_clamp.py.
use device_weave.Prelude.{
  ◌≡◌, refl, Bool, true, false, not, ◌&&◌, ◌||◌, Option, none, some, [], ◌∷◌, arith, ◌⊎◌, inl, inr,
  Bool-cases,
}
use device_weave.Prelude.Int.{ℤ, ltb_ℤ, leb_ℤ}
use device_weave.Policy.Data.{Value, null, bool, num, str, Dict, get, Params}
use device_weave.Policy.Clamp.{
  Device, Bound, raise_to, lower_to, clamp, clamp_params, capability_ranges, clamp_numeric_params,
}

-- A range whose floor stands above its ceiling. `capability_ranges` can build one: a mapping that
-- names one side of `brightness` keeps the other side of the default.
unfoldable pub is_inverted : Bound → Bool
is_inverted b = elim b.lo [
  | none ↦ false
  | some lo ↦ elim b.hi [ none ↦ false | some hi ↦ ltb_ℤ hi lo ]
]

unfoldable pub is_below : Option ℤ → ℤ → Bool
is_below none x = false
is_below (some lo) x = ltb_ℤ x lo

unfoldable pub is_above : Option ℤ → ℤ → Bool
is_above none x = false
is_above (some hi) x = ltb_ℤ hi x

abbrev pub is_inside : Bound → ℤ → Bool
is_inside b x = not (is_below b.lo x) && not (is_above b.hi x)

-- `y` lies between `x` and `z`, in either order.
abbrev pub is_between : ℤ → ℤ → ℤ → Bool
is_between x y z = (leb_ℤ x y && leb_ℤ y z) || (leb_ℤ z y && leb_ℤ y x)

-- `y` is the point of the range nearest to `x`, and of an inverted range, which has no point, the
-- ceiling.
unfoldable pub IsNearest : Bound → ℤ → ℤ → Type 0
IsNearest b x y =
    ((is_inverted b ≡ true) × (b.hi ≡ some y))
    ⊎ ((is_inverted b ≡ false)
        × (is_inside b y ≡ true)
        × ((z : ℤ) → is_inside b z ≡ true → is_between x y z ≡ true))

-- A number with a range becomes the nearest one; any other value stays.
unfoldable pub IsClamped : Option Bound → Value → Value → Type 0
IsClamped (some b) (num x) w = (y : ℤ) × (w ≡ num y) × IsNearest b x y
IsClamped _ v w = w ≡ v

-- The same keys in the same order, each with its clamped value.
unfoldable pub AreClamped : Dict Bound → Params → Params → Type 0
AreClamped ranges [] [] = Unit
AreClamped ranges ((k, v) ∷ vs) ((j, w) ∷ ws) =
    (j ≡ k) × IsClamped (get ranges k) v w × AreClamped ranges vs ws
AreClamped ranges _ _ = ⊥

sides-IsNearest :
    (lo hi : Option ℤ) (x : ℤ)
    → IsNearest (record { lo = lo; hi = hi }) x (lower_to hi (raise_to lo x))
unfolding IsNearest is_inverted is_below is_above lower_to raise_to
sides-IsNearest none none x = inr (refl, refl, λ z h. ground arith)
sides-IsNearest none (some hi) x = inr (refl, ground arith, λ z h. ground arith)
sides-IsNearest (some lo) none x = inr (refl, ground arith, λ z h. ground arith)
sides-IsNearest (some lo) (some hi) x = elim (Bool-cases (ltb_ℤ hi lo)) [
  | inl inverted ↦ elim (Bool-cases (ltb_ℤ x lo)) [
    | inl low ↦ inl (inverted, simp (low, inverted) refl)
    | inr high ↦
        let above : ltb_ℤ hi x ≡ true = ground arith in inl (inverted, simp (high, above) refl)
  ]
  | inr proper ↦ inr (proper, ground arith, λ z h. ground arith)
]

clamp-IsClamped : (b : Option Bound) (v : Value) → IsClamped b v (clamp b v)
unfolding IsClamped clamp
clamp-IsClamped none v = refl
clamp-IsClamped (some b) null = refl
clamp-IsClamped (some b) (bool x) = refl
clamp-IsClamped (some b) (str s) = refl
clamp-IsClamped (some b) (num x) =
    (lower_to b.hi (raise_to b.lo x), refl, sides-IsNearest b.lo b.hi x)

clamp_params-AreClamped :
    (ranges : Dict Bound) (params : Params) → AreClamped ranges params (clamp_params ranges params)
unfolding AreClamped clamp_params
clamp_params-AreClamped ranges [] = tt
clamp_params-AreClamped ranges ((k, v) ∷ rest) =
    (refl, clamp-IsClamped (get ranges k) v, clamp_params-AreClamped ranges rest)

abbrev pub given : Option Params → Params
given none = []
given (some params) = params

-- `clamp_numeric_params` keeps the keys and their order, and every value that is no number or has
-- no range. A number with a range becomes the point of the range that is nearest to it: a number
-- inside stays, one below becomes the floor, one above the ceiling. Where the floor stands above
-- the ceiling, which a device with a one-sided `brightness` can bring about, it becomes the
-- ceiling.
pub clamp_numeric_params-AreClamped :
    (params : Option Params) (device : Option Device)
    → AreClamped (capability_ranges device) (given params) (clamp_numeric_params params device)
unfolding clamp_numeric_params
clamp_numeric_params-AreClamped none device = unfold AreClamped in tt
clamp_numeric_params-AreClamped (some params) device =
    clamp_params-AreClamped (capability_ranges device) params
