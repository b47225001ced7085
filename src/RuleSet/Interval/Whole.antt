-- ===== src/RuleSet/Interval/Whole.antt =====
-- The whole numbers in an interval, for the integer field: `Interval.int_bounds` of
-- rule_set_checker.py.
use device_weave.Prelude.{
  ◌+◌, ◌*◌, ◌≡◌, refl, Bool, true, false, ◌&&◌, Option, none, some, Option-cases, inl, inr, arith,
}
use device_weave.Prelude.Int.{ℤ, pos, negsuc, leb_ℤ, suc_ℤ, pred_ℤ}
use device_weave.RuleSet.Interval.{
  Ext, neg_inf, pos_inf, fin, Interval, unit, first_int, last_int, int_bounds, bounds_of, empty,
}
use device_weave.RuleSet.Interval.Laws.{above, below, contains}
use device_weave.RuleSet.Interval.Bounded.{IsEnd, IsBounded}

-- A whole number as a number.
unfoldable pub scale : ℤ → ℤ
scale (pos n) = pos (unit * n)
scale (negsuc n) = negsuc (unit * n + 999)

-- `first_int` is the least whole number on the inner side of a lower end.
above-first_int : (x : ℤ) (c : Bool) (h : ℤ) → above (fin x) c (scale h) ≡ leb_ℤ (first_int x c) h
unfolding above scale first_int suc_ℤ
above-first_int (pos n) c (pos m) = ground arith
above-first_int (pos n) c (negsuc m) = ground arith
above-first_int (negsuc n) c (pos m) = ground arith
above-first_int (negsuc n) c (negsuc m) = ground arith

below-last_int : (x : ℤ) (c : Bool) (h : ℤ) → below (fin x) c (scale h) ≡ leb_ℤ h (last_int x c)
unfolding below scale last_int pred_ℤ
below-last_int (pos n) c (pos m) = ground arith
below-last_int (pos n) c (negsuc m) = ground arith
below-last_int (negsuc n) c (pos m) = ground arith
below-last_int (negsuc n) c (negsuc m) = ground arith

-- The whole numbers between a pair of bounds.
unfoldable pub in_bounds : Option (ℤ × ℤ) → ℤ → Bool
in_bounds none h = false
in_bounds (some (l, u)) h = leb_ℤ l h && leb_ℤ h u

contains-bounds_of :
    (lo : Ext) (lc : Bool) (hi : Ext) (hc : Bool) (h : ℤ)
    → IsEnd lo
    → IsEnd hi
    → (above lo lc (scale h) && below hi hc (scale h)) ≡ in_bounds (bounds_of lo hi lc hc) h
unfolding bounds_of in_bounds
contains-bounds_of neg_inf lc hi hc h p q = absurd p
contains-bounds_of pos_inf lc hi hc h p q = absurd p
contains-bounds_of (fin x) lc neg_inf hc h p q = absurd q
contains-bounds_of (fin x) lc pos_inf hc h p q = absurd q
contains-bounds_of (fin x) lc (fin y) hc h p q =
    ground (arith, above-first_int x lc h, below-last_int y hc h)

-- The whole numbers in an interval with finite ends are those between its `int_bounds`.
pub contains-int_bounds :
    (i : Interval) (h : ℤ) → IsBounded i → contains i (scale h) ≡ in_bounds (int_bounds i) h
unfolding contains int_bounds
contains-int_bounds i h (p, q) = contains-bounds_of i.lo i.lo_closed i.hi i.hi_closed h p q

pub empty_int_sound :
    (i : Interval) (h : ℤ) → IsBounded i → empty true i ≡ true → contains i (scale h) ≡ false
unfolding empty in_bounds
empty_int_sound i h b e = elim (Option-cases (int_bounds i)) [
  | inl nothing ↦ rw (contains-int_bounds i h b, nothing) refl
  | inr (r, found) ↦ absurd (ground arith)
]
