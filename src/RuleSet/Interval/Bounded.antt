-- ===== src/RuleSet/Interval/Bounded.antt =====
-- Intervals whose ends are finite: `Interval.int_bounds` of rule_set_checker.py never meets an
-- infinity on them, and the operations keep to them.
use device_weave.Prelude.{Bool, arith, All}
use device_weave.RuleSet.Interval.{Ext, neg_inf, pos_inf, fin, ext_lt, Interval, intersect, minus}
use device_weave.RuleSet.Interval.Laws.{max_end, min_end}

abbrev pub IsEnd : Ext → Type 0
IsEnd neg_inf = ⊥
IsEnd pos_inf = ⊥
IsEnd (fin x) = Unit

-- Both ends are numbers.
abbrev pub IsBounded : Interval → Type 0
IsBounded i = IsEnd i.lo × IsEnd i.hi

-- An interval with a lower end that is not +inf and an upper end that is not -inf.
abbrev IsLow : Ext → Type 0
IsLow neg_inf = Unit
IsLow pos_inf = ⊥
IsLow (fin x) = Unit

abbrev IsHigh : Ext → Type 0
IsHigh neg_inf = ⊥
IsHigh pos_inf = Unit
IsHigh (fin x) = Unit

abbrev pub IsProper : Interval → Type 0
IsProper i = IsLow i.lo × IsHigh i.hi

max_end-IsEnd :
    (x : Ext) (c : Bool) (y : Ext) (d : Bool) → IsEnd x → IsLow y → IsEnd (max_end x c y d).0
unfolding ext_lt
max_end-IsEnd neg_inf c y d p q = absurd p
max_end-IsEnd pos_inf c y d p q = absurd p
max_end-IsEnd (fin x) c neg_inf d p q = tt
max_end-IsEnd (fin x) c pos_inf d p q = absurd q
max_end-IsEnd (fin x) c (fin y) d p q = ground arith

min_end-IsEnd :
    (x : Ext) (c : Bool) (y : Ext) (d : Bool) → IsEnd x → IsHigh y → IsEnd (min_end x c y d).0
unfolding ext_lt
min_end-IsEnd neg_inf c y d p q = absurd p
min_end-IsEnd pos_inf c y d p q = absurd p
min_end-IsEnd (fin x) c neg_inf d p q = absurd q
min_end-IsEnd (fin x) c pos_inf d p q = tt
min_end-IsEnd (fin x) c (fin y) d p q = ground arith

IsLow-IsEnd : (e : Ext) → IsEnd e → IsLow e
IsLow-IsEnd neg_inf h = absurd h
IsLow-IsEnd pos_inf h = absurd h
IsLow-IsEnd (fin x) h = tt

IsHigh-IsEnd : (e : Ext) → IsEnd e → IsHigh e
IsHigh-IsEnd neg_inf h = absurd h
IsHigh-IsEnd pos_inf h = absurd h
IsHigh-IsEnd (fin x) h = tt

pub IsBounded-IsProper : (i : Interval) → IsBounded i → IsProper i
IsBounded-IsProper i (p, q) = (IsLow-IsEnd i.lo p, IsHigh-IsEnd i.hi q)

pub intersect-IsBounded : (a b : Interval) → IsBounded a → IsProper b → IsBounded (intersect a b)
unfolding intersect
intersect-IsBounded a b p q = (
  max_end-IsEnd a.lo a.lo_closed b.lo b.lo_closed p.0 q.0,
  min_end-IsEnd a.hi a.hi_closed b.hi b.hi_closed p.1 q.1,
)

pub minus-IsBounded : (a b : Interval) → IsBounded a → IsBounded b → All IsBounded (minus a b)
unfolding minus
minus-IsBounded a b p q =
    let proper = IsBounded-IsProper a p in
    (intersect-IsBounded _ a (p.0, q.0) proper, (intersect-IsBounded _ a (q.1, p.1) proper, tt))
