-- ===== src/RuleSet/Region/Matches.antt =====
-- The region that rule_set_checker.py gives a rule is the set of contexts in which
-- policy_engine/evaluator.py finds that the rule matches.
use device_weave.Prelude.{◌≡◌, refl, ap, ◌∙◌, Bool, true, false, some, [], ◌∷◌, arith, any}
use device_weave.Prelude.Int.{ℤ}
use device_weave.Prelude.Text.{String, str_eq}
use device_weave.Policy.Data.{Value, null, bool, num, str, Condition, Context, get}
use device_weave.Policy.Condition.{
  Operator, operator_of, context_value, apply, evaluate, evaluate_condition, or_false,
}
use device_weave.RuleSet.Interval.Laws.{contains, above, below}
use device_weave.RuleSet.Interval.Whole.{scale}
use device_weave.RuleSet.Labels.Laws.{holds, included}
use device_weave.RuleSet.Labels.Laws as LabelLaws
use device_weave.RuleSet.Dim.{Field, Kind, kind}
use device_weave.RuleSet.Dim.Laws.{Point, dim_has}
use device_weave.RuleSet.Box.Laws.{Ctx}
use device_weave.RuleSet.Region.{
  field_of, intervals, numeric_dims, boolean_dims, label_dims, condition_dims,
}

abbrev pub field_name : Field → String
field_name Field.temperature = "temperature"
field_name Field.humidity = "humidity"
field_name Field.cloud_cover_pct = "cloud_cover_pct"
field_name Field.time_hour = "time_hour"
field_name Field.is_home = "is_home"
field_name Field.is_overcast = "is_overcast"
field_name Field.room = "room"

abbrev pub value_of : (k : Kind) → Point k → Value
value_of Kind.numeric v = num v
value_of Kind.integer v = num (scale v)
value_of Kind.boolean v = bool v
value_of Kind.label v = str v

-- The dict that `get_context` of policy_engine/context_provider.py returns.
abbrev pub to_context : Ctx → Context
to_context c =
    ("temperature", num (c Field.temperature))
    ∷ ("humidity", num (c Field.humidity))
    ∷ ("cloud_cover_pct", num (c Field.cloud_cover_pct))
    ∷ ("is_overcast", bool (c Field.is_overcast))
    ∷ ("time_hour", num (scale (c Field.time_hour)))
    ∷ ("is_home", bool (c Field.is_home))
    ∷ ("room", str (c Field.room))
    ∷ []

context_value-to_context :
    (c : Ctx) (f : Field)
    → context_value (to_context c) (some (field_name f)) ≡ some (value_of (kind f) (c f))
unfolding context_value get
context_value-to_context c Field.temperature = refl
context_value-to_context c Field.humidity = refl
context_value-to_context c Field.cloud_cover_pct = refl
context_value-to_context c Field.time_hour = refl
context_value-to_context c Field.is_home = refl
context_value-to_context c Field.is_overcast = refl
context_value-to_context c Field.room = refl

pub field_of-field_name : (f : Field) → field_of (some (field_name f)) ≡ some f
unfolding field_of
field_of-field_name Field.temperature = refl
field_of-field_name Field.humidity = refl
field_of-field_name Field.cloud_cover_pct = refl
field_of-field_name Field.time_hour = refl
field_of-field_name Field.is_home = refl
field_of-field_name Field.is_overcast = refl
field_of-field_name Field.room = refl

-- Values of the field's type; a Boolean or a label is compared by `==` or `!=` only, and a label
-- is not blank.
abbrev pub IsEquality : Operator → Type 0
IsEquality Operator.eq = Unit
IsEquality Operator.ne = Unit
IsEquality _ = ⊥

abbrev pub IsNumber : Value → Type 0
IsNumber (num v) = Unit
IsNumber _ = ⊥

abbrev pub IsBoolean : Value → Type 0
IsBoolean (bool b) = Unit
IsBoolean _ = ⊥

abbrev pub IsLabel : Value → Type 0
IsLabel (str s) = str_eq s "" ≡ false
IsLabel _ = ⊥

abbrev pub IsTypedFor : Kind → Operator → Value → Type 0
IsTypedFor Kind.numeric op v = IsNumber v
IsTypedFor Kind.integer op v = IsNumber v
IsTypedFor Kind.boolean op v = IsEquality op × IsBoolean v
IsTypedFor Kind.label op v = IsEquality op × IsLabel v

apply-intervals :
    (op : Operator) (v x : ℤ)
    → or_false (apply op (num x) (num v)) ≡ any (λ i. contains i x) (intervals op v)
unfolding apply intervals contains above below
apply-intervals Operator.gt v x = ground arith
apply-intervals Operator.ge v x = ground arith
apply-intervals Operator.lt v x = ground arith
apply-intervals Operator.le v x = ground arith
apply-intervals Operator.eq v x = ground arith
apply-intervals Operator.ne v x = ground arith

apply-numeric :
    (op : Operator) (v : Value) (x : ℤ)
    → IsNumber v
    → or_false (apply op (num x) v) ≡ any (λ i. contains i x) (numeric_dims (some op) v)
unfolding numeric_dims
apply-numeric op null x h = absurd h
apply-numeric op (bool b) x h = absurd h
apply-numeric op (num v) x h = apply-intervals op v x
apply-numeric op (str s) x h = absurd h

apply-boolean :
    (op : Operator) (v : Value) (x : Bool)
    → IsEquality op
    → IsBoolean v
    → or_false (apply op (bool x) v) ≡ any (λ d. holds d x) (boolean_dims (some op) v)
unfolding apply boolean_dims holds
apply-boolean Operator.eq (bool true) true e h = refl
apply-boolean Operator.eq (bool true) false e h = refl
apply-boolean Operator.eq (bool false) true e h = refl
apply-boolean Operator.eq (bool false) false e h = refl
apply-boolean Operator.ne (bool true) true e h = refl
apply-boolean Operator.ne (bool true) false e h = refl
apply-boolean Operator.ne (bool false) true e h = refl
apply-boolean Operator.ne (bool false) false e h = refl
apply-boolean Operator.gt v x e h = absurd e
apply-boolean Operator.lt v x e h = absurd e
apply-boolean Operator.ge v x e h = absurd e
apply-boolean Operator.le v x e h = absurd e
apply-boolean op null x e h = absurd h
apply-boolean op (num v) x e h = absurd h
apply-boolean op (str s) x e h = absurd h

apply-label :
    (op : Operator) (v : Value) (x : String)
    → IsEquality op
    → IsLabel v
    → or_false (apply op (str x) v) ≡ any (λ d. LabelLaws.contains d x) (label_dims (some op) v)
unfolding apply label_dims LabelLaws.contains included
apply-label Operator.eq (str s) x e h = ground arith
apply-label Operator.ne (str s) x e h = ground arith
apply-label Operator.gt v x e h = absurd e
apply-label Operator.lt v x e h = absurd e
apply-label Operator.ge v x e h = absurd e
apply-label Operator.le v x e h = absurd e
apply-label op null x e h = absurd h
apply-label op (num v) x e h = absurd h
apply-label op (bool b) x e h = absurd h

apply-dims :
    (k : Kind) (op : Operator) (v : Value) (x : Point k)
    → IsTypedFor k op v
    → or_false (apply op (value_of k x) v) ≡ any (λ d. dim_has k d x) (condition_dims k (some op) v)
unfolding condition_dims dim_has
apply-dims Kind.numeric op v x h = apply-numeric op v x h
apply-dims Kind.integer op v x h = apply-numeric op v (scale x) h
apply-dims Kind.boolean op v x (e, h) = apply-boolean op v x e h
apply-dims Kind.label op v x (e, h) = apply-label op v x e h

-- A condition of the DSL whose value has the type of its field.
pub record IsTyped (cond : Condition) : Type 0 where
  pub field : Field
  pub named : cond.field ≡ some (field_name field)
  pub op : Operator
  pub known : operator_of cond.operator ≡ some op
  pub typed : IsTypedFor (kind field) op cond.value

-- The values of a field at which a condition holds.
pub condition_has :
    (c : Ctx) (cond : Condition) (t : IsTyped cond)
    → evaluate_condition cond (to_context c)
      ≡ any
          (λ d. dim_has (kind t.field) d (c t.field))
          (condition_dims (kind t.field) (some t.op) cond.value)
unfolding evaluate_condition
condition_has c cond t =
    let value : context_value (to_context c) cond.field
        ≡ some (value_of (kind t.field) (c t.field)) =
      ap (context_value (to_context c)) t.named ∙ context_value-to_context c t.field in
    (λ i. evaluate (value i) (t.known i) cond.value)
    ∙ apply-dims (kind t.field) t.op cond.value (c t.field) t.typed
