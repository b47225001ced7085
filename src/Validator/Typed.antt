-- ===== src/Validator/Typed.antt =====
-- The types of the conditions that validator.py lets through.
use mathlib.Core.Path.{subst}
use device_weave.Prelude.{
  ◌≡◌, refl, true, false, all, Option, none, some, List, [], ◌∷◌, map, arith, if◌then◌else◌,
  Bool-cases, inl, inr,
}
use device_weave.Prelude.Text.{String, str_eq, str_in, eq_iff}
use device_weave.Policy.Data.{Value, null, bool, num, str, get, Condition}
use device_weave.Policy.Condition.{Operator, operator_of}
use device_weave.RuleSet.Dim.{Field, Kind, kind}
use device_weave.RuleSet.Region.Matches.{
  field_name, IsEquality, IsNumber, IsBoolean, IsLabel, IsTypedFor, IsTyped,
}
use device_weave.Rooms.Label.{blank_label}
use device_weave.Validator.{
  Raw, scalar, compound, RawCondition, object, other, ValidationError, accepted, condition_keys,
  is_number, is_boolean, is_room_value, value_fits, with_value, with_operator, with_field,
  with_keys, validate_condition,
}

abbrev listed_fields : List Field
listed_fields =
    Field.temperature ∷ Field.humidity ∷ Field.time_hour ∷ Field.cloud_cover_pct ∷ Field.is_home
    ∷ Field.is_overcast ∷ Field.room ∷ []

abbrev operator_name : Operator → String
operator_name Operator.gt = ">"
operator_name Operator.lt = "<"
operator_name Operator.ge = ">="
operator_name Operator.le = "<="
operator_name Operator.eq = "=="
operator_name Operator.ne = "!="

abbrev listed_operators : List Operator
listed_operators =
    Operator.gt ∷ Operator.lt ∷ Operator.ge ∷ Operator.le ∷ Operator.eq ∷ Operator.ne ∷ []

operator_of-operator_name : (op : Operator) → operator_of (some (operator_name op)) ≡ some op
unfolding operator_of
operator_of-operator_name Operator.gt = refl
operator_of-operator_name Operator.lt = refl
operator_of-operator_name Operator.ge = refl
operator_of-operator_name Operator.le = refl
operator_of-operator_name Operator.eq = refl
operator_of-operator_name Operator.ne = refl

-- A listed name is the name of something.
name_of {ℓ} :
    {A : Type ℓ} (f : A → String) (xs : List A) (s : String)
    → str_in s (map f xs) ≡ true
    → (x : A) × (s ≡ f x)
name_of f [] s h = cc
name_of f (x ∷ xs) s h = elim (Bool-cases (str_eq s (f x))) [
  | inl hit ↦ (x, (eq_iff s (f x)).0 hit)
  | inr miss ↦ name_of f xs s (ground arith)
]

IsNumber-fits :
    (v : Raw) (e : ValidationError)
    → (if is_number v then none else some e) ≡ none
    → (w : Value) × (v ≡ scalar w) × IsNumber w
IsNumber-fits (scalar (num x)) e h = (num x, refl, tt)
IsNumber-fits (scalar null) e h = cc
IsNumber-fits (scalar (bool b)) e h = cc
IsNumber-fits (scalar (str s)) e h = cc
IsNumber-fits compound e h = cc

IsBoolean-fits :
    (v : Raw) (e : ValidationError)
    → (if is_boolean v then none else some e) ≡ none
    → (w : Value) × (v ≡ scalar w) × IsBoolean w
IsBoolean-fits (scalar (bool b)) e h = (bool b, refl, tt)
IsBoolean-fits (scalar null) e h = cc
IsBoolean-fits (scalar (num x)) e h = cc
IsBoolean-fits (scalar (str s)) e h = cc
IsBoolean-fits compound e h = cc

IsLabel-fits :
    (v : Raw) (e : ValidationError)
    → (if is_room_value v then none else some e) ≡ none
    → (w : Value) × (v ≡ scalar w) × IsLabel w
IsLabel-fits (scalar (str s)) e h = (
  str s,
  refl,
  elim (Bool-cases (str_eq s "")) [
    | inr proper ↦ proper
    | inl empty ↦
        let q : s ≡ "" = (eq_iff s "").0 empty in
        let no : is_room_value (scalar (str s)) ≡ false = rw (q, blank_label) refl in
        absurd (cc (simp no at h))
  ],
)
IsLabel-fits (scalar null) e h = cc
IsLabel-fits (scalar (num x)) e h = cc
IsLabel-fits (scalar (bool b)) e h = cc
IsLabel-fits compound e h = cc

fits_typed :
    (f : Field) (op : Operator) (v : Raw)
    → value_fits (field_name f) (operator_name op) v ≡ none
    → (kind f ≡ Kind.boolean → IsEquality op)
    → (w : Value) × (v ≡ scalar w) × IsTypedFor (kind f) op w
unfolding value_fits
fits_typed Field.temperature op v h k = IsNumber-fits v _ h
fits_typed Field.humidity op v h k = IsNumber-fits v _ h
fits_typed Field.time_hour op v h k = IsNumber-fits v _ h
fits_typed Field.cloud_cover_pct op v h k = IsNumber-fits v _ h
fits_typed Field.is_home op v h k = let (w, e, t) = IsBoolean-fits v _ h in (w, e, (k refl, t))
fits_typed Field.is_overcast op v h k = let (w, e, t) = IsBoolean-fits v _ h in (w, e, (k refl, t))
fits_typed Field.room Operator.eq v h k = let (w, e, t) = IsLabel-fits v _ h in (w, e, (tt, t))
fits_typed Field.room Operator.ne v h k = let (w, e, t) = IsLabel-fits v _ h in (w, e, (tt, t))
fits_typed Field.room Operator.gt v h k = cc
fits_typed Field.room Operator.lt v h k = cc
fits_typed Field.room Operator.ge v h k = cc
fits_typed Field.room Operator.le v h k = cc

-- A condition that does not order Booleans.
abbrev pub IsUnordered : Condition → Type 0
IsUnordered cond =
    (f : Field) (op : Operator)
    → cond.field ≡ some (field_name f)
    → operator_of cond.operator ≡ some op
    → kind f ≡ Kind.boolean
    → IsEquality op

value-IsTyped :
    (f : Field) (op : Operator) (v : Raw) (cond : Condition) (o : Option ValidationError)
    → value_fits (field_name f) (operator_name op) v ≡ o
    → with_value (field_name f) (operator_name op) v o ≡ accepted cond
    → IsUnordered cond
    → IsTyped cond
value-IsTyped f op v cond (some e) q h u = cc
value-IsTyped f op compound cond none q h u = cc
value-IsTyped f op (scalar w) cond none q h u =
    let made : record { field = some (field_name f); operator = some (operator_name op); value = w }
        ≡ cond =
      cc h in
    subst (λ c. IsUnordered c → IsTyped c) made
      (λ u'.
        let (w', e, t) =
          fits_typed f op (scalar w) q (u' f op refl (operator_of-operator_name op)) in
        let same : w' ≡ w = cc e in
        record {
          field = f;
          named = refl;
          op = op;
          known = operator_of-operator_name op;
          typed = subst (IsTypedFor (kind f) op) same t;
        })
      u

operator-IsTyped :
    (f : Field) (o v : Raw) (cond : Condition)
    → with_operator (field_name f) o v ≡ accepted cond
    → IsUnordered cond
    → IsTyped cond
operator-IsTyped f (scalar null) v cond h u = cc
operator-IsTyped f (scalar (bool b)) v cond h u = cc
operator-IsTyped f (scalar (num x)) v cond h u = cc
operator-IsTyped f compound v cond h u = cc
operator-IsTyped f (scalar (str s)) v cond h u =
    elim (Bool-cases (str_in s (map operator_name listed_operators))) [
      | inl known ↦
          let (op, e) = name_of operator_name listed_operators s known in
          value-IsTyped f op v cond _ refl
            (subst
              (λ n. with_value (field_name f) n v (value_fits (field_name f) n v) ≡ accepted cond) e
              (simp known at h))
            u
      | inr unknown ↦ absurd (cc (simp unknown at h))
    ]

field-IsTyped :
    (r o v : Raw) (cond : Condition)
    → with_field r o v ≡ accepted cond
    → IsUnordered cond
    → IsTyped cond
field-IsTyped (scalar null) o v cond h u = cc
field-IsTyped (scalar (bool b)) o v cond h u = cc
field-IsTyped (scalar (num x)) o v cond h u = cc
field-IsTyped compound o v cond h u = cc
field-IsTyped (scalar (str s)) o v cond h u =
    elim (Bool-cases (str_in s (map field_name listed_fields))) [
      | inl known ↦
          let (f, e) = name_of field_name listed_fields s known in
          operator-IsTyped f o v cond
            (subst (λ n. with_operator n o v ≡ accepted cond) e (simp known at h)) u
      | inr unknown ↦ absurd (cc (simp unknown at h))
    ]

keys-IsTyped :
    (r o v : Option Raw) (cond : Condition)
    → with_keys r o v ≡ accepted cond
    → IsUnordered cond
    → IsTyped cond
keys-IsTyped (some r) (some o) (some v) cond h u = field-IsTyped r o v cond h u
keys-IsTyped none o v cond h u = cc
keys-IsTyped (some r) none v cond h u = cc
keys-IsTyped (some r) (some o) none cond h u = cc

-- A condition that the validator accepts, and that does not
-- order Booleans, is typed: its field and operator are those of the DSL, its value has the type
-- of the field, and a label is compared by `==` or `!=` only and is not blank.
pub validate_condition-IsTyped :
    (raw : RawCondition) (cond : Condition)
    → validate_condition raw ≡ accepted cond
    → IsUnordered cond
    → IsTyped cond
unfolding validate_condition
validate_condition-IsTyped other cond h u = cc
validate_condition-IsTyped (object d) cond h u =
    elim (Bool-cases (all (λ p. str_in p.0 condition_keys) d)) [
      | inl listed ↦
          keys-IsTyped (get d "field") (get d "operator") (get d "value") cond (simp listed at h) u
      | inr more ↦ absurd (cc (simp more at h))
    ]
