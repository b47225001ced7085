-- ===== src/Validator/Checks.antt =====
-- What the checks of scope, conditions, confidence and rule id let through.
use device_weave.Prelude.{
  ◌≡◌, refl, sym, ◌∙◌, Bool, true, not, ◌&&◌, ◌||◌, all, List, [], ◌∷◌, All, arith, Bool-cases, inl,
  inr,
}
use device_weave.Prelude.Int.{ℤ, pos, ltb_ℤ, leb_ℤ}
use device_weave.Prelude.Text.{String, str_eq, str_in, strip_text}
use device_weave.Policy.Data.{null, bool, num, str, get, Condition}
use device_weave.Policy.DeviceTypes.{canonical_device_type, policy_scope_types}
use device_weave.RuleSet.Region.Matches.{IsTyped}
use device_weave.Validator.{
  RawCondition, Checked, accepted, rejected, validate_conditions, validate_each, validate_condition,
  and_then,
}
use device_weave.Validator.Typed.{IsUnordered, validate_condition-IsTyped}
use device_weave.Validator.Policies.{
  Part, leaf, mapping, items, passed, check_scope, check_conditions, check_confidence, resolve_id,
  confidence_threshold, entry_text, has, of_checked,
}

-- A rule id that the evaluator can report and the store can key: not blank, and not "auto".
abbrev pub is_resolved : String → Bool
is_resolved id = not (str_eq id "" || str_eq id "auto")

abbrev pub IsTypedList : List Condition → Type 0
IsTypedList cs = All (λ c. IsUnordered c → IsTyped c) cs

pub resolve_id-resolved :
    (fresh : String) (id : Part)
    → is_resolved fresh ≡ true
    → is_resolved (resolve_id fresh id) ≡ true
unfolding resolve_id
resolve_id-resolved fresh (leaf (str s)) h =
    elim (Bool-cases (str_eq (strip_text s) "" || str_eq (strip_text s) "auto")) [
      | inl auto' ↦ simp auto' h
      | inr own ↦ simp own refl
    ]
resolve_id-resolved fresh (leaf null) h = h
resolve_id-resolved fresh (leaf (bool b)) h = h
resolve_id-resolved fresh (leaf (num x)) h = h
resolve_id-resolved fresh (mapping d) h = h
resolve_id-resolved fresh (items cs) h = h

pub check_scope-scoped :
    (s : Part) (t : String) → check_scope s ≡ passed t → str_in t policy_scope_types ≡ true
unfolding check_scope
check_scope-scoped (leaf v) t h = cc
check_scope-scoped (items cs) t h = cc
check_scope-scoped (mapping d) t h =
    let device_type = canonical_device_type (entry_text (get d "device_type")) in
    elim (Bool-cases (not (has (get d "device_type") && all (λ p. str_eq p.0 "device_type") d))) [
      | inl extra ↦ absurd (cc (simp extra at h))
      | inr exact ↦ elim (Bool-cases (str_in device_type policy_scope_types)) [
        | inl known ↦
            let e : passed device_type ≡ passed t = simp (exact, known) at h in
            let e' : device_type ≡ t = cc e in rw (sym e') known
        | inr unknown ↦ absurd (cc (simp (exact, unknown) at h))
      ]
    ]

pub check_confidence-bounds :
    (c : Part) (x : ℤ)
    → check_confidence c ≡ passed x
    → (leb_ℤ confidence_threshold x ≡ true) × (leb_ℤ x (pos 1000) ≡ true)
unfolding check_confidence
check_confidence-bounds (leaf (num y)) x h =
    elim (Bool-cases (not (leb_ℤ (pos 0) y && leb_ℤ y (pos 1000)))) [
      | inl outside ↦ absurd (cc (simp outside at h))
      | inr inside ↦ elim (Bool-cases (ltb_ℤ y confidence_threshold)) [
        | inl low ↦ absurd (cc (simp (inside, low) at h))
        | inr high ↦
            let e : passed y ≡ passed x = simp (inside, high) at h in
            let e' : y ≡ x = cc e in rw (sym e') (ground arith)
      ]
    ]
check_confidence-bounds (leaf null) x h = cc
check_confidence-bounds (leaf (bool b)) x h = cc
check_confidence-bounds (leaf (str s)) x h = cc
check_confidence-bounds (mapping d) x h = cc
check_confidence-bounds (items cs) x h = cc

and_then-accepted :
    (c : Checked Condition) (rest : Checked (List Condition)) (cs : List Condition)
    → and_then c rest ≡ accepted cs
    → (a : Condition) × (as' : List Condition) × (c ≡ accepted a)
      × (rest ≡ accepted as')
      × (cs ≡ a ∷ as')
and_then-accepted (rejected e) rest cs h = cc
and_then-accepted (accepted a) (rejected e) cs h = cc
and_then-accepted (accepted a) (accepted as') cs h = (a, as', refl, refl, sym (cc h))

each-IsTypedList :
    (rs : List RawCondition) (cs : List Condition) → validate_each rs ≡ accepted cs → IsTypedList cs
unfolding validate_each
each-IsTypedList [] cs h = let e : [] ≡ cs = cc h in rw (sym e) tt
each-IsTypedList (r ∷ rs) cs h =
    let (a, as', i, j, e) = and_then-accepted (validate_condition r) (validate_each rs) cs h in
    rw e (validate_condition-IsTyped r a i, each-IsTypedList rs as' j)

some_conditions :
    (r : RawCondition) (rs : List RawCondition) (cs : List Condition)
    → validate_conditions (r ∷ rs) ≡ accepted cs
    → IsTypedList cs × (¬ (cs ≡ []))
unfolding validate_conditions validate_each
some_conditions r rs cs h =
    let (a, as', i, j, e) = and_then-accepted (validate_condition r) (validate_each rs) cs h in
    (each-IsTypedList (r ∷ rs) cs h, λ n. let e' : a ∷ as' ≡ [] = sym e ∙ n in absurd (cc))

pub check_conditions-IsTypedList :
    (c : Part) (cs : List Condition)
    → check_conditions c ≡ passed cs
    → IsTypedList cs × (¬ (cs ≡ []))
unfolding check_conditions
check_conditions-IsTypedList (leaf v) cs h = cc
check_conditions-IsTypedList (mapping d) cs h = cc
check_conditions-IsTypedList (items []) cs h = cc
check_conditions-IsTypedList (items (r ∷ rs)) cs h = from (validate_conditions (r ∷ rs)) refl h
  where
    from :
        (k : Checked (List Condition))
        → validate_conditions (r ∷ rs) ≡ k
        → of_checked k ≡ passed cs
        → IsTypedList cs × (¬ (cs ≡ []))
    from (rejected e) i q = cc
    from (accepted ds) i q = let e : ds ≡ cs = cc q in rw (sym e) (some_conditions r rs ds i)
