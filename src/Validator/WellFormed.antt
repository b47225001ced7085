-- ===== src/Validator/WellFormed.antt =====
-- What a policy that validate_policy lets through is known to be.
use device_weave.Prelude.{
  ◌≡◌, refl, sym, true, false, not, all, Option, none, some, List, [], Bool-cases, inl, inr,
}
use device_weave.Prelude.Int.{ℤ, pos, leb_ℤ}
use device_weave.Prelude.Text.{String, str_eq, str_in, strip_text}
use device_weave.Policy.Data.{get, Condition}
use device_weave.Policy.DeviceTypes.{policy_scope_types}
use device_weave.Validator.Checks.{
  is_resolved, IsTypedList, resolve_id-resolved, check_scope-scoped, check_confidence-bounds,
  check_conditions-IsTypedList,
}
use device_weave.Validator.Acts.{check_action-IsActing}
use device_weave.Validator.Policies.{
  Part, RawPolicy, not_a_dict, dict, Step, passed, failed, Action, Policy, check_scope,
  check_conditions, check_action, check_confidence, resolve_id, assemble, check_parts,
  validate_policy, action_types, confidence_threshold, is_refused, top_keys,
}

pub record IsWellFormed (p : Policy) : Type 0 where
  pub resolved_id : is_resolved p.rule_id ≡ true
  pub scoped : str_in p.device_type policy_scope_types ≡ true
  pub typed : IsTypedList p.conditions
  pub conditioned : ¬ (p.conditions ≡ [])
  pub acts : str_in p.action.action_type action_types ≡ true
  pub explained : str_eq (strip_text p.action.reason) "" ≡ false
  pub confident : leb_ℤ confidence_threshold p.confidence ≡ true
  pub bounded : leb_ℤ p.confidence (pos 1000) ≡ true

-- A policy that passes had every part checked.
assembled :
    (id : String) (s : Step String) (cs : Step (List Condition)) (a : Step Action) (c : Step ℤ)
    (p : Policy)
    → assemble id s cs a c ≡ passed p
    → (p.rule_id ≡ id)
      × (s ≡ passed p.device_type)
      × (cs ≡ passed p.conditions)
      × (a ≡ passed p.action)
      × (c ≡ passed p.confidence)
assembled id (failed e) cs a c p h = cc
assembled id (passed t) (failed e) a c p h = cc
assembled id (passed t) (passed ds) (failed e) c p h = cc
assembled id (passed t) (passed ds) (passed b) (failed e) p h = cc
assembled id (passed t) (passed ds) (passed b) (passed x) p h =
    let q : Policy = record {
      rule_id = id;
      device_type = t;
      conditions = ds;
      action = b;
      confidence = x;
    } in
    let e : q ≡ p = cc h in rw (sym e) (refl, refl, refl, refl, refl)

parts-IsWellFormed :
    (fresh : String) (i s cs a c : Option Part) (p : Policy)
    → is_resolved fresh ≡ true
    → check_parts fresh i s cs a c ≡ passed p
    → IsWellFormed p
parts-IsWellFormed fresh (some i) (some s) (some cs) (some a) (some c) p f h =
    let (n, t, d, b, x) =
      assembled (resolve_id fresh i) (check_scope s) (check_conditions cs) (check_action a)
        (check_confidence c) p h in
    let (ty, ne) = check_conditions-IsTypedList cs p.conditions d in
    let (k, r) = check_action-IsActing a p.action b in
    let (low, high) = check_confidence-bounds c p.confidence x in
    record {
      resolved_id = rw n (resolve_id-resolved fresh i f);
      scoped = check_scope-scoped s p.device_type t;
      typed = ty;
      conditioned = ne;
      acts = k;
      explained = r;
      confident = low;
      bounded = high;
    }
parts-IsWellFormed fresh none s cs a c p f h = cc
parts-IsWellFormed fresh (some i) none cs a c p f h = cc
parts-IsWellFormed fresh (some i) (some s) none a c p f h = cc
parts-IsWellFormed fresh (some i) (some s) (some cs) none c p f h = cc
parts-IsWellFormed fresh (some i) (some s) (some cs) (some a) none p f h = cc

-- A policy that the validator lets through has a rule id that is neither blank nor "auto" (if the
-- fresh id is so), a scope of the vocabulary, at least one condition, only conditions that are typed
-- or order Booleans, an action of a known type with a reason that is not blank, and a confidence
-- between the threshold and 1.
pub validate_policy-IsWellFormed :
    (fresh : String) (raw : RawPolicy) (p : Policy)
    → is_resolved fresh ≡ true
    → validate_policy fresh raw ≡ passed p
    → IsWellFormed p
unfolding validate_policy
validate_policy-IsWellFormed fresh not_a_dict p f h = cc
validate_policy-IsWellFormed fresh (dict d) p f h =
    elim (Bool-cases (is_refused (get d "rejected"))) [
      | inl refused ↦ absurd (cc (simp refused at h))
      | inr offered ↦ elim (Bool-cases (not (all (λ x. str_in x.0 top_keys) d))) [
        | inl extra ↦ absurd (cc (simp (offered, extra) at h))
        | inr listed ↦
            parts-IsWellFormed fresh (get d "rule_id") (get d "scope") (get d "conditions")
              (get d "action") (get d "confidence") p f (simp (offered, listed) at h)
      ]
    ]
