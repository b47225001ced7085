-- ===== src/Policy/Evaluator/Priority.antt =====
-- What `compute_verdict` of policy_engine/evaluator.py decides, and which rule it reports.
use device_weave.Prelude.{
  ◌≡◌, refl, Bool, true, false, ◌&&◌, some, List, [], ◌∷◌, any, if◌then◌else◌, Bool-cases, inl, inr,
}
use device_weave.Prelude.Text.{String, str_eq, eq_iff}
use device_weave.Policy.Data.{Params, Context, Rule, allow, block, modify}
use device_weave.Policy.DeviceTypes.{canonical_device_type}
use device_weave.Policy.Condition.{all_conditions_match}
use device_weave.Policy.Evaluator.{
  is_safe, applies, matching, pick_modify, pick, compute_verdict, allow_decision,
}

-- A rule of an action type that the loop collects.
abbrev pub claims : String → String → Context → Rule → Bool
claims kind device_type context p = applies device_type context p && str_eq p.action_type kind

-- A rule of the same device class whose conditions all match applies.
pub applies_of :
    (device_type : String) (context : Context) (p : Rule)
    → canonical_device_type p.device_type ≡ canonical_device_type (some device_type)
    → all_conditions_match p.conditions context ≡ true
    → applies device_type context p ≡ true
unfolding applies
applies_of device_type context p e h =
    rw
      ((eq_iff (canonical_device_type p.device_type) (canonical_device_type (some device_type))).1
        e)
      h

abbrev pub is_cons : List Rule → Bool
is_cons [] = false
is_cons (_ ∷ _) = true

is_cons-matching :
    (kind device_type : String) (context : Context) (ps : List Rule)
    → is_cons (matching kind device_type context ps) ≡ any (claims kind device_type context) ps
unfolding matching
is_cons-matching kind dt c [] = refl
is_cons-matching kind dt c (p ∷ ps) = elim (Bool-cases (claims kind dt c p)) [
  | inl yes' ↦ rw (yes', if◌then◌else◌) refl
  | inr no' ↦ rw (no', if◌then◌else◌) (is_cons-matching kind dt c ps)
]

module _ (dumps : Params → String) where
  verdict-pick :
      (bs ms : List Rule)
      → (pick dumps bs ms).verdict
        ≡ (if is_cons bs then block else if is_cons ms then modify else allow)
  unfolding pick pick_modify
  verdict-pick [] [] = refl
  verdict-pick [] (m ∷ ms) = refl
  verdict-pick (b ∷ bs) ms = refl

  -- A safe action is always allowed. Any other is blocked if some block rule of the device's class
  -- has all its conditions met, is modified if none has and some modify rule does, and is allowed
  -- if neither.
  pub compute_verdict_priority :
      (policies : List Rule) (device_type action : String) (context : Context)
      → (compute_verdict dumps policies device_type action context).verdict ≡ (
          if is_safe action
          then allow
          else if any (claims "block" device_type context) policies
          then block
          else if any (claims "modify" device_type context) policies
          then modify
          else allow)
  unfolding compute_verdict
  compute_verdict_priority ps dt a c =
      let bs = matching "block" dt c ps in
      let ms = matching "modify" dt c ps in
      rw (← is_cons-matching "block" dt c ps, ← is_cons-matching "modify" dt c ps)
        (elim (is_safe a)
          as (λ s. (if s then allow_decision else pick dumps bs ms).verdict ≡ (
            if s
            then allow
            else if is_cons bs
            then block
            else if is_cons ms
            then modify
            else allow)) [ true ↦ refl | false ↦ verdict-pick bs ms ])
