-- ===== src/Access/Sample.antt =====
-- An authorizer that meets the interface, for the instances of the theorems: its ledger is the list
-- of the spent `jti`.
use device_weave.Prelude.{
  ◌≡◌, refl, true, false, not, Option, none, some, List, ◌∷◌, arith, if◌then◌else◌, Bool-cases, inl,
  inr,
}
use device_weave.Prelude.Text.{String, str_in, eq_iff}
use device_weave.Policy.Data.{Dict, get}
use device_weave.Access.Authorizer.{
  ToolPolicy, destructive, Principal, insufficient_scope, step_up_required, token_replayed, Outcome,
  allowed, refused, Moment, Authorizer, Keeps, Earned, IsSingleUse,
}

unfoldable pub spend : List String → Option String → Outcome × List String
spend spent none = (refused step_up_required, spent)
spend spent (some jti) =
    if str_in jti spent then (refused token_replayed, spent) else (allowed, jti ∷ spent)

unfoldable pub sample_require :
    List String → Moment → Principal → ToolPolicy → Outcome × List String
unfolding spend
sample_require spent t p policy =
    if not (str_in policy.scope p.scopes)
    then (refused insufficient_scope, spent)
    else if policy.step_up
    then spend spent p.jti
    else (allowed, spent)

abbrev pub sample_policy : Dict ToolPolicy → String → ToolPolicy
sample_policy policies tool = elim (get policies tool) [ none ↦ destructive | some p ↦ p ]

abbrev pub sample : Dict ToolPolicy → Authorizer (List String)
sample policies = record {
  require = sample_require;
  policy = sample_policy policies;
  is_spent = str_in;
}

spend-Keeps :
    (o : List String) (jti : Option String) (j : String)
    → str_in j o ≡ true
    → str_in j (spend o jti).1 ≡ true
unfolding spend
spend-Keeps o none j h = h
spend-Keeps o (some k) j h = elim (Bool-cases (str_in k o)) [
  | inl used ↦ simp used h
  | inr new ↦ simp new (ground arith)
]

spend-allowed :
    (o : List String) (jti : Option String)
    → (spend o jti).0 ≡ allowed
    → (j : String) × (jti ≡ some j) × (str_in j o ≡ false) × (str_in j (spend o jti).1 ≡ true)
unfolding spend
spend-allowed o none h = cc
spend-allowed o (some k) h = elim (Bool-cases (str_in k o)) [
  | inl used ↦ absurd (cc (simp used at h))
  | inr new ↦ (k, refl, new, simp new (ground (arith, eq_iff k k)))
]

sample-Keeps :
    (policies : Dict ToolPolicy) (o : List String) (t : Moment) (p : Principal)
    (policy : ToolPolicy)
    → Keeps (sample policies) o (sample_require o t p policy).1
unfolding sample_require
sample-Keeps policies o t p policy j h = elim (Bool-cases (str_in policy.scope p.scopes)) [
  | inr scopeless ↦ simp scopeless h
  | inl scoped ↦ elim (Bool-cases policy.step_up) [
    | inl stepping ↦ simp (scoped, stepping) (spend-Keeps o p.jti j h)
    | inr free ↦ simp (scoped, free) h
  ]
]

sample_earns :
    (policies : Dict ToolPolicy) (o : List String) (t : Moment) (p : Principal)
    (policy : ToolPolicy)
    → policy.step_up ≡ true
    → (sample_require o t p policy).0 ≡ allowed
    → Earned (sample policies) p o (sample_require o t p policy).1
unfolding sample_require
sample_earns policies o t p policy stepping h = elim (Bool-cases (str_in policy.scope p.scopes)) [
  | inr scopeless ↦ absurd (cc (simp scopeless at h))
  | inl scoped ↦ simp (scoped, stepping) (spend-allowed o p.jti (simp (scoped, stepping) at h))
]

pub sample-IsSingleUse : (policies : Dict ToolPolicy) → IsSingleUse (List String) (sample policies)
sample-IsSingleUse policies = record {
  keeps = sample-Keeps policies;
  earns = sample_earns policies;
}
