-- ===== src/RestAuth/Tests.antt =====
-- Runs and instances for rest_auth.py.
use device_weave.Prelude.{◌≡◌, refl, ◌⊎◌, true, false, none, some, [], ◌∷◌, if◌then◌else◌}
use device_weave.Prelude.Text.{codes, str_in}
use device_weave.Access.Authorizer.{
  ToolPolicy, Principal, Outcome, allowed, refused, insufficient_scope,
}
use device_weave.RestAuth.{
  Request, Credential, verified, rejected, passes, answers, destructive_route, check, route_policy,
  upper, is_read,
}
use device_weave.RestAuth.Gate.{check-IsGranted, IsGranted}

abbrev reading : ToolPolicy
reading = record { scope = "read"; step_up = false; delegable = none }

abbrev executing : ToolPolicy
executing = record { scope = "execute"; step_up = false; delegable = none }

abbrev operator : Principal
operator = record {
  method = "jwt";
  subject = some "ana";
  scopes = "execute" ∷ [];
  issued_at = none;
  expires_at = none;
  jti = none;
  actors = [];
}

abbrev as_operator : Request → Credential
as_operator r = verified (some operator)

abbrev nobody : Request → Credential
nobody r = rejected

abbrev by_scope : Principal → ToolPolicy → Outcome
by_scope p policy = if str_in policy.scope p.scopes then allowed else refused insufficient_scope

abbrev learn : Request
learn = record { method = "post"; path = "/learn" }

abbrev forget : Request
forget = record { method = "DELETE"; path = "/policies/r1/" }

no_read : is_read (upper (codes learn.method)) ≡ false
unfolding is_read upper
no_read = refl

learns : check reading executing as_operator by_scope false (some learn) ≡ passes (some operator)
unfolding check
learns = refl

-- Audit mode lets no one delete.
kept : check reading executing as_operator by_scope true (some forget) ≡ answers 403
unfolding check
kept = refl

audited : check reading executing nobody by_scope true (some learn) ≡ passes none
unfolding check
audited = refl

check-IsGranted_example :
    (policy : ToolPolicy) × (route_policy reading executing (upper (codes "post")) (codes "/learn")
      ≡ some policy)
    × ((IsGranted reading executing as_operator by_scope learn policy (some operator)
          × ((policy ≡ executing) ⊎ (policy ≡ destructive_route)))
        ⊎ ((false ≡ true) × (policy ≡ executing)))
check-IsGranted_example =
    check-IsGranted reading executing as_operator by_scope false learn (some operator) no_read
      learns
