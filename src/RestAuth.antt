-- ===== src/RestAuth.antt =====
-- The scope that a REST route needs, and the check of a request: rest_auth.py. What BearerAuth makes
-- of a request and the authorizer of the vendored package are parameters, and so are its policies
-- READ and EXECUTE. `upper` maps ASCII letters.
pub mod Gate
mod Tests
use mathlib.Core.List.{reverse}
use device_weave.Prelude.{
  ℕ, ◌-◌, ◌≡◌, Bool, true, false, not, ◌&&◌, ◌||◌, Option, none, some, List, [], ◌∷◌, map,
  if◌then◌else◌, leb, ◌==◌,
}
use device_weave.Prelude.Text.{String, str_eq, str_in, codes, codes_eq}
use device_weave.Access.Authorizer.{ToolPolicy, Principal, Outcome, allowed, refused}

-- An HTTP event by its method and path.
pub record Request : Type 0 where
  pub method : String
  pub path : String

-- What `BearerAuth.check_event` gives or raises.
pub data Credential : Type 0 where
  unavailable : Credential
  rejected : Credential
  verified : Option Principal → Credential

-- The answer of `check`: the handler goes on, or an error with its status.
pub data Answer : Type 0 where
  passes : Option Principal → Answer
  answers : ℕ → Answer

abbrev pub destructive_route : ToolPolicy
destructive_route = record { scope = "destructive"; step_up = false; delegable = some false }

abbrev pub unknown_principal : Principal
unknown_principal = record {
  method = "unknown";
  subject = none;
  scopes = [];
  issued_at = none;
  expires_at = none;
  jti = none;
  actors = [];
}

unfoldable pub upper : List ℕ → List ℕ
upper = map (λ c. if leb b'a' c && leb c b'z' then c - 32 else c)

unfoldable pub starts_with : List ℕ → List ℕ → Bool
starts_with cs [] = true
starts_with [] (p ∷ ps) = false
starts_with (c ∷ cs) (p ∷ ps) = c == p && starts_with cs ps

unfoldable pub ends_with : List ℕ → List ℕ → Bool
unfolding starts_with
ends_with cs ps = starts_with (reverse cs) (reverse ps)

-- `part in text`
unfoldable pub is_inside : List ℕ → List ℕ → Bool
unfolding starts_with
is_inside ps [] = starts_with [] ps
is_inside ps (c ∷ cs) = starts_with (c ∷ cs) ps || is_inside ps cs

unfoldable pub drop_slashes : List ℕ → List ℕ
drop_slashes [] = []
drop_slashes (c ∷ cs) = let rest = drop_slashes cs in if c == 47 then rest else c ∷ cs

-- `path.rstrip("/")`
unfoldable pub trimmed : List ℕ → List ℕ
unfolding drop_slashes
trimmed cs = reverse (drop_slashes (reverse cs))

unfoldable pub is_read : List ℕ → Bool
unfolding codes_eq
is_read m = codes_eq m (codes "GET") || codes_eq m (codes "HEAD") || codes_eq m (codes "OPTIONS")

module _ (read execute : ToolPolicy) where
  unfoldable pub route_policy : List ℕ → List ℕ → Option ToolPolicy
  unfolding trimmed ends_with is_inside is_read
  route_policy method path =
      let t = trimmed path in
      if codes_eq method (codes "GET") && ends_with t (codes "/health")
      then none
      else if is_read method
      then some read
      else if codes_eq method (codes "DELETE")
          && (is_inside (codes "/devices/") t
              || is_inside (codes "/scenes/") t
              || is_inside (codes "/policies/") t)
      then some destructive_route
      else if codes_eq method (codes "POST") && ends_with t (codes "/ingest")
      then some destructive_route
      else some execute

  module _ (bearer : Request → Credential) (authorize : Principal → ToolPolicy → Outcome) where
    abbrev pub or_unknown : Option Principal → Principal
    or_unknown none = unknown_principal
    or_unknown (some p) = p

    abbrev pub by_outcome : Principal → Outcome → Answer
    by_outcome p allowed = passes (some p)
    by_outcome p (refused reason) = answers 403

    abbrev pub by_credential : Bool → ToolPolicy → Credential → Answer
    by_credential audit policy unavailable = answers 503
    by_credential audit policy rejected = if audit then passes none else answers 401
    by_credential audit policy (verified p) =
        if audit && not (str_in policy.scope (or_unknown p).scopes)
        then passes (some (or_unknown p))
        else by_outcome (or_unknown p) (authorize (or_unknown p) policy)

    abbrev pub by_policy : Bool → Request → Option ToolPolicy → Answer
    by_policy audit r none = passes none
    by_policy audit r (some policy) =
        by_credential (audit && not (str_eq policy.scope "destructive")) policy (bearer r)

    -- `check`; `audit` is `REST_AUTH_MODE=audit`, and `none` is an event that is not HTTP.
    unfoldable pub check : Bool → Option Request → Answer
    unfolding route_policy upper
    check audit none = passes none
    check audit (some r) = by_policy audit r (route_policy (upper (codes r.method)) (codes r.path))
