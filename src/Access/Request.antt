-- ===== src/Access/Request.antt =====
-- access_control.py: the caller of one request and the check before every step. What a request
-- shares is the state of its `RequestAuth` and the replay ledger.
use device_weave.Prelude.{
  Bool, true, false, ◌||◌, any, Option, none, some, List, [], ◌∷◌, if◌then◌else◌,
}
use device_weave.Prelude.Text.{String, str_eq, str_in}
use device_weave.Policy.Clamp.{Device}
use device_weave.Access.Authorizer.{
  destructive, Principal, Reason, Outcome, allowed, refused, Moment, Authorizer,
}

abbrev pub physical_access_actions : List String
physical_access_actions = "unlock" ∷ "open" ∷ []

pub record RequestAuth : Type 0 where
  pub principal : Principal
  pub stepped_up : Bool

-- Why a step may not run: `no_token`, or the reason of the authorization error.
pub data Denial : Type 0 where
  no_token : Denial
  unauthorized : Reason → Denial

unfoldable pub is_physical_access : Device → String → Bool
is_physical_access device action =
    str_in action physical_access_actions
    || (if str_eq action "toggle"
        then any (λ cap. str_in cap physical_access_actions) device.capabilities
        else false)

module _ {S : Type 0} (z : Authorizer S) where
  abbrev pub after_require : RequestAuth → Outcome × S → Outcome × RequestAuth × S
  after_require auth (allowed, l) =
      (allowed, record { principal = auth.principal; stepped_up = true }, l)
  after_require auth (refused e, l) = (refused e, auth, l)

  abbrev pub after_authorize : Bool → RequestAuth → Outcome × S → Outcome × RequestAuth × S
  after_authorize needs auth (allowed, l) =
      if needs
      then (allowed, record { principal = auth.principal; stepped_up = true }, l)
      else (allowed, auth, l)
  after_authorize needs auth (refused e, l) = (refused e, auth, l)

  -- `RequestAuth.authorize_tool`, with `ToolAuthorizer.authorize`
  unfoldable pub authorize_tool : RequestAuth → S → Moment → String → Outcome × RequestAuth × S
  authorize_tool auth ledger t tool =
      let policy = z.policy tool in
      after_authorize policy.step_up auth (z.require ledger t auth.principal policy)

  unfoldable pub require_physical_access : RequestAuth → S → Moment → Outcome × RequestAuth × S
  require_physical_access auth ledger t =
      if auth.stepped_up
      then (allowed, auth, ledger)
      else after_require auth (z.require ledger t auth.principal destructive)

  abbrev pub as_denial : Outcome × RequestAuth × S → Option Denial × Option RequestAuth × S
  as_denial (allowed, auth, l) = (none, some auth, l)
  as_denial (refused e, auth, l) = (some (unauthorized e), some auth, l)

  abbrev pub check_physical :
      Option RequestAuth → S → Moment → Option Denial × Option RequestAuth × S
  check_physical none ledger t = (some no_token, none, ledger)
  check_physical (some auth) ledger t = as_denial (require_physical_access auth ledger t)

  -- `check_step`, with the request's auth and the ledger afterwards.
  unfoldable pub check_step :
      Option RequestAuth → S → Moment → Device → String → Option Denial × Option RequestAuth × S
  unfolding is_physical_access
  check_step auth ledger t device action =
      if is_physical_access device action
      then check_physical auth ledger t
      else (none, auth, ledger)
