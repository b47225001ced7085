-- ===== src/Access/Authorizer.antt =====
-- The authorizer that access_control.py calls: `ToolAuthorizer` of the vendored package
-- cipherweave_verify. It is an interface of the operations that the code uses and of the documented
-- law of its replay ledger. A clock reading is in milliseconds, `iat` and `exp` are in seconds.
use device_weave.Prelude.{ℕ, ◌≡◌, Bool, true, false, Option, none, some, List}
use device_weave.Prelude.Text.{String}

pub record ToolPolicy : Type 0 where
  pub scope : String
  pub step_up : Bool
  pub delegable : Option Bool

abbrev pub destructive : ToolPolicy
destructive = record { scope = "destructive"; step_up = true; delegable = none }

pub record Principal : Type 0 where
  pub method : String
  pub subject : Option String
  pub scopes : List String
  pub issued_at : Option ℕ
  pub expires_at : Option ℕ
  pub jti : Option String
  pub actors : List String

-- `AuthorizationError` by its reason.
pub data Reason : Type 0 where
  insufficient_scope step_up_required token_replayed : Reason
  delegation_not_allowed replay_ledger_unavailable : Reason

pub data Outcome : Type 0 where
  allowed : Outcome
  refused : Reason → Outcome

-- What a call finds around it: the clock, the mode and whether the ledger can be written.
pub record Moment : Type 0 where
  pub now : ℕ
  pub audit : Bool
  pub fails : Bool

-- `require` and `policy` of an authorizer whose ledger has the states `S`; `is_spent` reads whether
-- the ledger holds a `jti`.
pub record Authorizer (S : Type 0) : Type 0 where
  pub require : S → Moment → Principal → ToolPolicy → Outcome × S
  pub policy : String → ToolPolicy
  pub is_spent : String → S → Bool

abbrev pub Keeps : {S : Type 0} → Authorizer S → S → S → Type 0
Keeps z before after = (jti : String) → z.is_spent jti before ≡ true → z.is_spent jti after ≡ true

-- The principal's token was not spent in the first ledger and is spent in the second.
abbrev pub Earned : {S : Type 0} → Authorizer S → Principal → S → S → Type 0
Earned z p before after =
    (jti : String) × (p.jti ≡ some jti)
    × (z.is_spent jti before ≡ false)
    × (z.is_spent jti after ≡ true)

-- A ledger never forgets a `jti`, and a call that needs a step-up is allowed only by spending the
-- caller's own.
pub record IsSingleUse (S : Type 0) (z : Authorizer S) : Type 0 where
  pub keeps :
      (o : S) (t : Moment) (p : Principal) (policy : ToolPolicy)
      → Keeps z o (z.require o t p policy).1
  pub earns :
      (o : S) (t : Moment) (p : Principal) (policy : ToolPolicy)
      → policy.step_up ≡ true
      → (z.require o t p policy).0 ≡ allowed
      → Earned z p o (z.require o t p policy).1
