-- ===== src/Lib.antt =====
-- DeviceWeave: natural-language control of home devices, with safety policies.
--
-- A command is resolved to device actions. Before an action runs, the policy gate evaluates the
-- active policies (allow, block or modify) against the context, the execution planner checks that a
-- step which grants physical access comes from a caller with a fresh token, and the parameters are
-- clamped to the device's ranges. Policies are authored in words, compiled, checked against the
-- stored rules and the household's invariants, and stored in versions. A poller reads from the
-- router who is at home; room rules say who is in which room between two clock times.
--
-- Files and code (paths from the repository's root):
--   Prelude       helpers: tests on numbers, lists, signed numbers, texts and total orders.
--   Policy        src/policy_engine: Data, DeviceTypes (device_types.py), Condition and Evaluator
--                 (evaluator.py: _evaluate_condition, rule_winner_key, compute_verdict), Clamp
--                 (param_clamp.py), Loader (policy_loader.py). A rule is a stored policy; what the
--                 code reads by `get` is an Option or a Value.
--                 A rule has the keys rule_id and action.reason, as the store and the validator write
--                 them: the KeyError of compute_verdict on a rule without one is not modelled.
--   RuleSet       src/policy_authoring/rule_set_checker.py: Interval, Labels, Dim, Box and Region
--                 (rule_region) are the algebra of boxes, Analyze is analyze.
--   Controllability
--                 src/policy_authoring/controllability.py: the plant with its events, and Synthesis
--                 (_synthesize, _control, _reach, _classify). A set is a list, and the states are
--                 any type with an equality test.
--   Access        src/access_control.py (Request). ToolAuthorizer of the vendored package
--                 src/cipherweave_verify is the interface Authorizer with its law IsSingleUse; the
--                 state is the RequestAuth of the request and that authorizer's ledger.
--   RestAuth      src/rest_auth.py: the scope of a route and the check of a request.
--   Execution     src/execution_planner.py, with the authorization of a tool call of
--                 src/mcp_handler.py in SingleUse.
--   HomeContext   src/policy_engine/context_provider.py and _fetch of src/weather_client.py.
--   Enforcement   src/policy_engine/middleware.py over the cache of Policy.Loader.
--   RoomSchedule  src/room_schedule.py. The state is the list of the stored rules.
--   Presence      src/eero_presence.py (Tracked, State), src/presence_store.py (Store) and the run
--                 of the poller in src/eero_presence_handler.py (Poll). The state is the stored item.
--   Rooms         src/room_fingerprint.py: Label (the names of rooms and people), Classify (the
--                 room nearest to a reading) and Smooth (the room shown from poll to poll).
--   PolicyStore   src/policy_authoring/policy_store.py. The state is the list of the stored items,
--                 and Io says which requests of a call fail.
--   Validator     src/policy_authoring/validator.py: _validate_condition, and validate_policy in
--                 Policies.
--
-- How the code is modelled. A function that changes state takes the state and gives it back. A
-- number of a policy is a whole number of thousandths with a sign (Prelude.Int) and a clock
-- reading is in milliseconds, so comparisons are exact; floating-point rounding and infinities are
-- left out. Texts are compared by code points; `lower` maps ASCII letters only and a clock text
-- has ASCII digits. The dictionaries are association lists. json.dumps, str.casefold, the names
-- and offsets of timezones, the adapters of the devices, the answers of DynamoDB and of the
-- weather service, BearerAuth and the authorizer are parameters. Loops are structural recursion on
-- lists, and the scan for a shared minute runs over the 1440 minutes of a day. The two loops of
-- the synthesis have fuel: one more than the legal states, since each pass but the last removes
-- one, and one more than the entries of delta, since a state goes on the stack once. The steps of
-- a request are checked in their order, because no check awaits anything.
--
-- Not modelled: the texts of messages and logs, sample contexts of the checker, the construction of
-- a plant from rules and its witness traces, the deadline of a synthesis, and the parts that talk
-- to vendors and models: adapters, ingestion, agents, token verification and the HTTP entry points.
pub mod Prelude
pub mod Policy
pub mod RuleSet
pub mod Controllability
pub mod Access
pub mod RestAuth
pub mod Execution
pub mod HomeContext
pub mod Enforcement
pub mod Presence
pub mod Rooms
pub mod RoomSchedule
pub mod PolicyStore
pub mod Validator
