-- ===== src/Execution/SingleUse.antt =====
-- A token over many requests: mcp_handler.py authorizes the tool of a request and runs it with the
-- caller bound, so the steps that it executes are checked against that caller.
use device_weave.Prelude.{
  ◌≡◌, sym, ◌∙◌, Bool, true, false, Option, some, List, [], ◌∷◌, Bool-cases, inl, inr,
}
use device_weave.Prelude.Text.{String}
use device_weave.Policy.Data.{Params}
use device_weave.Policy.Clamp.{Device}
use device_weave.Access.Authorizer.{
  Principal, Outcome, allowed, refused, Moment, Authorizer, Keeps, Earned, IsSingleUse,
}
use device_weave.Access.Request.{RequestAuth, authorize_tool}
use device_weave.Execution.{ExecutionStep, Attempt, StepResult, execute_steps}
use device_weave.Execution.OneRequest.{
  any_opens, IsPaid, paid, authorized-IsPaid, execute_steps_paid, execute_steps-Keeps,
}

-- A request: who calls which tool when, and the steps that the tool comes to execute.
pub record Request : Type 0 where
  pub principal : Principal
  pub moment : Moment
  pub tool : String
  pub steps : List (Moment × ExecutionStep)

module _ {S : Type 0} (z : Authorizer S) (adapter : Device → String → Params → Attempt) where
  abbrev pub run_tool :
      Outcome × RequestAuth × S
      → List (Moment × ExecutionStep)
      → List StepResult × Option RequestAuth × S
  run_tool (allowed, auth, l) steps = execute_steps z adapter (some auth) l steps
  run_tool (refused _, auth, l) steps = ([], some auth, l)

  -- `_handle_tools_call` as far as authorization goes.
  unfoldable pub serve : S → Request → List StepResult × Option RequestAuth × S
  serve o r =
      run_tool
        (authorize_tool z (record { principal = r.principal; stepped_up = false }) o r.moment
          r.tool)
        r.steps

  unfoldable pub serve_all : S → List Request → S
  unfolding serve
  serve_all o [] = o
  serve_all o (r ∷ rs) = serve_all (serve o r).2 rs

  -- What a request opened.
  abbrev pub opened : S → Request → Bool
  opened o r = any_opens r.steps (serve o r).0

module _ {S : Type 0} (z : Authorizer S) (law : IsSingleUse S z)
    (adapter : Device → String → Params → Attempt) where
  run_tool_paid :
      (p : Principal) (o : S) (q : Outcome × RequestAuth × S)
      (steps : List (Moment × ExecutionStep))
      → IsPaid z law p o (some q.1) q.2
      → any_opens steps (run_tool z adapter q steps).0 ≡ true
      → Earned z p o (run_tool z adapter q steps).2
  run_tool_paid p o (allowed, auth, l) steps state h =
      execute_steps_paid z law adapter p o (some auth) l steps state h
  run_tool_paid p o (refused why, auth, l) [] state h = cc
  run_tool_paid p o (refused why, auth, l) (s ∷ ss) state h = cc

  run_tool-Keeps :
      (p : Principal) (o : S) (q : Outcome × RequestAuth × S)
      (steps : List (Moment × ExecutionStep))
      → IsPaid z law p o (some q.1) q.2
      → Keeps z o (run_tool z adapter q steps).2
  run_tool-Keeps p o (allowed, auth, l) steps (paid a e f g k) j h =
      execute_steps-Keeps z law adapter (some auth) l steps j (k j h)
  run_tool-Keeps p o (refused why, auth, l) steps (paid a e f g k) j h = k j h

  authorize_tool-IsPaid :
      (o : S) (p : Principal) (t : Moment) (tool : String)
      → let q = authorize_tool z (record { principal = p; stepped_up = false }) o t tool in
        IsPaid z law p o (some q.1) q.2
  unfolding authorize_tool
  authorize_tool-IsPaid o p t tool =
      authorized-IsPaid z law p o (z.policy tool) (z.require o t p (z.policy tool))
        (law.keeps o t p (z.policy tool)) (law.earns o t p (z.policy tool))

  -- When a request opens something, its token carries a `jti` that the ledger did not hold before
  -- the request and holds after it.
  pub serve_spends :
      (o : S) (r : Request)
      → opened z adapter o r ≡ true
      → Earned z r.principal o (serve z adapter o r).2
  unfolding serve
  serve_spends o r h =
      run_tool_paid r.principal o _ r.steps (authorize_tool-IsPaid o r.principal r.moment r.tool) h

  serve-Keeps : (o : S) (r : Request) → Keeps z o (serve z adapter o r).2
  unfolding serve
  serve-Keeps o r =
      run_tool-Keeps r.principal o _ r.steps (authorize_tool-IsPaid o r.principal r.moment r.tool)

  serve_all-Keeps : (o : S) (rs : List Request) → Keeps z o (serve_all z adapter o rs)
  unfolding serve_all
  serve_all-Keeps o [] j h = h
  serve_all-Keeps o (r ∷ rs) j h =
      serve_all-Keeps (serve z adapter o r).2 rs j (serve-Keeps o r j h)

  -- With a ledger that forgets no `jti` and an authorizer that allows a step-up call only by spending
  -- the caller's unspent `jti`: of two requests whose tokens have the same `jti`, whatever
  -- requests are served between them, at most one opens something: after the first has, no step of
  -- the second that grants physical access reaches an adapter.
  pub token_opens_once :
      (o : S) (first second : Request) (between : List Request)
      → first.principal.jti ≡ second.principal.jti
      → opened z adapter o first ≡ true
      → opened z adapter (serve_all z adapter (serve z adapter o first).2 between) second ≡ false
  token_opens_once o first second between same h =
      let l = serve_all z adapter (serve z adapter o first).2 between in
      elim (Bool-cases (opened z adapter l second)) [
        | inr closed ↦ closed
        | inl again ↦
            let (j, e, new, used) = serve_spends o first h in
            let (j', e', new', used') = serve_spends l second again in
            let held : z.is_spent j l ≡ true =
              serve_all-Keeps (serve z adapter o first).2 between j used in
            let one : some j ≡ some j' = sym e ∙ same ∙ e' in absurd (cc)
      ]
