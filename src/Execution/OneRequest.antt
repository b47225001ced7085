-- ===== src/Execution/OneRequest.antt =====
-- One request and one token, for execution_planner.py with access_control.py and authz.py.
use device_weave.Prelude.{
  ◌≡◌, refl, sym, Bool, true, false, ◌&&◌, ◌||◌, Option, none, some, List, [], ◌∷◌, arith,
  Bool-cases, inl, inr, &&-eq-true,
}
use device_weave.Prelude.Text.{String}
use device_weave.Policy.Data.{Params}
use device_weave.Policy.Clamp.{Device}
use device_weave.Access.Authorizer.{
  ToolPolicy, destructive, Principal, Outcome, allowed, refused, Moment, Authorizer, Keeps, Earned,
  IsSingleUse,
}
use device_weave.Access.Request.{
  RequestAuth, Denial, is_physical_access, after_require, require_physical_access, as_denial,
  check_physical, check_step, after_authorize,
}
use device_weave.Execution.{
  ExecutionStep, Attempt, StepOutcome, denied, attempted, StepResult, after_check, execute_one,
  execute_steps,
}

abbrev pub is_attempted : StepOutcome → Bool
is_attempted (denied _) = false
is_attempted (attempted _) = true

-- A step that grants physical access and was handed to the adapter.
abbrev pub opens : ExecutionStep → StepResult → Bool
opens step r = is_physical_access step.device step.action && is_attempted r.outcome

abbrev pub any_opens : List (Moment × ExecutionStep) → List StepResult → Bool
any_opens ((t, step) ∷ steps) (r ∷ rs) = opens step r || any_opens steps rs
any_opens _ _ = false

module _ {S : Type 0} (z : Authorizer S) (law : IsSingleUse S z) where
  -- A request that began with the ledger `before` and has stepped up has paid for it.
  pub data IsPaid (p : Principal) (before : S) (auth : Option RequestAuth) (now : S) : Type 0 where
    paid :
        (a : RequestAuth)
        → auth ≡ some a
        → a.principal ≡ p
        → (a.stepped_up ≡ true → Earned z p before now)
        → Keeps z before now
        → IsPaid p before auth now

  not_spent_before :
      (o o' : S) (j : String) → Keeps z o o' → z.is_spent j o' ≡ false → z.is_spent j o ≡ false
  not_spent_before o o' j k h = elim (Bool-cases (z.is_spent j o)) [
    | inl used ↦ absurd (ground (arith, k j used))
    | inr new ↦ new
  ]

  Earned-later :
      (p : Principal) (o o' o'' : S) → Earned z p o o' → Keeps z o' o'' → Earned z p o o''
  Earned-later p o o' o'' (j, e, new, used) k = (j, e, new, k j used)

  Earned-earlier :
      (p : Principal) (o o' o'' : S) → Keeps z o o' → Earned z p o' o'' → Earned z p o o''
  Earned-earlier p o o' o'' k (j, e, new, used) = (j, e, not_spent_before o o' j k new, used)

  -- What a check leaves behind: a state that is paid for, and a payment if the step may run.
  abbrev After : Principal → S → Option Denial × Option RequestAuth × S → Type 0
  After p before r = IsPaid p before r.1 r.2 × (r.0 ≡ none → Earned z p before r.2)

  Keeps-trans : (o o' o'' : S) → Keeps z o o' → Keeps z o' o'' → Keeps z o o''
  Keeps-trans o o' o'' k k' j h = k' j (k j h)

  outcome_paid :
      (p : Principal) (before : S) (a : RequestAuth) (o : S)
      → a.principal ≡ p
      → a.stepped_up ≡ false
      → Keeps z before o
      → (q : Outcome × S) → Keeps z o q.1
      → (q.0 ≡ allowed → Earned z p o q.1)
      → After p before (as_denial z (after_require z a q))
  outcome_paid p before a o e down k (allowed, l) k' earn =
      let earned = Earned-earlier p before o l k (earn refl) in
      (
        paid (record { principal = a.principal; stepped_up = true }) refl e (λ _. earned)
            (Keeps-trans before o l k k'),
        λ _. earned,
      )
  outcome_paid p before a o e down k (refused why, l) k' earn = (
    paid a refl e (λ up. absurd (cc (down, up))) (Keeps-trans before o l k k'),
    λ h. absurd (cc h),
  )

  check_physical_paid :
      (p : Principal) (before : S) (a : RequestAuth) (o : S) (t : Moment)
      → a.principal ≡ p
      → (a.stepped_up ≡ true → Earned z p before o)
      → Keeps z before o
      → After p before (check_physical z (some a) o t)
  unfolding require_physical_access
  check_physical_paid p before a o t e s k = elim (Bool-cases a.stepped_up) [
    | inl up ↦ simp up (paid a refl e s k, λ _. s up)
    | inr down ↦ simp down (
        outcome_paid p before a o e down k (z.require o t a.principal destructive)
          (law.keeps o t a.principal destructive)
          (λ h. rw (sym e) (law.earns o t a.principal destructive refl h)))
  ]

  check_step-IsPaid :
      (p : Principal) (before : S) (auth : Option RequestAuth) (o : S) (t : Moment)
      (device : Device) (action : String)
      → IsPaid p before auth o
      → IsPaid p before
          (check_step z auth o t device action).1
          (check_step z auth o t device action).2
        × (is_physical_access device action ≡ true
            → (check_step z auth o t device action).0 ≡ none
            → Earned z p before (check_step z auth o t device action).2)
  unfolding check_step
  check_step-IsPaid p before auth o t device action (paid a q e s k) =
      elim (Bool-cases (is_physical_access device action)) [
        | inl physical ↦
            let (state, earn) = check_physical_paid p before a o t e s k in
            rw q (simp physical (state, λ _ h. earn h))
        | inr harmless ↦ simp harmless (paid a q e s k, λ physical h. absurd (cc physical))
      ]

  attempted_of_none :
      (adapter : Device → String → Params → Attempt) (step : ExecutionStep) (why : Option Denial)
      → is_attempted (after_check z adapter step why) ≡ true
      → why ≡ none
  attempted_of_none adapter step none h = refl
  attempted_of_none adapter step (some why) h = cc

  -- A step of a paid request: the request stays paid, and a step that opens something and ran has
  -- been paid for.
  execute_one-IsPaid :
      (adapter : Device → String → Params → Attempt) (p : Principal) (before : S)
      (auth : Option RequestAuth) (o : S) (t : Moment) (step : ExecutionStep)
      → IsPaid p before auth o
      → IsPaid p before
          (execute_one z adapter auth o t step).1
          (execute_one z adapter auth o t step).2
        × (opens step (execute_one z adapter auth o t step).0 ≡ true
            → Earned z p before (execute_one z adapter auth o t step).2)
  unfolding execute_one
  execute_one-IsPaid adapter p before auth o t step h =
      let (state, earn) = check_step-IsPaid p before auth o t step.device step.action h in
      (
        state,
        λ opened.
            let (physical, ran) =
              &&-eq-true (is_physical_access step.device step.action) _ opened in
            earn physical (attempted_of_none adapter step _ ran),
      )

  denial-Keeps :
      (a : RequestAuth) (o : S) (q : Outcome × S)
      → Keeps z o q.1
      → Keeps z o (as_denial z (after_require z a q)).2
  denial-Keeps a o (allowed, l) k = k
  denial-Keeps a o (refused why, l) k = k

  check_physical-Keeps :
      (auth : Option RequestAuth) (o : S) (t : Moment) → Keeps z o (check_physical z auth o t).2
  unfolding require_physical_access
  check_physical-Keeps none o t j h = h
  check_physical-Keeps (some a) o t j h = elim (Bool-cases a.stepped_up) [
    | inl up ↦ simp up h
    | inr down ↦ simp down (
        denial-Keeps a o (z.require o t a.principal destructive)
          (law.keeps o t a.principal destructive) j h)
  ]

  -- No step forgets a spent token.
  execute_one-Keeps :
      (adapter : Device → String → Params → Attempt) (auth : Option RequestAuth) (o : S)
      (t : Moment) (step : ExecutionStep)
      → Keeps z o (execute_one z adapter auth o t step).2
  unfolding execute_one check_step
  execute_one-Keeps adapter auth o t step j h =
      elim (Bool-cases (is_physical_access step.device step.action)) [
        | inl physical ↦ simp physical (check_physical-Keeps auth o t j h)
        | inr harmless ↦ simp harmless h
      ]

  pub execute_steps-Keeps :
      (adapter : Device → String → Params → Attempt) (auth : Option RequestAuth) (o : S)
      (steps : List (Moment × ExecutionStep))
      → Keeps z o (execute_steps z adapter auth o steps).2
  unfolding execute_steps
  execute_steps-Keeps adapter auth o [] j h = h
  execute_steps-Keeps adapter auth o ((t, step) ∷ rest) j h =
      let r = execute_one z adapter auth o t step in
      execute_steps-Keeps adapter r.1 r.2 rest j (execute_one-Keeps adapter auth o t step j h)

  pub execute_steps_paid :
      (adapter : Device → String → Params → Attempt) (p : Principal) (before : S)
      (auth : Option RequestAuth) (o : S) (steps : List (Moment × ExecutionStep))
      → IsPaid p before auth o
      → any_opens steps (execute_steps z adapter auth o steps).0 ≡ true
      → Earned z p before (execute_steps z adapter auth o steps).2
  unfolding execute_steps
  execute_steps_paid adapter p before auth o [] h f = cc
  execute_steps_paid adapter p before auth o ((t, step) ∷ rest) h f =
      let r = execute_one z adapter auth o t step in
      let (state, earn) = execute_one-IsPaid adapter p before auth o t step h in
      elim (Bool-cases (opens step r.0)) [
        | inl opened ↦
            Earned-later p before r.2 (execute_steps z adapter r.1 r.2 rest).2 (earn opened)
              (execute_steps-Keeps adapter r.1 r.2 rest)
        | inr closed ↦ execute_steps_paid adapter p before r.1 r.2 rest state (simp closed at f)
      ]

  pub authorized-IsPaid :
      (p : Principal) (o : S) (policy : ToolPolicy) (q : Outcome × S)
      → Keeps z o q.1
      → (policy.step_up ≡ true → q.0 ≡ allowed → Earned z p o q.1)
      → let r = after_authorize z policy.step_up (record { principal = p; stepped_up = false }) q in
        IsPaid p o (some r.1) r.2
  authorized-IsPaid p o policy (allowed, l) k earn = elim (Bool-cases policy.step_up) [
    | inl up ↦
        simp up (paid (record { principal = p; stepped_up = true }) refl refl (λ _. earn up refl) k)
    | inr free ↦
        simp free
          (paid (record { principal = p; stepped_up = false }) refl refl (λ f. absurd (cc f)) k)
  ]
  authorized-IsPaid p o policy (refused why, l) k earn =
      paid (record { principal = p; stepped_up = false }) refl refl (λ f. absurd (cc f)) k
