-- ===== src/Enforcement/Batch.antt =====
-- What the gate of middleware.py lets through.
use device_weave.Prelude.{
  ℕ, ◌≡◌, refl, true, false, Option, none, some, List, [], ◌∷◌, All, select, not, ap, Bool-cases,
  inl, inr, ltb, if◌then◌else◌, map,
}
use device_weave.Prelude.Text.{String}
use device_weave.Policy.Data.{allow, block, modify, Verdict, Params, Context, Rule, PolicyDecision}
use device_weave.Policy.DeviceTypes.{canonical_device_type}
use device_weave.Policy.Evaluator.{
  allow_decision, is_safe, matching, pick, pick_modify, compute_verdict,
}
use device_weave.Policy.Clamp.{Device}
use device_weave.Policy.Loader.{
  Row, Cache, all_pages, cached, ensure_fresh, reload, get_policies_for_device,
}
use device_weave.Policy.Loader.Grouping.{IsFiled, canonical_again, compute_verdict-cached}
use device_weave.Execution.{ExecutionStep}
use device_weave.Enforcement.{
  Poll, clamped, decide, enforce, filter_steps, enforce_step, sort_step, is_blocked, is_modified,
  with_params, blocked_record, Blocked,
}

module _ (dumps : Params → String) where
  clamped_allow : (device : Option Device) → allow_decision ≡ clamped allow_decision device allow
  clamped_allow none = refl
  clamped_allow (some d) = refl

  decide_lem :
      (rules : List Rule) (device_type action : String) (context : Context) (device : Option Device)
      → decide dumps rules device_type action context device ≡ (
          let d = compute_verdict dumps rules device_type action context in
          clamped d device d.verdict)
  unfolding compute_verdict matching pick pick_modify
  decide_lem [] device_type action context device = elim (Bool-cases (is_safe action)) [
    | inl safe ↦ simp safe (clamped_allow device)
    | inr other ↦ simp other (clamped_allow device)
  ]
  decide_lem (r ∷ rs) device_type action context device = refl

  -- The second resolution of the device type finds the entry of the first.
  cached_class :
      (cache : Cache) (device_type : String)
      → cached cache (canonical_device_type (some device_type)) ≡ cached cache device_type
  unfolding cached
  cached_class cache device_type = rw (canonical_again device_type) refl

  -- When the table is configured, the cache has expired and the scan succeeds, `enforce` decides as
  -- the evaluator does on all the rows of the table, with the parameters of a modify verdict clamped
  -- to the device, if each row stands under the device type of its own scope, which is not blank.
  pub enforce_reloaded :
      (pages : List (List Row)) (now : ℕ) (cache : Cache) (device_type action : String)
      (context : Context) (device : Option Device)
      → All IsFiled (all_pages pages)
      → ltb now cache.expiry ≡ false
      → (enforce dumps
          (record { configured = true; now = now; scan = some pages })
          cache
          device_type
          action
          context
          device).0
        ≡ (let d =
              compute_verdict dumps
                (map (λ row. row.rule) (all_pages pages))
                device_type
                action
                context in
            clamped d device d.verdict)
  unfolding enforce get_policies_for_device ensure_fresh
  enforce_reloaded pages now cache device_type action context device h expired =
      rw
        (
          expired,
          cached_class (reload true (some pages) now cache) device_type,
          decide_lem (cached (reload true (some pages) now cache) device_type) device_type action
              context device,
          compute_verdict-cached dumps pages now cache device_type action context h,
        )
        refl

  -- The decision on a step by the rules that a cache holds.
  abbrev pub decision : Cache → Context → ExecutionStep → PolicyDecision
  decision cache context step =
      let d =
        compute_verdict dumps (cached cache step.device.device_type) step.device.device_type
          step.action context in
      clamped d (some step.device) d.verdict

  abbrev pub enforced : ExecutionStep → PolicyDecision → ExecutionStep
  enforced step d = if is_modified d then with_params dumps step d.modified_params else step

  -- The steps that a batch may run and the records of the others, each in the order of the batch.
  abbrev pub split_by :
      (ExecutionStep → PolicyDecision) → List ExecutionStep → List ExecutionStep × List Blocked
  split_by d steps = (
    map (λ s. enforced s (d s)) (select (λ s. not (is_blocked (d s))) steps),
    map (λ s. blocked_record dumps s (d s)) (select (λ s. is_blocked (d s)) steps),
  )

  enforce_step_cached :
      (cache : Cache) (context : Context) (poll : Poll) (step : ExecutionStep)
      → poll.configured ≡ true
      → ltb poll.now cache.expiry ≡ true
      → enforce_step dumps poll cache context step ≡ (decision cache context step, cache)
  unfolding enforce get_policies_for_device ensure_fresh
  enforce_step_cached cache context poll step c fresh =
      rw
        (
          c,
          fresh,
          cached_class cache step.device.device_type,
          decide_lem (cached cache step.device.device_type) step.device.device_type step.action
              context (some step.device),
        )
        refl

  sort_step_split :
      (d : ExecutionStep → PolicyDecision) (step : ExecutionStep) (steps : List ExecutionStep)
      (v : Verdict)
      → (d step).verdict ≡ v
      → sort_step dumps step (d step) v (split_by d steps) ≡ split_by d (step ∷ steps)
  sort_step_split d step steps allow h =
      let blocked : is_blocked (d step) ≡ false = rw h refl in
      let modified : is_modified (d step) ≡ false = rw h refl in simp (blocked, modified) refl
  sort_step_split d step steps block h =
      let blocked : is_blocked (d step) ≡ true = rw h refl in
      let modified : is_modified (d step) ≡ false = rw h refl in simp (blocked, modified) refl
  sort_step_split d step steps modify h =
      let blocked : is_blocked (d step) ≡ false = rw h refl in
      let modified : is_modified (d step) ≡ true = rw h refl in simp (blocked, modified) refl

  -- While the cache has not expired, `filter_steps` lets through exactly the steps that the cached
  -- policies do not block, with the clamped parameters where they modify a step, and records exactly
  -- the others, both in the order of the batch; the cache stays as it is.
  pub filter_steps_cached :
      (cache : Cache) (context : Context) (steps : List (Poll × ExecutionStep))
      → All (λ s. (s.0.configured ≡ true) × (ltb s.0.now cache.expiry ≡ true)) steps
      → filter_steps dumps cache context steps
        ≡ (split_by (decision cache context) (map (λ s. s.1) steps), cache)
  unfolding filter_steps
  filter_steps_cached cache context [] h = refl
  filter_steps_cached cache context ((poll, step) ∷ steps) ((c, fresh), h) =
      rw
        (
          enforce_step_cached cache context poll step c fresh,
          filter_steps_cached cache context steps h,
        )
        (ap (λ sorted. (sorted, cache))
          (sort_step_split (decision cache context) step (map (λ s. s.1) steps) _ refl))
