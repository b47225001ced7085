-- ===== src/Controllability/Tests.antt =====
-- A heater that must not be on while nobody is at home: runs and instances for controllability.py.
use device_weave.Prelude.{ℕ, ◌==◌, ◌≡◌, ◌↔◌, refl, true, false, some, [], ◌∷◌, arith}
use mathlib.Core.List.{Memᴰ}
use device_weave.Controllability.{Plant, Equality, Event, Kind, Move, mem, successors}
use device_weave.Controllability.Synthesis.{
  Synthesis, Fate, Enforceability, is_chosen, synthesize, legal, reaches_bad, supcon,
  supcon_forcing, classify,
}
use device_weave.Controllability.Fixpoint.{IsGreatest}
use device_weave.Controllability.Greatest.{synthesize-IsGreatest}
use device_weave.Controllability.Loop.{Run, Step, IsAdmitted, synthesize_safe}
use device_weave.Controllability.Classify.{IsControllable, classify_exact}

same_number : (a b : ℕ) → ((a == b) ≡ true) ↔ (a ≡ b)
same_number a b = ground arith

abbrev numbers : Equality ℕ
numbers = record { eqb = λ a b. a == b; eqb_iff = same_number }

abbrev turn_on : Event
turn_on = record { name = "turn_on"; controllable = true; forcible = false; kind = Kind.command }

abbrev turn_off : Event
turn_off = record {
  name = "turn_off";
  controllable = false;
  forcible = true;
  kind = Kind.safe_action;
}

abbrev leave : Event
leave = record { name = "leave"; controllable = false; forcible = false; kind = Kind.context }

-- At home with the heater off (0) and on (1), and away with it off (2) and on (3).
abbrev heater : Plant ℕ
heater = record {
  states = 0 ∷ 1 ∷ 2 ∷ 3 ∷ [];
  initial = 0;
  bad = 3 ∷ [];
  events = turn_on ∷ turn_off ∷ leave ∷ [];
  delta =
      record { source = 0; event = "turn_on"; target = 1 }
      ∷ record { source = 1; event = "turn_off"; target = 0 }
      ∷ record { source = 0; event = "leave"; target = 2 }
      ∷ record { source = 1; event = "leave"; target = 3 }
      ∷ record { source = 3; event = "turn_off"; target = 2 }
      ∷ [];
}

abbrev forced_heater : Synthesis ℕ
forced_heater = record {
  good = 0 ∷ 1 ∷ 2 ∷ [];
  forcing = 1 ∷ [];
  enabled =
      record { state = 0; event = "turn_on" }
      ∷ record { state = 0; event = "leave" }
      ∷ record { state = 1; event = "turn_off" }
      ∷ [];
  disabled = [];
  reachable = 2 ∷ 1 ∷ 0 ∷ [];
  retains_legal = true;
  retains_initial = true;
  closed_loop_safe = true;
  removed_because = [];
  forced_because =
      (
        1,
        Fate.preempted (record { event = leave; target = 3 })
            (record { event = turn_off; target = 0 }),
      )
      ∷ [];
}

abbrev guarded_heater : Synthesis ℕ
guarded_heater = record {
  good = 0 ∷ 2 ∷ [];
  forcing = [];
  enabled = record { state = 0; event = "leave" } ∷ [];
  disabled = record { state = 0; event = "turn_on" } ∷ [];
  reachable = 2 ∷ 0 ∷ [];
  retains_legal = false;
  retains_initial = true;
  closed_loop_safe = true;
  removed_because = record { state = 1; escape = record { event = leave; target = 3 } } ∷ [];
  forced_because = [];
}

guarded : supcon numbers heater ≡ some guarded_heater
unfolding supcon
guarded = refl

with_forcing : supcon_forcing numbers heater ≡ some forced_heater
unfolding supcon_forcing
with_forcing = refl

obliged : classify guarded_heater forced_heater ≡ Enforceability.needs_obligation
unfolding classify
obliged = refl

synthesize-IsGreatest_example :
    (s : Synthesis ℕ) × (synthesize numbers heater true (3 ∷ []) ≡ some s)
    × IsGreatest numbers heater true (legal numbers heater (3 ∷ [])) s.good
    × (s.closed_loop_safe ≡ mem numbers 0 s.good)
synthesize-IsGreatest_example = synthesize-IsGreatest numbers heater true (3 ∷ [])

abbrev to_on : Move ℕ
to_on = record { event = turn_on; target = 1 }

found_on : Memᴰ to_on (successors numbers heater 0)
unfolding successors
found_on = Memᴰ.head refl

allowed_on : is_chosen numbers heater forced_heater.enabled 0 "turn_on" ≡ true
unfolding is_chosen
allowed_on = refl

safe_heater : reaches_bad numbers heater forced_heater ≡ false
unfolding reaches_bad
safe_heater = refl

synthesized : synthesize numbers heater true (3 ∷ []) ≡ some forced_heater
unfolding synthesize
synthesized = refl

synthesize_safe_example :
    (mem numbers 1 (3 ∷ []) ≡ false) × IsAdmitted numbers heater true forced_heater.enabled 1
synthesize_safe_example =
    synthesize_safe numbers heater true (3 ∷ []) forced_heater 1 synthesized safe_heater
      (Run.next Run.here (Step.take to_on found_on allowed_on))

classify_exact_example :
    ((classify guarded_heater forced_heater ≡ Enforceability.guard_enforceable)
      ↔ IsControllable numbers heater false)
    × ((classify guarded_heater forced_heater ≡ Enforceability.unenforceable)
        ↔ (¬ IsControllable numbers heater true))
classify_exact_example =
    classify_exact numbers heater guarded_heater forced_heater guarded with_forcing
