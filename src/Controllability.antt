-- ===== src/Controllability.antt =====
-- The plant of controllability.py: the states of the devices in their context, the events that move
-- them, and who may refuse or force an event. `delta` is an association list.
use device_weave.Prelude.{
  ◌≡◌, ◌↔◌, Bool, true, false, ◌&&◌, Option, none, some, List, [], ◌∷◌, any, if◌then◌else◌,
}
use device_weave.Prelude.Text.{String, str_eq}
pub mod Synthesis
pub mod Held
pub mod Fixpoint
pub mod Search
pub mod Enabled
pub mod Greatest
pub mod Loop
pub mod Classify
mod Tests

pub data Kind : Type 0 where
  command : Kind
  safe_action : Kind
  context : Kind
  precursor : Kind
  manual : Kind

pub record Event : Type 0 where
  pub name : String
  pub controllable : Bool
  pub forcible : Bool
  pub kind : Kind

-- An entry `delta[(source, event)] = target`.
pub record Edge (S : Type 0) : Type 0 where
  pub source : S
  pub event : String
  pub target : S

pub record Plant (S : Type 0) : Type 0 where
  pub states : List S
  pub initial : S
  pub bad : List S
  pub events : List Event
  pub delta : List (Edge S)

-- The equality test of the states, which are tuples.
pub record Equality (S : Type 0) : Type 0 where
  pub eqb : S → S → Bool
  pub eqb_iff : (a b : S) → (eqb a b ≡ true) ↔ (a ≡ b)

-- One entry of `successors`.
pub record Move (S : Type 0) : Type 0 where
  pub event : Event
  pub target : S

module _ {S : Type 0} (k : Equality S) where
  -- `x in xs`
  abbrev pub mem : S → List S → Bool
  mem x xs = any (k.eqb x) xs

  -- `delta.get((state, event))`
  unfoldable pub target_of : List (Edge S) → S → String → Option S
  target_of [] q name = none
  target_of (e ∷ es) q name =
      let rest = target_of es q name in
      if k.eqb q e.source && str_eq name e.event then some e.target else rest

  abbrev pub with_target : Event → Option S → List (Move S) → List (Move S)
  with_target ev none moves = moves
  with_target ev (some t) moves = record { event = ev; target = t } ∷ moves

  unfoldable pub moves : List (Edge S) → S → List Event → List (Move S)
  unfolding target_of
  moves delta q [] = []
  moves delta q (ev ∷ evs) = with_target ev (target_of delta q ev.name) (moves delta q evs)

  unfoldable pub successors : Plant S → S → List (Move S)
  unfolding moves
  successors p q = moves p.delta q p.events
