-- ===== src/Controllability/Synthesis.antt =====
-- `_synthesize`, `_control` and `_reach` of controllability.py. A set is a list. The loops have
-- fuel: a pass that does not end the fixpoint removes a state, and each turn of `_reach` takes a
-- state from the stack, onto which a target of `delta` goes once. The deadline is left out.
use device_weave.Prelude.{
  ℕ, zero, suc, Bool, true, false, not, ◌&&◌, Option, none, some, List, [], ◌∷◌, ◌++◌, any, all,
  select, length, if◌then◌else◌,
}
use device_weave.Prelude.Text.{String, str_eq}
use device_weave.Controllability.{Plant, Equality, Move, mem, successors}

-- What a pass finds of a state: the escape and the event that preempts it, or the escape alone.
pub data Fate (S : Type 0) : Type 0 where
  stays : Fate S
  preempted : Move S → Move S → Fate S
  lost : Move S → Fate S

-- An event that the supervisor enables or disables in a state.
pub record Choice (S : Type 0) : Type 0 where
  pub state : S
  pub event : String

-- A removed state with its first escape.
pub record Removal (S : Type 0) : Type 0 where
  pub state : S
  pub escape : Move S

-- `Q` and `removed_because` after the last pass.
pub record Kept (S : Type 0) : Type 0 where
  pub good : List S
  pub because : List (Removal S)

-- The search: the stack with its top first, what has been seen, and the flag.
pub record Walk (S : Type 0) : Type 0 where
  pub stack : List S
  pub seen : List S
  pub safe : Bool

pub record Synthesis (S : Type 0) : Type 0 where
  pub good : List S
  pub forcing : List S
  pub enabled : List (Choice S)
  pub disabled : List (Choice S)
  pub reachable : List S
  pub retains_legal : Bool
  pub retains_initial : Bool
  pub closed_loop_safe : Bool
  pub removed_because : List (Removal S)
  pub forced_because : List (S × Fate S)

module _ {S : Type 0} where
  abbrev pub fate_of : List (Move S) → List (Move S) → Fate S
  fate_of [] fs = Fate.stays
  fate_of (e ∷ es) [] = Fate.lost e
  fate_of (e ∷ es) (f ∷ fs) = Fate.preempted e f

  abbrev pub is_lost : Fate S → Bool
  is_lost (Fate.lost _) = true
  is_lost _ = false

  abbrev pub is_forced : Fate S → Bool
  is_forced (Fate.preempted _ _) = true
  is_forced _ = false

  abbrev pub is_empty : List S → Bool
  is_empty [] = true
  is_empty (_ ∷ _) = false

  abbrev pub note : S → Fate S → List (Removal S) → List (Removal S)
  note q (Fate.lost e) why = record { state = q; escape = e } ∷ why
  note q _ why = why

  abbrev pub choices : S → List (Move S) → List (Choice S)
  choices q [] = []
  choices q (m ∷ ms) = record { state = q; event = m.event.name } ∷ choices q ms

module _ {S : Type 0} (k : Equality S) (p : Plant S) where
  -- An uncontrollable event that leaves the set, and a forcible one that stays in it.
  unfoldable pub leaves : List S → Move S → Bool
  leaves good m = not m.event.controllable && not (mem k m.target good)

  unfoldable pub can_force : List S → Move S → Bool
  can_force good m = m.event.forcible && mem k m.target good

  unfoldable pub fate : Bool → List S → S → Fate S
  unfolding leaves can_force successors
  fate use_forcing good q =
      fate_of (select (leaves good) (successors k p q))
        (if use_forcing then select (can_force good) (successors k p q) else [])

  abbrev pub notes : Bool → List S → List S → List (Removal S) → List (Removal S)
  unfolding fate
  notes use_forcing good [] why = why
  notes use_forcing good (q ∷ qs) why =
      note q (fate use_forcing good q) (notes use_forcing good qs why)

  -- The `while` loop of `_synthesize`.
  unfoldable pub fixpoint : Bool → ℕ → List S → List (Removal S) → Option (Kept S)
  unfolding fate
  fixpoint use_forcing zero good why = none
  fixpoint use_forcing (suc n) good why =
      let left = select (λ q. not (is_lost (fate use_forcing good q))) good in
      let rest = fixpoint use_forcing n left (notes use_forcing good good why) in
      if any (λ q. is_lost (fate use_forcing good q)) good
      then rest
      else some (record { good = good; because = why })

  -- The part of `_control` on one state of `good`.
  unfoldable pub enabled_at : List S → List S → S → List (Choice S)
  unfolding leaves can_force successors
  enabled_at good forcing q =
      let ms = successors k p q in
      if mem k q forcing && any (leaves good) ms
      then choices q (select (can_force good) ms)
      else choices q (select (λ m. mem k m.target good) ms)

  unfoldable pub disabled_at : List S → List S → S → List (Choice S)
  unfolding leaves can_force successors
  disabled_at good forcing q =
      let ms = successors k p q in
      if mem k q forcing && any (leaves good) ms
      then choices q (select (λ m. not (can_force good m) && m.event.controllable) ms)
      else choices q (select (λ m. not (mem k m.target good) && m.event.controllable) ms)

  abbrev pub control : (S → List (Choice S)) → List S → List (Choice S)
  control at' [] = []
  control at' (q ∷ qs) = at' q ++ control at' qs

  -- `(state, name) in enabled`
  unfoldable pub is_chosen : List (Choice S) → S → String → Bool
  is_chosen cs q name = any (λ c. k.eqb q c.state && str_eq name c.event) cs

  -- One successor in the loop of `_reach`.
  unfoldable pub enter : List (Choice S) → List S → S → Move S → Walk S → Walk S
  unfolding is_chosen
  enter enabled bad s m w =
      let safe = if mem k m.target bad then false else w.safe in
      if not (is_chosen enabled s m.event.name)
      then w
      else if mem k m.target w.seen
      then record { stack = w.stack; seen = w.seen; safe = safe }
      else record { stack = m.target ∷ w.stack; seen = m.target ∷ w.seen; safe = safe }

  unfoldable pub visit : List (Choice S) → List S → S → List (Move S) → Walk S → Walk S
  unfolding enter
  visit enabled bad s [] w = w
  visit enabled bad s (m ∷ ms) w = visit enabled bad s ms (enter enabled bad s m w)

  unfoldable pub turns : List (Choice S) → List S → ℕ → List S → List S → Bool → Option (Walk S)
  unfolding visit successors
  turns enabled bad n [] seen safe = some (record { stack = []; seen = seen; safe = safe })
  turns enabled bad zero (s ∷ stack) seen safe = none
  turns enabled bad (suc n) (s ∷ stack) seen safe =
      let w =
        visit enabled bad s (successors k p s)
          (record { stack = stack; seen = seen; safe = safe }) in
      turns enabled bad n w.stack w.seen w.safe

  unfoldable pub reach : List (Choice S) → List S → Option (Walk S)
  unfolding turns
  reach enabled bad =
      let fuel = suc (length p.delta) in
      let start = if mem k p.initial p.states then p.initial ∷ [] else [] in
      if not (any (λ c. k.eqb p.initial c.state) enabled) && not (mem k p.initial p.states)
      then some (record { stack = []; seen = []; safe = false })
      else turns enabled bad fuel start start (not (mem k p.initial bad))

  abbrev pub legal : List S → List S
  legal bad = select (λ q. not (mem k q bad)) p.states

  -- `forced_because`: an escape of each forcing state and the event that preempts it.
  abbrev pub forced_because : Bool → List S → List S → List (S × Fate S)
  forced_because use_forcing good [] = []
  forced_because use_forcing good (q ∷ qs) =
      let rest = forced_because use_forcing good qs in
      if is_forced (fate use_forcing good q) then (q, fate use_forcing good q) ∷ rest else rest

  unfoldable pub forcing_of : Bool → List S → List S
  unfolding fate
  forcing_of use_forcing good = select (λ q. is_forced (fate use_forcing good q)) good

  unfoldable pub enabled_of : Bool → List S → List (Choice S)
  unfolding enabled_at forcing_of
  enabled_of use_forcing good = control (enabled_at good (forcing_of use_forcing good)) good

  -- The result of `_synthesize` after its loop and the search.
  unfoldable pub synthesis_of : Bool → Kept S → Walk S → Synthesis S
  unfolding enabled_of forcing_of disabled_at
  synthesis_of use_forcing kept walk =
      let good = kept.good in
      record {
        good = good;
        forcing = forcing_of use_forcing good;
        enabled = enabled_of use_forcing good;
        disabled = control (disabled_at good (forcing_of use_forcing good)) good;
        reachable = walk.seen;
        retains_legal = all (λ q. mem k q good) (legal p.bad);
        retains_initial = mem k p.initial good;
        closed_loop_safe = walk.safe && mem k p.initial good;
        removed_because = kept.because;
        forced_because = forced_because use_forcing good good;
      }

  unfoldable pub searched : Bool → Kept S → Option (Walk S) → Option (Synthesis S)
  unfolding synthesis_of
  searched use_forcing kept none = none
  searched use_forcing kept (some walk) = some (synthesis_of use_forcing kept walk)

  unfoldable pub settled : Bool → List S → Option (Kept S) → Option (Synthesis S)
  unfolding enabled_of reach searched
  settled use_forcing bad none = none
  settled use_forcing bad (some kept) =
      searched use_forcing kept (reach (enabled_of use_forcing kept.good) bad)

  unfoldable pub synthesize : Bool → List S → Option (Synthesis S)
  unfolding fixpoint settled
  synthesize use_forcing bad =
      settled use_forcing bad (fixpoint use_forcing (suc (length (legal bad))) (legal bad) [])

  -- `supcon` and `supcon_forcing` with the plant's own bad states.
  unfoldable pub supcon : Option (Synthesis S)
  unfolding synthesize
  supcon = synthesize false p.bad

  unfoldable pub supcon_forcing : Option (Synthesis S)
  unfolding synthesize
  supcon_forcing = synthesize true p.bad

  unfoldable pub reaches_bad : Synthesis S → Bool
  reaches_bad s = if not (mem k p.initial s.good) then true else not s.closed_loop_safe

pub data Enforceability : Type 0 where
  guard_enforceable : Enforceability
  needs_obligation : Enforceability
  unenforceable : Enforceability

unfoldable pub classify : {S : Type 0} → Synthesis S → Synthesis S → Enforceability
classify guard forced =
    if guard.retains_legal && guard.closed_loop_safe
    then Enforceability.guard_enforceable
    else if forced.retains_legal && forced.closed_loop_safe
    then Enforceability.needs_obligation
    else Enforceability.unenforceable
