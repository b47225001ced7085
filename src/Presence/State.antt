-- ===== src/Presence/State.antt =====
-- The next state of a person and of the house, in eero_presence.py.
use device_weave.Prelude.{
  ℕ, ◌+◌, Bool, true, false, not, ◌&&◌, Option, none, some, List, [], ◌∷◌, select, if◌then◌else◌,
  leb,
}
use device_weave.Prelude.Int.{ℤ, pos, negsuc}
use device_weave.Prelude.Text.{String, codes}
use device_weave.Presence.Data.{Row, Client, Group, Person, Home, Freshness}
use device_weave.Presence.Tracked.{is_blank, latest, best_match, group_tracked, same_person}

abbrev pub some_bool : Option Bool → Bool
some_bool none = false
some_bool (some b) = b

-- What `(previous or {}).get(...)` reads of a person.
abbrev pub misses_of : Option Person → ℕ
misses_of none = 0
misses_of (some p) = p.miss_count

abbrev pub field_of : (Person → Option String) → Option Person → Option String
field_of get none = none
field_of get (some p) = get p

-- Who has never been placed counts as being home.
abbrev pub or_home : Option Bool → Bool
or_home none = true
or_home (some b) = b

abbrev pub held_home : Option Person → Bool
held_home none = true
held_home (some p) = or_home p.is_home

unfoldable pub missed : String → Option Person → ℕ → Person
missed name prev threshold =
    let misses = misses_of prev + 1 in
    if leb threshold misses
    then record {
      person = name;
      is_home = some false;
      zone = none;
      node = none;
      signal = none;
      last_seen = field_of (λ p. p.last_seen) prev;
      miss_count = misses;
    }
    else record {
      person = name;
      is_home = some (held_home prev);
      zone = field_of (λ p. p.zone) prev;
      node = field_of (λ p. p.node) prev;
      signal = field_of (λ p. p.signal) prev;
      last_seen = field_of (λ p. p.last_seen) prev;
      miss_count = misses;
    }

unfoldable pub person_state : String → Option Person → Option Client → ℕ → Person
unfolding missed
person_state name prev none threshold = missed name prev threshold
person_state name prev (some c) threshold = record {
  person = name;
  is_home = some true;
  zone = c.zone;
  node = c.node;
  signal = c.signal;
  last_seen = c.last_seen;
  miss_count = 0;
}

-- The threshold of `compute_presence`.
abbrev pub at_least_one : ℤ → ℕ
at_least_one (pos n) = if leb 1 n then n else 1
at_least_one (negsuc n) = 1

unfoldable pub house_of : Option Person → Bool → Option String → List Person → String → Home
house_of chosen is_home last_seen people now = record {
  is_home = some is_home;
  updated_at = some now;
  zone = field_of (λ p. p.zone) chosen;
  node = field_of (λ p. p.node) chosen;
  signal = field_of (λ p. p.signal) chosen;
  last_seen = last_seen;
  freshness = some Freshness.fresh;
  source = some "eero";
  people = people;
  stale_reason = none;
  stale_at = none;
}

abbrev pub people_of : Option Home → List Person
people_of none = []
people_of (some h) = h.people

-- The person at home who was seen last, or the last time at which anybody was seen.
unfoldable pub aggregate_of : Option Person → List Person → String → Home
unfolding house_of latest
aggregate_of (some p) people now = house_of (some p) true p.last_seen people now
aggregate_of none people now =
    house_of none false (field_of (λ p. p.last_seen) (latest (λ p. p.last_seen) people)) people now

unfoldable pub aggregate : List Person → String → Home
unfolding aggregate_of latest
aggregate people now =
    aggregate_of (latest (λ p. p.last_seen) (select (λ p. some_bool p.is_home) people)) people now

abbrev pub or_later : Bool → Person → Option Person → Option Person
or_later found p (some q) = some q
or_later true p none = some p
or_later false p none = none

module _ (casefold : String → String) where
  -- `previous_people.get(key)`: the dictionary keeps the last person of a key.
  unfoldable pub person_in : List Person → String → Option Person
  person_in [] name = none
  person_in (p ∷ ps) name =
      or_later (not (is_blank (codes p.person)) && same_person casefold p.person name) p
        (person_in ps name)

  unfoldable pub people_after : List Person → ℕ → List Client → List Group → List Person
  unfolding person_state best_match person_in
  people_after previous threshold clients [] = []
  people_after previous threshold clients (g ∷ gs) =
      person_state g.person (person_in previous g.person) (best_match casefold g.devices clients)
        threshold
      ∷ people_after previous threshold clients gs

  abbrev pub unless_untracked : List Group → Home → Option Home
  unless_untracked [] h = none
  unless_untracked (_ ∷ _) h = some h

  -- `none` leaves the stored occupancy alone.
  unfoldable pub compute_presence : Option Home → List Row → List Client → ℤ → String → Option Home
  unfolding group_tracked people_after aggregate
  compute_presence previous tracked clients miss_threshold now =
      let groups = group_tracked casefold tracked in
      let people = people_after (people_of previous) (at_least_one miss_threshold) clients groups in
      unless_untracked groups (aggregate people now)
