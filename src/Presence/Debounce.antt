-- ===== src/Presence/Debounce.antt =====
-- A person leaves after the threshold of polls that miss every device of theirs, and not before.
use mathlib.Core.List.{Memᴰ}
use device_weave.Prelude.{
  ℕ, suc, ◌+◌, ◌≡◌, refl, sym, ◌∙◌, ap, inl, inr, Bool, true, false, Option, none, some, List, [],
  ◌∷◌, All, arith, Bool-cases, if◌then◌else◌, ltb,
}
use device_weave.Prelude.Int.{ℤ}
use device_weave.Prelude.Text.{String}
use device_weave.Presence.Data.{Row, Client, Group, Person, Home}
use device_weave.Presence.Tracked.{group_tracked, best_match}
use device_weave.Presence.State.{
  person_in, person_state, missed, people_of, at_least_one, aggregate, aggregate_of, house_of,
}
use device_weave.Presence.Poll.{Poll, poll, polls}
use device_weave.Presence.Next.{counts, counted, at_least_one_lem, poll-IsNext, IsNext, people_next}
use device_weave.Presence.People.{group_tracked-IsGroups, person_in-people_after}

-- A person after a number of misses since the last time that a device was seen.
abbrev IsMissed : ℕ → ℕ → Person → Type 0
IsMissed threshold n q = (q.miss_count ≡ n) × (q.is_home ≡ some (ltb n threshold))

missed-IsMissed :
    (name : String) (q : Person) (threshold n : ℕ)
    → IsMissed threshold n q
    → IsMissed threshold (suc n) (missed name (some q) threshold)
unfolding missed
missed-IsMissed name q threshold n (e, h) = ground arith

seen-IsMissed :
    (name : String) (prev : Option Person) (c : Client) (threshold : ℕ)
    → ltb 0 threshold ≡ true
    → IsMissed threshold 0 (person_state name prev (some c) threshold)
unfolding person_state
seen-IsMissed name prev c threshold h = (refl, ap some (sym h))

aggregate_of_people :
    (chosen : Option Person) (people : List Person) (now : String)
    → (aggregate_of chosen people now).people ≡ people
unfolding aggregate_of house_of
aggregate_of_people none people now = refl
aggregate_of_people (some p) people now = refl

aggregate_people : (people : List Person) (now : String) → (aggregate people now).people ≡ people
unfolding aggregate
aggregate_people people now = aggregate_of_people _ people now

module _ (casefold : String → String) (t : ℤ) (tracked : List Row) where
  abbrev pub person_now : Option Home → Group → Option Person
  person_now o g = person_in casefold (people_of o) g.person

  -- A run that counts gives a person the next state, and another one leaves it.
  pub person_next :
      (o : Option Home) (p : Poll) (g : Group)
      → Memᴰ g (group_tracked casefold tracked)
      → person_now (poll casefold t tracked o p) g ≡ (
          if counts p
          then some (
              person_state g.person
                (person_now o g)
                (best_match casefold g.devices p.clients)
                (at_least_one t))
          else person_now o g)
  person_next o p g m =
      go (counts p) (poll casefold t tracked o p) (poll-IsNext casefold t tracked o p g m)
    where
      go :
          (b : Bool) (q : Option Home)
          → IsNext casefold t tracked b o p q
          → person_now q g ≡ (
              if b
              then some (
                  person_state g.person
                    (person_now o g)
                    (best_match casefold g.devices p.clients)
                    (at_least_one t))
              else person_now o g)
      go b q (inl (c, e)) =
          let n =
            person_in-people_after casefold (people_of o) (at_least_one t) p.clients
              (group_tracked casefold tracked) g (group_tracked-IsGroups casefold tracked) m in
          let a =
            ap (λ ps. person_in casefold ps g.person)
              (aggregate_people (people_next casefold t tracked o p) p.now) in
          simp c (ap (λ x. person_now x g) e ∙ (a ∙ n))
      go b q (inr (c, s)) = simp c (ap (λ ps. person_in casefold ps g.person) s.0)

  -- No run that counts finds a device of the group.
  abbrev pub IsMissing : Group → List Poll → Type 0
  IsMissing g ps = All (λ p. counts p ≡ true → best_match casefold g.devices p.clients ≡ none) ps

  pub missed_next :
      (o : Option Home) (p : Poll) (g : Group)
      → Memᴰ g (group_tracked casefold tracked)
      → counts p ≡ true
      → best_match casefold g.devices p.clients ≡ none
      → person_now (poll casefold t tracked o p) g
        ≡ some (missed g.person (person_now o g) (at_least_one t))
  unfolding person_state
  missed_next o p g m c n = person_next o p g m ∙ simp (c, n) refl

  seen_next :
      (o : Option Home) (p : Poll) (g : Group) (seen : Client)
      → Memᴰ g (group_tracked casefold tracked)
      → counts p ≡ true
      → best_match casefold g.devices p.clients ≡ some seen
      → person_now (poll casefold t tracked o p) g
        ≡ some (person_state g.person (person_now o g) (some seen) (at_least_one t))
  seen_next o p g seen m c n = person_next o p g m ∙ simp (c, n) refl

  pub skipped_next :
      (o : Option Home) (p : Poll) (g : Group)
      → Memᴰ g (group_tracked casefold tracked)
      → counts p ≡ false
      → person_now (poll casefold t tracked o p) g ≡ person_now o g
  skipped_next o p g m c = person_next o p g m ∙ simp c refl

  still-IsMissed :
      (g : Group) (o : Option Home) (ps : List Poll) (n total : ℕ) (q : Person)
      → Memᴰ g (group_tracked casefold tracked)
      → IsMissing g ps
      → person_now o g ≡ some q
      → IsMissed (at_least_one t) n q
      → total ≡ n + counted ps
      → (r : Person) × (person_now (polls casefold t tracked o ps) g ≡ some r)
        × IsMissed (at_least_one t) total r
  unfolding polls
  still-IsMissed g o [] n total q m i e h u = let u' : total ≡ n = omega arith in (q, e, rw u' h)
  still-IsMissed g o (p ∷ ps) n total q m (i, is) e h u = elim (Bool-cases (counts p)) [
    | inl here ↦
        let s =
          missed_next o p g m here (i here)
          ∙ ap (λ x. some (missed g.person x (at_least_one t))) e in
        still-IsMissed g (poll casefold t tracked o p) ps (suc n) total _ m is s
          (missed-IsMissed g.person q (at_least_one t) n h) (ground arith)
    | inr off ↦
        still-IsMissed g (poll casefold t tracked o p) ps n total q m is
          (skipped_next o p g m off ∙ e) h (ground arith)
  ]

  -- Someone of whom a device was seen in one run is shown at home in the item that any later runs
  -- leave, as long as fewer of these than the threshold looked at the clients, missed all the
  -- person's devices and could store it, and is shown away from then on. Other runs change nothing.
  pub departure :
      (g : Group) (o : Option Home) (first : Poll) (later : List Poll) (seen : Client)
      → Memᴰ g (group_tracked casefold tracked)
      → counts first ≡ true
      → best_match casefold g.devices first.clients ≡ some seen
      → IsMissing g later
      → (q : Person) × (person_now (polls casefold t tracked o (first ∷ later)) g ≡ some q)
        × (q.is_home ≡ some (ltb (counted later) (at_least_one t)))
  unfolding polls
  departure g o first later seen m c e i =
      let (q, h, k) =
        still-IsMissed g (poll casefold t tracked o first) later 0 (counted later) _ m i
          (seen_next o first g seen m c e)
          (seen-IsMissed g.person (person_now o g) seen (at_least_one t) (at_least_one_lem t))
          (omega arith) in
      (q, h, k.1)
