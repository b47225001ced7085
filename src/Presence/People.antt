-- ===== src/Presence/People.antt =====
-- The people of an item are the groups of the tracked devices, each found under its own name.
use mathlib.Core.List.{Memᴰ}
use device_weave.Prelude.{
  ℕ, ◌≡◌, refl, sym, ◌∙◌, inl, inr, true, false, not, ◌&&◌, Option, none, some, List, [], ◌∷◌, all,
  arith, Bool-cases, &&-eq-true, bool_ext,
}
use device_weave.Prelude.Text.{String, eq_iff, strip_text, codes}
use device_weave.Presence.Data.{Row, Client, Group, Person}
use device_weave.Presence.Tracked.{
  is_blank, is_usable, add_row, group_onto, group_tracked, same_person, best_match,
}
use device_weave.Presence.State.{person_in, or_later, person_state, missed, people_after}

module _ (casefold : String → String) where
  -- The groups have names, and no two of them the same one.
  abbrev pub IsGroups : List Group → Type 0
  IsGroups [] = Unit
  IsGroups (g ∷ gs) =
      (is_blank (codes g.person) ≡ false)
      × (all (λ h. not (same_person casefold h.person g.person)) gs ≡ true)
      × IsGroups gs

  same_sym : (a b : String) → same_person casefold a b ≡ same_person casefold b a
  same_sym a b =
      bool_ext _ _
        (λ h. (eq_iff (casefold b) (casefold a)).1 (sym ((eq_iff (casefold a) (casefold b)).0 h)))
        (λ h. (eq_iff (casefold a) (casefold b)).1 (sym ((eq_iff (casefold b) (casefold a)).0 h)))

  add_row_apart :
      (t : String) (gs : List Group) (r : Row)
      → all (λ h. not (same_person casefold h.person t)) gs ≡ true
      → same_person casefold (strip_text r.person) t ≡ false
      → all (λ h. not (same_person casefold h.person t)) (add_row casefold gs r) ≡ true
  unfolding add_row
  add_row_apart t [] r h n = ground arith
  add_row_apart t (g ∷ gs) r h n = ground (arith, add_row_apart t gs r)

  add_row-IsGroups :
      (gs : List Group) (r : Row)
      → is_blank (codes (strip_text r.person)) ≡ false
      → IsGroups gs
      → IsGroups (add_row casefold gs r)
  unfolding add_row
  add_row-IsGroups [] r n h = (n, refl, tt)
  add_row-IsGroups (g ∷ gs) r n (b, a, h) =
      elim (Bool-cases (same_person casefold g.person (strip_text r.person))) [
        | inl same ↦ simp same (b, a, h)
        | inr other ↦
            let d = sym (same_sym g.person (strip_text r.person)) ∙ other in
            simp other (b, add_row_apart g.person gs r a d, add_row-IsGroups gs r n h)
      ]

  usable_named :
      (r : Row) → is_usable casefold r ≡ true → is_blank (codes (strip_text r.person)) ≡ false
  unfolding is_usable
  usable_named r h = ground arith

  group_onto-IsGroups :
      (gs : List Group) (rs : List Row) → IsGroups gs → IsGroups (group_onto casefold gs rs)
  unfolding group_onto
  group_onto-IsGroups gs [] h = h
  group_onto-IsGroups gs (r ∷ rs) h = elim (Bool-cases (is_usable casefold r)) [
    | inl good ↦ simp good (
        group_onto-IsGroups (add_row casefold gs r) rs
          (add_row-IsGroups gs r (usable_named r good) h))
    | inr bad ↦ simp bad (group_onto-IsGroups gs rs h)
  ]

  pub group_tracked-IsGroups : (rows : List Row) → IsGroups (group_tracked casefold rows)
  unfolding group_tracked
  group_tracked-IsGroups rows = group_onto-IsGroups [] rows tt

  person_state_name :
      (name : String) (prev : Option Person) (seen : Option Client) (threshold : ℕ)
      → (person_state name prev seen threshold).person ≡ name
  unfolding person_state missed
  person_state_name name prev none threshold = ground arith
  person_state_name name prev (some c) threshold = refl

  skipped :
      (p : Person) (t : String)
      → same_person casefold p.person t ≡ false
      → or_later (not (is_blank (codes p.person)) && same_person casefold p.person t) p none ≡ none
  skipped p t d = ground arith

  named :
      (p : Person) (t : String)
      → is_blank (codes p.person) ≡ false
      → same_person casefold p.person t ≡ true
      → or_later (not (is_blank (codes p.person)) && same_person casefold p.person t) p none
        ≡ some p
  named p t b d = ground arith

  module _ (previous : List Person) (threshold : ℕ) (clients : List Client) where
    abbrev after : Group → Person
    after g =
        person_state g.person (person_in casefold previous g.person)
          (best_match casefold g.devices clients) threshold

    not_among :
        (t : String) (gs : List Group)
        → all (λ h. not (same_person casefold h.person t)) gs ≡ true
        → person_in casefold (people_after casefold previous threshold clients gs) t ≡ none
    unfolding person_in people_after
    not_among t [] h = refl
    not_among t (g ∷ gs) h =
        let (d, r) = &&-eq-true (not (same_person casefold g.person t)) _ h in
        let n =
          person_state_name g.person (person_in casefold previous g.person)
            (best_match casefold g.devices clients) threshold in
        let d' : same_person casefold (after g).person t ≡ false = rw n (ground arith) in
        rw (not_among t gs r) (skipped (after g) t d')

    -- A group finds its own person among the people of its poll.
    pub person_in-people_after :
        (gs : List Group) (g : Group)
        → IsGroups gs
        → Memᴰ g gs
        → person_in casefold (people_after casefold previous threshold clients gs) g.person
          ≡ some (after g)
    unfolding person_in people_after
    person_in-people_after [] g h m = elim m [ ]
    person_in-people_after (x ∷ gs) g (b, a, h) (Memᴰ.head e) =
        let n =
          person_state_name x.person (person_in casefold previous x.person)
            (best_match casefold x.devices clients) threshold in
        let b' : is_blank (codes (after x).person) ≡ false = rw n b in
        let d : same_person casefold (after x).person x.person ≡ true =
          rw n ((eq_iff _ _).1 refl) in
        rw (e, not_among x.person gs a) (named (after x) x.person b' d)
    person_in-people_after (x ∷ gs) g (b, a, h) (Memᴰ.tail m) =
        rw (person_in-people_after gs g h m) refl
