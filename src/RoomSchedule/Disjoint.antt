-- ===== src/RoomSchedule/Disjoint.antt =====
-- The clock windows of the rules of one person, for room_schedule.py.
use device_weave.Prelude.{
  ℕ, zero, suc, ◌≡◌, refl, sym, ◌∙◌, Bool, true, false, not, ◌&&◌, Option, none, some, List, [],
  ◌∷◌, any, any-select, select, All, All-select, arith, ltb, Bool-cases, inl, inr,
}
use device_weave.Rooms.Label.{Input}
use device_weave.Prelude.Text.{strip_text, String, str_eq}
use device_weave.RoomSchedule.{
  Rule, Result, ok, error, is_clock, contains, any_below, overlaps, validate_clock, same_person,
  same_key, others, put_item, check_and_put, with_zone, with_clocks, with_labels, set_rule,
  delete_rule,
}

any_below-hit : (p : ℕ → Bool) (n m : ℕ) → ltb m n ≡ true → p m ≡ true → any_below p n ≡ true
unfolding any_below
any_below-hit p zero m b h = absurd (ground arith)
any_below-hit p (suc n) m b h = elim (Bool-cases (ltb m n)) [
  | inl below ↦ ground (arith, any_below-hit p n m below h)
  | inr top ↦ let e : m ≡ n = ground arith in rw (sym e) (ground arith)
]

-- A minute of the day in both windows.
pub overlaps_complete :
    (start end other_start other_end : String) (minute : ℕ)
    → (is_clock other_start && is_clock other_end) ≡ true
    → ltb minute 1440 ≡ true
    → contains start end minute ≡ true
    → contains other_start other_end minute ≡ true
    → overlaps start end other_start other_end ≡ true
unfolding overlaps
overlaps_complete start end other_start other_end minute clocks b h k = simp clocks (
    any_below-hit (λ m. contains start end m && contains other_start other_end m) 1440 minute b
      (ground arith))

pub any_below-witness :
    (p : ℕ → Bool) (n : ℕ) → any_below p n ≡ true → (m : ℕ) × (ltb m n ≡ true) × (p m ≡ true)
unfolding any_below
any_below-witness p zero h = cc
any_below-witness p (suc n) h = elim (Bool-cases (any_below p n)) [
  | inl below ↦ let (m, b, q) = any_below-witness p n below in (m, ground arith, q)
  | inr above ↦ (n, ground arith, ground arith)
]

unfoldable pub IsClocked : Rule → Type 0
IsClocked r = (is_clock r.start && is_clock r.end) ≡ true

-- No minute of the day is in both windows.
unfoldable pub AreApart : Rule → Rule → Type 0
AreApart r s =
    (minute : ℕ)
    → ltb minute 1440 ≡ true
    → contains r.start r.end minute ≡ true
    → contains s.start s.end minute ≡ false

AreApart-overlaps :
    (r s : Rule) → IsClocked s → overlaps r.start r.end s.start s.end ≡ false → AreApart r s
unfolding AreApart IsClocked
AreApart-overlaps r s clocks h minute b k = elim (Bool-cases (contains s.start s.end minute)) [
  | inl both ↦
      absurd (ground (arith, overlaps_complete r.start r.end s.start s.end minute clocks b k both))
  | inr one ↦ one
]

module _ (casefold : String → String) (is_zone : String → Bool) where
  abbrev pub same : Rule → Rule → Bool
  same r s = same_person casefold is_zone r s

  -- A timetable: every clock reads, and two rules of one person are apart.
  unfoldable pub IsTimetable : List Rule → Type 0
  IsTimetable [] = Unit
  IsTimetable (r ∷ rs) = IsClocked r × All (λ s. same r s ≡ true → AreApart r s) rs × IsTimetable rs

  IsTimetable-select :
      (p : Rule → Bool) (rules : List Rule) → IsTimetable rules → IsTimetable (select p rules)
  unfolding IsTimetable
  IsTimetable-select p [] h = tt
  IsTimetable-select p (r ∷ rs) (c, a, h) = elim (Bool-cases (p r)) [
    | inl kept ↦
        simp kept
          (c, All-select (λ s. same r s ≡ true → AreApart r s) p rs a, IsTimetable-select p rs h)
    | inr dropped ↦ simp dropped (IsTimetable-select p rs h)
  ]

  abbrev key : Rule → Rule → Bool
  key r s = same_key casefold is_zone r s

  abbrev clash : Rule → Rule → Bool
  clash item r = overlaps item.start item.end r.start r.end

  -- The rules that stay beside a new one, once no other rule of the person overlaps it.
  apart_of_checked :
      (item : Rule) (rules : List Rule)
      → IsTimetable rules
      → any (λ r. (same item r && not (key item r)) && clash item r) rules ≡ false
      → All (λ s. same item s ≡ true → AreApart item s) (select (λ r. not (key item r)) rules)
  unfolding IsTimetable
  apart_of_checked item [] h free = tt
  apart_of_checked item (r ∷ rs) (c, a, h) free =
      let rest = apart_of_checked item rs h (ground arith) in
      elim (Bool-cases (key item r)) [
        | inl replaced ↦ simp replaced rest
        | inr kept ↦
            let apart : same item r ≡ true → AreApart item r =
              λ mine. AreApart-overlaps item r c (ground arith) in
            simp kept (apart, rest)
      ]

  put_item-IsTimetable :
      (item : Rule) (rules rules' : List Rule)
      → IsClocked item
      → IsTimetable rules
      → check_and_put casefold is_zone item rules ≡ ok rules'
      → IsTimetable rules'
  unfolding check_and_put put_item IsTimetable
  put_item-IsTimetable item rules rules' c h e =
      elim (Bool-cases (any (clash item) (others casefold is_zone item rules))) [
        | inl clashing ↦ absurd (cc (simp clashing at e))
        | inr free ↦
            let e' : ok (item ∷ select (λ r. not (key item r)) rules) ≡ ok rules' =
              simp free at e in
            let e'' : item ∷ select (λ r. not (key item r)) rules ≡ rules' = cc e' in
            rw (sym e'') (
              c,
              apart_of_checked item rules h (
                  sym (any-select (clash item) (λ r. same item r && not (key item r)) rules)
                  ∙ free),
              IsTimetable-select (λ r. not (key item r)) rules h,
            )
      ]

  pub validate_clock-clock :
      (i : Input) (s : String) → validate_clock casefold is_zone i ≡ ok s → is_clock s ≡ true
  unfolding validate_clock
  validate_clock-clock none s h = cc
  validate_clock-clock (some t) s h = elim (Bool-cases (is_clock (strip_text t))) [
    | inl reads ↦
        let e : ok (strip_text t) ≡ ok s = simp reads at h in
        let e' : strip_text t ≡ s = cc e in rw (sym e') reads
    | inr bad ↦ absurd (cc (simp bad at h))
  ]

  zone_step :
      (rules rules' : List Rule) (person room start end : String) (z : Result String)
      → (is_clock start && is_clock end) ≡ true
      → IsTimetable rules
      → with_zone casefold is_zone person room start end z rules ≡ ok rules'
      → IsTimetable rules'
  unfolding IsClocked
  zone_step rules rules' person room start end (error why) c h e = cc
  zone_step rules rules' person room start end (ok z) c h e =
      put_item-IsTimetable _ rules rules' c h e

  clocks_step :
      (rules rules' : List Rule) (person room : String) (s e : Result String)
      (timezone : Option Input)
      → ((t : String) → s ≡ ok t → is_clock t ≡ true)
      → ((t : String) → e ≡ ok t → is_clock t ≡ true)
      → IsTimetable rules
      → with_clocks casefold is_zone person room s e timezone rules ≡ ok rules'
      → IsTimetable rules'
  clocks_step rules rules' person room (error why) e timezone c d h q = cc
  clocks_step rules rules' person room (ok s) (error why) timezone c d h q = cc
  clocks_step rules rules' person room (ok s) (ok e) timezone c d h q =
      elim (Bool-cases (str_eq s e)) [
        | inl blank ↦ absurd (cc (simp blank at q))
        | inr proper ↦
            zone_step rules rules' person room s e _ (rw (c s refl, d e refl) refl) h
              (simp proper at q)
      ]

  labels_step :
      (rules rules' : List Rule) (person room : Option String) (start end : Input)
      (timezone : Option Input)
      → IsTimetable rules
      → with_labels casefold is_zone person room start end timezone rules ≡ ok rules'
      → IsTimetable rules'
  labels_step rules rules' none none start end timezone h q = cc
  labels_step rules rules' none (some r) start end timezone h q = cc
  labels_step rules rules' (some p) none start end timezone h q = cc
  labels_step rules rules' (some p) (some r) start end timezone h q =
      clocks_step rules rules' p r _ _ timezone (validate_clock-clock start)
        (validate_clock-clock end) h q

  -- From a timetable, a `set_rule` that succeeds leaves a timetable, whatever the caller gives: every
  -- clock reads as HH:MM, and no two rules of one person share a minute of the clock.
  pub set_rule-IsTimetable :
      (rules rules' : List Rule) (person room start end : Input) (timezone : Option Input)
      → IsTimetable rules
      → set_rule casefold is_zone rules person room start end timezone ≡ ok rules'
      → IsTimetable rules'
  unfolding set_rule
  set_rule-IsTimetable rules rules' person room start end timezone h e =
      labels_step rules rules' _ _ start end timezone h e

  -- `delete_rule` leaves a timetable.
  delete_rule-IsTimetable :
      (rules : List Rule) (fold start end : String)
      → IsTimetable rules
      → IsTimetable (delete_rule casefold is_zone rules fold start end).1
  unfolding delete_rule
  delete_rule-IsTimetable rules fold start end h = IsTimetable-select _ rules h
