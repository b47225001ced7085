-- ===== src/RoomSchedule.antt =====
-- room_schedule.py: local-time room rules. A clock text is HH:MM in ASCII digits; a minute of the
-- day is a number below 1440. `casefold`, the check of a timezone's name and the minute of the day
-- that a timezone has at a moment are parameters.
pub mod Disjoint
pub mod Window
pub mod RuleId
pub mod Delete
mod Tests
use device_weave.Prelude.{
  ℕ, zero, suc, map, ◌+◌, ◌-◌, ◌*◌, Bool, true, false, not, ◌&&◌, ◌||◌, Option, none, some, List,
  [], ◌∷◌, any, select, if◌then◌else◌, ltb, leb, ◌==◌,
}
use device_weave.Rooms.Label.{Input, validate_person, validate_room}
use device_weave.Prelude.Text.{strip_text, String, str_eq, codes, codes_lt}

pub record Rule : Type 0 where
  pub person : String
  pub room : String
  pub start : String
  pub end : String
  pub timezone : String

-- `ScheduleError` by its message.
pub data ScheduleError : Type 0 where
  bad_label bad_clock same_clock bad_timezone overlapping bad_rule_id : ScheduleError

pub data Result {ℓ} (A : Type ℓ) : Type ℓ where
  ok : A → Result A
  error : ScheduleError → Result A

-- `_TIME_RE.fullmatch`
unfoldable pub is_clock_codes : List ℕ → Bool
is_clock_codes (a ∷ b ∷ c ∷ d ∷ e ∷ []) =
    (((a == 48 || a == 49) && leb 48 b && leb b 57) || (a == 50 && leb 48 b && leb b 51))
    && c == 58
    && (leb 48 d && leb d 53)
    && (leb 48 e && leb e 57)
is_clock_codes _ = false

unfoldable pub is_clock : String → Bool
unfolding is_clock_codes
is_clock s = is_clock_codes (codes s)

-- `_minutes` of a text that `_TIME_RE` accepts.
unfoldable pub minutes_codes : List ℕ → ℕ
minutes_codes (a ∷ b ∷ c ∷ d ∷ e ∷ []) =
    (10 * (a - 48) + (b - 48)) * 60 + (10 * (d - 48) + (e - 48))
minutes_codes _ = 0

unfoldable pub minutes : String → ℕ
unfolding minutes_codes
minutes s = minutes_codes (codes s)

unfoldable pub in_span : ℕ → ℕ → ℕ → Bool
in_span start end minute =
    if start == end
    then false
    else if ltb start end
    then leb start minute && ltb minute end
    else leb start minute || ltb minute end

-- `_contains`, which is also `in_window` at the minute of the local time.
unfoldable pub contains : String → String → ℕ → Bool
unfolding minutes in_span
contains start end minute = in_span (minutes start) (minutes end) minute

-- `any` over `range(n)`.
unfoldable pub any_below : (ℕ → Bool) → ℕ → Bool
any_below p zero = false
any_below p (suc n) = any_below p n || p n

unfoldable pub overlaps : String → String → String → String → Bool
unfolding is_clock contains any_below
overlaps start end other_start other_end =
    if is_clock other_start && is_clock other_end
    then any_below (λ minute. contains start end minute && contains other_start other_end minute)
        1440
    else false

module _ (casefold : String → String) (is_zone : String → Bool) where
  unfoldable pub validate_clock : Input → Result String
  validate_clock none = error bad_clock
  validate_clock (some s) = if is_clock (strip_text s) then ok (strip_text s) else error bad_clock

  -- `Option Input` tells a missing timezone from one that is no text.
  unfoldable pub validate_timezone : Option Input → Result String
  validate_timezone none = ok "America/Chicago"
  validate_timezone (some none) = error bad_timezone
  validate_timezone (some (some s)) =
      if str_eq s ""
      then ok "America/Chicago"
      else if is_zone (strip_text s)
      then ok (strip_text s)
      else error bad_timezone

  abbrev pub same_person : Rule → Rule → Bool
  same_person r s = str_eq (casefold r.person) (casefold s.person)

  -- The key and the `rule_id` are the folded person, the start and the end.
  abbrev pub same_key : Rule → Rule → Bool
  same_key r s = same_person r s && str_eq r.start s.start && str_eq r.end s.end

  abbrev pub others : Rule → List Rule → List Rule
  others item rules = select (λ r. same_person item r && not (same_key item r)) rules

  -- `put_item`: an item with the same key is replaced.
  unfoldable pub put_item : Rule → List Rule → List Rule
  put_item item rules = item ∷ select (λ r. not (same_key item r)) rules

  unfoldable pub check_and_put : Rule → List Rule → Result (List Rule)
  unfolding put_item overlaps
  check_and_put item rules =
      if any (λ r. overlaps item.start item.end r.start r.end) (others item rules)
      then error overlapping
      else ok (put_item item rules)

  abbrev pub with_zone :
      String → String → String → String → Result String → List Rule → Result (List Rule)
  with_zone person room start end (error e) rules = error e
  with_zone person room start end (ok timezone) rules =
      check_and_put
        (record { person = person; room = room; start = start; end = end; timezone = timezone })
        rules

  abbrev pub with_clocks :
      String
      → String
      → Result String
      → Result String
      → Option Input
      → List Rule
      → Result (List Rule)
  with_clocks person room (error e) end timezone rules = error e
  with_clocks person room (ok start) (error e) timezone rules = error e
  with_clocks person room (ok start) (ok end) timezone rules =
      if str_eq start end
      then error same_clock
      else with_zone person room start end (validate_timezone timezone) rules

  abbrev pub with_labels :
      Option String → Option String → Input → Input → Option Input → List Rule → Result (List Rule)
  with_labels (some person) (some room) start end timezone rules =
      with_clocks person room (validate_clock start) (validate_clock end) timezone rules
  with_labels _ _ start end timezone rules = error bad_label

  -- `set_rule`, with the table afterwards.
  unfoldable pub set_rule :
      List Rule → Input → Input → Input → Input → Option Input → Result (List Rule)
  unfolding validate_clock validate_timezone check_and_put
  set_rule rules person room start end timezone =
      with_labels (validate_person person) (validate_room room) start end timezone rules

  -- `delete_rule` after `parse_rule_id` has given the key, with the count that it returns.
  unfoldable pub delete_rule : List Rule → String → String → String → ℕ × List Rule
  delete_rule rules fold start end =
      let hit =
        λ (r : Rule). str_eq (casefold r.person) fold && str_eq r.start start && str_eq r.end end in
      (if any hit rules then 1 else 0, select (λ r. not (hit r)) rules)

module _ (casefold : String → String) (local_minute : String → Option ℕ) where
  abbrev pub in_window_at : Rule → Option ℕ → Bool
  in_window_at r none = false
  in_window_at r (some minute) = contains r.start r.end minute

  -- The rules that `matching_rule` finds at a moment.
  unfoldable pub found : List Rule → String → List Rule
  found rules person =
      select
        (λ r.
          str_eq (casefold r.person) (casefold person) && in_window_at r (local_minute r.timezone))
        rules

  -- The first by `start`, as a stable sort gives it.
  unfoldable pub earliest : Rule → List Rule → Rule
  earliest best [] = best
  earliest best (r ∷ rs) =
      earliest (if codes_lt (codes r.start) (codes best.start) then r else best) rs

  abbrev pub first_found : List Rule → Option Rule
  first_found [] = none
  first_found (r ∷ rs) = some (earliest r rs)

  unfoldable pub matching_rule : List Rule → Option String → Option Rule
  unfolding found earliest
  matching_rule rules none = none
  matching_rule rules (some person) =
      if str_eq (casefold person) "" then none else first_found (found rules person)

-- What `apply_rules` reads and writes of one person; `none` for a missing key.
pub record Person : Type 0 where
  pub name : Option String
  pub is_home : Bool
  pub room : Option String
  pub room_confidence : Option ℕ
  pub room_source : Option String
  pub room_pending : Option String
  pub room_pending_count : ℕ

abbrev pub unsourced : Person → Person
unsourced p = record {
  name = p.name;
  is_home = p.is_home;
  room = p.room;
  room_confidence = p.room_confidence;
  room_source = none;
  room_pending = p.room_pending;
  room_pending_count = p.room_pending_count;
}

-- A home person with a rule; `readings` is `room_fingerprint.SMOOTHING_READINGS`.
abbrev pub settle : ℕ → Person → Option Rule → Person
settle readings p none = unsourced p
settle readings p (some rule) = record {
  name = p.name;
  is_home = p.is_home;
  room = some rule.room;
  room_confidence = some 1;
  room_source = some "schedule_rule";
  room_pending = some rule.room;
  room_pending_count = readings;
}

-- The people of `apply_rules` after its loop.
unfoldable pub apply_people :
    (String → String) → (String → Option ℕ) → ℕ → List Rule → List Person → List Person
apply_people casefold local_minute readings rules = map (λ p.
    if p.is_home
    then settle readings p (matching_rule casefold local_minute rules p.name)
    else unsourced p)
