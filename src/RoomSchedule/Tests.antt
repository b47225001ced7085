-- ===== src/RoomSchedule/Tests.antt =====
-- Runs and instances for room_schedule.py.
use device_weave.Prelude.{
  ℕ, ◌↔◌, ◌&&◌, not, select, ltb, ◌≡◌, refl, Bool, true, false, none, some, [], ◌∷◌,
}
use device_weave.Rooms.Label.{validate_person, validate_room, validate_label, is_label}
use device_weave.Prelude.Text.{strip_text, String}
use device_weave.RoomSchedule.{
  Rule, is_clock, ok, error, bad_rule_id, same_key, set_rule, put_item, check_and_put,
  validate_clock, validate_timezone, overlaps,
}
use device_weave.RoomSchedule.RuleId.{rule_id_for, parse_rule_id}
use device_weave.RoomSchedule.Delete.{delete_by_id, set_rule-delete}
use device_weave.RoomSchedule.Disjoint.{IsTimetable, IsClocked, set_rule-IsTimetable}
use device_weave.RoomSchedule.Window.{is_open, overlaps-is_open}

abbrev plain : String → String
plain s = s

abbrev any_zone : String → Bool
any_zone s = true

abbrev night_rule : Rule
night_rule = record {
  person = "Ana";
  room = "bedroom";
  start = "23:00";
  end = "06:00";
  timezone = "America/Chicago";
}

abbrev morning_rule : Rule
morning_rule = record {
  person = "Ana";
  room = "kitchen";
  start = "06:00";
  end = "08:30";
  timezone = "America/Chicago";
}

apart : overlaps "06:00" "08:30" "23:00" "06:00" ≡ false
unfolding overlaps
apart = refl

adds :
    set_rule plain any_zone
      (night_rule ∷ [])
      (some "Ana")
      (some "kitchen")
      (some "06:00")
      (some "08:30")
      none
    ≡ ok (morning_rule ∷ night_rule ∷ [])
unfolding set_rule put_item check_and_put validate_clock validate_timezone overlaps validate_person
    validate_room validate_label strip_text is_label
adds = refl

night_rule-IsTimetable : IsTimetable plain any_zone (night_rule ∷ [])
unfolding IsTimetable IsClocked is_clock
night_rule-IsTimetable = (refl, tt, tt)

set_rule-IsTimetable_example : IsTimetable plain any_zone (morning_rule ∷ night_rule ∷ [])
set_rule-IsTimetable_example =
    set_rule-IsTimetable plain any_zone (night_rule ∷ []) (morning_rule ∷ night_rule ∷ [])
      (some "Ana") (some "kitchen") (some "06:00") (some "08:30") none night_rule-IsTimetable adds

clocks_read : (is_clock "23:00" && is_clock "07:00") ≡ true
unfolding is_clock
clocks_read = refl

morning_reads : (is_clock "06:00" && is_clock "08:30") ≡ true
unfolding is_clock
morning_reads = refl

overlaps-is_open_example : (overlaps "06:00" "08:30" "23:00" "07:00" ≡ true) ↔ (
    (minute : ℕ) × (ltb minute 1440 ≡ true)
    × ((is_open "06:00" "08:30" minute && is_open "23:00" "07:00" minute) ≡ true))
overlaps-is_open_example =
    overlaps-is_open "06:00" "08:30" "23:00" "07:00" morning_reads clocks_read

set_rule-delete_example :
    (item : Rule) × (morning_rule ∷ night_rule ∷ []
      ≡ put_item plain any_zone item (night_rule ∷ []))
    × (delete_by_id plain any_zone
          (morning_rule ∷ night_rule ∷ [])
          (some (rule_id_for plain item.person item.start item.end))
        ≡ ok (1, select (λ r. not (same_key plain any_zone item r)) (night_rule ∷ [])))
set_rule-delete_example =
    set_rule-delete plain any_zone (λ s h. h) (night_rule ∷ []) (morning_rule ∷ night_rule ∷ [])
      (some "Ana") (some "kitchen") (some "06:00") (some "08:30") none adds

morning_id : rule_id_for plain "Ana" "06:00" "08:30" ≡ "Ana~06:00~08:30"
unfolding rule_id_for
morning_id = refl

three_tildes : parse_rule_id (some "Ana~06:00~08:30~") ≡ error bad_rule_id
unfolding parse_rule_id
three_tildes = refl
