-- ===== src/Rooms/Smooth.antt =====
-- The displayed room of a person from poll to poll, in room_fingerprint.py. A confidence is in
-- hundredths, which is what `_as_float` rounds to, and `room_pending_count` is what this code wrote.
use device_weave.Prelude.{
  ℕ, ◌+◌, ◌≡◌, refl, Bool, true, false, not, Option, none, some, arith, if◌then◌else◌, leb, ltb,
}
use device_weave.Prelude.Text.{String, str_eq, eq_iff}

-- The room fields of a person of the presence item. `none` is a missing or an empty field.
pub record Placing : Type 0 where
  pub room : Option String
  pub room_confidence : ℕ
  pub room_pending : Option String
  pub room_pending_count : ℕ
  pub device_hmac : Option String
  pub room_source : Option String

-- What `smooth` returns.
pub record Shown : Type 0 where
  pub room : String
  pub room_confidence : ℕ
  pub room_pending : String
  pub room_pending_count : ℕ

abbrev pub smoothing_readings : ℕ
smoothing_readings = 2

-- `value or "unknown"`
abbrev pub or_unknown : Option String → String
or_unknown none = "unknown"
or_unknown (some r) = r

abbrev pub is_text : Option String → String → Bool
is_text none s = false
is_text (some r) s = str_eq r s

unfoldable pub shown_confidence : String → ℕ → ℕ
shown_confidence room confidence = if str_eq room "unknown" then 0 else confidence

unfoldable pub next_count : Placing → String → ℕ
next_count prev proposed =
    if is_text prev.room_pending proposed then prev.room_pending_count + 1 else 1

unfoldable pub smooth : Placing → String → ℕ → Shown
unfolding shown_confidence next_count
smooth prev proposed confidence =
    let displayed = or_unknown prev.room in
    let count = next_count prev proposed in
    if str_eq displayed proposed
    then record {
      room = proposed;
      room_confidence = shown_confidence proposed confidence;
      room_pending = proposed;
      room_pending_count = smoothing_readings;
    }
    else if leb smoothing_readings count
    then record {
      room = proposed;
      room_confidence = shown_confidence proposed confidence;
      room_pending = proposed;
      room_pending_count = count;
    }
    else record {
      room = displayed;
      room_confidence = if str_eq displayed "unknown" then 0 else prev.room_confidence;
      room_pending = proposed;
      room_pending_count = count;
    }

-- `person.update(smooth(...))`, and the hash of the device that was read, if any.
unfoldable pub show : Placing → Shown → Option String → Placing
show p s digest = record {
  room = some s.room;
  room_confidence = s.room_confidence;
  room_pending = some s.room_pending;
  room_pending_count = s.room_pending_count;
  device_hmac = digest;
  room_source = p.room_source;
}

unfoldable pub clear_room : Placing → Placing
clear_room p = record {
  room = some "unknown";
  room_confidence = 0;
  room_pending = none;
  room_pending_count = 0;
  device_hmac = none;
  room_source = none;
}

-- `a or b` for the hash of a held room, and the count that goes with a pending room.
abbrev pub kept : Option String → Option String → Option String
kept none b = b
kept (some a) b = some a

abbrev pub held_count : Option String → ℕ → ℕ
held_count none n = 0
held_count (some _) n = n

unfoldable pub hold_room : Placing → Placing → Placing
hold_room p prev = record {
  room = some (or_unknown prev.room);
  room_confidence = if str_eq (or_unknown prev.room) "unknown" then 0 else prev.room_confidence;
  room_pending = prev.room_pending;
  room_pending_count = held_count prev.room_pending prev.room_pending_count;
  device_hmac = kept prev.device_hmac p.device_hmac;
  room_source = p.room_source;
}

-- What the classifier proposes for a person, and the hash of the device it read.
pub record Guess : Type 0 where
  pub proposed : String
  pub confidence : ℕ
  pub digest : Option String

-- One person of `apply_rooms`: away, not seen in this poll, or read.
unfoldable pub place : Bool → ℕ → Placing → Placing → Guess → Placing
unfolding smooth show clear_room hold_room
place is_home miss_count prev person guess =
    if not is_home
    then clear_room person
    else if ltb 0 miss_count
    then hold_room person prev
    else show person (smooth prev guess.proposed guess.confidence) guess.digest

-- The room that an item shows.
abbrev pub room_of : Placing → String
room_of p = or_unknown p.room

pending_after : (prev : Placing) (a : String) (c : ℕ) → (smooth prev a c).room_pending ≡ a
unfolding smooth
pending_after prev a c = ground arith

count_after :
    (prev : Placing) (a : String) (c : ℕ) → leb 1 (smooth prev a c).room_pending_count ≡ true
unfolding smooth next_count
count_after prev a c = ground arith

eq_self : (s : String) → str_eq s s ≡ true
eq_self s = (eq_iff s s).1 refl

second_room :
    (person : Placing) (s : Shown) (a b : String) (c : ℕ) (digest : Option String)
    → s.room_pending ≡ a
    → leb 1 s.room_pending_count ≡ true
    → (smooth (show person s digest) b c).room ≡ (if str_eq a b then b else s.room)
unfolding smooth show next_count
second_room person s a b c digest h k =
    let e : str_eq s.room_pending b ≡ str_eq a b = rw h refl in ground (arith, (eq_iff s.room b).0)

-- A person who is home and read in two polls in a row, with the proposals a and b, shows b after
-- the second poll where a is b, and otherwise shows what the first poll left: no single proposal
-- moves the displayed room, and two equal ones in a row always do.
pub place_twice :
    (prev first second : Placing) (g k : Guess)
    → let p = place true 0 prev first g in
      room_of (place true 0 p second k)
      ≡ (if str_eq g.proposed k.proposed then k.proposed else room_of p)
unfolding place show
place_twice prev first second g k =
    second_room first (smooth prev g.proposed g.confidence) g.proposed k.proposed k.confidence
      g.digest (pending_after prev g.proposed g.confidence)
      (count_after prev g.proposed g.confidence)
