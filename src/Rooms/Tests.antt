-- ===== src/Rooms/Tests.antt =====
-- Runs and instances for room_fingerprint.py.
use device_weave.Prelude.{◌≡◌, refl, true, none, some, List, [], ◌∷◌}
use device_weave.Prelude.Text.{String, strip_text}
use device_weave.Rooms.Label.{validate_room, validate_person, is_label}
use device_weave.Rooms.Classify.{Fingerprint, classify, rank}
use device_weave.Rooms.Nearest.{IsNearest, classify-IsNearest}
use device_weave.Rooms.Smooth.{Placing, Guess, place, place_twice, room_of}

abbrev nowhere : Placing
nowhere = record {
  room = none;
  room_confidence = 0;
  room_pending = none;
  room_pending_count = 0;
  device_hmac = none;
  room_source = none;
}

abbrev kitchen : Guess
kitchen = record { proposed = "kitchen"; confidence = 75; digest = some "ab12" }

place_twice_example :
    room_of (place true 0 (place true 0 nowhere nowhere kitchen) nowhere kitchen) ≡ "kitchen"
unfolding place
place_twice_example = place_twice nowhere nowhere nowhere kitchen kitchen

first_poll : room_of (place true 0 nowhere nowhere kitchen) ≡ "unknown"
unfolding place
first_poll = refl

reserved : validate_room (some "Unknown") ≡ none
unfolding validate_room is_label strip_text
reserved = refl

trimmed : validate_person (some "  Ana Lu ") ≡ some "Ana Lu"
unfolding validate_person is_label strip_text
trimmed = refl

abbrev plain : String → String
plain s = s

abbrev calibrated : List Fingerprint
calibrated =
    record { room = "den"; samples = record { node = "hall eero"; bucket = some 4 } ∷ [] }
    ∷ record { room = "attic"; samples = record { node = "hall"; bucket = some 1 } ∷ [] }
    ∷ []

in_the_den : classify plain "hall" (some 4) calibrated "" ≡ ("den", 100)
unfolding classify strip_text
in_the_den = refl

-- Two rooms at one distance are not told apart.
between :
    classify plain "hall"
      (some 2)
      (record { room = "den"; samples = record { node = "hall"; bucket = some 3 } ∷ [] }
        ∷ calibrated)
      ""
    ≡ ("unknown", 0)
unfolding classify strip_text
between = refl

classify-IsNearest_example :
    IsNearest (rank plain (strip_text "hall") (strip_text "") (some 4) calibrated) "den" 100
classify-IsNearest_example =
    classify-IsNearest plain "hall" (some 4) calibrated "" "den" 100 in_the_den refl
