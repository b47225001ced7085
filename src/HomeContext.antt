-- ===== src/HomeContext.antt =====
-- The context that policies are evaluated in: policy_engine/context_provider.py over the readings of
-- weather_client.py and the presence item. A number is in thousandths. The answer of the weather
-- service and the hour are arguments, and the cache of a day's weather is left out.
pub mod Fields
mod Tests
use device_weave.Prelude.{
  ℕ, zero, suc, ◌+◌, ◌-◌, ◌*◌, ◌/◌, ◌%◌, Bool, true, false, not, ◌&&◌, ◌||◌, Option, none, some,
  List, [], ◌∷◌, if◌then◌else◌, leb, ltb, ◌==◌,
}
use device_weave.Prelude.Int.{ℤ, pos, negsuc, ltb_ℤ}
use device_weave.Prelude.Text.{String, str_eq, strip_text}
use device_weave.Policy.Data.{Context, num, bool, str}

-- `current` of the service's answer; `none` is a value that it does not give.
pub record Reading : Type 0 where
  pub temperature_2m : Option ℤ
  pub relative_humidity_2m : Option ℤ
  pub cloud_cover : Option ℤ

-- The part of the weather dictionary that the context reads. A failed fetch gives the empty one.
pub record Weather : Type 0 where
  pub temperature_c : Option ℤ
  pub humidity_pct : Option ℤ
  pub cloud_cover_pct : Option ℤ
  pub is_overcast : Option Bool

abbrev pub number_or : ℤ → Option ℤ → ℤ
number_or d none = d
number_or d (some x) = x

abbrev pub flag_or : Bool → Option Bool → Bool
flag_or d none = d
flag_or d (some b) = b

-- `_fetch`
unfoldable pub fetch : Option Reading → Weather
fetch none = record {
  temperature_c = none;
  humidity_pct = none;
  cloud_cover_pct = none;
  is_overcast = none;
}
fetch (some r) = record {
  temperature_c = r.temperature_2m;
  humidity_pct = r.relative_humidity_2m;
  cloud_cover_pct = r.cloud_cover;
  is_overcast = some (ltb_ℤ (pos 70_000) (number_or (pos 0) r.cloud_cover));
}

-- What a read of the presence item gives: a failure, or the item if there is one. Of `is_home`,
-- `none` is a missing key and `some none` a stored null.
pub record Item : Type 0 where
  pub is_home : Option (Option Bool)
  pub room : Option String

pub data Read : Type 0 where
  unreadable : Read
  found : Option Item → Read

-- `bool(item.get("is_home", True))`
abbrev pub home_flag : Option (Option Bool) → Bool
home_flag none = true
home_flag (some stored) = flag_or false stored

abbrev pub is_home_of : Read → Bool
is_home_of unreadable = true
is_home_of (found none) = true
is_home_of (found (some i)) = home_flag i.is_home

abbrev pub room_label : Option String → String
room_label none = "unknown"
room_label (some s) = if str_eq (strip_text s) "" then "unknown" else strip_text s

unfoldable pub room_of : Read → String
unfolding strip_text
room_of unreadable = "unknown"
room_of (found none) = "unknown"
room_of (found (some i)) = room_label i.room

-- `round(x, 1)` of a magnitude in units of 1/5000, in thousandths; a half goes to the even tenth.
unfoldable pub round_tenths : ℕ → ℕ
round_tenths n =
    let q = n / 500 in
    let r = n % 500 in if ltb 250 r || (r == 250 && q % 2 == 1) then (q + 1) * 100 else q * 100

abbrev pub negative : ℕ → ℤ
negative zero = pos 0
negative (suc n) = negsuc n

-- `round(temp_c * 9 / 5 + 32, 1)`; nine times a thousandth is nine units of 1/5000.
unfoldable pub fahrenheit : ℤ → ℤ
unfolding round_tenths
fahrenheit (pos n) = pos (round_tenths (9 * n + 160_000))
fahrenheit (negsuc n) =
    if leb (9 * (n + 1)) 160_000
    then pos (round_tenths (160_000 - 9 * (n + 1)))
    else negative (round_tenths (9 * (n + 1) - 160_000))

abbrev pub temperature_of : Option ℤ → ℤ
temperature_of none = pos 70_000
temperature_of (some t) = fahrenheit t

-- `int(x)`
unfoldable pub truncated : ℤ → ℤ
truncated (pos n) = pos (n / 1000 * 1000)
truncated (negsuc n) = negative ((n + 1) / 1000 * 1000)

unfoldable pub get_context : Weather → ℕ → Read → Read → Context
unfolding fahrenheit truncated room_of
get_context w hour home room =
    ("temperature", num (temperature_of w.temperature_c))
    ∷ ("humidity", num (number_or (pos 50_000) w.humidity_pct))
    ∷ ("cloud_cover_pct", num (truncated (number_or (pos 0) w.cloud_cover_pct)))
    ∷ ("is_overcast", bool (flag_or false w.is_overcast))
    ∷ ("time_hour", num (pos (1000 * hour)))
    ∷ ("is_home", bool (is_home_of home))
    ∷ ("room", str (room_of room))
    ∷ []
