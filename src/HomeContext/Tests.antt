-- ===== src/HomeContext/Tests.antt =====
-- Runs and instances for context_provider.py.
use device_weave.Prelude.{◌≡◌, refl, true, false, none, some}
use device_weave.Prelude.Int.{pos, negsuc}
use device_weave.Policy.Data.{get, num, bool}
use device_weave.RuleSet.Region.Matches.{to_context}
use device_weave.RuleSet.Box.Laws.{Ctx}
use device_weave.HomeContext.{Reading, fetch, Read, unreadable, found, get_context, fahrenheit}
use device_weave.HomeContext.Fields.{Describes, get_context-Describes}

-- 2.6 degrees below zero, with no humidity.
abbrev frosty : Reading
frosty = record {
  temperature_2m = some (negsuc 2_599);
  relative_humidity_2m = none;
  cloud_cover = some (pos 80_000);
}

-- -2.6 * 9 / 5 + 32 is 27.32, which rounds to 27.3.
rounds : fahrenheit (negsuc 2_599) ≡ pos 27_300
unfolding fahrenheit
rounds = refl

overcast :
    get (get_context (fetch (some frosty)) 7 unreadable unreadable) "is_overcast" ≡ some (bool true)
unfolding get_context fetch get
overcast = refl

-- A failed fetch is a mild, dry and clear day.
mild :
    get (get_context (fetch none) 7 unreadable unreadable) "temperature" ≡ some (num (pos 70_000))
unfolding get_context fetch get
mild = refl

abbrev nowhere : Read
nowhere = found (some (record { is_home = some none; room = none }))

abbrev den : Read
den = found (some (record { is_home = none; room = some " den " }))

-- A stored null is not at home.
null_is_away : get (get_context (fetch none) 7 nowhere nowhere) "is_home" ≡ some (bool false)
unfolding get_context fetch get
null_is_away = refl

get_context-Describes_example :
    (c : Ctx) × (get_context (fetch (some frosty)) 7 nowhere den ≡ to_context c)
    × Describes (some frosty) 7 nowhere den c
get_context-Describes_example = get_context-Describes (some frosty) 7 nowhere den
