-- ===== src/Policy/DeviceTypes.antt =====
-- policy_engine/device_types.py: one vocabulary for policy scopes and adapter routing keys.
use device_weave.Prelude.{ℕ, Option, none, some, List, [], ◌∷◌, if◌then◌else◌}
use device_weave.Prelude.Text.{String, str_in, codes, codes_eq, strip, lower}
use device_weave.Policy.Data.{Dict, get}

abbrev pub policy_scope_types : List String
policy_scope_types =
    "fan" ∷ "light" ∷ "ac" ∷ "plug" ∷ "heater" ∷ "switch" ∷ "curtain" ∷ "lock" ∷ "camera"
    ∷ "doorbell" ∷ "garage_door" ∷ "sensor" ∷ "thermostat" ∷ []

abbrev pub adapter_type_to_scope : Dict String
adapter_type_to_scope =
    ("SmartPlug", "plug")
    ∷ ("SmartBulb", "light")
    ∷ ("SwitchBotBulb", "light")
    ∷ ("SwitchBotPlug", "plug")
    ∷ ("SwitchBotFan", "fan")
    ∷ ("SwitchBotSwitch", "switch")
    ∷ ("SwitchBotCurtain", "curtain")
    ∷ ("GoveeBulb", "light")
    ∷ ("GoveePlug", "plug")
    ∷ ("RingDoorbell", "doorbell")
    ∷ ("RingCamera", "camera")
    ∷ ("RingLight", "light")
    ∷ ("MyQGarageDoor", "garage_door")
    ∷ ("MyQLamp", "light")
    ∷ ("WyzeBulb", "light")
    ∷ ("WyzePlug", "plug")
    ∷ ("WyzeSwitch", "switch")
    ∷ ("WyzeCamera", "camera")
    ∷ ("WyzeLock", "lock")
    ∷ ("WyzeMotionSensor", "sensor")
    ∷ ("WyzeContactSensor", "sensor")
    ∷ ("WyzeThermostat", "thermostat")
    ∷ []

-- `key` in a list of names, as code points; the answer is the name itself.
unfoldable pub find_name : List ℕ → List String → Option String
unfolding codes_eq
find_name key [] = none
find_name key (n ∷ ns) = if codes_eq (codes n) key then some n else find_name key ns

-- `_LOWER_ADAPTER.get(key)`
unfoldable pub find_lower : List ℕ → Dict String → Option String
unfolding codes_eq lower
find_lower key [] = none
find_lower key ((k, v) ∷ d) = if codes_eq (lower (codes k)) key then some v else find_lower key d

unfoldable pub by_key : String → List ℕ → String
unfolding find_name find_lower
by_key device_type key = elim (find_name key policy_scope_types) [
  | some scope ↦ scope
  | none ↦ elim (find_lower key adapter_type_to_scope) [ some v ↦ v | none ↦ device_type ]
]

unfoldable pub canonical : String → String
unfolding get by_key strip lower
canonical device_type =
    if str_in device_type policy_scope_types
    then device_type
    else elim (get adapter_type_to_scope device_type) [
      | some mapped ↦ mapped
      | none ↦ by_key device_type (lower (strip (codes device_type)))
    ]

unfoldable pub canonical_device_type : Option String → String
unfolding canonical
canonical_device_type none = ""
canonical_device_type (some device_type) = canonical device_type
