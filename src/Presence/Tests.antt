-- ===== src/Presence/Tests.antt =====
-- Runs and instances for the poller.
use mathlib.Core.List.{Memᴰ}
use device_weave.Prelude.{◌≡◌, refl, true, false, none, some, List, [], ◌∷◌, arith}
use device_weave.Prelude.Int.{pos}
use device_weave.Prelude.Text.{String, strip_text, lower}
use device_weave.Presence.Data.{Row, Client, Group, Person}
use device_weave.Presence.Tracked.{
  latest, found_clients, group_tracked, best_match, normalize_mac, is_usable,
}
use device_weave.Presence.Poll.{Poll, polls, reads_home}
use device_weave.Presence.Debounce.{departure, person_now, IsMissing}
use device_weave.Presence.Empty.{house_empties}

abbrev plain : String → String
plain s = s

abbrev phone : Row
phone = record { person = " Ana "; match_kind = "MAC"; mac = "AA:BB"; name = "" }

abbrev ana : Group
ana = record { person = "Ana"; devices = phone ∷ [] }

abbrev seen_phone : Client
seen_phone = record {
  mac = 97 ∷ 97 ∷ 98 ∷ 98 ∷ [];
  name_keys = [];
  connected = true;
  zone = some "Kitchen";
  node = some "Kitchen eero";
  signal = none;
  last_seen = some "2026-01-01T10:00:00";
}

abbrev run_with : List Client → Poll
run_with cs = record {
  trouble = none;
  clients = cs;
  now = "2026-01-01T10:00:00";
  is_written = true;
}

abbrev failing_run : Poll
failing_run = record {
  trouble = some "eero poll failed";
  clients = [];
  now = "2026-01-01T10:01:00";
  is_written = true;
}

one_group : group_tracked plain (phone ∷ []) ≡ ana ∷ []
unfolding group_tracked is_usable strip_text normalize_mac lower
one_group = refl

tracked_ana : Memᴰ ana (group_tracked plain (phone ∷ []))
tracked_ana = rw one_group (Memᴰ.head refl)

matched : best_match plain (phone ∷ []) (seen_phone ∷ []) ≡ some seen_phone
unfolding best_match strip_text normalize_mac lower
matched = refl

unmatched : best_match plain (phone ∷ []) [] ≡ none
unfolding best_match
unmatched = refl

nothing-IsMissing : IsMissing plain (pos 2) (phone ∷ []) ana (run_with [] ∷ failing_run ∷ [])
nothing-IsMissing = (λ _. unmatched, (λ h. absurd (cc), tt))

departure_example :
    (q : Person) × (person_now plain
        (pos 2)
        (phone ∷ [])
        (polls plain
          (pos 2)
          (phone ∷ [])
          none
          (run_with (seen_phone ∷ []) ∷ run_with [] ∷ failing_run ∷ []))
        ana
      ≡ some q)
    × (q.is_home ≡ some true)
departure_example =
    departure plain (pos 2) (phone ∷ []) ana none (run_with (seen_phone ∷ []))
      (run_with [] ∷ failing_run ∷ []) seen_phone tracked_ana refl matched nothing-IsMissing

no_clients : (rs : List Row) → found_clients plain rs [] ≡ []
unfolding found_clients
no_clients [] = refl
no_clients (r ∷ rs) = no_clients rs

found_nothing : (rs : List Row) → best_match plain rs [] ≡ none
unfolding best_match latest
found_nothing rs = rw (no_clients rs) refl

twice-IsMissing :
    (x : Group)
    → Memᴰ x (group_tracked plain (phone ∷ []))
    → IsMissing plain (pos 2) (phone ∷ []) x (run_with [] ∷ run_with [] ∷ [])
twice-IsMissing x m = (λ _. found_nothing x.devices, (λ _. found_nothing x.devices, tt))

house_empties_example :
    reads_home (polls plain (pos 2) (phone ∷ []) none (run_with [] ∷ run_with [] ∷ [])) ≡ false
house_empties_example =
    house_empties plain (pos 2) (phone ∷ []) ana none (run_with [] ∷ run_with [] ∷ []) tracked_ana
      twice-IsMissing (omega arith)
