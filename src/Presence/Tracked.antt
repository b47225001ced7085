-- ===== src/Presence/Tracked.antt =====
-- Which clients belong to which person, in eero_presence.py. `str.casefold` is a parameter.
use device_weave.Prelude.{
  ℕ, Bool, true, false, not, ◌&&◌, ◌||◌, Option, none, some, List, [], ◌∷◌, ◌++◌, select,
  if◌then◌else◌, leb,
}
use device_weave.Prelude.Text.{String, str_eq, str_lt, str_in, strip_text, codes, codes_eq, lower}
use device_weave.Presence.Data.{Row, Client, Group}

unfoldable pub is_hex : ℕ → Bool
is_hex c = (leb 48 c && leb c 57) || (leb 65 c && leb c 70) || (leb 97 c && leb c 102)

unfoldable pub normalize_mac : String → List ℕ
unfolding is_hex lower
normalize_mac s = lower (select is_hex (codes s))

abbrev pub is_blank : List ℕ → Bool
is_blank [] = true
is_blank (_ ∷ _) = false

unfoldable pub match_is : Row → String → Bool
unfolding lower codes_eq strip_text
match_is r kind = codes_eq (lower (codes (strip_text r.match_kind))) (codes kind)

-- `client.get("last_seen") or ""`
abbrev pub or_empty : Option String → String
or_empty none = ""
or_empty (some s) = s

-- `max` by `last_seen`, of which the first greatest is taken.
unfoldable pub latest_of : {A : Type 0} → (A → Option String) → A → List A → A
unfolding str_lt
latest_of seen best [] = best
latest_of seen best (x ∷ xs) =
    latest_of seen (if str_lt (or_empty (seen best)) (or_empty (seen x)) then x else best) xs

unfoldable pub latest : {A : Type 0} → (A → Option String) → List A → Option A
unfolding latest_of
latest seen [] = none
latest seen (x ∷ xs) = some (latest_of seen x xs)

module _ (casefold : String → String) where
  abbrev pub same_person : String → String → Bool
  same_person a b = str_eq (casefold a) (casefold b)

  -- The guards of `_group_tracked`, on the stripped fields.
  unfoldable pub is_usable : Row → Bool
  unfolding match_is normalize_mac strip_text
  is_usable r =
      not (is_blank (codes (strip_text r.person)))
      && (match_is r "mac" || match_is r "name")
      && not (match_is r "mac" && is_blank (normalize_mac r.mac))
      && not (match_is r "name" && is_blank (codes (strip_text r.name)))

  unfoldable pub add_row : List Group → Row → List Group
  unfolding strip_text
  add_row [] r = record { person = strip_text r.person; devices = r ∷ [] } ∷ []
  add_row (g ∷ gs) r =
      let rest = add_row gs r in
      if same_person g.person (strip_text r.person)
      then record { person = g.person; devices = g.devices ++ (r ∷ []) } ∷ gs
      else g ∷ rest

  unfoldable pub group_onto : List Group → List Row → List Group
  unfolding is_usable add_row
  group_onto gs [] = gs
  group_onto gs (r ∷ rs) = group_onto (if is_usable r then add_row gs r else gs) rs

  unfoldable pub group_tracked : List Row → List Group
  unfolding group_onto
  group_tracked rows = group_onto [] rows

  unfoldable pub row_matches : Row → Client → Bool
  unfolding match_is normalize_mac strip_text codes_eq
  row_matches r c =
      let wanted = normalize_mac r.mac in
      let name = strip_text r.name in
      if match_is r "mac"
      then not (is_blank wanted) && codes_eq wanted c.mac
      else if match_is r "name"
      then not (is_blank (codes (casefold name))) && str_in (casefold name) c.name_keys
      else false

  unfoldable pub found_clients : List Row → List Client → List Client
  unfolding row_matches
  found_clients [] clients = []
  found_clients (r ∷ rs) clients =
      select (λ c. c.connected && row_matches r c) clients ++ found_clients rs clients

  unfoldable pub best_match : List Row → List Client → Option Client
  unfolding found_clients latest
  best_match rows clients = latest (λ c. c.last_seen) (found_clients rows clients)
