-- ===== src/Presence/Store.antt =====
-- The writes of presence_store.py: a manual write, and a poll that could not trust the router.
use device_weave.Prelude.{Bool, Option, none, some, []}
use device_weave.Prelude.Text.{String}
use device_weave.Presence.Data.{Home, Freshness}
use device_weave.Presence.State.{or_home}

abbrev pub no_home : Home
no_home = record {
  is_home = none;
  updated_at = none;
  zone = none;
  node = none;
  signal = none;
  last_seen = none;
  freshness = none;
  source = none;
  people = [];
  stale_reason = none;
  stale_at = none;
}

abbrev pub or_no_home : Option Home → Home
or_no_home none = no_home
or_no_home (some h) = h

unfoldable pub apply_manual : Option Home → Bool → String → Home
apply_manual previous is_home now = record (or_no_home previous) {
  is_home = some is_home;
  updated_at = some now;
  source = some "manual";
  freshness = some Freshness.fresh;
  stale_reason = none;
  stale_at = none;
}

abbrev pub or_eero : Option String → Option String
or_eero none = some "eero"
or_eero (some s) = some s

-- `short` is the reason, which the code cuts to 500 characters.
unfoldable pub apply_stale : Option Home → String → String → Home
apply_stale previous short now = record (or_no_home previous) {
  is_home = some (or_home (or_no_home previous).is_home);
  freshness = some Freshness.stale;
  stale_reason = some short;
  stale_at = some now;
  source = or_eero (or_no_home previous).source;
}
