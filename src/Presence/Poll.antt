-- ===== src/Presence/Poll.antt =====
-- One run of the poller, in eero_presence_handler.py: the stored item before and after it. The
-- rooms that `_assign_rooms` and `_apply_schedule` put on the item are left out, and so is a run
-- without a table.
use device_weave.Prelude.{Bool, true, false, Option, none, some, List, [], ◌∷◌, if◌then◌else◌}
use device_weave.Prelude.Int.{ℤ}
use device_weave.Prelude.Text.{String}
use device_weave.Presence.Data.{Row, Client, Home}
use device_weave.Presence.State.{compute_presence, or_home}
use device_weave.Presence.Store.{apply_stale, or_no_home}

-- What a run meets: the reason why it has no clients, if any, or the clients, and whether the
-- write succeeds.
pub record Poll : Type 0 where
  pub trouble : Option String
  pub clients : List Client
  pub now : String
  pub is_written : Bool

-- `bool(item.get("is_home", True))` of the stored item.
abbrev pub reads_home : Option Home → Bool
reads_home o = or_home (or_no_home o).is_home

abbrev pub if_written : Bool → Option Home → Home → Option Home
if_written true previous item = some item
if_written false previous item = previous

unfoldable pub mark_stale : Option Home → String → Poll → Option Home
unfolding apply_stale
mark_stale previous reason p =
    let item = apply_stale previous reason p.now in
    let belted = if reads_home previous then record item { is_home = some true } else item in
    if_written p.is_written previous belted

abbrev pub usable_text : String
usable_text = "tracked eero devices were unusable"

abbrev pub untracked_text : String
untracked_text = "no tracked eero devices configured"

unfoldable pub write_updated : Option Home → Poll → Option Home → Option Home
unfolding mark_stale
write_updated previous p none = mark_stale previous usable_text p
write_updated previous p (some updated) = if_written p.is_written previous updated

module _ (casefold : String → String) (miss_threshold : ℤ) where
  unfoldable pub with_clients : Option Home → Poll → List Row → Option Home
  unfolding mark_stale write_updated compute_presence
  with_clients previous p [] = mark_stale previous untracked_text p
  with_clients previous p (r ∷ rs) =
      write_updated previous p
        (compute_presence casefold previous (r ∷ rs) p.clients miss_threshold p.now)

  unfoldable pub with_trouble : Option Home → Poll → List Row → Option String → Option Home
  unfolding mark_stale with_clients
  with_trouble previous p tracked (some reason) = mark_stale previous reason p
  with_trouble previous p tracked none = with_clients previous p tracked

  unfoldable pub poll : List Row → Option Home → Poll → Option Home
  unfolding with_trouble
  poll tracked previous p = with_trouble previous p tracked p.trouble

  unfoldable pub polls : List Row → Option Home → List Poll → Option Home
  unfolding poll
  polls tracked previous [] = previous
  polls tracked previous (p ∷ ps) = polls tracked (poll tracked previous p) ps
