-- ===== src/Presence/Data.antt =====
-- The tracked devices, the clients of the router and the stored presence item. The clients are what
-- `parse_client` makes of them, and `none` is a missing field or an empty text. A `miss_count` is
-- what this code wrote.
use device_weave.Prelude.{ℕ, Bool, Option, List}
use device_weave.Prelude.Text.{String}

-- A row of the tracked devices. A missing field is "".
pub record Row : Type 0 where
  pub person : String
  pub match_kind : String
  pub mac : String
  pub name : String

pub record Client : Type 0 where
  pub mac : List ℕ
  pub name_keys : List String
  pub connected : Bool
  pub zone : Option String
  pub node : Option String
  pub signal : Option String
  pub last_seen : Option String

pub record Group : Type 0 where
  pub person : String
  pub devices : List Row

-- A person of the presence item. `is_home` may be missing in what another writer stored.
pub record Person : Type 0 where
  pub person : String
  pub is_home : Option Bool
  pub zone : Option String
  pub node : Option String
  pub signal : Option String
  pub last_seen : Option String
  pub miss_count : ℕ

-- The `home_state` item. `freshness` is what the last writer found.
pub data Freshness : Type 0 where
  fresh : Freshness
  stale : Freshness

pub record Home : Type 0 where
  pub is_home : Option Bool
  pub updated_at : Option String
  pub zone : Option String
  pub node : Option String
  pub signal : Option String
  pub last_seen : Option String
  pub freshness : Option Freshness
  pub source : Option String
  pub people : List Person
  pub stale_reason : Option String
  pub stale_at : Option String
