-- ===== src/Policy/Loader.antt =====
-- policy_engine/policy_loader.py: the cache of the active policies by scope class. A clock reading
-- is in milliseconds. A scan of the table is a parameter of each call: `none` when it raises, and
-- else its pages, which hold the rows whose status is active.
pub mod Grouping
use device_weave.Prelude.{
  ℕ, ◌+◌, Bool, true, false, Option, none, some, List, [], ◌∷◌, ◌++◌, if◌then◌else◌, ltb,
}
use device_weave.Prelude.Text.{String, str_eq}
use device_weave.Policy.Data.{Dict, get, Rule}
use device_weave.Policy.DeviceTypes.{canonical_device_type}

-- A row of the table: the top-level `device_type` and the policy.
pub record Row : Type 0 where
  pub filed_under : Option String
  pub rule : Rule

abbrev pub Scan : Type 0
Scan = Option (List (List Row))

pub record Cache : Type 0 where
  pub entries : Dict (List Rule)
  pub expiry : ℕ

abbrev pub ttl : ℕ
ttl = 60000

abbrev pub retry_ttl : ℕ
retry_ttl = 10000

abbrev pub empty_cache : Cache
empty_cache = record { entries = []; expiry = 0 }

-- `new_cache.setdefault(k, []).append(item)`
unfoldable pub append_to : String → Rule → Dict (List Rule) → Dict (List Rule)
append_to k r [] = (k, r ∷ []) ∷ []
append_to k r ((j, rs) ∷ d) =
    let rest = append_to k r d in if str_eq j k then (j, rs ++ r ∷ []) ∷ d else (j, rs) ∷ rest

-- One round of the grouping loop: a row with no device type is left out.
unfoldable pub file_rule : Option String → Rule → Dict (List Rule) → Dict (List Rule)
unfolding append_to
file_rule none r d = d
file_rule (some dt) r d =
    if str_eq dt "" then d else append_to (canonical_device_type (some dt)) r d

unfoldable pub group_rows : List Row → Dict (List Rule) → Dict (List Rule)
unfolding file_rule
group_rows [] d = d
group_rows (row ∷ rows) d = group_rows rows (file_rule row.filed_under row.rule d)

-- `items` after the last page.
unfoldable pub all_pages : List (List Row) → List Row
all_pages [] = []
all_pages (page ∷ pages) = page ++ all_pages pages

unfoldable pub reload : Bool → Scan → ℕ → Cache → Cache
unfolding group_rows all_pages
reload false scan now cache = record { entries = []; expiry = now + ttl }
reload true none now cache = record { entries = cache.entries; expiry = now + retry_ttl }
reload true (some pages) now cache = record {
  entries = group_rows (all_pages pages) [];
  expiry = now + ttl;
}

unfoldable pub ensure_fresh : Bool → Scan → ℕ → Cache → Cache
unfolding reload
ensure_fresh configured scan now cache =
    if ltb now cache.expiry then cache else reload configured scan now cache

abbrev pub or_none : Option (List Rule) → List Rule
or_none none = []
or_none (some rs) = rs

-- `_cache.get(canonical_device_type(device_type), [])`
unfoldable pub cached : Cache → String → List Rule
unfolding get
cached cache device_type = or_none (get cache.entries (canonical_device_type (some device_type)))

-- `get_policies_for_device`, with the cache afterwards.
unfoldable pub get_policies_for_device : Bool → Scan → ℕ → Cache → String → List Rule × Cache
unfolding ensure_fresh cached
get_policies_for_device configured scan now cache device_type =
    let cache' = ensure_fresh configured scan now cache in (cached cache' device_type, cache')

unfoldable pub invalidate : Cache → Cache
invalidate cache = record { entries = cache.entries; expiry = 0 }
