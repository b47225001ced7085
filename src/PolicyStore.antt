-- ===== src/PolicyStore.antt =====
-- policy_authoring/policy_store.py: the versions of the authored policies. The table is the list of
-- its items, keyed by `rule_id` and `version`. `Io` says which of a call's requests to the table
-- fail; the source catches those of a query or an update, and `put_item` raises. The policy's own parts are its `body`.
pub mod Latest
pub mod Current
mod Tests
use device_weave.Prelude.{
  ℕ, ◌+◌, Bool, true, false, not, ◌&&◌, Option, none, some, List, [], ◌∷◌, map, select,
  if◌then◌else◌, ltb, ◌==◌,
}
use device_weave.Prelude.Text.{String, str_eq}

pub data Status : Type 0 where
  active superseded inactive : Status

pub record Item (Body : Type 0) : Type 0 where
  pub rule_id : String
  pub version : ℕ
  pub device_type : String
  pub body : Body
  pub status : Status

pub record Io : Type 0 where
  pub query_fails : Bool
  pub update_fails : Bool
  pub put_fails : Bool

abbrev pub is_active : Status → Bool
is_active active = true
is_active superseded = false
is_active inactive = false

abbrev pub is_inactive : Status → Bool
is_inactive active = false
is_inactive superseded = false
is_inactive inactive = true

module _ {Body : Type 0} where
  abbrev pub has_key : String → ℕ → Item Body → Bool
  has_key rule_id version i = str_eq i.rule_id rule_id && i.version == version

  -- The higher of two versions, the first where they are equal.
  abbrev pub higher : Item Body → Option (Item Body) → Option (Item Body)
  higher i none = some i
  higher i (some j) = if ltb i.version j.version then some j else some i

  -- The first item of the query in descending order of `version`.
  unfoldable pub latest : List (Item Body) → String → Option (Item Body)
  latest [] rule_id = none
  latest (i ∷ items) rule_id =
      let rest = latest items rule_id in if str_eq i.rule_id rule_id then higher i rest else rest

  unfoldable pub get_latest_policy_version : Io → List (Item Body) → String → Option (Item Body)
  unfolding latest
  get_latest_policy_version io items rule_id = if io.query_fails then none else latest items rule_id

  abbrev pub with_status : Status → Item Body → Item Body
  with_status s i = record {
    rule_id = i.rule_id;
    version = i.version;
    device_type = i.device_type;
    body = i.body;
    status = s;
  }

  abbrev pub restatus : String → ℕ → Status → Item Body → Item Body
  restatus rule_id version s i = if has_key rule_id version i then with_status s i else i

  -- `_set_status`, with the table afterwards.
  unfoldable pub set_status : Io → List (Item Body) → String → ℕ → Status → Bool × List (Item Body)
  set_status io items rule_id version s =
      if io.update_fails then (false, items) else (true, map (restatus rule_id version s) items)

  unfoldable pub put_item : Item Body → List (Item Body) → List (Item Body)
  put_item i items = i ∷ select (λ j. not (has_key i.rule_id i.version j)) items

  abbrev pub next_version : Option (Item Body) → ℕ
  next_version none = 1
  next_version (some i) = i.version + 1

  abbrev pub supersede : Io → List (Item Body) → String → Option (Item Body) → List (Item Body)
  supersede io items rule_id none = items
  supersede io items rule_id (some i) =
      if is_active i.status then (set_status io items rule_id i.version superseded).1 else items

  abbrev pub new_item : String → String → Body → Option (Item Body) → Item Body
  new_item rule_id device_type body existing = record {
    rule_id = rule_id;
    version = next_version existing;
    device_type = device_type;
    body = body;
    status = active;
  }

  -- `save_policy`, with the stored item and the table afterwards.
  -- `none` where `put_item` raises, after the update of the version before.
  unfoldable pub save_policy :
      Io → List (Item Body) → String → String → Body → Option (Item Body) × List (Item Body)
  unfolding get_latest_policy_version set_status put_item
  save_policy io items rule_id device_type body =
      let existing = get_latest_policy_version io items rule_id in
      let item = new_item rule_id device_type body existing in
      let before = supersede io items rule_id existing in
      if io.put_fails then (none, before) else (some item, put_item item before)

  abbrev pub deactivate :
      Io → List (Item Body) → String → Option (Item Body) → Bool × List (Item Body)
  deactivate io items rule_id none = (false, items)
  deactivate io items rule_id (some i) =
      if is_inactive i.status
      then (false, items)
      else set_status io items rule_id i.version inactive

  unfoldable pub deactivate_policy : Io → List (Item Body) → String → Bool × List (Item Body)
  unfolding get_latest_policy_version set_status
  deactivate_policy io items rule_id =
      deactivate io items rule_id (get_latest_policy_version io items rule_id)

  -- `get_item` by the whole key.
  unfoldable pub find_version : List (Item Body) → String → ℕ → Option (Item Body)
  find_version [] rule_id version = none
  find_version (i ∷ items) rule_id version =
      let rest = find_version items rule_id version in
      if has_key rule_id version i then some i else rest

  unfoldable pub get_policy : Io → List (Item Body) → String → Option ℕ → Option (Item Body)
  unfolding find_version get_latest_policy_version
  get_policy io items rule_id none = get_latest_policy_version io items rule_id
  get_policy io items rule_id (some version) =
      if io.query_fails then none else find_version items rule_id version
