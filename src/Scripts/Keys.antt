-- ===== src/Scripts/Keys.antt =====
-- scripts/mint_key.py and scripts/revoke_key.py.
use specter_cloud.Prelude.{
  ℕ, Text, text_eq, Bool, not, ◌&&◌, Option, none, some, List, [], ◌∷◌, ◌++◌, select, update, any,
  length, is_none, leb, ◌==◌, if◌then◌else◌,
}
use specter_cloud.Platform.{Platform}
use specter_cloud.Models.{Uuid, Datetime, Org, Drone, DroneApiKey}
use specter_cloud.Store.{
  Db, Action, value_error, integrity_error, data_error, multiple_results_found, pure, raise, query,
  modify, commit, ◌>>=◌, ◌>>◌,
}
use specter_cloud.Sessions.{fail}
use specter_cloud.ApiKey.{generate_api_key}

module _ {A : Type 0} where
  abbrev pub at_most_one : List A → Action (Option A)
  at_most_one [] = pure none
  at_most_one (x ∷ []) = pure (some x)
  at_most_one (x ∷ y ∷ rows) = raise multiple_results_found

  -- `result.scalar_one_or_none()` for the rows that pass the test
  abbrev pub scalar_one_or_none : (A → Bool) → (Db → List A) → Action (Option A)
  scalar_one_or_none p table = query (λ db. select p (table db)) >>= at_most_one

unfoldable pub org_with_slug : Text → Action (Option Org)
org_with_slug org_slug = scalar_one_or_none (λ o. text_eq o.slug org_slug) (λ db. db.orgs)

unfoldable pub drone_with_slug : Uuid → Text → Action (Option Drone)
drone_with_slug org_id drone_slug =
    scalar_one_or_none (λ d. d.org_id == org_id && text_eq d.slug drone_slug) (λ db. db.drones)

abbrev pub is_active_key : Uuid → DroneApiKey → Bool
is_active_key drone_id key = key.drone_id == drone_id && is_none key.revoked_at

-- What the database and `secrets` draw for a new key.
pub record KeyDraw : Type 0 where
  pub id : Uuid
  pub prefix : Text
  pub secret : Text
  pub db_now : Datetime

abbrev pub new_key : Platform → Uuid → Text → KeyDraw → DroneApiKey
new_key platform drone_id label draw =
    let (raw, prefix, hashed_key) = generate_api_key platform draw.prefix draw.secret in
    record {
      id = draw.id;
      drone_id = drone_id;
      prefix = prefix;
      hashed_key = hashed_key;
      label = label;
      created_at = draw.db_now;
      last_used_at = none;
      revoked_at = none;
    }

-- the column limits of `drone_api_keys`
unfoldable pub key_fits : DroneApiKey → Bool
key_fits key =
    leb (length key.prefix) 16 && leb (length key.hashed_key) 64 && leb (length key.label) 80

-- the primary key and the foreign key
unfoldable pub key_refers : Db → DroneApiKey → Bool
unfolding any
key_refers db key =
    not (any (λ k. k.id == key.id) db.drone_api_keys) && any (λ d. d.id == key.drone_id) db.drones

abbrev pub append_key : DroneApiKey → Db → Db
append_key key db = record db { drone_api_keys = db.drone_api_keys ++ key ∷ [] }

abbrev checked_key : DroneApiKey → Bool → Action (Unit {0})
checked_key key accepted =
    if key_fits key
    then (if accepted then modify (append_key key) else fail integrity_error)
    else fail data_error

-- the INSERT, which no autoflush precedes
unfoldable pub insert_key : DroneApiKey → Action (Unit {0})
unfolding key_fits key_refers
insert_key key = query (λ db. key_refers db key) >>= checked_key key

unfoldable pub mint_unless : Platform → Text → KeyDraw → Drone → Option DroneApiKey → Action Text
unfolding generate_api_key insert_key
mint_unless platform label draw drone (some existing) = raise value_error
mint_unless platform label draw drone none =
    let (raw_key, prefix, hashed_key) = generate_api_key platform draw.prefix draw.secret in
    insert_key (new_key platform drone.id label draw) >> commit >> pure raw_key

unfoldable pub mint_for : Platform → Text → KeyDraw → Option Drone → Action Text
unfolding mint_unless
mint_for platform label draw none = raise value_error
mint_for platform label draw (some drone) =
    scalar_one_or_none (is_active_key drone.id) (λ db. db.drone_api_keys)
    >>= mint_unless platform label draw drone

unfoldable pub mint_in : Platform → Text → Text → KeyDraw → Option Org → Action Text
unfolding mint_for drone_with_slug
mint_in platform drone_slug label draw none = raise value_error
mint_in platform drone_slug label draw (some org) =
    drone_with_slug org.id drone_slug >>= mint_for platform label draw

unfoldable pub mint : Platform → Text → Text → Text → KeyDraw → Action Text
unfolding mint_in org_with_slug
mint platform org_slug drone_slug label draw =
    org_with_slug org_slug >>= mint_in platform drone_slug label draw

abbrev pub revoked_key : Datetime → DroneApiKey → DroneApiKey
revoked_key now key = record key { revoked_at = some now }

abbrev pub update_keys : (DroneApiKey → Bool) → (DroneApiKey → DroneApiKey) → Db → Db
update_keys p f db = record db { drone_api_keys = update p f db.drone_api_keys }

-- an UPDATE of the keys that pass the test, its commit, and the number of rows
unfoldable pub revoke_keys : (DroneApiKey → Bool) → Datetime → Action ℕ
revoke_keys p now = query (λ db. length (select p db.drone_api_keys)) >>= λ count.
    modify (update_keys p (revoked_key now)) >> commit >> pure count

abbrev pub has_prefix : Text → DroneApiKey → Bool
has_prefix prefix key = text_eq key.prefix prefix && is_none key.revoked_at

unfoldable pub revoke_by_prefix : Text → Datetime → Action ℕ
unfolding revoke_keys
revoke_by_prefix prefix now = revoke_keys (has_prefix prefix) now

unfoldable pub revoke_for : Datetime → Option Drone → Action ℕ
unfolding revoke_keys
revoke_for now none = raise value_error
revoke_for now (some drone) = revoke_keys (is_active_key drone.id) now

unfoldable pub revoke_in : Text → Datetime → Option Org → Action ℕ
unfolding revoke_for drone_with_slug
revoke_in drone_slug now none = raise value_error
revoke_in drone_slug now (some org) = drone_with_slug org.id drone_slug >>= revoke_for now

unfoldable pub revoke_by_drone : Text → Text → Datetime → Action ℕ
unfolding revoke_in org_with_slug
revoke_by_drone org_slug drone_slug now = org_with_slug org_slug >>= revoke_in drone_slug now
