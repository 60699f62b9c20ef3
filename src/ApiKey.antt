-- ===== src/ApiKey.antt =====
-- app/auth/api_key.py and `get_current_drone` of app/auth/dependencies.py: the API keys of drones.
pub mod Format
pub mod Verify
pub mod Genuine
use specter_cloud.Prelude.{
  ℕ, ◌-◌, ◌*◌, Text, codes, non_empty, text_eq, is_space, strip_prefix, split_once, Bool, true,
  false, not, ◌&&◌, ◌||◌, Option, none, some, List, [], ◌∷◌, ◌++◌, map, select, scalar, update,
  length, is_none, ltb, leb, ◌==◌, if◌then◌else◌,
}
use mathlib.Core.List.{reverse}
use specter_cloud.Platform.{Platform}
use specter_cloud.Models.{Uuid, Datetime, Drone, DroneApiKey}
use specter_cloud.Store.{
  Db, Action, Error, http_exception, pure, raise, query, modify, commit, log_warning, ◌>>=◌, ◌>>◌,
}

abbrev pub key_tag : Text
key_tag = codes "sk_drone_"

abbrev pub prefix_bytes : ℕ
prefix_bytes = 4

abbrev pub last_used_debounce_seconds : ℕ
last_used_debounce_seconds = 60

abbrev pub seconds : ℕ → ℕ
seconds n = n * 1_000_000

-- the character `_`
abbrev pub underscore : ℕ
underscore = 95

unfoldable pub hash_key : Platform → Text → Text
hash_key platform raw = platform.sha256_hex raw

-- `prefix` and `secret` are what `secrets.token_hex` and `secrets.token_urlsafe` return.
unfoldable pub generate_api_key : Platform → Text → Text → Text × Text × Text
generate_api_key platform prefix secret =
    let raw = key_tag ++ prefix ++ underscore ∷ secret in (raw, prefix, hash_key platform raw)

-- a blank to `int`: of ASCII, fewer characters than for `str.strip`
abbrev int_space : ℕ → Bool
int_space c = leb 9 c && leb c 13 || c == 32 || leb 128 c && is_space c

abbrev pub hex_digit : Platform → ℕ → Bool
hex_digit platform c =
    leb 48 c && leb c 57
    || leb 65 c && leb c 70
    || leb 97 c && leb c 102
    || leb 128 c && platform.is_decimal c

unfoldable pub all_digits : Platform → Text → Bool
all_digits platform [] = true
all_digits platform (c ∷ s) = hex_digit platform c && all_digits platform s

unfoldable pub skip_space : Text → Text
unfolding is_space
skip_space [] = []
skip_space (c ∷ s) = if int_space c then skip_space s else c ∷ s

abbrev pub skip_sign : Text → Text
skip_sign [] = []
skip_sign (c ∷ s) = if c == 43 || c == 45 then s else c ∷ s

-- `0x` or `0X`
abbrev pub skip_0x : Text → Text
skip_0x [] = []
skip_0x (c ∷ []) = c ∷ []
skip_0x (c ∷ d ∷ s) = if c == 48 && (d == 120 || d == 88) then s else c ∷ d ∷ s

-- Whether `int(s, 16)` returns, for a string without underscores: blanks around, a sign and `0x` are
-- accepted too.
unfoldable pub int_accepts : Platform → Text → Bool
unfolding all_digits skip_space
int_accepts platform s =
    let digits = skip_0x (skip_sign (reverse (skip_space (reverse (skip_space s))))) in
    non_empty digits && all_digits platform digits

abbrev pub check_shape : Platform → Option (Text × Text) → Option (Text × Text)
check_shape platform none = none
check_shape platform (some (prefix, secret)) =
    if length prefix == prefix_bytes * 2 && non_empty secret
    then (if int_accepts platform prefix then some (prefix, secret) else none)
    else none

abbrev pub split_rest : Option Text → Option (Text × Text)
split_rest none = none
split_rest (some rest) = split_once underscore rest

unfoldable pub parse_key : Platform → Text → Option (Text × Text)
parse_key platform raw = check_shape platform (split_rest (strip_prefix key_tag raw))

-- `JOIN drones ON Drone.id == DroneApiKey.drone_id`
abbrev join_drone : List Drone → DroneApiKey → List (DroneApiKey × Drone)
join_drone drones key = map (λ d. (key, d)) (select (λ d. d.id == key.drone_id) drones)

unfoldable pub key_rows : Text → List Drone → List DroneApiKey → List (DroneApiKey × Drone)
key_rows prefix drones [] = []
key_rows prefix drones (key ∷ keys) =
    (if text_eq key.prefix prefix then join_drone drones key else []) ++ key_rows prefix drones keys

-- the loop over the rows: the first one with the hash
unfoldable pub match_hash : Text → List (DroneApiKey × Drone) → Option (DroneApiKey × Drone)
match_hash hashed_key rows = scalar (λ r. text_eq hashed_key r.0.hashed_key) rows

abbrev pub reject : Text → Action (Option Drone)
reject reason = log_warning (codes "auth_failed") (some reason) >> pure none

-- the WHERE of the debounced update
abbrev pub is_stale : Datetime → Option Datetime → Bool
is_stale now none = true
is_stale now (some t) = ltb t (now - seconds last_used_debounce_seconds)

abbrev pub used : Datetime → DroneApiKey → DroneApiKey
used now key = record key { last_used_at = some now }

abbrev pub mark_used : DroneApiKey → Datetime → Db → Db
mark_used key now db = record db {
  drone_api_keys =
      update (λ k. k.id == key.id && is_stale now k.last_used_at) (used now) db.drone_api_keys;
}

unfoldable pub accept_key : Datetime → DroneApiKey → Drone → Action (Option Drone)
accept_key now key drone = modify (mark_used key now) >> commit >> pure (some drone)

unfoldable pub check_match : Datetime → Option (DroneApiKey × Drone) → Action (Option Drone)
unfolding accept_key
check_match now none = reject (codes "hash_mismatch")
check_match now (some (key, drone)) =
    if is_none key.revoked_at
    then (if drone.is_active then accept_key now key drone else reject (codes "inactive_drone"))
    else reject (codes "revoked_key")

unfoldable pub check_rows : Text → Datetime → List (DroneApiKey × Drone) → Action (Option Drone)
unfolding check_match
check_rows hashed_key now [] = reject (codes "unknown_prefix")
check_rows hashed_key now (r ∷ rows) = check_match now (match_hash hashed_key (r ∷ rows))

unfoldable pub check_parsed :
    Platform → Text → Datetime → Option (Text × Text) → Action (Option Drone)
unfolding check_rows
check_parsed platform raw now none = reject (codes "bad_format")
check_parsed platform raw now (some (prefix, secret)) =
    query (λ db. key_rows prefix db.drones db.drone_api_keys)
    >>= check_rows (hash_key platform raw) now

unfoldable pub verify_api_key : Platform → Text → Datetime → Action (Option Drone)
unfolding check_parsed
verify_api_key platform raw now = check_parsed platform raw now (parse_key platform raw)

abbrev pub known_drone : Option Drone → Action Drone
known_drone none = raise (http_exception 401 (codes "Invalid API Key"))
known_drone (some drone) = pure drone

unfoldable pub get_current_drone : Platform → Option Text → Datetime → Action Drone
get_current_drone platform none now =
    log_warning (codes "missing_api_key") none
    >> raise (http_exception 401 (codes "Missing API Key"))
get_current_drone platform (some x_api_key) now =
    verify_api_key platform x_api_key now >>= known_drone
