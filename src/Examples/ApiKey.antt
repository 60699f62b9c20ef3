-- ===== src/Examples/ApiKey.antt =====
-- Examples of API keys.
use specter_cloud.Prelude.{
  ◌≡◌, refl, codes, Text, true, none, some, [], ◌∷◌, strip_prefix, split_once,
}
use specter_cloud.Models.{Drone, DroneApiKey}
use specter_cloud.Store.{Db}
use specter_cloud.ApiKey.{parse_key, int_accepts}
use specter_cloud.Examples.Data.{db, platform}

abbrev pub key_text : Text
key_text = codes "sk_drone_0a1b2c3d_top_secret"

-- `int` takes a sign and `0x` for a part of the number, so that the prefix need not be hexadecimal.
parse_key-sign :
    parse_key platform (codes "sk_drone_+1234567_s") ≡ some (codes "+1234567", codes "s")
unfolding parse_key int_accepts strip_prefix split_once
parse_key-sign = refl

parse_key-0x : parse_key platform (codes "sk_drone_0x12345f_s") ≡ some (codes "0x12345f", codes "s")
unfolding parse_key int_accepts strip_prefix split_once
parse_key-0x = refl

parse_key-other : parse_key platform (codes "sk_drone_0a1b2c3g_s") ≡ none
unfolding parse_key int_accepts strip_prefix split_once
parse_key-other = refl

abbrev pub drone : Drone
drone = record {
  id = 80;
  name = codes "drone";
  slug = codes "drone";
  org_id = 3;
  created_at = 0;
  updated_at = 0;
  is_active = true;
}

abbrev key : DroneApiKey
key = record {
  id = 90;
  drone_id = 80;
  prefix = codes "0a1b2c3d";
  hashed_key = key_text;
  label = codes "key";
  created_at = 0;
  last_used_at = none;
  revoked_at = none;
}

abbrev pub with_key : Db
with_key = record db { drones = drone ∷ []; drone_api_keys = key ∷ [] }
