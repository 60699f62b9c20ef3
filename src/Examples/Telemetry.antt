-- ===== src/Examples/Telemetry.antt =====
-- Examples of telemetry.
use specter_cloud.Prelude.{
  ◌≡◌, ◌≢◌, refl, codes, Text, some, List, [], ◌∷◌, ◌++◌, text_eq, strip_prefix, split_once, scalar,
  select,
}
use specter_cloud.Models.{Uuid, Drone, DroneApiKey}
use specter_cloud.Store.{with_session, commit, refused}
use specter_cloud.ApiKey.{
  get_current_drone, verify_api_key, parse_key, int_accepts, key_rows, match_hash, hash_key,
}
use specter_cloud.ApiKey.Genuine.{IsGenuine}
use specter_cloud.Telemetry.{
  close, unsubscribe, subscribe, Redis, returned, lost, Sample, telemetry_generator,
  ingest_telemetry,
}
use specter_cloud.Telemetry.Delivery.{
  channel_of, events, sends, sent_by, store_all, stream_delivers,
}
use specter_cloud.Telemetry.Ingest.{ingest_isolated}
use specter_cloud.Examples.Data.{platform}
use specter_cloud.Examples.ApiKey.{key_text, with_key}

-- an id as one character
abbrev str : Uuid → Text
str id = id ∷ []

str-injective : (a b : Uuid) → str a ≡ str b → a ≡ b
str-injective a b e = cc e

abbrev empty_redis : Redis
empty_redis = record { values = []; published = [] }

abbrev samples : List Sample
samples =
    record { drone_id = 80; json = codes "a"; set_reply = returned; publish_reply = returned }
    ∷ record { drone_id = 81; json = codes "b"; set_reply = returned; publish_reply = returned }
    ∷ record { drone_id = 80; json = codes "c"; set_reply = lost; publish_reply = returned }
    ∷ []

stream_delivers_example :
    telemetry_generator (sends (store_all str samples empty_redis).published) (str 80) ≡ (
      events (channel_of (str 80)) empty_redis.published ++ sent_by 80 samples,
      subscribe (channel_of (str 80)) ∷ unsubscribe (channel_of (str 80)) ∷ close ∷ [],
    )
stream_delivers_example = stream_delivers str 80 samples empty_redis str-injective

ingest_isolated_example :
    (d : Drone) × (raw : Text) × (some key_text ≡ some raw)
    × (key : DroneApiKey) × IsGenuine platform raw with_key key d
    × ((id : Uuid)
        → id ≢ d.id
        → (telemetry_generator
            (sends
              (ingest_telemetry platform str
                (some key_text)
                (codes "a")
                1000
                returned
                returned
                with_key
                empty_redis).2.published)
            (str id)).0
          ≡ (telemetry_generator (sends empty_redis.published) (str id)).0)
unfolding ingest_telemetry get_current_drone verify_api_key parse_key int_accepts strip_prefix
    split_once key_rows match_hash hash_key with_session commit refused text_eq select scalar
ingest_isolated_example =
    ingest_isolated platform str (some key_text) (codes "a") 1000 returned returned with_key
      empty_redis (codes "ok") str-injective refl
