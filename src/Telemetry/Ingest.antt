-- ===== src/Telemetry/Ingest.antt =====
-- What a request of `POST /api/v1/ingest/telemetry` may change.
use specter_cloud.Prelude.{
  ◌≡◌, ◌≢◌, ◌∙◌, refl, ap, sym, inl, inr, Text, false, Option, none, some, [], ◌∷◌, ◌++◌,
  Bool-cases, ◌==◌, ==_iff,
}
use mathlib.Core.List.{append-nil}
use specter_cloud.Platform.{Platform}
use specter_cloud.Models.{Uuid, Datetime, Drone, DroneApiKey}
use specter_cloud.Store.{Db, State, Result, ok, err, with_session, open_session, after}
use specter_cloud.ApiKey.{get_current_drone, known_drone, verify_api_key}
use specter_cloud.ApiKey.Genuine.{IsGenuine, verify_api_key-IsGenuine}
use specter_cloud.Telemetry.{
  Redis, Reply, Sample, telemetry_generator, ingest_telemetry, ingest_answer, after_request,
}
use specter_cloud.Telemetry.Delivery.{
  telemetry_generator_lem, channel_of, events, sends, sent_by, reaches, stream_delivers,
}

known_drone-ok :
    (o : Result (Option Drone) × State) (drone : Drone)
    → (after o known_drone).0 ≡ ok drone
    → o.0 ≡ ok (some drone)
known_drone-ok (ok none, s) drone h = absurd (cc h)
known_drone-ok (ok (some d), s) drone h = ap (λ (r : Result Drone). some_of r) h
  where
    some_of : Result Drone → Result (Option Drone)
    some_of (ok d) = ok (some d)
    some_of (err e) = err e
known_drone-ok (err e, s) drone h = absurd (cc h)

-- The drone that a request stands for has a genuine key, that of the header.
get_current_drone-IsGenuine :
    (platform : Platform) (x_api_key : Option Text) (now : Datetime) (db : Db) (drone : Drone)
    → (with_session (get_current_drone platform x_api_key now) db).0 ≡ ok drone
    → (raw : Text) × (x_api_key ≡ some raw)
      × (key : DroneApiKey) × IsGenuine platform raw db key drone
unfolding get_current_drone with_session
get_current_drone-IsGenuine platform none now db drone h = absurd (cc h)
get_current_drone-IsGenuine platform (some raw) now db drone h =
    let (key, genuine, _) =
      verify_api_key-IsGenuine platform raw now db drone
        (known_drone-ok (verify_api_key platform raw now (open_session db)) drone h) in
    (raw, refl, key, genuine)

not_own : (id : Uuid) (s : Sample) → (s.drone_id == id) ≡ false → sent_by id (s ∷ []) ≡ []
not_own id s other = elim (Bool-cases (reaches s)) [
  | inl sent ↦ rw (sent, other) refl
  | inr unsent ↦ rw unsent refl
]

-- With ids that have different texts, a request that is answered without an error, however the calls of Redis end,
-- has the genuine key of a drone, and changes nothing that the stream of another drone shows of what Redis sends it.
pub ingest_isolated :
    (platform : Platform) (str : Uuid → Text) (x_api_key : Option Text) (json : Text)
    (now : Datetime) (set_reply publish_reply : Reply) (db : Db) (r : Redis) (status : Text)
    → ((a b : Uuid) → str a ≡ str b → a ≡ b)
    → (ingest_telemetry platform str x_api_key json now set_reply publish_reply db r).0 ≡ ok status
    → (drone : Drone) × (raw : Text) × (x_api_key ≡ some raw)
      × (key : DroneApiKey) × IsGenuine platform raw db key drone
      × ((id : Uuid)
          → id ≢ drone.id
          → (telemetry_generator
              (sends
                (ingest_telemetry platform str x_api_key json now set_reply publish_reply db
                  r).2.published)
              (str id)).0
            ≡ (telemetry_generator (sends r.published) (str id)).0)
unfolding ingest_telemetry
ingest_isolated platform str x_api_key json now set_reply publish_reply db r status injective h =
    by_drone (with_session (get_current_drone platform x_api_key now) db).0 refl h
  where
    by_drone :
        (o : Result Drone)
        → (with_session (get_current_drone platform x_api_key now) db).0 ≡ o
        → ingest_answer o ≡ ok status
        → (drone : Drone) × (raw : Text) × (x_api_key ≡ some raw)
          × (key : DroneApiKey) × IsGenuine platform raw db key drone
          × ((id : Uuid)
              → id ≢ drone.id
              → (telemetry_generator
                  (sends
                    (after_request str json set_reply publish_reply r
                      (with_session (get_current_drone platform x_api_key now) db).0).published)
                  (str id)).0
                ≡ (telemetry_generator (sends r.published) (str id)).0)
    by_drone (err e) same k = absurd (cc k)
    by_drone (ok drone) same k =
        let (raw, header, key, genuine) =
          get_current_drone-IsGenuine platform x_api_key now db drone same in
        let s : Sample = record {
          drone_id = drone.id;
          json = json;
          set_reply = set_reply;
          publish_reply = publish_reply;
        } in
        (
          drone,
          raw,
          header,
          key,
          genuine,
          λ id other.
              let before = events (channel_of (str id)) r.published in
              ap
                (λ o.
                  (telemetry_generator
                    (sends (after_request str json set_reply publish_reply r o).published)
                    (str id)).0)
                same
              ∙ ap (λ o. o.0) (stream_delivers str id (s ∷ []) r injective)
              ∙ ap (λ fs. before ++ fs)
                  (not_own id s (elim (Bool-cases (drone.id == id)) [
                    | inl own ↦ absurd (other (sym ((==_iff drone.id id).0 own)))
                    | inr apart ↦ apart
                  ]))
              ∙ append-nil before
              ∙ sym (ap (λ o. o.0) (telemetry_generator_lem (str id) r.published)),
        )
