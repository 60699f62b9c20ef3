-- ===== src/Telemetry.antt =====
-- app/schemas/telemetry.py, app/api/v1/ingest.py and app/api/v1/stream.py.
pub mod Delivery
pub mod Ingest
use specter_cloud.Prelude.{
  ℕ, Text, codes, text_eq, Bool, true, false, ◌&&◌, ◌||◌, Option, none, some, List, [], ◌∷◌, ◌++◌,
  length, leb, ltb, ◌==◌, if◌then◌else◌,
}
use specter_cloud.Platform.{Platform}
use specter_cloud.Models.{Uuid, Datetime, Drone}
use specter_cloud.Store.{Db, Result, ok, err, with_session}
use specter_cloud.ApiKey.{get_current_drone}

-- Python's floats: the whole numbers among them and their order
pub record Doubles : Type 1 where
  pub Double : Type 0
  pub whole : ℕ → Double
  pub minus : ℕ → Double
  pub le : Double → Double → Bool

-- a Python integer
pub data Integer : Type 0 where
  nonnegative : ℕ → Integer
  negative : ℕ → Integer

module _ (doubles : Doubles) where
  pub record TelemetryPayload : Type 0 where
    pub lat : doubles.Double
    pub lon : doubles.Double
    pub alt : doubles.Double
    pub speed : doubles.Double
    pub heading : Integer
    pub battery : doubles.Double
    pub voltage : doubles.Double
    pub armed : Bool
    pub flight_mode : Text
    pub gps_fix_type : Integer
    pub satellites : Integer

  abbrev between : doubles.Double → doubles.Double → doubles.Double → Bool
  between low high x = doubles.le low x && doubles.le x high

  -- a number from 0 to `high`
  abbrev up_to : ℕ → doubles.Double → Bool
  up_to high x = between (doubles.whole 0) (doubles.whole high) x

  abbrev at_most : ℕ → Integer → Bool
  at_most high (nonnegative n) = leb n high
  at_most high (negative n) = false

  -- `[A-Z0-9_]`
  abbrev mode_character : ℕ → Bool
  mode_character c = leb 65 c && leb c 90 || leb 48 c && leb c 57 || c == 95

  unfoldable pub all_mode_characters : Text → Bool
  all_mode_characters [] = true
  all_mode_characters (c ∷ s) = mode_character c && all_mode_characters s

  -- the constraints of the fields
  unfoldable pub valid_payload : TelemetryPayload → Bool
  unfolding all_mode_characters
  valid_payload p =
      between (doubles.minus 90) (doubles.whole 90) p.lat
      && between (doubles.minus 180) (doubles.whole 180) p.lon
      && between (doubles.minus 1000) (doubles.whole 10_000) p.alt
      && up_to 200 p.speed
      && at_most 359 p.heading
      && up_to 100 p.battery
      && up_to 60 p.voltage
      && leb 1 (length p.flight_mode)
      && leb (length p.flight_mode) 32
      && all_mode_characters p.flight_mode
      && at_most 8 p.gps_fix_type
      && at_most 64 p.satellites

-- Redis as the program sees it: the last value of each key first, and what was published, the oldest first
pub record Redis : Type 0 where
  pub values : List (Text × Text)
  pub published : List (Text × Text)

-- How a call of Redis ends: it returns, or it raises before or after the server has done its work.
pub data Reply : Type 0 where
  returned lost late : Reply

abbrev pub takes_effect : Reply → Bool
takes_effect returned = true
takes_effect lost = false
takes_effect late = true

abbrev pub returns : Reply → Bool
returns returned = true
returns lost = false
returns late = false

abbrev pub set_value : Text → Text → Reply → Redis → Redis
set_value key content reply r =
    if takes_effect reply then record r { values = (key, content) ∷ r.values } else r

abbrev pub publish : Text → Text → Reply → Redis → Redis
publish key content reply r =
    if takes_effect reply then record r { published = r.published ++ (key, content) ∷ [] } else r

abbrev pub telemetry_channel : Text → Text
telemetry_channel drone_id = codes "drone:" ++ drone_id ++ codes ":telemetry"

-- `str` is `str` of a UUID.
abbrev pub telemetry_key : (Uuid → Text) → Uuid → Text
telemetry_key str drone_id = telemetry_channel (str drone_id)

-- One request of a drone: its id, the JSON of its payload, and how the two calls of Redis end.
pub record Sample : Type 0 where
  pub drone_id : Uuid
  pub json : Text
  pub set_reply : Reply
  pub publish_reply : Reply

-- the two calls; an exception of the first one skips the second
unfoldable pub store_sample : (Uuid → Text) → Sample → Redis → Redis
store_sample str s r =
    let key = telemetry_key str s.drone_id in
    let stored = set_value key s.json s.set_reply r in
    if returns s.set_reply then publish key s.json s.publish_reply stored else stored

-- what the handler answers, whatever Redis does: the status of {"status": "ok"}
abbrev pub ingest_answer : Result Drone → Result Text
ingest_answer (ok drone) = ok (codes "ok")
ingest_answer (err e) = err e

abbrev pub after_request : (Uuid → Text) → Text → Reply → Reply → Redis → Result Drone → Redis
after_request str json set_reply publish_reply r (ok drone) =
    store_sample str
      (record {
        drone_id = drone.id;
        json = json;
        set_reply = set_reply;
        publish_reply = publish_reply;
      })
      r
after_request str json set_reply publish_reply r (err e) = r

-- the handler, for a payload that FastAPI has validated and the JSON of it
unfoldable pub ingest_telemetry :
    Platform
    → (Uuid → Text)
    → Option Text
    → Text
    → Datetime
    → Reply
    → Reply
    → Db
    → Redis
    → Result Text × Db × Redis
unfolding store_sample
ingest_telemetry platform str x_api_key json now set_reply publish_reply db r =
    let o = with_session (get_current_drone platform x_api_key now) db in
    (ingest_answer o.0, o.1, after_request str json set_reply publish_reply r o.0)

-- what `pubsub.listen()` yields
pub record Message : Type 0 where
  pub type : Text
  pub content : Text

abbrev pub frame : Text → Text
frame content = codes "data: " ++ content ++ 10 ∷ 10 ∷ []

-- the loop of `telemetry_generator`
unfoldable pub telemetry_frames : List Message → List Text
telemetry_frames [] = []
telemetry_frames (m ∷ messages) =
    if text_eq m.type (codes "message")
    then frame m.content ∷ telemetry_frames messages
    else telemetry_frames messages

pub data PubsubCall : Type 0 where
  subscribe unsubscribe : Text → PubsubCall
  close : PubsubCall

-- What a client is sent that leaves after these messages, and the calls of its subscription; `listen` says which
-- messages `pubsub.listen()` yields after the calls made so far. The last two calls are those of the `finally`.
unfoldable pub telemetry_generator :
    (List PubsubCall → List Message) → Text → List Text × List PubsubCall
unfolding telemetry_frames
telemetry_generator listen drone_id =
    let key = telemetry_channel drone_id in
    let calls = subscribe key ∷ [] in
    (telemetry_frames (listen calls), calls ++ unsubscribe key ∷ close ∷ [])
