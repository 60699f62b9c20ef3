-- ===== src/Telemetry/Delivery.antt =====
-- What a stream shows of what the drones send.
use specter_cloud.Prelude.{
  true, false, ◌≡◌, ◌∙◌, refl, ap, sym, inl, inr, Text, codes, text_eq, text_eq_iff, text_eq→eq,
  Bool, ◌&&◌, List, [], ◌∷◌, ◌++◌, Bool-cases, ◌==◌, ==_iff, if◌then◌else◌, length, length-append,
  drop, arith,
}
use mathlib.Core.List.{append_assoc, append-nil}
use specter_cloud.Models.{Uuid}
use specter_cloud.Telemetry.{
  close, unsubscribe, subscribe, PubsubCall, Redis, Reply, returned, lost, late, takes_effect,
  returns, Sample, telemetry_key, store_sample, Message, telemetry_frames, telemetry_generator,
}

-- Whether a connection that made these calls, the first one first, has a subscription to the channel.
abbrev has_subscribed : Bool → List PubsubCall → Text → Bool
has_subscribed before [] channel = before
has_subscribed before (subscribe c ∷ calls) channel =
    has_subscribed (if text_eq channel c then true else before) calls channel
has_subscribed before (unsubscribe c ∷ calls) channel =
    has_subscribed (if text_eq channel c then false else before) calls channel
has_subscribed before (close ∷ calls) channel = has_subscribed false calls channel

-- Redis answers each subscription with a message of its own, which has the number of subscriptions.
abbrev confirmations : List PubsubCall → List Message
confirmations [] = []
confirmations (subscribe c ∷ calls) =
    record { type = codes "subscribe"; content = codes "1" } ∷ confirmations calls
confirmations (unsubscribe c ∷ calls) =
    record { type = codes "unsubscribe"; content = codes "0" } ∷ confirmations calls
confirmations (close ∷ calls) = confirmations calls

-- the messages of what is published on the channels of the connection
abbrev delivered : List (Text × Text) → List PubsubCall → List Message
delivered [] calls = []
delivered ((channel, content) ∷ rest) calls =
    if has_subscribed false calls channel
    then record { type = codes "message"; content = content } ∷ delivered rest calls
    else delivered rest calls

-- what Redis sends a connection, of what is published once it has made these calls
abbrev pub sends : List (Text × Text) → List PubsubCall → List Message
sends published calls = confirmations calls ++ delivered published calls

-- the channel of a drone, and an event of a stream
abbrev pub channel_of : Text → Text
channel_of drone_id = codes "drone:" ++ drone_id ++ codes ":telemetry"

abbrev pub event : Text → Text
event content = codes "data: " ++ content ++ 10 ∷ 10 ∷ []

-- the events of what is published on a channel
abbrev pub events : Text → List (Text × Text) → List Text
events key [] = []
events key ((channel, content) ∷ rest) =
    if text_eq channel key then event content ∷ events key rest else events key rest

-- whether the sample is published
abbrev pub reaches : Sample → Bool
reaches s = returns s.set_reply && takes_effect s.publish_reply

-- the samples of a drone that are published
abbrev pub sent_by : Uuid → List Sample → List Text
sent_by id [] = []
sent_by id (s ∷ samples) =
    if reaches s && s.drone_id == id then event s.json ∷ sent_by id samples else sent_by id samples

abbrev pub store_all : (Uuid → Text) → List Sample → Redis → Redis
store_all str [] r = r
store_all str (s ∷ samples) r = store_all str samples (store_sample str s r)

delivered-events :
    (key : Text) (published : List (Text × Text))
    → telemetry_frames (delivered published (subscribe key ∷ [])) ≡ events key published
unfolding telemetry_frames text_eq
delivered-events key [] = refl
delivered-events key ((channel, content) ∷ rest) = elim (Bool-cases (text_eq channel key)) [
  | inl own ↦ rw own (ap (λ fs. event content ∷ fs) (delivered-events key rest))
  | inr other ↦ rw other (delivered-events key rest)
]

-- A stream subscribes to the channel of its drone, shows what is published there, and ends its subscription.
pub telemetry_generator_lem :
    (drone_id : Text) (published : List (Text × Text))
    → telemetry_generator (sends published) drone_id ≡ (
      events (channel_of drone_id) published,
      subscribe (channel_of drone_id) ∷ unsubscribe (channel_of drone_id) ∷ close ∷ [],
    )
unfolding telemetry_generator telemetry_frames text_eq
telemetry_generator_lem drone_id published =
    ap
      (λ fs. (fs, subscribe (channel_of drone_id) ∷ unsubscribe (channel_of drone_id) ∷ close ∷ []))
      (delivered-events (channel_of drone_id) published)

events-append :
    (key : Text) (xs ys : List (Text × Text))
    → events key (xs ++ ys) ≡ events key xs ++ events key ys
events-append key [] ys = refl
events-append key ((channel, content) ∷ xs) ys = elim (Bool-cases (text_eq channel key)) [
  | inl own ↦ rw own (ap (λ fs. event content ∷ fs) (events-append key xs ys))
  | inr other ↦ rw other (events-append key xs ys)
]

abbrev published_by : (Uuid → Text) → Sample → List (Text × Text)
published_by str s = if reaches s then (telemetry_key str s.drone_id, s.json) ∷ [] else []

store_sample-published :
    (str : Uuid → Text) (s : Sample) (r : Redis)
    → (store_sample str s r).published ≡ r.published ++ published_by str s
unfolding store_sample
store_sample-published str s r = by_replies s.set_reply s.publish_reply
  where
    by_replies :
        (a b : Reply)
        → (store_sample str (record s { set_reply = a; publish_reply = b }) r).published
          ≡ r.published ++ published_by str (record s { set_reply = a; publish_reply = b })
    by_replies returned returned = refl
    by_replies returned lost = sym (append-nil r.published)
    by_replies returned late = refl
    by_replies lost b = sym (append-nil r.published)
    by_replies late b = sym (append-nil r.published)

append_cancel : (a b t : Text) → a ++ t ≡ b ++ t → a ≡ b
append_cancel [] [] t e = refl
append_cancel [] (d ∷ b) t e = absurd (omega (arith, ap length e, length-append b t))
append_cancel (c ∷ a) [] t e = absurd (omega (arith, ap length e, length-append a t))
append_cancel (c ∷ a) (d ∷ b) t e =
    let same : c ≡ d = cc e in
    let rest : a ++ t ≡ b ++ t = cc e in rw same (ap (λ s. d ∷ s) (append_cancel a b t rest))

key_cancel :
    (a b : Text)
    → codes "drone:" ++ a ++ codes ":telemetry" ≡ codes "drone:" ++ b ++ codes ":telemetry"
    → a ≡ b
key_cancel a b e =
    let rest : a ++ codes ":telemetry" ≡ b ++ codes ":telemetry" = ap (drop 6) e in
    append_cancel a b (codes ":telemetry") rest

module _ (str : Uuid → Text)
    (injective : (a b : Uuid) → telemetry_key str a ≡ telemetry_key str b → a ≡ b) (id : Uuid) where
  same_key : (a : Uuid) → text_eq (telemetry_key str a) (telemetry_key str id) ≡ (a == id)
  same_key a = elim (Bool-cases (a == id)) [
    | inl own ↦ (text_eq_iff _ _).1 (ap (telemetry_key str) ((==_iff a id).0 own)) ∙ sym own
    | inr other ↦ elim (Bool-cases (text_eq (telemetry_key str a) (telemetry_key str id))) [
      | inl e ↦ absurd (cc ((==_iff a id).1 (injective a id (text_eq→eq _ _ e)), other))
      | inr e ↦ e ∙ sym other
    ]
  ]

  events_one :
      (s : Sample) (rest : List Sample)
      → events (telemetry_key str id) (published_by str s) ++ sent_by id rest
        ≡ sent_by id (s ∷ rest)
  events_one s rest = elim (Bool-cases (reaches s)) [
    | inl sent ↦ elim (Bool-cases (s.drone_id == id)) [
      | inl own ↦ rw (sent, own, same_key s.drone_id ∙ own) refl
      | inr other ↦ rw (sent, other, same_key s.drone_id ∙ other) refl
    ]
    | inr unsent ↦ rw unsent refl
  ]

events_all :
    (str : Uuid → Text) (id : Uuid) (samples : List Sample) (r : Redis)
    → ((a b : Uuid) → str a ≡ str b → a ≡ b)
    → events (telemetry_key str id) (store_all str samples r).published
      ≡ events (telemetry_key str id) r.published ++ sent_by id samples
events_all str id [] r injective = sym (append-nil (events (telemetry_key str id) r.published))
events_all str id (s ∷ samples) r injective =
    let key = telemetry_key str id in
    let before = events key r.published in
    events_all str id samples (store_sample str s r) injective
    ∙ ap (λ ps. events key ps ++ sent_by id samples) (store_sample-published str s r)
    ∙ ap (λ fs. fs ++ sent_by id samples) (events-append key r.published (published_by str s))
    ∙ append_assoc before (events key (published_by str s)) (sent_by id samples)
    ∙ ap (λ fs. before ++ fs)
        (events_one str (λ a b e. injective a b (key_cancel (str a) (str b) e)) id s samples)

-- With ids that have different texts, a stream of a drone subscribes to the channel of that drone alone. Of the
-- messages that Redis sends it, it shows the events of what was published on that channel before some samples
-- arrive, then the JSON of the samples of that drone that are published, in their order, and nothing else; a sample
-- is published when the first call of Redis returns and the second one reaches the server. At its end it gives up
-- that subscription and closes.
pub stream_delivers :
    (str : Uuid → Text) (id : Uuid) (samples : List Sample) (r : Redis)
    → ((a b : Uuid) → str a ≡ str b → a ≡ b)
    → telemetry_generator (sends (store_all str samples r).published) (str id) ≡ (
      events (channel_of (str id)) r.published ++ sent_by id samples,
      subscribe (channel_of (str id)) ∷ unsubscribe (channel_of (str id)) ∷ close ∷ [],
    )
stream_delivers str id samples r injective =
    telemetry_generator_lem (str id) (store_all str samples r).published
    ∙ ap
        (λ fs.
          (fs, subscribe (channel_of (str id)) ∷ unsubscribe (channel_of (str id)) ∷ close ∷ []))
        (events_all str id samples r injective)
