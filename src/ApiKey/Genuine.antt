-- ===== src/ApiKey/Genuine.antt =====
-- What the acceptance and the rejection of an API key mean.
use specter_cloud.Prelude.{
  ◌≡◌, ◌∙◌, refl, ap, sym, Text, codes, text_eq→eq, Bool, true, false, Option, none, some, List, [],
  ◌∷◌, ◌++◌, Any, All-at, scalar-some, is_none, if◌then◌else◌, text_eq,
}
use specter_cloud.Platform.{Platform}
use specter_cloud.Models.{Datetime, Drone, DroneApiKey}
use specter_cloud.Store.{Db, ok, open_session, with_session, with_session_lem}
use specter_cloud.ApiKey.{
  key_tag, underscore, hash_key, parse_key, key_rows, match_hash, mark_used, verify_api_key,
}
use specter_cloud.ApiKey.Format.{parse_key-format}
use specter_cloud.ApiKey.Verify.{
  Verdict, rejected, accepted, run, judge_match, judge_rows, judge, IsRow, key_rows-IsRow,
  verify_api_key-run,
}

-- The key's text has the format, and the row `key` is one of the drone, which is active, with the
-- text's prefix and the text's hash, not revoked.
pub record IsGenuine (platform : Platform) (raw : Text) (db : Db) (key : DroneApiKey)
    (drone : Drone) : Type 0 where
  pub secret : Text
  pub format : raw ≡ key_tag ++ key.prefix ++ underscore ∷ secret
  pub parsed : parse_key platform raw ≡ some (key.prefix, secret)
  pub in_keys : Any (λ k. k ≡ key) db.drone_api_keys
  pub in_drones : Any (λ d. d ≡ drone) db.drones
  pub of_drone : drone.id ≡ key.drone_id
  pub same_hash : hash_key platform raw ≡ key.hashed_key
  pub not_revoked : key.revoked_at ≡ none
  pub active : drone.is_active ≡ true

is_none→none : {A : Type 0} (o : Option A) → is_none o ≡ true → o ≡ none
is_none→none none e = refl
is_none→none (some a) e = absurd (cc e)

-- the match that an acceptance rests on
abbrev IsMatch : Option (DroneApiKey × Drone) → DroneApiKey → Drone → Type 0
IsMatch o key drone =
    ◌≡◌ {A = Option (DroneApiKey × Drone)} o (some (key, drone))
    × (key.revoked_at ≡ none)
    × (drone.is_active ≡ true)

judge_match-accepted :
    (o : Option (DroneApiKey × Drone)) (key : DroneApiKey) (drone : Drone)
    → judge_match o ≡ accepted key drone
    → IsMatch o key drone
judge_match-accepted none key drone h = absurd (cc h)
judge_match-accepted (some (k, d)) key drone h =
    by_tests (is_none k.revoked_at) d.is_active refl refl h
  where
    by_tests :
        (unrevoked active : Bool)
        → is_none k.revoked_at ≡ unrevoked
        → d.is_active ≡ active
        → (if unrevoked
            then (if active then accepted k d else rejected (codes "inactive_drone"))
            else rejected (codes "revoked_key"))
          ≡ accepted key drone
        → IsMatch (some (k, d)) key drone
    by_tests true true r a e =
        let same_key : k ≡ key = cc e in
        let same_drone : d ≡ drone = cc e in
        (
          rw (same_key, same_drone) refl,
          ap (λ (x : DroneApiKey). x.revoked_at) (sym same_key) ∙ is_none→none k.revoked_at r,
          ap (λ (x : Drone). x.is_active) (sym same_drone) ∙ a,
        )
    by_tests true false r a e = absurd (cc e)
    by_tests false active r a e = absurd (cc e)

module _ (platform : Platform) (raw : Text) (db : Db) (key : DroneApiKey) (drone : Drone) where
  rows-IsGenuine :
      (prefix secret : Text) (rows : List (DroneApiKey × Drone))
      → parse_key platform raw ≡ some (prefix, secret)
      → key_rows prefix db.drones db.drone_api_keys ≡ rows
      → judge_rows (hash_key platform raw) rows ≡ accepted key drone
      → IsGenuine platform raw db key drone
  unfolding match_hash
  rows-IsGenuine prefix secret [] p e h = absurd (cc h)
  rows-IsGenuine prefix secret (r ∷ rows) p e h =
      let (matched, not_revoked, active) = judge_match-accepted _ key drone h in
      let (same_hash, m) =
        scalar-some (λ x. text_eq (hash_key platform raw) x.0.hashed_key) (r ∷ rows) matched in
      let row : IsRow db prefix (key, drone) =
        All-at (rw e at (key_rows-IsRow db prefix db.drone_api_keys (λ k a. a))) m in
      record {
        secret = secret;
        format =
            (parse_key-format platform raw prefix secret p).0
            ∙ ap (λ t. key_tag ++ t ++ underscore ∷ secret) (sym row.same_prefix);
        parsed = p ∙ ap (λ t. some (t, secret)) (sym row.same_prefix);
        in_keys = row.in_keys;
        in_drones = row.in_drones;
        of_drone = row.of_drone;
        same_hash = text_eq→eq (hash_key platform raw) key.hashed_key same_hash;
        not_revoked = not_revoked;
        active = active;
      }

  judge-IsGenuine :
      (o : Option (Text × Text))
      → parse_key platform raw ≡ o
      → judge platform raw db o ≡ accepted key drone
      → IsGenuine platform raw db key drone
  judge-IsGenuine none p h = absurd (cc h)
  judge-IsGenuine (some (prefix, secret)) p h = rows-IsGenuine prefix secret _ p refl h

run-accepted :
    (now : Datetime) (db : Db) (drone : Drone) (v : Verdict)
    → (run now db v).0 ≡ ok (some drone)
    → (key : DroneApiKey) × (v ≡ accepted key drone)
run-accepted now db drone (rejected reason) h = absurd (cc h)
run-accepted now db drone (accepted key d) h = (key, ap (accepted key) (cc h))

run-rejected :
    (now : Datetime) (db : Db) (v : Verdict)
    → (run now db v).0 ≡ ok none
    → (reason : Text) × (v ≡ rejected reason)
run-rejected now db (rejected reason) h = (reason, refl)
run-rejected now db (accepted key d) h = absurd (cc h)

module _ (platform : Platform) (raw : Text) (now : Datetime) (db : Db) where
  verdict : Verdict
  verdict = judge platform raw db (parse_key platform raw)

  pub verify_api_key-IsGenuine :
      (drone : Drone)
      → (with_session (verify_api_key platform raw now) db).0 ≡ ok (some drone)
      → (key : DroneApiKey) × IsGenuine platform raw db key drone
        × ((with_session (verify_api_key platform raw now) db).1 ≡ mark_used key now db)
  unfolding verdict
  verify_api_key-IsGenuine drone h =
      let e =
        with_session_lem (verify_api_key platform raw now) db
          (verify_api_key-run platform raw now db) in
      let (key, v) = run-accepted now db drone verdict (ap (λ o. o.0) (sym e) ∙ h) in
      (
        key,
        judge-IsGenuine platform raw db key drone _ refl v,
        ap (λ o. o.1) e ∙ ap (λ x. (run now db x).1.committed) v,
      )

  -- A key that is rejected changes no table, and leaves one line in the log, with the reason.
  pub reject_logs :
      (with_session (verify_api_key platform raw now) db).0 ≡ ok none
      → (reason : Text) × (verify_api_key platform raw now (open_session db) ≡ (
        ok none,
        record (open_session db) {
          logs = record { event = codes "auth_failed"; reason = some reason } ∷ [];
        },
      ))
  unfolding verdict
  reject_logs h =
      let e =
        with_session_lem (verify_api_key platform raw now) db
          (verify_api_key-run platform raw now db) in
      let (reason, v) = run-rejected now db verdict (ap (λ o. o.0) (sym e) ∙ h) in
      (reason, verify_api_key-run platform raw now db ∙ ap (run now db) v)
