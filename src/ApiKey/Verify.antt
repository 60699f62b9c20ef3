-- ===== src/ApiKey/Verify.antt =====
-- Which API keys are accepted, what an acceptance changes, and what a rejection logs.
use specter_cloud.Prelude.{
  ◌≡◌, refl, Text, codes, text_eq, text_eq→eq, Bool, true, false, Option, none, some, List, [], ◌∷◌,
  All, nil, Any, All-map, All-select, All-append, All-if, here, there, ==_iff, is_none,
  if◌then◌else◌,
}
use specter_cloud.Platform.{Platform}
use specter_cloud.Models.{Datetime, Drone, DroneApiKey}
use specter_cloud.Store.{
  Db, State, Result, ok, pure, modify, commit, ◌>>◌, open_session, >>=_ok, commit-clean,
}
use specter_cloud.ApiKey.{
  hash_key, parse_key, key_rows, match_hash, reject, mark_used, accept_key, check_match, check_rows,
  check_parsed, verify_api_key,
}

-- How a verification ends: rejected for a reason, or accepted for a key and its drone.
pub data Verdict : Type 0 where
  rejected : Text → Verdict
  accepted : DroneApiKey → Drone → Verdict

-- what a verdict returns and leaves
abbrev pub run : Datetime → Db → Verdict → Result (Option Drone) × State
run now db (rejected reason) = (
  ok none,
  record (open_session db) {
    logs = record { event = codes "auth_failed"; reason = some reason } ∷ [];
  },
)
run now db (accepted key drone) = (ok (some drone), open_session (mark_used key now db))

abbrev pub judge_match : Option (DroneApiKey × Drone) → Verdict
judge_match none = rejected (codes "hash_mismatch")
judge_match (some (key, drone)) =
    if is_none key.revoked_at
    then (if drone.is_active then accepted key drone else rejected (codes "inactive_drone"))
    else rejected (codes "revoked_key")

abbrev pub judge_rows : Text → List (DroneApiKey × Drone) → Verdict
judge_rows hashed_key [] = rejected (codes "unknown_prefix")
judge_rows hashed_key (r ∷ rows) = judge_match (match_hash hashed_key (r ∷ rows))

abbrev pub judge : Platform → Text → Db → Option (Text × Text) → Verdict
judge platform raw db none = rejected (codes "bad_format")
judge platform raw db (some (prefix, secret)) =
    judge_rows (hash_key platform raw) (key_rows prefix db.drones db.drone_api_keys)

accept_key-run :
    (now : Datetime) (key : DroneApiKey) (drone : Drone) (db : Db)
    → accept_key now key drone (open_session db) ≡ run now db (accepted key drone)
unfolding accept_key
accept_key-run now key drone db =
    >>=_ok (modify (mark_used key now) >> commit) (λ _. pure (some drone)) (open_session db)
      (commit-clean db (mark_used key now db) [])

check_match-run :
    (now : Datetime) (o : Option (DroneApiKey × Drone)) (db : Db)
    → check_match now o (open_session db) ≡ run now db (judge_match o)
unfolding check_match
check_match-run now none db = refl
check_match-run now (some (key, drone)) db = by_tests (is_none key.revoked_at) drone.is_active
  where
    by_tests :
        (unrevoked active : Bool)
        → (if unrevoked
              then (if active then accept_key now key drone else reject (codes "inactive_drone"))
              else reject (codes "revoked_key"))
            (open_session db)
          ≡ run now db (
              if unrevoked
              then (if active then accepted key drone else rejected (codes "inactive_drone"))
              else rejected (codes "revoked_key"))
    by_tests true true = accept_key-run now key drone db
    by_tests true false = refl
    by_tests false active = refl

check_rows-run :
    (hashed_key : Text) (now : Datetime) (rows : List (DroneApiKey × Drone)) (db : Db)
    → check_rows hashed_key now rows (open_session db) ≡ run now db (judge_rows hashed_key rows)
unfolding check_rows
check_rows-run hashed_key now [] db = refl
check_rows-run hashed_key now (r ∷ rows) db =
    check_match-run now (match_hash hashed_key (r ∷ rows)) db

check_parsed-run :
    (platform : Platform) (raw : Text) (now : Datetime) (o : Option (Text × Text)) (db : Db)
    → check_parsed platform raw now o (open_session db) ≡ run now db (judge platform raw db o)
unfolding check_parsed
check_parsed-run platform raw now none db = refl
check_parsed-run platform raw now (some (prefix, secret)) db =
    check_rows-run (hash_key platform raw) now (key_rows prefix db.drones db.drone_api_keys) db

pub verify_api_key-run :
    (platform : Platform) (raw : Text) (now : Datetime) (db : Db)
    → verify_api_key platform raw now (open_session db)
      ≡ run now db (judge platform raw db (parse_key platform raw))
unfolding verify_api_key
verify_api_key-run platform raw now db =
    check_parsed-run platform raw now (parse_key platform raw) db

-- a row of the join: a key with the prefix, and its drone
pub record IsRow (db : Db) (prefix : Text) (r : DroneApiKey × Drone) : Type 0 where
  pub in_keys : Any (λ k. k ≡ r.0) db.drone_api_keys
  pub in_drones : Any (λ d. d ≡ r.1) db.drones
  pub of_drone : r.1.id ≡ r.0.drone_id
  pub same_prefix : r.0.prefix ≡ prefix

pub key_rows-IsRow :
    (db : Db) (prefix : Text) (keys : List DroneApiKey)
    → ((k : DroneApiKey) → Any (λ x. x ≡ k) keys → Any (λ x. x ≡ k) db.drone_api_keys)
    → All (IsRow db prefix) (key_rows prefix db.drones keys)
unfolding key_rows
key_rows-IsRow db prefix [] sub = nil
key_rows-IsRow db prefix (key ∷ keys) sub =
    All-append
      (All-if (text_eq key.prefix prefix) (λ t.
        All-map (IsRow db prefix) (λ d. (key, d)) _
          (All-select _ _ db.drones (λ d m e. record {
            in_keys = sub key (here refl);
            in_drones = m;
            of_drone = (==_iff d.id key.drone_id).0 e;
            same_prefix = text_eq→eq key.prefix prefix t;
          }))))
      (key_rows-IsRow db prefix keys (λ k a. sub k (there a)))
