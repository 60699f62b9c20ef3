-- ===== src/Scripts/Revoke.antt =====
-- What the revocations return and leave, and which keys are accepted after them.
use specter_cloud.Prelude.{
  ℕ, ◌≡◌, ◌≢◌, ◌∙◌, refl, subst, ap, sym, Text, text_eq, text_eq_iff, text_eq→eq, Bool, true, ◌&&◌,
  Option, none, some, [], select, update, Any, All, All-at, All-update_cases, &&_iff, ◌==◌, ==_iff,
  length,
}
use specter_cloud.Platform.{Platform}
use specter_cloud.Models.{Datetime, Org, Drone, DroneApiKey}
use specter_cloud.Store.{
  Db, State, Error, value_error, multiple_results_found, Result, ok, err, pure, open_session, after,
  commit-clean, with_session, with_session_lem,
}
use specter_cloud.ApiKey.{verify_api_key, parse_key}
use specter_cloud.ApiKey.Genuine.{verify_api_key-IsGenuine}
use specter_cloud.Scripts.Keys.{
  org_with_slug, drone_with_slug, is_active_key, has_prefix, revoked_key, update_keys, revoke_keys,
  revoke_by_prefix, revoke_for, revoke_in, revoke_by_drone,
}
use specter_cloud.Scripts.Mint.{one_or_none, select-one}

revoke_keys_run :
    (p : DroneApiKey → Bool) (now : Datetime) (db : Db)
    → revoke_keys p now (open_session db) ≡ (
      ok (length (select p db.drone_api_keys)),
      open_session (update_keys p (revoked_key now) db),
    )
unfolding revoke_keys
revoke_keys_run p now db =
    ap (λ o. after o (λ _. pure (length (select p db.drone_api_keys))))
      (commit-clean db (update_keys p (revoked_key now) db) [])

pub revoke_by_prefix_lem :
    (prefix : Text) (now : Datetime) (db : Db)
    → with_session (revoke_by_prefix prefix now) db ≡ (
      ok (length (select (has_prefix prefix) db.drone_api_keys)),
      update_keys (has_prefix prefix) (revoked_key now) db,
    )
unfolding revoke_by_prefix
revoke_by_prefix_lem prefix now db =
    with_session_lem (revoke_by_prefix prefix now) db (revoke_keys_run (has_prefix prefix) now db)

module _ (org_slug drone_slug : Text) (now : Datetime) (db : Db) where
  -- How a run of `revoke_by_drone` ends: with an error and the tables as they were, or with the active
  -- keys of a drone revoked.
  pub data Revokes (o : Result ℕ × State) : Type 0 where
    refused : (e : Error) → o.0 ≡ err e → o.1.committed ≡ db → Revokes o
    revoked_all :
        (org : Org) (drone : Drone)
        → Any (λ o. o ≡ org) db.orgs
        → text_eq org.slug org_slug ≡ true
        → drone.org_id ≡ org.id
        → Any (λ d. d ≡ drone) db.drones
        → text_eq drone.slug drone_slug ≡ true
        → o.0 ≡ ok (length (select (is_active_key drone.id) db.drone_api_keys))
        → o.1.committed ≡ update_keys (is_active_key drone.id) (revoked_key now) db
        → Revokes o

  revoke_in-Revokes :
      (org : Org)
      → Any (λ o. o ≡ org) db.orgs × (text_eq org.slug org_slug ≡ true)
      → Revokes (revoke_in drone_slug now (some org) (open_session db))
  unfolding revoke_in revoke_for drone_with_slug
  revoke_in-Revokes org (in_orgs, org_slug_same) =
      let p = λ (d : Drone). d.org_id == org.id && text_eq d.slug drone_slug in
      one_or_none Revokes (select p db.drones) (revoke_for now) (open_session db)
        (λ e. refused value_error refl refl)
        (λ drone e.
          let (m, t) = select-one p db.drones e in
          let run = revoke_keys_run (is_active_key drone.id) now db in
          let (of_org, same_slug) =
            (&&_iff (drone.org_id == org.id) (text_eq drone.slug drone_slug)).0 t in
          revoked_all org drone in_orgs org_slug_same ((==_iff drone.org_id org.id).0 of_org) m
            same_slug (ap (λ o. o.0) run) (ap (λ o. o.1.committed) run))
        (refused multiple_results_found refl refl)

  pub revoke_by_drone-Revokes : Revokes (revoke_by_drone org_slug drone_slug now (open_session db))
  unfolding revoke_by_drone revoke_in org_with_slug
  revoke_by_drone-Revokes =
      let p = λ (o : Org). text_eq o.slug org_slug in
      one_or_none Revokes (select p db.orgs) (revoke_in drone_slug now) (open_session db)
        (λ e. refused value_error refl refl)
        (λ org e. revoke_in-Revokes org (select-one p db.orgs e))
        (refused multiple_results_found refl refl)

-- Every key that the test would find is revoked.
All-revoked :
    {K : DroneApiKey → Type 0} (p : DroneApiKey → Bool) (now : Datetime) (db : Db)
    → ((k : DroneApiKey) → K k → k.revoked_at ≡ none → p k ≡ true)
    → All (λ k. K k → k.revoked_at ≢ none) (update p (revoked_key now) db.drone_api_keys)
All-revoked p now db finds =
    All-update_cases p (revoked_key now) db.drone_api_keys (λ k _ t q e. absurd (cc e))
      (λ k _ f q e. absurd (cc (finds k q e, f)))

first_part : Option (Text × Text) → Text
first_part none = []
first_part (some (prefix, secret)) = prefix

-- On the tables that `revoke_by_prefix` leaves, no text of a key with that prefix is accepted.
pub revoke_by_prefix_final :
    (platform : Platform) (prefix secret raw : Text) (now at : Datetime) (db : Db) (drone : Drone)
    → parse_key platform raw ≡ some (prefix, secret)
    → (with_session
        (verify_api_key platform raw at)
        (with_session (revoke_by_prefix prefix now) db).1).0
      ≢ ok (some drone)
unfolding first_part
revoke_by_prefix_final platform prefix secret raw now at db drone p h =
    let (key, genuine, _) = verify_api_key-IsGenuine platform raw at _ drone h in
    let same_prefix : key.prefix ≡ prefix = ap first_part (sym genuine.parsed ∙ p) in
    let run = revoke_by_prefix_lem prefix now db in
    let none_left =
      subst
        (λ (o : Result ℕ × Db).
          All (λ k. k.prefix ≡ prefix → k.revoked_at ≢ none) o.1.drone_api_keys)
        (sym run)
        (All-revoked (has_prefix prefix) now db
          (λ k e r. rw ((text_eq_iff k.prefix prefix).1 e, r) refl)) in
    All-at none_left genuine.in_keys same_prefix genuine.not_revoked

revoked_for :
    (platform : Platform) (org_slug drone_slug : Text) (now : Datetime) (db : Db) (count : ℕ)
    (o : Result ℕ × State)
    → Revokes org_slug drone_slug now db o
    → o.0 ≡ ok count
    → (org : Org) × Any (λ o. o ≡ org) db.orgs
      × (org.slug ≡ org_slug)
      × (drone : Drone) × Any (λ d. d ≡ drone) db.drones
      × (drone.slug ≡ drone_slug)
      × (drone.org_id ≡ org.id)
      × All (λ k. k.drone_id ≡ drone.id → k.revoked_at ≢ none) o.1.committed.drone_api_keys
revoked_for platform org_slug drone_slug now db count o (refused e r c) h = absurd (cc (r, h))
revoked_for platform org_slug drone_slug now db count o
      (revoked_all org drone in_orgs same_org of_org m slug r c) h =
    (
      org,
      in_orgs,
      text_eq→eq org.slug org_slug same_org,
      drone,
      m,
      text_eq→eq drone.slug drone_slug slug,
      of_org,
      subst (λ (d : Db). All (λ k. k.drone_id ≡ drone.id → k.revoked_at ≢ none) d.drone_api_keys)
          (sym c)
          (All-revoked (is_active_key drone.id) now db
            (λ k e r. rw ((==_iff k.drone_id drone.id).1 e, r) refl)),
    )

-- A successful `revoke_by_drone` is about a drone with the given slug that belongs to an org with the given slug,
-- and on the tables that it leaves no key is accepted for that drone.
pub revoke_by_drone_final :
    (platform : Platform) (org_slug drone_slug : Text) (now : Datetime) (db : Db) (count : ℕ)
    → (with_session (revoke_by_drone org_slug drone_slug now) db).0 ≡ ok count
    → (org : Org) × Any (λ o. o ≡ org) db.orgs
      × (org.slug ≡ org_slug)
      × (drone : Drone) × Any (λ d. d ≡ drone) db.drones
      × (drone.slug ≡ drone_slug)
      × (drone.org_id ≡ org.id)
      × ((raw : Text) (at : Datetime) (found : Drone)
          → (with_session
              (verify_api_key platform raw at)
              (with_session (revoke_by_drone org_slug drone_slug now) db).1).0
            ≡ ok (some found)
          → found.id ≢ drone.id)
unfolding with_session
revoke_by_drone_final platform org_slug drone_slug now db count h =
    let (org, in_orgs, same_org, drone, m, slug, of_org, none_left) =
      revoked_for platform org_slug drone_slug now db count _
        (revoke_by_drone-Revokes org_slug drone_slug now db) h in
    (
      org,
      in_orgs,
      same_org,
      drone,
      m,
      slug,
      of_org,
      λ raw at found accepted same_id.
          let (key, genuine, _) = verify_api_key-IsGenuine platform raw at _ found accepted in
          All-at none_left genuine.in_keys (sym genuine.of_drone ∙ same_id) genuine.not_revoked,
    )
