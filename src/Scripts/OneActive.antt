-- ===== src/Scripts/OneActive.antt =====
-- At most one key of a drone is active, whatever the scripts and the drones do.
use specter_cloud.Prelude.{
  ℕ, ◌≤◌, ◌≡◌, ◌∙◌, refl, subst, ap, sym, inl, inr, Text, Bool, true, false, ◌&&◌, Option, [], ◌∷◌,
  select, Bool-cases, ◌==◌, ==_iff, length, arith, select-append, length-append,
  length-select-update,
}
use specter_cloud.Platform.{Platform}
use specter_cloud.Models.{Uuid, Datetime, Drone, DroneApiKey}
use specter_cloud.Store.{Db, State, Result, with_session}
use specter_cloud.ApiKey.{generate_api_key, verify_api_key, is_stale, used, parse_key}
use specter_cloud.ApiKey.Verify.{Verdict, rejected, accepted, run, judge, verify_api_key-run}
use specter_cloud.Scripts.Keys.{
  is_active_key, has_prefix, revoked_key, update_keys, KeyDraw, append_key, mint, revoke_by_prefix,
  revoke_by_drone,
}
use specter_cloud.Scripts.Mint.{Mints, refused, minted, mint-Mints}
use specter_cloud.Scripts.Revoke.{
  Revokes, revoked_all, revoke_by_drone-Revokes, revoke_by_prefix_lem,
}

-- A run of a script, or a drone that presents a key.
pub data KeyStep (platform : Platform) (db : Db) : Db → Type 0 where
  mint_key :
      (org_slug drone_slug label : Text) (draw : KeyDraw)
      → KeyStep platform db (with_session (mint platform org_slug drone_slug label draw) db).1
  revoke_prefix :
      (prefix : Text) (now : Datetime)
      → KeyStep platform db (with_session (revoke_by_prefix prefix now) db).1
  revoke_drone :
      (org_slug drone_slug : Text) (now : Datetime)
      → KeyStep platform db (with_session (revoke_by_drone org_slug drone_slug now) db).1
  present :
      (raw : Text) (now : Datetime)
      → KeyStep platform db (with_session (verify_api_key platform raw now) db).1

pub data KeyReach (platform : Platform) (db : Db) : Db → Type 0 where
  start : KeyReach platform db db
  next :
      {mid last : Db}
      → KeyReach platform db mid
      → KeyStep platform mid last
      → KeyReach platform db last

abbrev pub OneActive : Db → Type 0
OneActive db = (drone_id : Uuid) → length (select (is_active_key drone_id) db.drone_api_keys) ≤ 1

-- an update after which no more keys are active
update-OneActive :
    (p : DroneApiKey → Bool) (f : DroneApiKey → DroneApiKey) (db : Db)
    → ((id : Uuid) (k : DroneApiKey) → is_active_key id (f k) ≡ true → is_active_key id k ≡ true)
    → OneActive db
    → OneActive (update_keys p f db)
update-OneActive p f db fewer h id =
    omega (arith, length-select-update p (is_active_key id) f (fewer id) db.drone_api_keys, h id)

length-select_one :
    (p : DroneApiKey → Bool) (key : DroneApiKey)
    → (length (select p (key ∷ [])) ≤ 1) × (p key ≡ false → length (select p (key ∷ [])) ≡ 0)
unfolding select
length-select_one p key = elim (Bool-cases (p key)) [
  | inl pass ↦ (rw pass (omega arith), λ fail. absurd (cc (pass, fail)))
  | inr fail ↦ (rw fail (omega arith), λ _. rw fail refl)
]

-- a new key of a drone that has no active one
append-OneActive :
    (key : DroneApiKey) (db : Db)
    → select (is_active_key key.drone_id) db.drone_api_keys ≡ []
    → OneActive db
    → OneActive (append_key key db)
append-OneActive key db no_active h id =
    let rows = db.drone_api_keys in
    let p = is_active_key id in
    let both = ap length (select-append p rows (key ∷ [])) ∙ length-append (select p rows) _ in
    elim (Bool-cases (key.drone_id == id)) [
      | inl own ↦
          let none_before =
            subst (λ i. select (is_active_key i) rows ≡ []) ((==_iff key.drone_id id).0 own)
              no_active in
          omega (arith, both, ap length none_before, (length-select_one p key).0)
      | inr other ↦ omega (arith, both, h id, (length-select_one p key).1 (rw other refl))
    ]

revoke-fewer :
    (now : Datetime) (id : Uuid) (k : DroneApiKey)
    → is_active_key id (revoked_key now k) ≡ true
    → is_active_key id k ≡ true
revoke-fewer now id k h = absurd (ground arith)

run-OneActive :
    (now : Datetime) (db : Db) (v : Verdict) → OneActive db → OneActive (run now db v).1.committed
run-OneActive now db (rejected reason) h = h
run-OneActive now db (accepted key drone) h =
    update-OneActive (λ k. k.id == key.id && is_stale now k.last_used_at) (used now) db
      (λ id k e. e) h

Mints-OneActive :
    {platform : Platform} {org_slug drone_slug label : Text} {draw : KeyDraw} {db : Db}
    {o : Result Text × State}
    → Mints platform org_slug drone_slug label draw db o
    → OneActive db
    → OneActive o.1.committed
unfolding generate_api_key
Mints-OneActive (refused e r c) h = rw c h
Mints-OneActive {db} (minted drone keyless r c) h = rw c (append-OneActive _ db keyless.no_active h)

Revokes-OneActive :
    {org_slug drone_slug : Text} {now : Datetime} {db : Db} {o : Result ℕ × State}
    → Revokes org_slug drone_slug now db o
    → OneActive db
    → OneActive o.1.committed
Revokes-OneActive (Revokes.refused e r c) h = rw c h
Revokes-OneActive {now} {db} (revoked_all org drone i t o m slug r c) h =
    rw c (update-OneActive (is_active_key drone.id) (revoked_key now) db (revoke-fewer now) h)

KeyStep-OneActive :
    {platform : Platform} {db db' : Db} → KeyStep platform db db' → OneActive db → OneActive db'
unfolding with_session
KeyStep-OneActive {platform} {db} (mint_key org_slug drone_slug label draw) h =
    Mints-OneActive (mint-Mints platform org_slug drone_slug label draw db) h
KeyStep-OneActive {db} (revoke_prefix prefix now) h =
    subst (λ (o : Result ℕ × Db). OneActive o.1) (sym (revoke_by_prefix_lem prefix now db))
      (update-OneActive (has_prefix prefix) (revoked_key now) db (revoke-fewer now) h)
KeyStep-OneActive {db} (revoke_drone org_slug drone_slug now) h =
    Revokes-OneActive (revoke_by_drone-Revokes org_slug drone_slug now db) h
KeyStep-OneActive {platform} {db} (present raw now) h =
    subst (λ (o : Result (Option Drone) × State). OneActive o.1.committed)
      (sym (verify_api_key-run platform raw now db))
      (run-OneActive now db (judge platform raw db (parse_key platform raw)) h)

-- From tables in which every drone has at most one active key, minting, revoking and presenting keys
-- lead to such tables.
pub KeyReach-OneActive :
    {platform : Platform} {db db' : Db} → KeyReach platform db db' → OneActive db → OneActive db'
KeyReach-OneActive start h = h
KeyReach-OneActive (next r s) h = KeyStep-OneActive s (KeyReach-OneActive r h)
