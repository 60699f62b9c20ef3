-- ===== src/Scripts/Commands/Minting.antt =====
-- What a key that mint_key.py prints is good for.
use specter_cloud.Prelude.{
  subst, ◌*◌, ◌≡◌, ◌≢◌, ◌∙◌, ap, sym, Text, text_eq, text_eq→eq, non_empty, true, Option, none,
  some, Any, All, &&_iff, ◌==◌, ==_iff, length,
}
use specter_cloud.Platform.{Platform}
use specter_cloud.Models.{Datetime, Org, Drone}
use specter_cloud.Store.{Db, Result, State, ok, with_session, open_session}
use specter_cloud.ApiKey.{generate_api_key, verify_api_key, hash_key, prefix_bytes}
use specter_cloud.Scripts.Keys.{KeyDraw, new_key, append_key, mint}
use specter_cloud.Scripts.Mint.{Mints, refused, minted, mint-Mints}
use specter_cloud.Scripts.MintVerify.{minted-accepted, IsKeyed}
use specter_cloud.ApiKey.Format.{IsHex}
use specter_cloud.Scripts.Commands.Printing.{print_result-printed, print_result-tables}
use specter_cloud.Scripts.Commands.{printed, MintArgs, mint_given, mint_main}

-- The key is accepted, on the tables `after`, for a drone that had the slugs before.
pub record IsIssued (platform : Platform) (org_slug drone_slug : Option Text) (raw : Text)
    (db after : Db) : Type 0 where
  pub org : Org
  pub drone : Drone
  pub in_orgs : Any (λ o. o ≡ org) db.orgs
  pub in_drones : Any (λ d. d ≡ drone) db.drones
  pub org_given : org_slug ≡ some org.slug
  pub drone_given : drone_slug ≡ some drone.slug
  pub of_org : drone.org_id ≡ org.id
  pub accepted :
      drone.is_active ≡ true
      → (at : Datetime) → (with_session (verify_api_key platform raw at) after).0 ≡ ok (some drone)

module _ (platform : Platform) (draw : KeyDraw) (db : Db) (hex : IsHex draw.prefix)
    (digits : length draw.prefix ≡ prefix_bytes * 2) (secret : non_empty draw.secret ≡ true)
    (keyed : IsKeyed db.drones) where
  Mints-IsIssued :
      (org_slug drone_slug label raw : Text) {o : Result Text × State}
      → All (λ k. k.hashed_key ≢ hash_key platform raw) db.drone_api_keys
      → Mints platform org_slug drone_slug label draw db o
      → o.0 ≡ ok raw
      → IsIssued platform (some org_slug) (some drone_slug) raw db o.1.committed
  unfolding with_session
  Mints-IsIssued org_slug drone_slug label raw fresh (refused e r c) h = absurd (cc (r, h))
  Mints-IsIssued org_slug drone_slug label raw fresh (minted drone keyless r c) h =
      let same_raw : (generate_api_key platform draw.prefix draw.secret).0 ≡ raw = cc (r, h) in
      let (same_org, same_slug) =
        (&&_iff (drone.org_id == keyless.org.id) (text_eq drone.slug drone_slug)).0
          keyless.of_org in
      record {
        org = keyless.org;
        drone = drone;
        in_orgs = keyless.in_orgs;
        in_drones = keyless.in_drones;
        org_given = ap some (sym (text_eq→eq keyless.org.slug org_slug keyless.org_slug_same));
        drone_given = ap some (sym (text_eq→eq drone.slug drone_slug same_slug));
        of_org = (==_iff drone.org_id keyless.org.id).0 same_org;
        accepted = λ active at.
            ap (λ d. (verify_api_key platform raw at (open_session d)).0) c
            ∙ ap
                (λ t.
                  (verify_api_key platform t at
                    (open_session (append_key (new_key platform drone.id label draw) db))).0)
                (sym same_raw)
            ∙ minted-accepted platform label draw db drone at hex digits secret keyed
                keyless.in_drones (rw (sym same_raw) at fresh) active;
      }

  issued :
      (org_slug drone_slug label raw : Text)
      → let o = with_session (mint platform org_slug drone_slug label draw) db in
        All (λ k. k.hashed_key ≢ hash_key platform raw) db.drone_api_keys
        → o.0 ≡ ok raw
        → IsIssued platform (some org_slug) (some drone_slug) raw db o.1
  unfolding with_session
  issued org_slug drone_slug label raw fresh h =
      Mints-IsIssued org_slug drone_slug label raw fresh
        (mint-Mints platform org_slug drone_slug label draw db) h

  mint_given-IsIssued :
      (org_slug drone_slug label : Option Text) (raw : Text)
      → All (λ k. k.hashed_key ≢ hash_key platform raw) db.drone_api_keys
      → (mint_given platform draw db org_slug drone_slug label).0 ≡ printed raw
      → IsIssued platform org_slug drone_slug raw db
          (mint_given platform draw db org_slug drone_slug label).1
  mint_given-IsIssued none o l raw fresh h = cc
  mint_given-IsIssued (some org_slug) none l raw fresh h = cc
  mint_given-IsIssued (some org_slug) (some drone_slug) none raw fresh h = cc
  mint_given-IsIssued (some org_slug) (some drone_slug) (some label) raw fresh h =
      let o = with_session (mint platform org_slug drone_slug label draw) db in
      subst (IsIssued platform (some org_slug) (some drone_slug) raw db)
        (sym (print_result-tables o))
        (issued org_slug drone_slug label raw fresh (print_result-printed o h))

  -- If mint_key.py prints a key, then it was given the slugs of an org and of one of its drones, and the key is
  -- accepted for that drone, if it is active, whenever it is presented to the tables that the command leaves:
  -- if `token_hex` draws eight hexadecimal digits, the drawn secret is not empty, the ids of the drones are
  -- unique and no earlier key has the hash.
  pub mint_main-IsIssued :
      (args : MintArgs) (raw : Text)
      → All (λ k. k.hashed_key ≢ hash_key platform raw) db.drone_api_keys
      → (mint_main platform args draw db).0 ≡ printed raw
      → IsIssued platform args.org_slug args.drone_slug raw db (mint_main platform args draw db).1
  unfolding mint_main
  mint_main-IsIssued args raw fresh h =
      mint_given-IsIssued args.org_slug args.drone_slug args.label raw fresh h
