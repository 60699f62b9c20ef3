-- ===== src/Scripts/Commands/Prints.antt =====
-- When mint_key.py prints a key.
use specter_cloud.Prelude.{
  ◌≡◌, ◌≢◌, ◌∙◌, refl, ap, Text, text_eq, true, false, ◌&&◌, some, [], ◌∷◌, All, All-map_fun, Any,
  any-none, any-true, select, Bool-cases, inl, inr, ◌==◌, ==_iff, ==_refl,
}
use specter_cloud.Platform.{Platform}
use specter_cloud.Models.{Org, Drone, DroneApiKey}
use specter_cloud.Store.{
  Db, ok, after, pure, commit, commit-clean, open_session, with_session, ◌>>◌,
}
use specter_cloud.ApiKey.{generate_api_key}
use specter_cloud.Scripts.Keys.{
  at_most_one, org_with_slug, drone_with_slug, is_active_key, KeyDraw, new_key, key_fits,
  key_refers, append_key, insert_key, mint_unless, mint_for, mint_in, mint,
}
use specter_cloud.Scripts.Mint.{select-one}
use specter_cloud.Scripts.Commands.{mint_main, printed, print_result}

module _ (platform : Platform) (org_slug drone_slug label : Text) (draw : KeyDraw) (db : Db)
    (org : Org) (drone : Drone) where
  abbrev key : DroneApiKey
  key = new_key platform drone.id label draw

  abbrev raw_key : Text
  raw_key = (generate_api_key platform draw.prefix draw.secret).0

  key_refers-fresh :
      Any (λ d. d ≡ drone) db.drones
      → All (λ k. k.id ≢ draw.id) db.drone_api_keys
      → key_refers db key ≡ true
  unfolding key_refers
  key_refers-fresh m fresh =
      rw
        (
          any-none (λ (k : DroneApiKey). k.id == draw.id) (All-map_fun (λ k a. differs k a) fresh),
          any-true (λ (d : Drone). d.id == drone.id) m (==_refl drone.id),
        )
        refl
    where
      differs : (k : DroneApiKey) → k.id ≢ draw.id → (k.id == draw.id) ≡ false
      differs k a = elim (Bool-cases (k.id == draw.id)) [
        | inl same ↦ absurd (a ((==_iff k.id draw.id).0 same))
        | inr other ↦ other
      ]

  insert_run :
      key_fits key ≡ true
      → key_refers db key ≡ true
      → (insert_key key >> commit >> pure raw_key) (open_session db)
        ≡ (ok raw_key, open_session (append_key key db))
  unfolding insert_key
  insert_run short accepted =
      rw (short, accepted)
        (ap (λ o. after o (λ _. pure raw_key)) (commit-clean db (append_key key db) []))

  -- Given the slugs of one org and of one drone of it that has no active key, and a label, mint_key.py prints the
  -- key that it draws and adds it to the tables, if the key fits its columns and its id is not taken.
  pub mint_main_prints :
      select (λ o. text_eq o.slug org_slug) db.orgs ≡ org ∷ []
      → select (λ d. d.org_id == org.id && text_eq d.slug drone_slug) db.drones ≡ drone ∷ []
      → select (is_active_key drone.id) db.drone_api_keys ≡ []
      → key_fits (new_key platform drone.id label draw) ≡ true
      → All (λ k. k.id ≢ draw.id) db.drone_api_keys
      → mint_main platform
          (record { org_slug = some org_slug; drone_slug = some drone_slug; label = some label })
          draw
          db
        ≡ (
          printed (generate_api_key platform draw.prefix draw.secret).0,
          append_key (new_key platform drone.id label draw) db,
        )
  unfolding mint_main mint mint_in mint_for mint_unless org_with_slug drone_with_slug with_session
  mint_main_prints one_org one_drone no_key short fresh =
      let (m, _) = select-one _ db.drones one_drone in
      ap (λ o. print_result (o.0, o.1.committed))
        (ap
            (λ xs.
              after (at_most_one xs (open_session db)) (mint_in platform drone_slug label draw))
            one_org
          ∙ ap (λ xs. after (at_most_one xs (open_session db)) (mint_for platform label draw))
              one_drone
          ∙ ap
              (λ xs.
                after (at_most_one xs (open_session db)) (mint_unless platform label draw drone))
              no_key
          ∙ insert_run short (key_refers-fresh m fresh))
