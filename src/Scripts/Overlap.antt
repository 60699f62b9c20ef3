-- ===== src/Scripts/Overlap.antt =====
-- Two runs of mint_key.py that overlap: each has looked for an active key before the other one commits.
use specter_cloud.Prelude.{
  ◌≡◌, ◌∙◌, refl, ap, inl, inr, Text, true, none, some, [], ◌∷◌, ◌++◌, select, select-append,
  Bool-cases, ==_refl, if◌then◌else◌,
}
use specter_cloud.Platform.{Platform}
use specter_cloud.Models.{Drone, DroneApiKey}
use specter_cloud.Store.{
  Db, ok, err, pure, commit, ◌>>◌, commit-clean, multiple_results_found, with_session, open_session,
  after,
}
use specter_cloud.ApiKey.{generate_api_key}
use specter_cloud.Scripts.Keys.{
  at_most_one, is_active_key, KeyDraw, new_key, key_fits, key_refers, append_key, insert_key,
  mint_unless, mint_for,
}

module _ (platform : Platform) (drone : Drone) where
  insert_key-append :
      (key : DroneApiKey) (raw answer : Text) (db : Db)
      → let o = (insert_key key >> commit >> pure raw) (open_session db) in
        o.0 ≡ ok answer → o.1.committed ≡ append_key key db
  unfolding insert_key
  insert_key-append key raw answer db = elim (Bool-cases (key_fits key)) [
    | inl short ↦ elim (Bool-cases (key_refers db key)) [
      | inl accepted ↦
          rw (short, accepted)
            (λ h.
              ap (λ o. (after o (λ _. pure raw)).1.committed)
                (commit-clean db (append_key key db) []))
      | inr rejected ↦ rw (short, rejected) (λ h. absurd (cc h))
    ]
    | inr long ↦ rw long (λ h. absurd (cc h))
  ]

  -- A run that saw no active key and returns has added its key.
  mint_unless-append :
      (label raw : Text) (draw : KeyDraw) (db : Db)
      → (with_session (mint_unless platform label draw drone none) db).0 ≡ ok raw
      → (with_session (mint_unless platform label draw drone none) db).1
        ≡ append_key (new_key platform drone.id label draw) db
  unfolding with_session mint_unless
  mint_unless-append label raw draw db h =
      insert_key-append (new_key platform drone.id label draw)
        (generate_api_key platform draw.prefix draw.secret).0 raw db h

  select-append_key :
      (key : DroneApiKey) (db : Db)
      → is_active_key drone.id key ≡ true
      → select (is_active_key drone.id) (append_key key db).drone_api_keys
        ≡ select (is_active_key drone.id) db.drone_api_keys ++ key ∷ []
  unfolding select
  select-append_key key db active =
      select-append (is_active_key drone.id) db.drone_api_keys (key ∷ [])
      ∙ ap (λ b. select (is_active_key drone.id) db.drone_api_keys ++ (if b then key ∷ [] else []))
          active

  new_key-active :
      (label : Text) (draw : KeyDraw)
      → is_active_key drone.id (new_key platform drone.id label draw) ≡ true
  new_key-active label draw = rw (==_refl drone.id) refl

  refuses :
      (label : Text) (draw : KeyDraw) (db : Db) {key key' : DroneApiKey}
      → select (is_active_key drone.id) db.drone_api_keys ≡ key ∷ key' ∷ []
      → with_session (mint_for platform label draw (some drone)) db
        ≡ (err multiple_results_found, db)
  unfolding mint_for with_session
  refuses label draw db two =
      ap
        (λ keys.
          let o =
            after (at_most_one keys (open_session db)) (mint_unless platform label draw drone) in
          (o.0, o.1.committed))
        two

  -- If two runs of mint have both seen that a drone has no active key, and both return, then the drone has two
  -- active keys, and every further run for it raises MultipleResultsFound and changes nothing.
  pub overlap_two_keys :
      (label label' raw raw' : Text) (draw draw' : KeyDraw) (db : Db)
      → select (is_active_key drone.id) db.drone_api_keys ≡ []
      → (with_session (mint_unless platform label draw drone none) db).0 ≡ ok raw
      → let mid = (with_session (mint_unless platform label draw drone none) db).1 in
        (with_session (mint_unless platform label' draw' drone none) mid).0 ≡ ok raw'
        → let last = (with_session (mint_unless platform label' draw' drone none) mid).1 in
          (select (is_active_key drone.id) last.drone_api_keys
            ≡ new_key platform drone.id label draw ∷ new_key platform drone.id label' draw' ∷ [])
          × ((later_label : Text) (later : KeyDraw)
              → with_session (mint_for platform later_label later (some drone)) last
                ≡ (err multiple_results_found, last))
  overlap_two_keys label label' raw raw' draw draw' db no_key h h' =
      let key = new_key platform drone.id label draw in
      let key' = new_key platform drone.id label' draw' in
      let mid = (with_session (mint_unless platform label draw drone none) db).1 in
      let last = (with_session (mint_unless platform label' draw' drone none) mid).1 in
      let active = λ (d : Db). select (is_active_key drone.id) d.drone_api_keys in
      let one : active mid ≡ key ∷ [] =
        ap active (mint_unless-append label raw draw db h)
        ∙ select-append_key key db (new_key-active label draw)
        ∙ ap (λ keys. keys ++ key ∷ []) no_key in
      let two : active last ≡ key ∷ key' ∷ [] =
        ap active (mint_unless-append label' raw' draw' mid h')
        ∙ select-append_key key' mid (new_key-active label' draw')
        ∙ ap (λ keys. keys ++ key' ∷ []) one in
      (two, λ later_label later. refuses later_label later last two)
