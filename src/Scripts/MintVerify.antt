-- ===== src/Scripts/MintVerify.antt =====
-- A key that `mint` prints is accepted for its drone.
use specter_cloud.Prelude.{
  ◌*◌, ◌≡◌, ◌≢◌, ◌∙◌, refl, ap, sym, inl, inr, Text, non_empty, text_eq, text_eq_refl, text_eq→eq,
  Bool, true, none, some, List, [], ◌∷◌, ◌++◌, map, select, scalar, Any, All, cons, All-at,
  All-map_fun, Any-select, Any-map_fun, select-All, scalar-append_none, Bool-cases, ◌==◌, ==_iff,
  &&_iff, if◌then◌else◌, length,
}
use mathlib.Core.List.{append_assoc}
use specter_cloud.Platform.{Platform}
use specter_cloud.Models.{Datetime, Drone, DroneApiKey}
use specter_cloud.Store.{Db, State, Result, ok, open_session, with_session}
use specter_cloud.ApiKey.{
  prefix_bytes, hash_key, generate_api_key, key_rows, match_hash, verify_api_key,
}
use specter_cloud.ApiKey.Format.{IsHex, parse_key-generate_api_key}
use specter_cloud.ApiKey.Verify.{
  accepted, run, judge, judge_rows, judge_match, key_rows-IsRow, IsRow, verify_api_key-run,
}
use specter_cloud.Scripts.Keys.{KeyDraw, new_key, append_key, mint}
use specter_cloud.Scripts.Mint.{Mints, refused, minted, mint-Mints}

abbrev pub IsKeyed : List Drone → Type 0
IsKeyed drones = All (λ d. All (λ e. d.id ≡ e.id → d ≡ e) drones) drones

abbrev join_rows : Text → List Drone → DroneApiKey → List (DroneApiKey × Drone)
join_rows prefix drones key =
    if text_eq key.prefix prefix
    then map (λ d. (key, d)) (select (λ d. d.id == key.drone_id) drones)
    else []

key_rows-append :
    (prefix : Text) (drones : List Drone) (xs ys : List DroneApiKey)
    → key_rows prefix drones (xs ++ ys) ≡ key_rows prefix drones xs ++ key_rows prefix drones ys
unfolding key_rows
key_rows-append prefix drones [] ys = refl
key_rows-append prefix drones (x ∷ xs) ys =
    ap (λ rows. join_rows prefix drones x ++ rows) (key_rows-append prefix drones xs ys)
    ∙ sym (
        append_assoc (join_rows prefix drones x) (key_rows prefix drones xs)
          (key_rows prefix drones ys))

-- The first row that a test selects, if it selects one.
first_selected :
    {A : Type 0} {P : A → Type 0} {x : A} (xs : List A)
    → Any (λ y. y ≡ x) xs
    → All P xs
    → (y : A) × (rest : List A) × (xs ≡ y ∷ rest) × P y
first_selected [] m h = elim m [ ]
first_selected (y ∷ rest) m (cons q h) = (y, rest, refl, q)

match_hash-judge_rows :
    (hashed_key : Text) (rows : List (DroneApiKey × Drone)) {r : DroneApiKey × Drone}
    → match_hash hashed_key rows ≡ some r
    → judge_rows hashed_key rows ≡ judge_match (some r)
unfolding match_hash scalar
match_hash-judge_rows hashed_key [] e = absurd (cc e)
match_hash-judge_rows hashed_key (x ∷ rows) e = ap judge_match e

module _ (db : Db) (drone : Drone) (key : DroneApiKey) (keyed : IsKeyed db.drones)
    (in_drones : Any (λ d. d ≡ drone) db.drones) (of_drone : key.drone_id ≡ drone.id) where
  -- the row of the new key
  joined : (rest : List Drone) × (select (λ d. d.id == key.drone_id) db.drones ≡ drone ∷ rest)
  joined =
      let p = λ (d : Drone). d.id == key.drone_id in
      let t : p drone ≡ true = (==_iff drone.id key.drone_id).1 (sym of_drone) in
      let (d, rest, e, selected) =
        first_selected {P = λ d. Any (λ y. y ≡ d) db.drones × (p d ≡ true)} (select p db.drones)
          (Any-select _ p db.drones (Any-map_fun (λ d same. (same, ap p same ∙ t)) in_drones))
          (select-All p db.drones) in
      let same : d ≡ drone =
        All-at (All-at keyed selected.0) in_drones
          ((==_iff d.id key.drone_id).0 selected.1 ∙ of_drone) in
      (rest, e ∙ ap (λ x. x ∷ rest) same)

  new_row :
      (rows : List (DroneApiKey × Drone)) × (key_rows key.prefix db.drones (key ∷ [])
        ≡ (key, drone) ∷ rows)
  unfolding key_rows
  new_row =
      let (rest, e) = joined in
      (map (λ d. (key, d)) rest ++ [], rw text_eq_refl (ap (λ ds. map (λ d. (key, d)) ds ++ []) e))

  matched :
      All (λ k. k.hashed_key ≢ key.hashed_key) db.drone_api_keys
      → match_hash key.hashed_key (key_rows key.prefix db.drones (db.drone_api_keys ++ key ∷ []))
        ≡ some (key, drone)
  unfolding match_hash scalar
  matched fresh =
      let p = λ (r : DroneApiKey × Drone). text_eq key.hashed_key r.0.hashed_key in
      let old = key_rows key.prefix db.drones db.drone_api_keys in
      let (rows, e) = new_row in
      ap (scalar p) (key_rows-append key.prefix db.drones db.drone_api_keys (key ∷ []))
      ∙ scalar-append_none p old _ (
          All-map_fun
            (λ r (row : IsRow db key.prefix r). elim (Bool-cases (p r)) [
              | inl t ↦
                  absurd
                    (All-at fresh row.in_keys (sym (text_eq→eq key.hashed_key r.0.hashed_key t)))
              | inr f ↦ f
            ])
            (key_rows-IsRow db key.prefix db.drone_api_keys (λ k a. a)))
      ∙ ap (scalar p) e
      ∙ ap (λ (b : Bool). if b then some (key, drone) else scalar p rows)
          (text_eq_refl key.hashed_key)

  judged :
      All (λ k. k.hashed_key ≢ key.hashed_key) db.drone_api_keys
      → key.revoked_at ≡ none
      → drone.is_active ≡ true
      → judge_rows key.hashed_key (key_rows key.prefix db.drones (db.drone_api_keys ++ key ∷ []))
        ≡ accepted key drone
  judged fresh unrevoked active =
      match_hash-judge_rows key.hashed_key _ (matched fresh) ∙ rw (unrevoked, active) refl

pub minted-accepted :
    (platform : Platform) (label : Text) (draw : KeyDraw) (db : Db) (drone : Drone) (at : Datetime)
    → IsHex draw.prefix
    → length draw.prefix ≡ prefix_bytes * 2
    → non_empty draw.secret ≡ true
    → IsKeyed db.drones
    → Any (λ d. d ≡ drone) db.drones
    → All
        (λ k.
          k.hashed_key ≢ hash_key platform (generate_api_key platform draw.prefix draw.secret).0)
        db.drone_api_keys
    → drone.is_active ≡ true
    → (verify_api_key platform
        (generate_api_key platform draw.prefix draw.secret).0
        at
        (open_session (append_key (new_key platform drone.id label draw) db))).0
      ≡ ok (some drone)
unfolding generate_api_key
minted-accepted platform label draw db drone at hex digits secret keyed in_drones fresh active =
    let raw = (generate_api_key platform draw.prefix draw.secret).0 in
    let key = new_key platform drone.id label draw in
    let db' = append_key key db in
    ap (λ o. o.0) (verify_api_key-run platform raw at db')
    ∙ ap (λ v. (run at db' v).0)
        (ap (judge platform raw db')
            (parse_key-generate_api_key platform draw.prefix draw.secret hex digits secret)
          ∙ judged db drone key keyed in_drones refl fresh refl active)

-- A key that `mint` returns is accepted for the drone that has the slug, if the drone is active, whenever it is
-- presented to the tables that `mint` leaves: if `token_hex` draws eight hexadecimal digits, the drawn
-- secret is not empty, the ids of the drones are unique and no earlier key has the hash.
pub mint_verifies :
    (platform : Platform) (org_slug drone_slug label raw : Text) (draw : KeyDraw) (db : Db)
    → IsHex draw.prefix
    → length draw.prefix ≡ prefix_bytes * 2
    → non_empty draw.secret ≡ true
    → IsKeyed db.drones
    → All (λ k. k.hashed_key ≢ hash_key platform raw) db.drone_api_keys
    → (with_session (mint platform org_slug drone_slug label draw) db).0 ≡ ok raw
    → (drone : Drone) × Any (λ d. d ≡ drone) db.drones
      × (drone.slug ≡ drone_slug)
      × (drone.is_active ≡ true
          → (at : Datetime)
          → (with_session
              (verify_api_key platform raw at)
              (with_session (mint platform org_slug drone_slug label draw) db).1).0
            ≡ ok (some drone))
unfolding with_session
mint_verifies platform org_slug drone_slug label raw draw db hex digits secret keyed fresh h =
    by_end (mint-Mints platform org_slug drone_slug label draw db) h
  where
    by_end :
        {o : Result Text × State}
        → Mints platform org_slug drone_slug label draw db o
        → o.0 ≡ ok raw
        → (drone : Drone) × Any (λ d. d ≡ drone) db.drones
          × (drone.slug ≡ drone_slug)
          × (drone.is_active ≡ true
              → (at : Datetime)
              → (verify_api_key platform raw at (open_session o.1.committed)).0 ≡ ok (some drone))
    by_end (refused e r c) h = absurd (cc (r, h))
    by_end (minted drone keyless r c) h = (
      drone,
      keyless.in_drones,
      text_eq→eq drone.slug drone_slug
          ((&&_iff (drone.org_id == keyless.org.id) (text_eq drone.slug drone_slug)).0
            keyless.of_org).1,
      λ active at.
          let same_raw : (generate_api_key platform draw.prefix draw.secret).0 ≡ raw = cc (r, h) in
          ap (λ d. (verify_api_key platform raw at (open_session d)).0) c
          ∙ ap
              (λ t.
                (verify_api_key platform t at
                  (open_session (append_key (new_key platform drone.id label draw) db))).0)
              (sym same_raw)
          ∙ minted-accepted platform label draw db drone at hex digits secret keyed
              keyless.in_drones (rw (sym same_raw) at fresh) active,
    )
