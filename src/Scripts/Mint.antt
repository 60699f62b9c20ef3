-- ===== src/Scripts/Mint.antt =====
-- What `mint` returns and leaves.
use specter_cloud.Prelude.{
  ◌≡◌, refl, subst, ap, inl, inr, Text, text_eq, Bool, true, ◌&&◌, Option, none, some, List, [],
  ◌∷◌, select, Any, All, cons, select-All, Bool-cases, ◌==◌,
}
use specter_cloud.Platform.{Platform}
use specter_cloud.Models.{Org, Drone, DroneApiKey}
use specter_cloud.Store.{
  Db, State, Error, value_error, integrity_error, data_error, multiple_results_found, Result, ok,
  err, Action, pure, open_session, after, commit, commit-clean, ◌>>◌,
}
use specter_cloud.ApiKey.{generate_api_key}
use specter_cloud.Scripts.Keys.{
  at_most_one, org_with_slug, drone_with_slug, is_active_key, KeyDraw, new_key, key_fits,
  key_refers, append_key, insert_key, mint_unless, mint_for, mint_in, mint,
}

-- What a request does with at most one row, by that row.
pub one_or_none :
    {A B : Type 0} (P : Result B × State → Type 0) (xs : List A) (k : Option A → Action B)
    (s : State)
    → (xs ≡ [] → P (k none s))
    → ((x : A) → xs ≡ x ∷ [] → P (k (some x) s))
    → P (err multiple_results_found, s)
    → P (after (at_most_one xs s) k)
one_or_none P [] k s at_none at_one several = at_none refl
one_or_none P (x ∷ []) k s at_none at_one several = at_one x refl
one_or_none P (x ∷ y ∷ rows) k s at_none at_one several = several

-- The only row that is selected is there and passes the test.
pub select-one :
    {A : Type 0} (p : A → Bool) (xs : List A) {x : A}
    → select p xs ≡ x ∷ []
    → Any (λ y. y ≡ x) xs × (p x ≡ true)
select-one p xs e = head (subst (All (λ x. Any (λ y. y ≡ x) xs × (p x ≡ true))) e (select-All p xs))
  where
    head : {A : Type 0} {P : A → Type 0} {x : A} {rows : List A} → All P (x ∷ rows) → P x
    head (cons q h) = q

module _ (platform : Platform) (org_slug drone_slug label : Text) (draw : KeyDraw) (db : Db) where
  -- A drone that `mint` makes a key for: it has the slugs and no active key.
  pub record IsKeyless (drone : Drone) : Type 0 where
    pub org : Org
    pub in_orgs : Any (λ o. o ≡ org) db.orgs
    pub org_slug_same : text_eq org.slug org_slug ≡ true
    pub in_drones : Any (λ d. d ≡ drone) db.drones
    pub of_org : (drone.org_id == org.id && text_eq drone.slug drone_slug) ≡ true
    pub no_active : select (is_active_key drone.id) db.drone_api_keys ≡ []
    pub fits_row : key_fits (new_key platform drone.id label draw) ≡ true
    pub accepted : key_refers db (new_key platform drone.id label draw) ≡ true

  -- How a run of `mint` ends: with an error and the tables as they were, or with one more key.
  pub data Mints (o : Result Text × State) : Type 0 where
    refused : (e : Error) → o.0 ≡ err e → o.1.committed ≡ db → Mints o
    minted :
        (drone : Drone)
        → IsKeyless drone
        → o.0 ≡ ok (generate_api_key platform draw.prefix draw.secret).0
        → o.1.committed ≡ append_key (new_key platform drone.id label draw) db
        → Mints o

  -- what an insertion, its commit and the answer do
  abbrev key : Drone → DroneApiKey
  key drone = new_key platform drone.id label draw

  abbrev raw_key : Text
  raw_key = (generate_api_key platform draw.prefix draw.secret).0

  insert_key-Mints :
      (drone : Drone)
      → (key_fits (key drone) ≡ true → key_refers db (key drone) ≡ true → IsKeyless drone)
      → Mints ((insert_key (key drone) >> commit >> pure raw_key) (open_session db))
  unfolding insert_key
  insert_key-Mints drone keyless = elim (Bool-cases (key_fits (key drone))) [
    | inl short ↦ elim (Bool-cases (key_refers db (key drone))) [
      | inl accepted ↦
          rw (short, accepted)
            (minted drone (keyless short accepted)
              (ap (λ o. (after o (λ _. pure raw_key)).0)
                (commit-clean db (append_key (key drone) db) []))
              (ap (λ o. (after o (λ _. pure raw_key)).1.committed)
                (commit-clean db (append_key (key drone) db) [])))
      | inr rejected ↦ rw (short, rejected) (refused integrity_error refl refl)
    ]
    | inr long ↦ rw long (refused data_error refl refl)
  ]

  mint_for-Mints :
      (drone : Drone)
      → (select (is_active_key drone.id) db.drone_api_keys ≡ []
          → key_fits (key drone) ≡ true
          → key_refers db (key drone) ≡ true
          → IsKeyless drone)
      → Mints (mint_for platform label draw (some drone) (open_session db))
  unfolding mint_for mint_unless
  mint_for-Mints drone keyless =
      one_or_none Mints (select (is_active_key drone.id) db.drone_api_keys)
        (mint_unless platform label draw drone) (open_session db)
        (λ e. insert_key-Mints drone (keyless e)) (λ existing e. refused value_error refl refl)
        (refused multiple_results_found refl refl)

  mint_in-Mints :
      (org : Org)
      → Any (λ o. o ≡ org) db.orgs × (text_eq org.slug org_slug ≡ true)
      → Mints (mint_in platform drone_slug label draw (some org) (open_session db))
  unfolding mint_in mint_for drone_with_slug
  mint_in-Mints org (in_orgs, slug) =
      let p = λ (d : Drone). d.org_id == org.id && text_eq d.slug drone_slug in
      one_or_none Mints (select p db.drones) (mint_for platform label draw) (open_session db)
        (λ e. refused value_error refl refl)
        (λ drone e. mint_for-Mints drone (λ no_active short accepted.
          let (in_drones, of_org) = select-one p db.drones e in
          record {
            org = org;
            in_orgs = in_orgs;
            org_slug_same = slug;
            in_drones = in_drones;
            of_org = of_org;
            no_active = no_active;
            fits_row = short;
            accepted = accepted;
          }))
        (refused multiple_results_found refl refl)

  pub mint-Mints : Mints (mint platform org_slug drone_slug label draw (open_session db))
  unfolding mint mint_in org_with_slug
  mint-Mints =
      let p = λ (o : Org). text_eq o.slug org_slug in
      one_or_none Mints (select p db.orgs) (mint_in platform drone_slug label draw)
        (open_session db) (λ e. refused value_error refl refl)
        (λ org e. mint_in-Mints org (select-one p db.orgs e))
        (refused multiple_results_found refl refl)
