-- ===== src/Examples/Scripts.antt =====
-- Examples of the scripts.
use specter_cloud.Prelude.{
  ◌≡◌, ◌≢◌, refl, codes, Text, none, some, [], ◌∷◌, Any, arith, select, text_eq, true,
}
use specter_cloud.Models.{Org, Datetime, Drone}
use specter_cloud.Store.{err, multiple_results_found, Db, ok, with_session, commit, refused}
use specter_cloud.ApiKey.{verify_api_key, hash_key}
use specter_cloud.Scripts.Overlap.{overlap_two_keys}
use specter_cloud.Scripts.Keys.{
  is_active_key, new_key, mint_unless, mint_for, KeyDraw, mint, revoke_by_drone, key_refers,
}
use specter_cloud.Scripts.OneActive.{
  OneActive, start, next, mint_key, revoke_drone, KeyReach-OneActive,
}
use specter_cloud.Scripts.Revoke.{revoke_by_drone_final}
use specter_cloud.Examples.Data.{platform, org, role, alice}

abbrev pub drone : Drone
drone = record {
  id = 80;
  name = codes "drone";
  slug = codes "d1";
  org_id = 1;
  created_at = 0;
  updated_at = 0;
  is_active = true;
}

-- one org and one drone, and the two roles of the bootstrap
abbrev pub before : Db
before = record {
  orgs = org 1 none ∷ [];
  drones = drone ∷ [];
  drone_api_keys = [];
  users = alice ∷ [];
  roles = role 6 (codes "admin") ∷ role 5 (codes "developer") ∷ [];
  user_roles = [];
  sessions = [];
  audit_log = [];
}

abbrev pub draw : KeyDraw
draw = record { id = 90; prefix = codes "0a1b2c3d"; secret = codes "s"; db_now = 0 }

abbrev pub raw : Text
raw = codes "sk_drone_0a1b2c3d_s"

abbrev pub minted : Db
minted = (with_session (mint platform (codes "org") (codes "d1") (codes "l") draw) before).1

KeyReach-OneActive_example :
    OneActive (with_session (revoke_by_drone (codes "org") (codes "d1") 5) minted).1
unfolding select
KeyReach-OneActive_example =
    KeyReach-OneActive {platform = platform} {db = before}
      (next (next start (mint_key (codes "org") (codes "d1") (codes "l") draw))
        (revoke_drone (codes "org") (codes "d1") 5))
      (λ id. omega arith)

revoke_by_drone_final_example :
    (o : Org) × Any (λ x. x ≡ o) minted.orgs
    × (o.slug ≡ codes "org")
    × (d : Drone) × Any (λ x. x ≡ d) minted.drones
    × (d.slug ≡ codes "d1")
    × (d.org_id ≡ o.id)
    × ((t : Text) (at : Datetime) (found : Drone)
        → (with_session
            (verify_api_key platform t at)
            (with_session (revoke_by_drone (codes "org") (codes "d1") 5) minted).1).0
          ≡ ok (some found)
        → found.id ≢ d.id)
unfolding mint revoke_by_drone select text_eq commit refused key_refers with_session hash_key
revoke_by_drone_final_example =
    revoke_by_drone_final platform (codes "org") (codes "d1") 5 minted 1 refl

abbrev second_draw : KeyDraw
second_draw = record { id = 91; prefix = codes "11223344"; secret = codes "t"; db_now = 0 }

overlap_two_keys_example :
    let mid = (with_session (mint_unless platform (codes "l") draw drone none) before).1 in
    let last = (with_session (mint_unless platform (codes "m") second_draw drone none) mid).1 in
    (select (is_active_key drone.id) last.drone_api_keys
      ≡ new_key platform drone.id (codes "l") draw
        ∷ new_key platform drone.id (codes "m") second_draw
        ∷ [])
    × ((later_label : Text) (later : KeyDraw)
        → with_session (mint_for platform later_label later (some drone)) last
          ≡ (err multiple_results_found, last))
unfolding mint_unless commit refused key_refers with_session hash_key select
overlap_two_keys_example =
    overlap_two_keys platform drone (codes "l") (codes "m") raw (codes "sk_drone_11223344_t") draw
      second_draw before refl refl refl
