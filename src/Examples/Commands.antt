-- ===== src/Examples/Commands.antt =====
-- Examples of the command lines of the scripts.
use specter_cloud.Prelude.{
  true, [], ◌∷◌, List, arith, if◌then◌else◌, ◌≡◌, refl, codes, none, some, nil, cons, select,
  scalar, text_eq, strip,
}
use specter_cloud.Store.{with_session, commit, refused, ok}
use specter_cloud.ApiKey.{generate_api_key, hash_key}
use specter_cloud.Password.{hash_password}
use specter_cloud.Scripts.Keys.{key_fits, new_key, append_key, mint, key_refers}
use specter_cloud.Scripts.Bootstrap.{bootstrap, role_named, Setup}
use specter_cloud.Scripts.Commands.{
  printed, usage_error, stopped, RevokeArgs, revoke_main, MintArgs, mint_main, Environ, UuidText,
  StartDraw, bootstrap_main, no_op_message, missing, required_env, setup_of,
}
use specter_cloud.Scripts.Commands.Prints.{mint_main_prints}
use specter_cloud.Scripts.Commands.Minting.{IsIssued, mint_main-IsIssued}
use specter_cloud.Scripts.Commands.Revoking.{RevokesAsked, revoke_main-RevokesAsked}
use specter_cloud.Scripts.Commands.Restarting.{bootstrap_main_again}
use specter_cloud.Scripts.Bootstrap.Fresh.{migrated, fresh_bootstrap}
use specter_cloud.Examples.Data.{org, role, platform, issue}
use specter_cloud.Examples.Login.{short_digests, short_digests-IsSound}
use specter_cloud.Login.{Credentials, Draw, login_success, normalized, attempt_login}
use specter_cloud.Scripts.Bootstrap.FirstLogin.{first_login_succeeds}
use specter_cloud.Models.{Role, User, Session, cookie}
use specter_cloud.Examples.Scripts.{drone, before, minted, draw, raw}

abbrev mint_args : MintArgs
mint_args = record {
  org_slug = some (codes "org");
  drone_slug = some (codes "d1");
  label = some (codes "l");
}

mint_main-IsIssued_example :
    IsIssued platform
      (some (codes "org"))
      (some (codes "d1"))
      raw
      before
      (mint_main platform mint_args draw before).1
unfolding mint_main mint select text_eq commit refused key_refers with_session hash_key
mint_main-IsIssued_example =
    mint_main-IsIssued platform draw before
      (cons refl
        (cons refl (cons refl (cons refl (cons refl (cons refl (cons refl (cons refl nil))))))))
      refl refl (cons (cons (λ _. refl) nil) nil) mint_args raw nil refl

mint_main_prints_example :
    mint_main platform mint_args draw before
    ≡ (printed raw, append_key (new_key platform 80 (codes "l") draw) before)
unfolding select text_eq key_fits generate_api_key hash_key
mint_main_prints_example =
    mint_main_prints platform (codes "org") (codes "d1") (codes "l") draw before (org 1 none) drone
      refl refl refl refl nil

abbrev revoke_args : RevokeArgs
revoke_args = record {
  prefix = none;
  drone_slug = some (codes "d1");
  org_slug = some (codes "org");
}

revoke_main-RevokesAsked_example :
    RevokesAsked revoke_args 5 minted (revoke_main revoke_args 5 minted)
revoke_main-RevokesAsked_example = revoke_main-RevokesAsked revoke_args 5 minted

-- It prints 1; without the org it is misused.
revoke_main-printed : (revoke_main revoke_args 5 minted).0 ≡ printed 1
unfolding revoke_main with_session select mint text_eq hash_key commit refused
revoke_main-printed = refl

revoke_main-usage_error :
    revoke_main (record revoke_args { org_slug = none }) 5 minted ≡ (usage_error, minted)
unfolding revoke_main
revoke_main-usage_error = refl

abbrev uuid : UuidText
uuid = record { parse = λ s. some 2; str = λ i. codes "2" }

abbrev start_draw : StartDraw
start_draw = record { user_id = 77; salt = codes "salt"; db_now = 0 }

abbrev env : Environ
env name = if text_eq name (codes "SPECTER_BOOTSTRAP_NAME") then none else some (codes "a")

bootstrap_main_again_example :
    let after = (bootstrap_main platform uuid env start_draw before).1 in
    bootstrap_main platform uuid env start_draw after ≡ (printed no_op_message, after)
unfolding bootstrap_main required_env with_session bootstrap role_named scalar text_eq commit
    refused strip hash_password
bootstrap_main_again_example =
    bootstrap_main_again platform uuid env env start_draw start_draw before _ (codes "a")
      (codes "a") refl refl refl refl refl refl

no_password :
    bootstrap_main platform uuid
      (λ name. if text_eq name (codes "SPECTER_BOOTSTRAP_PASSWORD") then none else some (codes "a"))
      start_draw
      before
    ≡ (stopped (missing (codes "SPECTER_BOOTSTRAP_PASSWORD")), before)
unfolding bootstrap_main required_env text_eq
no_password = refl

abbrev setup : Setup
setup = setup_of 2 (codes "a") (codes "pw") (codes "n") start_draw

abbrev first_credentials : Credentials
first_credentials = record {
  email = codes " a ";
  password = codes "pw";
  transport = cookie;
  user_agent = none;
  ip_address = none;
}

abbrev first_draw : Draw
first_draw = record { now = 2000; salt = codes "salt"; issue = issue 501 }

first_login_succeeds_example :
    let after = (with_session (bootstrap short_digests setup) before).1 in
    (user : User) × (sess : Session) × ((with_session
        (attempt_login short_digests first_credentials first_draw)
        after).0
      ≡ ok (login_success user (codes "token") sess))
    × (user.email ≡ normalized short_digests (codes "a"))
    × (sess.user_id ≡ user.id)
unfolding with_session bootstrap role_named scalar text_eq commit refused strip hash_password
first_login_succeeds_example =
    first_login_succeeds short_digests setup before first_credentials first_draw refl
      short_digests-IsSound refl refl refl refl nil

abbrev two_roles : List Role
two_roles = role 6 (codes "admin") ∷ role 5 (codes "developer") ∷ []

fresh_bootstrap_example :
    (with_session (bootstrap short_digests setup) (migrated two_roles)).0 ≡ ok true
unfolding role_named scalar text_eq strip
fresh_bootstrap_example =
    fresh_bootstrap short_digests setup two_roles (role 6 (codes "admin"))
      (role 5 (codes "developer")) refl refl (λ e. absurd (omega (arith, e))) refl refl
