-- ===== src/Scripts/Commands/Restarting.antt =====
-- What a second start of bootstrap_specter_org.py does.
use specter_cloud.Prelude.{if◌then◌else◌, ◌≡◌, ◌∙◌, ap, Text, non_empty, codes, true, some}
use specter_cloud.Platform.{Platform}
use specter_cloud.Models.{Uuid}
use specter_cloud.Store.{Db}
use specter_cloud.Scripts.Bootstrap.Again.{HasGrant, HasGrant-idle}
use specter_cloud.Scripts.Commands.{
  missing, Exit, printed, stopped, Environ, with_required, required_env, StartDraw, UuidText,
  no_op_message, report, start_at, bootstrap_main,
}
use specter_cloud.Scripts.Commands.Starting.{
  Starts, failed_start, no_op, complete, bootstrap_main-Starts,
}

-- what a run that printed something has read and left
record IsStarted (uuid : UuidText) (env : Environ) (after : Db) : Type 0 where
  raw_id : Text
  org_id : Uuid
  given : env (codes "SPECTER_ORG_ID") ≡ some raw_id
  not_empty : non_empty raw_id ≡ true
  parsed : uuid.parse raw_id ≡ some org_id
  granted : HasGrant org_id after

Starts-IsStarted :
    {platform : Platform} {uuid : UuidText} {env : Environ} {draw : StartDraw} {db : Db}
    {r : Exit Text × Db} {text : Text}
    → Starts platform uuid env draw db r
    → r.0 ≡ printed text
    → IsStarted uuid env r.1
Starts-IsStarted {text} (failed_start silent e) h = absurd (silent text h)
Starts-IsStarted (no_op raw_id org_id e t f r c g) h = record {
  raw_id = raw_id;
  org_id = org_id;
  given = e;
  not_empty = t;
  parsed = f;
  granted = g;
}
Starts-IsStarted (complete raw_id email org_id e t f m r g a) h = record {
  raw_id = raw_id;
  org_id = org_id;
  given = e;
  not_empty = t;
  parsed = f;
  granted = g;
}

required_env-given :
    {A : Type 0} (env : Environ) (name value : Text) (db : Db) (k : Text → Exit A × Db)
    → env name ≡ some value
    → non_empty value ≡ true
    → required_env env name db k ≡ k value
unfolding required_env
required_env-given env name value db k e t =
    ap (λ o. with_required name o db k) e
    ∙ ap (λ b. if b then k value else (stopped (missing name), db)) t

-- After a run that printed anything, every further run with the same SPECTER_ORG_ID and with an email and a
-- password that are not empty prints the no-op message and changes nothing.
pub bootstrap_main_again :
    (platform : Platform) (uuid : UuidText) (env again : Environ) (draw later : StartDraw) (db : Db)
    (text email password : Text)
    → (bootstrap_main platform uuid env draw db).0 ≡ printed text
    → again (codes "SPECTER_ORG_ID") ≡ env (codes "SPECTER_ORG_ID")
    → again (codes "SPECTER_BOOTSTRAP_EMAIL") ≡ some email
    → non_empty email ≡ true
    → again (codes "SPECTER_BOOTSTRAP_PASSWORD") ≡ some password
    → non_empty password ≡ true
    → let after = (bootstrap_main platform uuid env draw db).1 in
      bootstrap_main platform uuid again later after ≡ (printed no_op_message, after)
unfolding bootstrap_main start_at
bootstrap_main_again platform uuid env again draw later db text email password h same_org e
      some_email p some_password =
    let after = (bootstrap_main platform uuid env draw db).1 in
    let started = Starts-IsStarted (bootstrap_main-Starts platform uuid env draw db) h in
    required_env-given again _ started.raw_id after _ (same_org ∙ started.given) started.not_empty
    ∙ ap (start_at platform uuid again later after) started.parsed
    ∙ required_env-given again _ email after _ e some_email
    ∙ required_env-given again _ password after _ p some_password
    ∙ ap (report _) (HasGrant-idle platform _ after started.granted)
