-- ===== src/Scripts/Commands.antt =====
-- The command lines of scripts/mint_key.py, scripts/revoke_key.py and scripts/bootstrap_specter_org.py: their
-- `main`, from the options that argparse has collected or the environment to what is printed.
pub mod Printing
pub mod Revoking
pub mod Minting
pub mod Prints
pub mod Starting
pub mod Restarting
use specter_cloud.Prelude.{
  ℕ, Text, codes, strip, non_empty, Bool, true, false, not, ◌&&◌, ◌||◌, Option, none, some, ◌++◌,
  has, is_none, if◌then◌else◌,
}
use specter_cloud.Platform.{Platform}
use specter_cloud.Models.{Uuid, Datetime, Org}
use specter_cloud.Store.{
  Db, Error, value_error, Result, ok, err, Action, raise, with_session, ◌>>=◌,
}
use specter_cloud.Scripts.Keys.{
  org_with_slug, KeyDraw, mint, revoke_by_prefix, revoke_for, revoke_by_drone,
}
use specter_cloud.Scripts.Bootstrap.{Setup, bootstrap}

-- How a process ends: with a value on stdout, an error of argparse, `sys.exit` with a message or with that of an
-- exception, or an exception that nothing catches.
pub data Exit (A : Type 0) : Type 0 where
  printed : A → Exit A
  usage_error : Exit A
  stopped : Text → Exit A
  stopped_by uncaught : Error → Exit A

-- a result that is printed
abbrev pub print_result : {A : Type 0} → Result A × Db → Exit A × Db
print_result (ok a, db) = (printed a, db)
print_result (err e, db) = (uncaught e, db)

-- The values of the options of revoke_key.py, None for an option that is not given.
pub record RevokeArgs : Type 0 where
  pub prefix : Option Text
  pub drone_slug : Option Text
  pub org_slug : Option Text

-- Python's truth of an option
abbrev pub truthy : Option Text → Bool
truthy o = has non_empty o

-- the mutually exclusive group, of which one option is required
abbrev pub one_of_group : RevokeArgs → Bool
one_of_group args =
    is_none args.prefix && not (is_none args.drone_slug)
    || not (is_none args.prefix) && is_none args.drone_slug

-- `Drone.slug == None` finds no row, as the column is NOT NULL.
unfoldable pub revoke_slugless : Datetime → Option Org → Action ℕ
unfolding revoke_for
revoke_slugless now none = raise value_error
revoke_slugless now (some org) = revoke_for now none

-- `revoke_by_drone` for slugs that may be None
unfoldable pub revoke_slugs : Option Text → Option Text → Datetime → Action ℕ
unfolding revoke_slugless revoke_by_drone
revoke_slugs none drone_slug now = raise value_error
revoke_slugs (some org_slug) none now = org_with_slug org_slug >>= revoke_slugless now
revoke_slugs (some org_slug) (some drone_slug) now = revoke_by_drone org_slug drone_slug now

-- `_run` of revoke_key.py
unfoldable pub run_revoke : RevokeArgs → Option Text → Datetime → Action ℕ
unfolding revoke_slugs revoke_by_prefix
run_revoke args none now = revoke_slugs args.org_slug args.drone_slug now
run_revoke args (some prefix) now =
    if non_empty prefix
    then revoke_by_prefix prefix now
    else revoke_slugs args.org_slug args.drone_slug now

-- `main` of revoke_key.py: the number of keys that it prints, and the tables
unfoldable pub revoke_main : RevokeArgs → Datetime → Db → Exit ℕ × Db
unfolding run_revoke with_session
revoke_main args now db =
    if one_of_group args
    then (if truthy args.drone_slug && not (truthy args.org_slug)
        then (usage_error, db)
        else print_result (with_session (run_revoke args args.prefix now) db))
    else (usage_error, db)

-- The values of the options of mint_key.py, which are all required.
pub record MintArgs : Type 0 where
  pub org_slug : Option Text
  pub drone_slug : Option Text
  pub label : Option Text

-- the end of `main`, for the options
abbrev pub mint_given :
    Platform → KeyDraw → Db → Option Text → Option Text → Option Text → Exit Text × Db
mint_given platform draw db (some org_slug) (some drone_slug) (some label) =
    print_result (with_session (mint platform org_slug drone_slug label draw) db)
mint_given platform draw db _ _ _ = (usage_error, db)

-- `main` of mint_key.py: the key that it prints, and the tables
unfoldable pub mint_main : Platform → MintArgs → KeyDraw → Db → Exit Text × Db
unfolding mint with_session
mint_main platform args draw db =
    mint_given platform draw db args.org_slug args.drone_slug args.label

-- the message of `sys.exit` for a variable that is missing or empty
abbrev pub missing : Text → Text
missing name = codes "error: " ++ name ++ codes " environment variable is required"

abbrev pub Environ : Type 0
Environ = Text → Option Text

-- what stands after `_required_env`, by the variable
abbrev pub with_required :
    {A : Type 0} → Text → Option Text → Db → (Text → Exit A × Db) → Exit A × Db
with_required name none db k = (stopped (missing name), db)
with_required name (some value) db k =
    if non_empty value then k value else (stopped (missing name), db)

-- `_required_env`: its value goes on, or the process stops
unfoldable pub required_env :
    {A : Type 0} → Environ → Text → Db → (Text → Exit A × Db) → Exit A × Db
required_env env name db k = with_required name (env name) db k

-- `os.environ.get(name, default)`
abbrev pub or_default : Text → Option Text → Text
or_default default none = default
or_default default (some value) = value

-- What a run draws: the id of the user, the salt of the hash, and the database's clock.
pub record StartDraw : Type 0 where
  pub user_id : Uuid
  pub salt : Text
  pub db_now : Datetime

-- `str` of a UUID, and `UUID` of a text, which raises ValueError for some texts
pub record UuidText : Type 0 where
  pub parse : Text → Option Uuid
  pub str : Uuid → Text

abbrev pub complete_message : Platform → UuidText → Uuid → Text → Text
complete_message platform uuid org_id email =
    codes "bootstrap complete: Specter org="
    ++ uuid.str org_id
    ++ codes " admin="
    ++ platform.lower (strip email)

abbrev pub no_op_message : Text
no_op_message = codes "Specter org already has at least one active admin grant. No-op."

-- what `_main` does with the outcome of `bootstrap`
abbrev pub report : Text → Result Bool × Db → Exit Text × Db
report complete (ok true, db) = (printed complete, db)
report complete (ok false, db) = (printed no_op_message, db)
report complete (err value_error, db) = (stopped_by value_error, db)
report complete (err e, db) = (uncaught e, db)

abbrev pub setup_of : Uuid → Text → Text → Text → StartDraw → Setup
setup_of org_id email password name draw = record {
  org_id = org_id;
  email = email;
  password = password;
  name = name;
  user_id = draw.user_id;
  salt = draw.salt;
  db_now = draw.db_now;
}

-- `_main`, once SPECTER_ORG_ID is read
unfoldable pub start_at :
    Platform → UuidText → Environ → StartDraw → Db → Option Uuid → Exit Text × Db
unfolding required_env bootstrap with_session
start_at platform uuid env draw db none = (uncaught value_error, db)
start_at platform uuid env draw db (some org_id) =
    required_env env (codes "SPECTER_BOOTSTRAP_EMAIL") db λ email.
      required_env env (codes "SPECTER_BOOTSTRAP_PASSWORD") db λ password.
        let name = or_default (codes "Specter Admin") (env (codes "SPECTER_BOOTSTRAP_NAME")) in
        report (complete_message platform uuid org_id email)
          (with_session (bootstrap platform (setup_of org_id email password name draw)) db)

-- `_main` of bootstrap_specter_org.py: what it prints, and the tables
unfoldable pub bootstrap_main : Platform → UuidText → Environ → StartDraw → Db → Exit Text × Db
unfolding start_at
bootstrap_main platform uuid env draw db =
    required_env env (codes "SPECTER_ORG_ID") db
      λ org_id. start_at platform uuid env draw db (uuid.parse org_id)
