-- ===== src/Migrations/Environment.antt =====
-- alembic/env.py: at which database the revisions run, and in which transaction.
use specter_cloud.Prelude.{
  ◌≡◌, Text, codes, Bool, true, false, ◌||◌, Option, none, some, [], ◌∷◌, ◌==◌, if◌then◌else◌,
}
use specter_cloud.App.Urls.{async_database_url}

-- alembic's `Config`: its options, and the calls of it. Setting an option can raise, and so can reading one.
pub record AlembicConfig : Type 1 where
  pub Options : Type 0
  pub set_main_option : Text → Text → Options → Option Options
  -- get_main_option
  pub main_option : Text → Options → Option Text
  -- an option of `get_section(config.config_ini_section, {})`
  pub section_option : Text → Options → Option Text

-- Reading from the left, some `%` is not one of a pair. 37 is the percent sign.
unfoldable pub stray_percent : Bool → Text → Bool
stray_percent after [] = after
stray_percent false (c ∷ s) = stray_percent (c == 37) s
stray_percent true (c ∷ s) = let rest = stray_percent false s in if c == 37 then rest else true

unfoldable pub has_percent : Text → Bool
has_percent [] = false
has_percent (c ∷ s) = c == 37 || has_percent s

-- an opening parenthesis, which a reference `%(name)s` to another option needs
unfoldable pub has_parenthesis : Text → Bool
has_parenthesis [] = false
has_parenthesis (c ∷ s) = c == 40 || has_parenthesis s

abbrev pub url_option : Text
url_option = codes "sqlalchemy.url"

-- What alembic and Python's `ConfigParser` document of the option of the URL, for a section `ini` whose other options
-- can be read: a value without a percent sign is read back as it is, and a value that has a percent sign outside of
-- pairs and no reference to another option is refused.
pub record IsConfigParser (config : AlembicConfig) (ini : config.Options) : Type 0 where
  pub plain :
      (value : Text)
      → has_percent value ≡ false
      → (set : config.Options) × (config.set_main_option url_option value ini ≡ some set)
        × (config.main_option url_option set ≡ some value)
        × (config.section_option url_option set ≡ some value)
  pub stray :
      (value : Text)
      → stray_percent false value ≡ true
      → has_parenthesis value ≡ false
      → config.set_main_option url_option value ini ≡ none

-- How a run of env.py ends: it raises, it has written the SQL for a URL, or it has migrated the database there.
pub data Outcome : Type 0 where
  raised : Outcome
  sql_for migrated_at : Text → Outcome

module _ {Schema : Type 0} (run_migrations : Schema → Option Schema) where
  -- `context.run_migrations()` in `context.begin_transaction()`: all of it is committed, or nothing
  abbrev pub transaction : Outcome → Schema → Option Schema → Outcome × Schema
  transaction done before none = (raised, before)
  transaction done before (some after) = (done, after)

  -- the connection of the engine that `async_engine_from_config` makes
  abbrev pub run_async_migrations : Option Text → Schema → Outcome × Schema
  run_async_migrations none before = (raised, before)
  run_async_migrations (some url) before =
      transaction (migrated_at url) before (run_migrations before)

  -- Without a connection the operations are written as SQL.
  abbrev pub run_migrations_offline : Option Text → Schema → Outcome × Schema
  run_migrations_offline none before = (raised, before)
  run_migrations_offline (some url) before = (sql_for url, before)

  module _ (config : AlembicConfig) where
    abbrev pub configured : Bool → Option config.Options → Schema → Outcome × Schema
    configured offline none before = (raised, before)
    configured true (some options) before =
        run_migrations_offline (config.main_option url_option options) before
    configured false (some options) before =
        run_async_migrations (config.section_option url_option options) before

    -- the file, for a DATABASE_URL and the options of alembic.ini
    unfoldable pub env : Bool → Text → config.Options → Schema → Outcome × Schema
    unfolding async_database_url
    env offline database_url ini before =
        configured offline (config.set_main_option url_option (async_database_url database_url) ini)
          before
