-- ===== src/Migrations/DatabaseUrl.antt =====
-- Which database alembic/env.py migrates.
use specter_cloud.Prelude.{
  ◌≡◌, ◌∙◌, refl, sym, ap, Text, codes, Bool, true, false, Option, some, ◌++◌,
}
use specter_cloud.App.Urls.{async_database_url, async_database_url_lem}
use specter_cloud.Migrations.Environment.{
  has_parenthesis, AlembicConfig, IsConfigParser, stray_percent, has_percent, raised, sql_for,
  migrated_at, url_option, transaction, run_async_migrations, run_migrations_offline, configured,
  env,
}

module _ {Schema : Type 0} (run_migrations : Schema → Option Schema) (config : AlembicConfig)
    (rest : Text) (ini : config.Options) (documented : IsConfigParser config ini)
    (before : Schema) where
  abbrev database_url : Text
  database_url = codes "postgresql://" ++ rest

  abbrev driver_url : Text
  driver_url = codes "postgresql+asyncpg://" ++ rest

  env_set :
      (offline : Bool)
      → env run_migrations config offline database_url ini before
        ≡ configured run_migrations config offline
            (config.set_main_option url_option driver_url ini)
            before
  unfolding env
  env_set offline =
      ap
        (λ url.
          configured run_migrations config offline (config.set_main_option url_option url ini)
            before)
        (async_database_url_lem rest)

  -- With options that a ConfigParser keeps as it is documented, and a DATABASE_URL of the scheme postgresql
  -- without a percent sign, env.py works at the URL that the
  -- application's engine has: online, if the migrations succeed, it leaves what they make of the database there,
  -- and offline it writes SQL for it and leaves the database.
  pub env_migrates :
      (after : Schema)
      → has_percent rest ≡ false
      → run_migrations before ≡ some after
      → (env run_migrations config false database_url ini before
          ≡ (migrated_at (async_database_url database_url), after))
        × (env run_migrations config true database_url ini before
            ≡ (sql_for (async_database_url database_url), before))
  unfolding has_percent
  env_migrates after plain ran =
      let (set, e, main, section) = documented.plain driver_url plain in
      let url = sym (async_database_url_lem rest) in
      (
        env_set false
            ∙ ap (λ o. configured run_migrations config false o before) e
            ∙ ap (λ o. run_async_migrations run_migrations o before) section
            ∙ ap (transaction run_migrations (migrated_at driver_url) before) ran
            ∙ ap (λ u. (migrated_at u, after)) url,
        env_set true
            ∙ ap (λ o. configured run_migrations config true o before) e
            ∙ ap (λ o. run_migrations_offline run_migrations o before) main
            ∙ ap (λ u. (sql_for u, before)) url,
      )

  -- With options that a ConfigParser keeps as it is documented, and a DATABASE_URL of the scheme postgresql
  -- with a percent sign outside of pairs and no parenthesis, as a password with encoded characters has
  -- them, env.py raises and migrates nothing, although the engine of the application has a URL with it.
  pub env_stray :
      (offline : Bool)
      → stray_percent false rest ≡ true
      → has_parenthesis rest ≡ false
      → (env run_migrations config offline database_url ini before ≡ (raised, before))
        × (async_database_url database_url ≡ driver_url)
  unfolding stray_percent has_parenthesis
  env_stray offline stray closed = (
    env_set offline
        ∙ ap (λ o. configured run_migrations config offline o before)
            (documented.stray driver_url stray closed)
        ∙ refl,
    async_database_url_lem rest,
  )
