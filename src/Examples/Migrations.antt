-- ===== src/Examples/Migrations.antt =====
-- Examples of the revisions.
use specter_cloud.Prelude.{
  not, ◌&&◌, true, inr, inl, ◌==◌, Bool-cases, ◌∷◌, false, if◌then◌else◌, Text, ◌≡◌, refl, codes,
  text_eq, any, Option, none, some, List, [], nil, cons,
}
use specter_cloud.App.Urls.{async_database_url}
use specter_cloud.Migrations.Environment.{
  has_parenthesis, AlembicConfig, IsConfigParser, stray_percent, has_percent, env, raised, sql_for,
  migrated_at,
}
use specter_cloud.Migrations.DatabaseUrl.{env_migrates, env_stray}
use specter_cloud.Migrations.Schema.{Table, migrate}
use specter_cloud.Migrations.Revisions.{
  initial_schema_with_auth, human_auth_rbac, upgrade_of, downgrade_of, revision_restores,
}

abbrev tables_of : Option (List Table) → List Table
tables_of none = []
tables_of (some ts) = ts

-- the schema after the first revision, and after both
unfoldable first_schema : List Table
unfolding migrate
first_schema = tables_of (migrate (upgrade_of initial_schema_with_auth) [])

unfoldable second_schema : List Table
unfolding migrate first_schema
second_schema = tables_of (migrate (upgrade_of human_auth_rbac) first_schema)

revision_restores_example : migrate (downgrade_of human_auth_rbac) second_schema ≡ some first_schema
unfolding first_schema second_schema any text_eq
revision_restores_example =
    revision_restores human_auth_rbac first_schema second_schema
      (cons nil (cons (cons refl nil) (cons (cons refl nil) nil))) refl

-- a configuration that keeps one value
abbrev store : Text → Text → Option Text → Option (Option Text)
store key value options =
    if stray_percent false value && not (has_parenthesis value) then none else some (some value)

abbrev config : AlembicConfig
config = record {
  Options = Option Text;
  set_main_option = store;
  main_option = λ key options. options;
  section_option = λ key options. options;
}

no_stray : (s : Text) → has_percent s ≡ false → stray_percent false s ≡ false
unfolding has_percent stray_percent
no_stray [] h = refl
no_stray (c ∷ s) h = elim (Bool-cases (c == 37)) [
  | inl percent ↦ absurd (cc (rw percent at h))
  | inr other ↦ rw other (no_stray s (rw other at h))
]

config-IsConfigParser : IsConfigParser config none
config-IsConfigParser = record {
  plain = λ value h. (some value, rw (no_stray value h) refl, refl, refl);
  stray = λ value h closed. rw (h, closed) refl;
}

-- the first revision
abbrev first_upgrade : List Table → Option (List Table)
first_upgrade = migrate (upgrade_of initial_schema_with_auth)

env_migrates_example :
    (env first_upgrade config false (codes "postgresql://u:p@h/d") none []
      ≡ (migrated_at (async_database_url (codes "postgresql://u:p@h/d")), first_schema))
    × (env first_upgrade config true (codes "postgresql://u:p@h/d") none []
        ≡ (sql_for (async_database_url (codes "postgresql://u:p@h/d")), []))
unfolding has_percent first_schema any text_eq
env_migrates_example =
    env_migrates first_upgrade config (codes "u:p@h/d") none config-IsConfigParser [] first_schema
      refl refl

env_stray_example :
    (env first_upgrade config false (codes "postgresql://u:p%40@h/d") none [] ≡ (raised, []))
    × (async_database_url (codes "postgresql://u:p%40@h/d")
        ≡ codes "postgresql+asyncpg://u:p%40@h/d")
unfolding stray_percent has_parenthesis
env_stray_example =
    env_stray first_upgrade config (codes "u:p%40@h/d") none config-IsConfigParser [] false refl
      refl
