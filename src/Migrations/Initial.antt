-- ===== src/Migrations/Initial.antt =====
-- alembic/versions/ad02ee5908dd_initial_schema_with_auth.py.
use specter_cloud.Prelude.{Bool, Text, codes, true, false, Option, none, some, List, [], ◌∷◌}
use specter_cloud.Migrations.Schema.{
  ColumnType, uuid, boolean, datetime, string, Column, ForeignKey, UniqueKey, Index, Table, Op,
  create_table, create_index, drop_table, drop_index,
}

abbrev column : Text → ColumnType → Bool → Option Text → Column
column name type null server_default = record {
  name = name;
  type = type;
  nullable = null;
  server_default = server_default;
  autoincrement = false;
}

-- a column that has a value in every row
abbrev pub required : Text → ColumnType → Column
required name type = column name type false none

abbrev pub nullable : Text → ColumnType → Column
nullable name type = column name type true none

-- a required column with a `server_default`
abbrev pub defaulted : Text → ColumnType → Text → Column
defaulted name type value = column name type false (some value)

abbrev pub created_at : Column
created_at = defaulted (codes "created_at") datetime (codes "now()")

abbrev pub updated_at : Column
updated_at = defaulted (codes "updated_at") datetime (codes "now()")

abbrev pub is_active : Column
is_active = defaulted (codes "is_active") boolean (codes "true")

abbrev pub id_column : Column
id_column = required (codes "id") uuid

-- a foreign key to the ids of a table
abbrev pub to_id : Text → Text → Option Text → ForeignKey
to_id column table ondelete = record {
  name = none;
  columns = column ∷ [];
  table = table;
  refers = codes "id" ∷ [];
  ondelete = ondelete;
}

abbrev pub plain_index : Text → List Text → Index
plain_index name columns = record { name = name; columns = columns; condition = none }

abbrev pub unique : Option Text → List Text → UniqueKey
unique name columns = record { name = name; columns = columns }

abbrev pub orgs_table : Table
orgs_table = record {
  name = codes "orgs";
  columns =
      id_column
      ∷ required (codes "name") (string 120)
      ∷ required (codes "slug") (string 60)
      ∷ created_at
      ∷ updated_at
      ∷ is_active
      ∷ [];
  primary_key = codes "id" ∷ [];
  uniques = unique none (codes "slug" ∷ []) ∷ [];
  foreign_keys = [];
  indexes = [];
}

abbrev pub drones_table : Table
drones_table = record {
  name = codes "drones";
  columns =
      id_column
      ∷ required (codes "name") (string 80)
      ∷ required (codes "slug") (string 60)
      ∷ required (codes "org_id") uuid
      ∷ created_at
      ∷ updated_at
      ∷ is_active
      ∷ [];
  primary_key = codes "id" ∷ [];
  uniques = unique (some (codes "uq_drone_org_slug")) (codes "org_id" ∷ codes "slug" ∷ []) ∷ [];
  foreign_keys = to_id (codes "org_id") (codes "orgs") none ∷ [];
  indexes = [];
}

abbrev pub drone_api_keys_table : Table
drone_api_keys_table = record {
  name = codes "drone_api_keys";
  columns =
      id_column
      ∷ required (codes "drone_id") uuid
      ∷ required (codes "prefix") (string 16)
      ∷ required (codes "hashed_key") (string 64)
      ∷ required (codes "label") (string 80)
      ∷ created_at
      ∷ nullable (codes "last_used_at") datetime
      ∷ nullable (codes "revoked_at") datetime
      ∷ [];
  primary_key = codes "id" ∷ [];
  uniques = [];
  foreign_keys = to_id (codes "drone_id") (codes "drones") (some (codes "CASCADE")) ∷ [];
  indexes = [];
}

abbrev pub upgrade : List Op
upgrade =
    create_table orgs_table
    ∷ create_table drones_table
    ∷ create_index (codes "drones") (plain_index (codes "ix_drones_org_id") (codes "org_id" ∷ []))
    ∷ create_table drone_api_keys_table
    ∷ create_index (codes "drone_api_keys")
        (plain_index (codes "ix_drone_api_keys_drone_id") (codes "drone_id" ∷ []))
    ∷ create_index (codes "drone_api_keys")
        (plain_index (codes "ix_drone_api_keys_prefix") (codes "prefix" ∷ []))
    ∷ []

abbrev pub downgrade : List Op
downgrade =
    drop_index (codes "ix_drone_api_keys_prefix") (codes "drone_api_keys")
    ∷ drop_index (codes "ix_drone_api_keys_drone_id") (codes "drone_api_keys")
    ∷ drop_table (codes "drone_api_keys")
    ∷ drop_index (codes "ix_drones_org_id") (codes "drones")
    ∷ drop_table (codes "drones")
    ∷ drop_table (codes "orgs")
    ∷ []
