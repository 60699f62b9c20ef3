-- ===== src/Migrations/Schema.antt =====
-- What the operations of alembic that the revisions use do to a schema.
use specter_cloud.Prelude.{
  ℕ, Text, text_eq, Bool, true, false, not, ◌&&◌, Option, none, some, List, [], ◌∷◌, ◌++◌, select,
  update, any,
}

pub data ColumnType : Type 0 where
  uuid boolean datetime small_integer integer big_integer text inet jsonb : ColumnType
  string : ℕ → ColumnType

pub record Column : Type 0 where
  pub name : Text
  pub type : ColumnType
  pub nullable : Bool
  pub server_default : Option Text
  pub autoincrement : Bool

pub record ForeignKey : Type 0 where
  pub name : Option Text
  pub columns : List Text
  pub table : Text
  pub refers : List Text
  pub ondelete : Option Text

pub record UniqueKey : Type 0 where
  pub name : Option Text
  pub columns : List Text

-- `condition` is `postgresql_where`.
pub record Index : Type 0 where
  pub name : Text
  pub columns : List Text
  pub condition : Option Text

pub record Table : Type 0 where
  pub name : Text
  pub columns : List Column
  pub primary_key : List Text
  pub uniques : List UniqueKey
  pub foreign_keys : List ForeignKey
  pub indexes : List Index

-- a row of `bulk_insert` into `roles`
pub record RoleSeed : Type 0 where
  pub id : ℕ
  pub name : Text
  pub description : Text
  pub is_platform_role : Bool

pub data Op : Type 0 where
  create_table : Table → Op
  create_index : Text → Index → Op
  add_column : Text → Column → Op
  create_foreign_key : Text → ForeignKey → Text → Op
  bulk_insert : Text → List RoleSeed → Op
  drop_table : Text → Op
  drop_index : Text → Text → Op
  drop_constraint : Text → Text → Op
  drop_column : Text → Text → Op

abbrev pub named : Text → Table → Bool
named n t = text_eq t.name n

abbrev pub has_table : Text → List Table → Bool
has_table n ts = any (named n) ts

abbrev pub index_named : Text → Index → Bool
index_named n i = text_eq i.name n

abbrev pub column_named : Text → Column → Bool
column_named n c = text_eq c.name n

abbrev name_is : Text → Option Text → Bool
name_is n none = false
name_is n (some m) = text_eq m n

abbrev pub key_named : Text → ForeignKey → Bool
key_named n k = name_is n k.name

-- the rows of a list that a test does not select
abbrev pub without {ℓ} : {A : Type ℓ} → (A → Bool) → List A → List A
without p xs = select (λ x. not (p x)) xs

-- whether a foreign key of the table refers to table `n`
abbrev pub refers_to : Text → Table → Bool
refers_to n t = any (λ k. text_eq k.table n) t.foreign_keys

-- every foreign key refers to a table
abbrev pub keys_known : List ForeignKey → List Table → Bool
keys_known ks ts = not (any (λ k. not (has_table k.table ts)) ks)

abbrev pub with_index : Index → Table → Table
with_index i t = record t { indexes = t.indexes ++ i ∷ [] }

abbrev pub with_column : Column → Table → Table
with_column c t = record t { columns = t.columns ++ c ∷ [] }

abbrev pub with_key : ForeignKey → Table → Table
with_key k t = record t { foreign_keys = t.foreign_keys ++ k ∷ [] }

abbrev pub drop_index_in : Text → Table → Table
drop_index_in n t = record t { indexes = without (index_named n) t.indexes }

abbrev pub drop_column_in : Text → Table → Table
drop_column_in n t = record t { columns = without (column_named n) t.columns }

abbrev pub drop_key_in : Text → Table → Table
drop_key_in n t = record t { foreign_keys = without (key_named n) t.foreign_keys }

-- an operation that the database refuses unless the test holds
abbrev pub guarded : Bool → List Table → Option (List Table)
guarded true ts = some ts
guarded false ts = none

abbrev pub has_in : Text → (Table → Bool) → List Table → Bool
has_in n p ts = any (λ t. named n t && p t) ts

-- What an operation does to the tables. A column is dropped of which no key and no index is left.
unfoldable pub alter : Op → List Table → Option (List Table)
unfolding any select update text_eq
alter (create_table t) ts =
    guarded (not (has_table t.name ts) && keys_known t.foreign_keys (ts ++ t ∷ [])) (ts ++ t ∷ [])
alter (create_index n i) ts =
    guarded (has_table n ts && not (any (λ t. any (index_named i.name) t.indexes) ts))
      (update (named n) (with_index i) ts)
alter (add_column n c) ts =
    guarded (has_table n ts && not (has_in n (λ t. any (column_named c.name) t.columns) ts))
      (update (named n) (with_column c) ts)
alter (create_foreign_key name k n) ts =
    guarded
      (has_table n ts
        && has_table k.table ts
        && not (has_in n (λ t. any (key_named name) t.foreign_keys) ts))
      (update (named n) (with_key (record k { name = some name })) ts)
alter (bulk_insert n rows) ts = guarded (has_table n ts) ts
alter (drop_table n) ts =
    guarded (has_table n ts && not (any (refers_to n) (without (named n) ts)))
      (without (named n) ts)
alter (drop_index name n) ts =
    guarded (has_in n (λ t. any (index_named name) t.indexes) ts)
      (update (named n) (drop_index_in name) ts)
alter (drop_constraint name n) ts =
    guarded (has_in n (λ t. any (key_named name) t.foreign_keys) ts)
      (update (named n) (drop_key_in name) ts)
alter (drop_column n name) ts =
    guarded (has_in n (λ t. any (column_named name) t.columns) ts)
      (update (named n) (drop_column_in name) ts)

abbrev pub if_some : Option (List Table) → (List Table → Option (List Table)) → Option (List Table)
if_some none k = none
if_some (some ts) k = k ts

-- the operations of a revision, one after another, in one transaction
unfoldable pub migrate : List Op → List Table → Option (List Table)
unfolding alter
migrate [] ts = some ts
migrate (op ∷ ops) ts = if_some (alter op ts) (migrate ops)
