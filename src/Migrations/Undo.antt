-- ===== src/Migrations/Undo.antt =====
-- What takes an operation back, and the lemmas on putting something into a table and taking it out again.
use specter_cloud.Prelude.{
  ◌≡◌, ◌∙◌, refl, ap, Text, text_eq, Bool, true, false, ◌&&◌, some, List, [], ◌∷◌, ◌++◌, update,
  any-false, any-update, any-update_same, update-update, All, All-map_fun, All-update, arith,
}
use specter_cloud.Migrations.Schema.{
  Column, ForeignKey, Index, Table, RoleSeed, Op, create_table, create_index, add_column,
  create_foreign_key, bulk_insert, drop_table, drop_index, drop_constraint, drop_column, named,
  has_table, guarded, has_in,
}

-- Every foreign key refers to a table.
abbrev pub IsSound : List Table → Type 0
IsSound ts = All (λ t. All (λ k. has_table k.table ts ≡ true) t.foreign_keys) ts

-- the operation that takes another one back
pub data Undoes : Op → Op → Type 0 where
  table : (t : Table) → Undoes (create_table t) (drop_table t.name)
  index : (n : Text) (i : Index) → Undoes (create_index n i) (drop_index i.name n)
  column : (n : Text) (c : Column) → Undoes (add_column n c) (drop_column n c.name)
  key :
      (name : Text) (k : ForeignKey) (n : Text)
      → Undoes (create_foreign_key name k n) (drop_constraint name n)

-- A downgrade reverses an upgrade. Rows go with their table.
pub data Reverses : List Op → List Op → Type 0 where
  done : Reverses [] []
  undo :
      {op back : Op} {ups downs : List Op}
      → Undoes op back
      → Reverses ups downs
      → Reverses (op ∷ ups) (downs ++ back ∷ [])
  keep_rows :
      {n : Text} {rows : List RoleSeed} {ups downs : List Op}
      → Reverses ups downs
      → Reverses (bulk_insert n rows ∷ ups) downs

pub guarded-some :
    (b : Bool) (ts : List Table) {mid : List Table}
    → guarded b ts ≡ some mid
    → (b ≡ true) × (ts ≡ mid)
guarded-some true ts e = (refl, cc e)
guarded-some false ts e = absurd (cc e)

module _ (n : Text) (f g : Table → Table) (q : Table → Bool)
    (same_name : (t : Table) → (f t).name ≡ t.name) (made : (t : Table) → q (f t) ≡ true) where
  still_named : (m : Text) (t : Table) → named m (f t) ≡ named m t
  still_named m t = ap (λ s. text_eq s m) (same_name t)

  -- What is put into a table is found there and taken out again.
  pub put_back :
      (ts : List Table)
      → has_table n ts ≡ true
      → All (λ t. named n t ≡ true → g (f t) ≡ t) ts
      → guarded (has_in n q (update (named n) f ts)) (update (named n) g (update (named n) f ts))
        ≡ some ts
  put_back ts there back =
      ap (λ b. guarded b (update (named n) g (update (named n) f ts)))
        (any-update (named n) f (λ t. named n t && q t)
          (λ t own. rw (still_named n t, own, made t) refl) ts there)
      ∙ ap some (update-update (named n) f g (still_named n) back)

  -- Such an update keeps the tables there are.
  has_table-update :
      (m : Text) (ts : List Table) → has_table m (update (named n) f ts) ≡ has_table m ts
  has_table-update m ts = any-update_same (named n) f (named m) (still_named m) ts

  pub update-IsSound :
      (ts : List Table)
      → ((t : Table)
          → All (λ k. has_table k.table ts ≡ true) t.foreign_keys
          → All (λ k. has_table k.table ts ≡ true) (f t).foreign_keys)
      → IsSound ts
      → IsSound (update (named n) f ts)
  update-IsSound ts keep sound =
      All-map_fun (λ t h. All-map_fun (λ k e. has_table-update k.table ts ∙ e) h)
        (All-update (named n) f (λ t own h. keep t h) sound)

-- In a table, the one item that passes a test is the one that was put there.
pub fresh_in :
    (n : Text) (q : Table → Bool) {ts : List Table}
    → has_in n q ts ≡ false
    → All (λ t. named n t ≡ true → q t ≡ false) ts
fresh_in n q {ts} e =
    All-map_fun (λ t f own. ground (arith, f, own)) (any-false (λ t. named n t && q t) ts e)
