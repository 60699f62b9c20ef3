-- ===== src/Migrations/Restore.antt =====
-- A downgrade that takes the operations of an upgrade back in the reverse order restores the schema.
use mathlib.Core.List.{append-nil}
use specter_cloud.Prelude.{
  ◌≡◌, ◌∙◌, refl, ap, sym, subst, Bool, true, false, ◌&&◌, Option, none, some, List, [], ◌∷◌, ◌++◌,
}
use specter_cloud.Migrations.Schema.{
  if_some, Table, Op, create_table, create_index, add_column, create_foreign_key, bulk_insert,
  drop_table, drop_index, drop_constraint, drop_column, has_table, alter, migrate,
}
use specter_cloud.Migrations.Undo.{
  IsSound, table, index, column, key, Reverses, done, undo, keep_rows, guarded-some,
}
use specter_cloud.Migrations.Backs.{taken_back}

migrate-some :
    (op : Op) (ops : List Op) (ts last : List Table)
    → migrate (op ∷ ops) ts ≡ some last
    → (mid : List Table) × (alter op ts ≡ some mid) × (migrate ops mid ≡ some last)
unfolding migrate
migrate-some op ops ts last e = by_step (alter op ts) refl e
  where
    by_step :
        (o : Option (List Table))
        → alter op ts ≡ o
        → if_some o (migrate ops) ≡ some last
        → (mid : List Table) × (alter op ts ≡ some mid) × (migrate ops mid ≡ some last)
    by_step none s h = absurd (cc h)
    by_step (some mid) s h = (mid, s, h)

migrate-append :
    (ops : List Op) (back : Op) (ts mid last : List Table)
    → migrate ops ts ≡ some mid
    → alter back mid ≡ some last
    → migrate (ops ++ back ∷ []) ts ≡ some last
unfolding migrate
migrate-append [] back ts mid last e h =
    let same : ts ≡ mid = cc e in ap (λ o. if_some o some) (ap (alter back) same ∙ h)
migrate-append (op ∷ ops) back ts mid last e h =
    let (next, first, rest) = migrate-some op ops ts mid e in
    ap (λ o. if_some o (migrate (ops ++ back ∷ []))) first
    ∙ migrate-append ops back next mid last rest h

-- On tables whose foreign keys refer to tables, a downgrade that reverses an upgrade which succeeds also
-- succeeds and restores the tables, columns, keys and indexes as they were.
pub downgrade_restores :
    (ups downs : List Op) (ts last : List Table)
    → Reverses ups downs
    → IsSound ts
    → migrate ups ts ≡ some last
    → migrate downs last ≡ some ts
unfolding migrate alter
downgrade_restores ups downs ts last done sound e = sym e
downgrade_restores ups downs ts last (undo {op} {back} {ups = rest} {downs = earlier} u r) sound e =
    let (mid, first, others) = migrate-some op rest ts last e in
    let (back_again, still) = taken_back ts mid u sound first in
    migrate-append earlier back last mid ts
      (downgrade_restores rest earlier mid last r still others) back_again
downgrade_restores ups downs ts last (keep_rows {n} {rows} {ups = rest} r) sound e =
    let (mid, first, others) = migrate-some (bulk_insert n rows) rest ts last e in
    downgrade_restores rest downs ts last r sound
      (ap (migrate rest) (guarded-some (has_table n ts) ts first).1 ∙ others)

-- the operations that take an operation back; none for the insertion of rows
abbrev pub backs : Op → List Op
backs (create_table t) = drop_table t.name ∷ []
backs (create_index n i) = drop_index i.name n ∷ []
backs (add_column n c) = drop_column n c.name ∷ []
backs (create_foreign_key name k n) = drop_constraint name n ∷ []
backs _ = []

abbrev pub reversal : List Op → List Op
reversal [] = []
reversal (op ∷ ops) = reversal ops ++ backs op

-- whether every operation adds something
abbrev adds : Op → Bool
adds (create_table t) = true
adds (create_index n i) = true
adds (add_column n c) = true
adds (create_foreign_key name k n) = true
adds (bulk_insert n rows) = true
adds _ = false

abbrev pub all_add : List Op → Bool
all_add [] = true
all_add (op ∷ ops) = adds op && all_add ops

pub reversal-Reverses : (ops : List Op) → all_add ops ≡ true → Reverses ops (reversal ops)
reversal-Reverses [] e = done
reversal-Reverses (create_table t ∷ ops) e = undo (table t) (reversal-Reverses ops e)
reversal-Reverses (create_index n i ∷ ops) e = undo (index n i) (reversal-Reverses ops e)
reversal-Reverses (add_column n c ∷ ops) e = undo (column n c) (reversal-Reverses ops e)
reversal-Reverses (create_foreign_key name k n ∷ ops) e =
    undo (key name k n) (reversal-Reverses ops e)
reversal-Reverses (bulk_insert n rows ∷ ops) e =
    subst (Reverses (bulk_insert n rows ∷ ops)) (sym (append-nil (reversal ops)))
      (keep_rows (reversal-Reverses ops e))
reversal-Reverses (drop_table n ∷ ops) e = absurd (cc e)
reversal-Reverses (drop_index name n ∷ ops) e = absurd (cc e)
reversal-Reverses (drop_constraint name n ∷ ops) e = absurd (cc e)
reversal-Reverses (drop_column n name ∷ ops) e = absurd (cc e)
