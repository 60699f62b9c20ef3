-- ===== src/Migrations/Backs.antt =====
-- Each operation that adds something, and the one that takes it back.
use specter_cloud.Prelude.{
  ◌≡◌, refl, ap, subst, inl, inr, Text, text_eq, text_eq_refl, text_eq→eq, Bool, true, false, not,
  ◌&&◌, &&_iff, some, List, [], ◌∷◌, ◌++◌, any, any-false, any-last, any-append_left, any-none,
  select-last, nil, cons, All-map_fun, All-append, Bool-cases,
}
use specter_cloud.Migrations.Schema.{
  Column, ForeignKey, Index, Table, Op, create_table, create_index, add_column, create_foreign_key,
  drop_table, drop_index, drop_constraint, drop_column, named, has_table, index_named, column_named,
  key_named, without, refers_to, keys_known, with_index, with_column, with_key, drop_index_in,
  drop_column_in, drop_key_in, has_in, alter,
}
use specter_cloud.Migrations.Undo.{
  IsSound, Undoes, table, index, column, key, guarded-some, put_back, update-IsSound, fresh_in,
}

-- What is left after an operation, and that the other one takes it back.
abbrev pub TakenBack : Op → List Table → List Table → Type 0
TakenBack back ts mid = (alter back mid ≡ some ts) × IsSound mid

not-true : (b : Bool) → not b ≡ true → b ≡ false
not-true true e = cc
not-true false e = refl

index_back :
    (n : Text) (i : Index) (ts mid : List Table)
    → IsSound ts
    → alter (create_index n i) ts ≡ some mid
    → TakenBack (drop_index i.name n) ts mid
unfolding alter
index_back n i ts mid sound e =
    let p = λ (t : Table). any (index_named i.name) t.indexes in
    let (ok, same) = guarded-some _ _ e in
    let (there, no_index) = (&&_iff (has_table n ts) (not (any p ts))).0 ok in
    let back =
      put_back n (with_index i) (drop_index_in i.name) p (λ t. refl)
        (λ t. any-last (index_named i.name) t.indexes i (text_eq_refl i.name)) ts there
        (All-map_fun
          (λ t f own.
            ap (λ xs. record t { indexes = xs })
              (select-last (index_named i.name) t.indexes i f (text_eq_refl i.name)))
          (any-false p ts (not-true _ no_index))) in
    subst (TakenBack (drop_index i.name n) ts) same (
      back,
      update-IsSound n (with_index i) (drop_index_in i.name) p (λ t. refl)
          (λ t. any-last (index_named i.name) t.indexes i (text_eq_refl i.name)) ts (λ t h. h)
          sound,
    )

column_back :
    (n : Text) (c : Column) (ts mid : List Table)
    → IsSound ts
    → alter (add_column n c) ts ≡ some mid
    → TakenBack (drop_column n c.name) ts mid
unfolding alter
column_back n c ts mid sound e =
    let p = λ (t : Table). any (column_named c.name) t.columns in
    let (ok, same) = guarded-some _ _ e in
    let (there, no_column) = (&&_iff (has_table n ts) (not (has_in n p ts))).0 ok in
    let made = λ (t : Table). any-last (column_named c.name) t.columns c (text_eq_refl c.name) in
    let back =
      put_back n (with_column c) (drop_column_in c.name) p (λ t. refl) made ts there
        (All-map_fun
          (λ t f own.
            ap (λ xs. record t { columns = xs })
              (select-last (column_named c.name) t.columns c (f own) (text_eq_refl c.name)))
          (fresh_in n p (not-true _ no_column))) in
    subst (TakenBack (drop_column n c.name) ts) same (
      back,
      update-IsSound n (with_column c) (drop_column_in c.name) p (λ t. refl) made ts (λ t h. h)
          sound,
    )

key_back :
    (name : Text) (k : ForeignKey) (n : Text) (ts mid : List Table)
    → IsSound ts
    → alter (create_foreign_key name k n) ts ≡ some mid
    → TakenBack (drop_constraint name n) ts mid
unfolding alter
key_back name k n ts mid sound e =
    let new = record k { name = some name } in
    let p = λ (t : Table). any (key_named name) t.foreign_keys in
    let (ok, same) = guarded-some _ _ e in
    let (both, no_key) =
      (&&_iff (has_table n ts && has_table k.table ts) (not (has_in n p ts))).0 ok in
    let (there, known) = (&&_iff (has_table n ts) (has_table k.table ts)).0 both in
    let made = λ (t : Table). any-last (key_named name) t.foreign_keys new (text_eq_refl name) in
    let back =
      put_back n (with_key new) (drop_key_in name) p (λ t. refl) made ts there
        (All-map_fun
          (λ t f own.
            ap (λ xs. record t { foreign_keys = xs })
              (select-last (key_named name) t.foreign_keys new (f own) (text_eq_refl name)))
          (fresh_in n p (not-true _ no_key))) in
    subst (TakenBack (drop_constraint name n) ts) same (
      back,
      update-IsSound n (with_key new) (drop_key_in name) p (λ t. refl) made ts
          (λ t h. All-append h (cons known nil)) sound,
    )

-- Nothing refers to a table that is not there.
unreferenced :
    (n : Text) {ts : List Table}
    → IsSound ts
    → has_table n ts ≡ false
    → any (refers_to n) ts ≡ false
unreferenced n {ts} sound absent = any-none (refers_to n) (
    All-map_fun
      (λ t h.
        any-none (λ k. text_eq k.table n)
          (All-map_fun
            (λ k e. elim (Bool-cases (text_eq k.table n)) [
              | inl same ↦
                  absurd (cc (ap (λ m. has_table m ts) (text_eq→eq k.table n same), e, absent))
              | inr other ↦ other
            ])
            h))
      sound)

table_back :
    (t : Table) (ts mid : List Table)
    → IsSound ts
    → alter (create_table t) ts ≡ some mid
    → TakenBack (drop_table t.name) ts mid
unfolding alter
table_back t ts mid sound e =
    let after = ts ++ t ∷ [] in
    let (ok, same) = guarded-some _ _ e in
    let (new, known) =
      (&&_iff (not (has_table t.name ts)) (keys_known t.foreign_keys after)).0 ok in
    let absent = not-true (has_table t.name ts) new in
    let left : without (named t.name) after ≡ ts =
      select-last (named t.name) ts t absent (text_eq_refl t.name) in
    let there : has_table t.name after ≡ true =
      any-last (named t.name) ts t (text_eq_refl t.name) in
    subst (TakenBack (drop_table t.name) ts) same (
      rw (there, left, unreferenced t.name sound absent) refl,
      All-append
          (All-map_fun (λ u h. All-map_fun (λ k f. any-append_left (named k.table) ts (t ∷ []) f) h)
            sound)
          (cons
            (All-map_fun (λ k f. not_false _ f)
              (any-false (λ k. not (has_table k.table after)) t.foreign_keys (not-true _ known)))
            nil),
    )
  where
    not_false : (b : Bool) → not b ≡ false → b ≡ true
    not_false true e = refl
    not_false false e = cc

pub taken_back :
    {op back : Op} (ts mid : List Table)
    → Undoes op back
    → IsSound ts
    → alter op ts ≡ some mid
    → TakenBack back ts mid
taken_back ts mid (table t) sound e = table_back t ts mid sound e
taken_back ts mid (index n i) sound e = index_back n i ts mid sound e
taken_back ts mid (column n c) sound e = column_back n c ts mid sound e
taken_back ts mid (key name k n) sound e = key_back name k n ts mid sound e
