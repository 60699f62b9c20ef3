-- ===== src/Routes/Audited.antt =====
-- An audit row, its commit and an answer, as the routes write them.
use specter_cloud.Prelude.{
  ◌≡◌, ◌∙◌, refl, ap, ◌⊎◌, inl, inr, Option, none, some, [], ◌∷◌, ◌++◌, Option-cases,
}
use specter_cloud.Models.{AuditLog}
use specter_cloud.Store.{
  Db, Error, Result, ok, err, Action, commit, commit_accepted, commit-refused, refused,
  open_session, settled, >>=_ok, >>=_err, after,
}
use specter_cloud.Audit.{allow, deny, write}
use specter_cloud.Routes.{write_then}

abbrev pub append_audit : AuditLog → Db → Db
append_audit row db = record db { audit_log = db.audit_log ++ row ∷ [] }

-- what is returned and left, by what the database says of the row
abbrev pub recorded_by : {A : Type 0} → Option Error → AuditLog → Result A → Db → Result A × Db
recorded_by none row r db = (r, append_audit row db)
recorded_by (some e) row r db = (err e, db)

abbrev pub recorded : {A : Type 0} → AuditLog → Result A → Db → Result A × Db
recorded row r db = recorded_by (refused db (row ∷ [])) row r db

written :
    (row : AuditLog) (db : Db)
    → (row.decision ≡ allow) ⊎ (row.decision ≡ deny)
    → write row (open_session db) ≡ (ok row, record (open_session db) { pending = row ∷ [] })
unfolding write
written row db (inl e) = rw e
written row db (inr e) = rw e

module _ {A : Type 0} (row : AuditLog) (r : Result A) (db : Db) where
  abbrev answer : Unit {0} → Action A
  answer _ s = (r, s)

  pub write_then-settled :
      (row.decision ≡ allow) ⊎ (row.decision ≡ deny)
      → write_then row (λ s. (r, s)) (open_session db) ≡ settled (recorded row r db)
  write_then-settled d =
      let decided = record (open_session db) { pending = row ∷ [] } in
      ap (λ o. after (after o (λ _. commit)) answer) (written row db d)
      ∙ elim (Option-cases (refused db (row ∷ []))) [
        | inl e ↦ >>=_ok commit answer decided (commit_accepted decided e) ∙ rw e refl
        | inr (x, e) ↦ >>=_err commit answer decided (commit-refused decided x e) ∙ rw e refl
      ]
