-- ===== src/Login/Counts.antt =====
-- The counter of failed attempts.
use specter_cloud.Prelude.{◌<◌, All, All-update, ◌==◌}
use specter_cloud.Platform.{Platform}
use specter_cloud.Models.{User}
use specter_cloud.Store.{Db, with_session}
use specter_cloud.Login.{
  Credentials, Draw, write_user, store_user, attempt_login, lockout_threshold,
}
use specter_cloud.Login.Leaves.{Leaves, unchanged, stored, added, attempt_login-Leaves}

-- Every counter is below the threshold.
abbrev pub IsCounted : Db → Type 0
IsCounted db = All (λ u. u.failed_login_count < lockout_threshold) db.users

store-IsCounted :
    (user : User) (db : Db)
    → user.failed_login_count < lockout_threshold
    → IsCounted db
    → IsCounted (store_user user db)
store-IsCounted user db h counted =
    All-update (λ r. r.id == user.id) (write_user user) (λ x t p. h) counted

Leaves-IsCounted : {db after : Db} → Leaves db after → IsCounted db → IsCounted after
Leaves-IsCounted (unchanged e) h = rw e h
Leaves-IsCounted {db} (stored user z e) h = rw e (store-IsCounted user db z h)
Leaves-IsCounted {db} (added user s z accepted e) h = rw e (store-IsCounted user db z h)

-- Every attempt, whatever its outcome, keeps the counters of all users below five.
pub attempt_login-IsCounted :
    (platform : Platform) (c : Credentials) (draw : Draw) (db : Db)
    → IsCounted db
    → IsCounted (with_session (attempt_login platform c draw) db).1
attempt_login-IsCounted platform c draw db =
    Leaves-IsCounted (attempt_login-Leaves platform c draw db)
