-- ===== src/Dependencies/Authenticated.antt =====
-- The state that `get_current_user` leaves when it lets a user through.
use specter_cloud.Prelude.{◌≡◌, ◌∙◌, ap, Text, Bool, true, Option, some, if◌then◌else◌}
use specter_cloud.Platform.{Platform}
use specter_cloud.Models.{Datetime, User}
use specter_cloud.Store.{settled, pure, Db, State, ok, open_session, after}
use specter_cloud.Sessions.Lookup.{
  looked_up, lookup_session_run, debounced, debounced_db, is_live_iff,
}
use specter_cloud.Dependencies.{
  get_user, inactive, check_user, check_session, check_token, get_current_user,
}
use specter_cloud.Dependencies.CurrentUser.{IsAuthenticated, debounced-user, debounced-users}

-- An active user passes the last check.
check_user-active :
    (o : Option User) (u : User) (s : State)
    → o ≡ some u
    → u.is_active ≡ true
    → check_user o s ≡ (ok u, s)
unfolding check_user
check_user-active o u s e a =
    ap (λ x. check_user x s) e ∙ ap (λ (b : Bool). (if b then pure u else inactive) s) a

module _ (platform : Platform) (cookie_token authorization : Option Text) (now : Datetime) (db : Db)
    (u : User) where
  pub get_current_user-settled :
      (a : IsAuthenticated platform cookie_token authorization now db u)
      → get_current_user platform cookie_token authorization now (open_session db)
        ≡ settled (ok u, debounced_db now a.row db)
  unfolding get_current_user check_session
  get_current_user-settled a =
      let row = a.row in
      ap (λ t. check_token platform now t (open_session db)) a.credential
      ∙ ap (λ r. after r check_session) (lookup_session_run platform a.raw now db)
      ∙ ap (λ o. after ((looked_up now o db).0, open_session (looked_up now o db).1) check_session)
          a.found
      ∙ rw ((is_live_iff now row).1 a.usable) (
          check_user-active (get_user (debounced now row).user_id (debounced_db now row db)) u
            (open_session (debounced_db now row db))
            (ap (λ i. get_user i (debounced_db now row db)) (debounced-user now row)
              ∙ debounced-users now row row.user_id db
              ∙ a.of_row)
            a.active)
