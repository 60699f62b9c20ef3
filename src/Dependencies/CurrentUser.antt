-- ===== src/Dependencies/CurrentUser.antt =====
-- Which requests `get_current_user` lets through, and what it answers the others.
use specter_cloud.Prelude.{
  non_empty, ◌≡◌, ◌∙◌, refl, ap, sym, ◌↔◌, inl, inr, Text, codes, Bool, true, false, Option, none,
  some, if◌then◌else◌, ltb, ◌+◌, Bool-cases,
}
use specter_cloud.Platform.{Platform}
use specter_cloud.Models.{Uuid, Datetime, User, Session}
use specter_cloud.Store.{Db, State, Result, ok, err, open_session, with_session, after}
use specter_cloud.Sessions.{hash_token, by_token_hash, is_live, minutes, last_seen_debounce_minutes}
use specter_cloud.Sessions.Lookup.{
  presented, looked_up, lookup_session_run, debounced, debounced_db, is_live_iff, IsUsable,
}
use specter_cloud.Dependencies.{
  unauthorized, raw_token, get_user, inactive, check_user, check_session, check_token,
  get_current_user,
}

-- what the checks after the lookup answer
abbrev pub answer_user : Option User → Result User
answer_user none = err (unauthorized (codes "Account inactive"))
answer_user (some user) =
    if user.is_active then ok user else err (unauthorized (codes "Account inactive"))

abbrev pub answer_session : Db → Datetime → Option Session → Result User
answer_session db now none = err (unauthorized (codes "Invalid or expired session"))
answer_session db now (some s) =
    if is_live now s
    then answer_user (get_user s.user_id db)
    else err (unauthorized (codes "Invalid or expired session"))

abbrev pub answer : Platform → Datetime → Db → Option Text → Result User
answer platform now db none = err (unauthorized (codes "Authentication required"))
answer platform now db (some raw) = answer_session db now (presented platform raw now db)

check_user-answer : (o : Option User) (s : State) → (check_user o s).0 ≡ answer_user o
unfolding check_user
check_user-answer none s = refl
check_user-answer (some user) s = by_active user.is_active
  where
    by_active :
        (active : Bool)
        → ((if active then (λ (t : State). (ok user, t)) else inactive) s).0
          ≡ (if active then ok user else err (unauthorized (codes "Account inactive")))
    by_active true = refl
    by_active false = refl

pub debounced-user : (now : Datetime) (s : Session) → (debounced now s).user_id ≡ s.user_id
debounced-user now s =
    elim (Bool-cases (ltb (s.last_seen_at + minutes last_seen_debounce_minutes) now)) [
      | inl stale ↦ rw stale refl
      | inr fresh ↦ rw fresh refl
    ]

pub debounced-users :
    (now : Datetime) (s : Session) (id : Uuid) (db : Db)
    → get_user id (debounced_db now s db) ≡ get_user id db
unfolding get_user
debounced-users now s id db =
    elim (Bool-cases (ltb (s.last_seen_at + minutes last_seen_debounce_minutes) now)) [
      | inl stale ↦ rw stale refl
      | inr fresh ↦ rw fresh refl
    ]

check_session-answer :
    (db : Db) (now : Datetime) (o : Option Session)
    → (after ((looked_up now o db).0, open_session (looked_up now o db).1) check_session).0
      ≡ answer_session db now o
unfolding check_session
check_session-answer db now none = refl
check_session-answer db now (some s) = elim (Bool-cases (is_live now s)) [
  | inl live ↦ rw live (
      check_user-answer (get_user (debounced now s).user_id (debounced_db now s db))
        (open_session (debounced_db now s db))
      ∙ ap answer_user (
          ap (λ i. get_user i (debounced_db now s db)) (debounced-user now s)
          ∙ debounced-users now s s.user_id db))
  | inr dead ↦ rw dead refl
]

pub presented-by_token_hash :
    (platform : Platform) (t : Text) (now : Datetime) (db : Db) (row : Session)
    → presented platform t now db ≡ some row
    → (non_empty t ≡ true) × (by_token_hash (hash_token platform t) db ≡ some row)
presented-by_token_hash platform t now db row found = elim (Bool-cases (non_empty t)) [
  | inl e ↦ (e, rw e at found)
  | inr e ↦ absurd (cc (rw e at found))
]

module _ (platform : Platform) (cookie_token authorization : Option Text) (now : Datetime)
    (db : Db) where
  abbrev result : Result User
  result = (with_session (get_current_user platform cookie_token authorization now) db).0

  check_token-answer :
      (o : Option Text)
      → (check_token platform now o (open_session db)).0 ≡ answer platform now db o
  unfolding check_token
  check_token-answer none = refl
  check_token-answer (some raw) =
      ap (λ r. (after r check_session).0) (lookup_session_run platform raw now db)
      ∙ check_session-answer db now (presented platform raw now db)

  get_current_user_lem :
      result ≡ answer platform now db (raw_token platform cookie_token authorization)
  unfolding get_current_user with_session
  get_current_user_lem = check_token-answer (raw_token platform cookie_token authorization)

  -- what lets a user through
  pub record IsAuthenticated (u : User) : Type 0 where
    pub raw : Text
    pub row : Session
    pub credential : raw_token platform cookie_token authorization ≡ some raw
    pub found : presented platform raw now db ≡ some row
    pub usable : IsUsable now row
    pub of_row : get_user row.user_id db ≡ some u
    pub active : u.is_active ≡ true

  answer_user-ok :
      (o : Option User) (u : User) → answer_user o ≡ ok u → (o ≡ some u) × (u.is_active ≡ true)
  answer_user-ok none u h = absurd (cc h)
  answer_user-ok (some user) u h = by_active user.is_active refl h
    where
      by_active :
          (active : Bool)
          → user.is_active ≡ active
          → (if active then ok user else err (unauthorized (codes "Account inactive"))) ≡ ok u
          → (some user ≡ some u) × (u.is_active ≡ true)
      by_active true e h =
          let same : user ≡ u = cc h in
          (ap some same, ap (λ (x : User). x.is_active) (sym same) ∙ e)
      by_active false e h = absurd (cc h)

  answer-ok :
      (o : Option Text) (u : User)
      → raw_token platform cookie_token authorization ≡ o
      → answer platform now db o ≡ ok u
      → IsAuthenticated u
  answer-ok none u c h = absurd (cc h)
  answer-ok (some raw) u c h = by_row (presented platform raw now db) refl h
    where
      by_row :
          (o : Option Session)
          → presented platform raw now db ≡ o
          → answer_session db now o ≡ ok u
          → IsAuthenticated u
      by_row none e h = absurd (cc h)
      by_row (some s) e h = elim (Bool-cases (is_live now s)) [
        | inl live ↦
            let (of_row, active) = answer_user-ok (get_user s.user_id db) u (rw live at h) in
            record {
              raw = raw;
              row = s;
              credential = c;
              found = e;
              usable = (is_live_iff now s).0 live;
              of_row = of_row;
              active = active;
            }
        | inr dead ↦ absurd (cc (rw dead at h))
      ]

  authenticated-answer :
      (u : User)
      → IsAuthenticated u
      → answer platform now db (raw_token platform cookie_token authorization) ≡ ok u
  authenticated-answer u a =
      rw (a.credential, a.found, (is_live_iff now a.row).1 a.usable, a.of_row)
        (ap (λ b. if b then ok u else err (unauthorized (codes "Account inactive"))) a.active)

  -- A request is let through as a user exactly when the checks of the code let it through.
  pub get_current_user-IsAuthenticated : (u : User) → (result ≡ ok u) ↔ IsAuthenticated u
  get_current_user-IsAuthenticated u = (
    λ h. answer-ok _ u refl (rw get_current_user_lem at h),
    λ a. get_current_user_lem ∙ authenticated-answer u a,
  )
