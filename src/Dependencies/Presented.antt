-- ===== src/Dependencies/Presented.antt =====
-- Which requests `get_current_user` lets through, in terms of the headers and the rows alone.
use specter_cloud.Prelude.{
  Option-cases, subst, text_eq_iff, ◌≡◌, ◌∙◌, refl, ap, sym, ◌↔◌, inl, inr, Text, codes, text_eq,
  text_eq→eq, strip, split_once, non_empty, Bool, true, false, Option, none, some, List, [], ◌∷◌,
  ◌++◌, All, nil, cons, scalar, Bool-cases, ◌==◌, ==_iff,
}
use specter_cloud.ApiKey.Format.{split_once-append, split_once-some}
use specter_cloud.Platform.{Platform}
use specter_cloud.Models.{Uuid, Datetime, User, Session}
use specter_cloud.Store.{Db, ok, with_session}
use specter_cloud.Sessions.{by_token_hash, hash_token}
use specter_cloud.Sessions.Lookup.{IsUsable}
use specter_cloud.Dependencies.{bearer_part, bearer_token, raw_token, get_user, get_current_user}
use specter_cloud.Dependencies.CurrentUser.{
  presented-by_token_hash, IsAuthenticated, get_current_user-IsAuthenticated,
}

before_blank :
    (header : Text) {scheme rest : Text}
    → split_once 32 header ≡ some (scheme, rest)
    → All (λ c. (c == 32) ≡ false) scheme
unfolding split_once
before_blank [] h = absurd (cc h)
before_blank (c ∷ header) {scheme} {rest} h = elim (Bool-cases (c == 32)) [
  | inl blank ↦
      let q : some ([], header) ≡ some (scheme, rest) = rw blank at h in
      subst (All (λ c. (c == 32) ≡ false)) (cc q) nil
  | inr other ↦ elim (Option-cases (split_once 32 header)) [
    | inl n ↦ absurd (cc (rw (other, n) at h))
    | inr ((a, b), e) ↦
        let q : some (c ∷ a, b) ≡ some (scheme, rest) = rw (other, e) at h in
        subst (All (λ c. (c == 32) ≡ false)) (cc q) (cons other (before_blank header e))
  ]
]

-- the first row of which something holds
pub record IsFirst {A : Type 0} (P : A → Type 0) (x : A) (xs : List A) : Type 0 where
  pub before : List A
  pub rest : List A
  pub rows : xs ≡ before ++ x ∷ rest
  pub not_before : All (λ y. ¬ P y) before
  pub holds : P x

module _ {A : Type 0} (p : A → Bool) (P : A → Type 0) (decides : (y : A) → (p y ≡ true) ↔ P y) where
  scalar-IsFirst : (xs : List A) {x : A} → scalar p xs ≡ some x → IsFirst P x xs
  unfolding scalar
  scalar-IsFirst [] h = absurd (cc h)
  scalar-IsFirst (y ∷ ys) {x} h = elim (Bool-cases (p y)) [
    | inl pass ↦
        let same : y ≡ x = cc (rw pass at h) in
        record {
          before = [];
          rest = ys;
          rows = ap (λ z. z ∷ ys) same;
          not_before = nil;
          holds = (decides x).0 (ap p (sym same) ∙ pass);
        }
    | inr fail ↦
        let first = scalar-IsFirst ys (rw fail at h) in
        record {
          before = y ∷ first.before;
          rest = first.rest;
          rows = ap (λ zs. y ∷ zs) first.rows;
          not_before = cons (λ q. absurd (cc ((decides y).1 q, fail))) first.not_before;
          holds = first.holds;
        }
  ]

  scalar-first :
      (before rest : List A) (x : A)
      → All (λ y. ¬ P y) before
      → P x
      → scalar p (before ++ x ∷ rest) ≡ some x
  unfolding scalar
  scalar-first [] rest x h q = rw ((decides x).1 q) refl
  scalar-first (y ∷ before) rest x (cons other h) q = elim (Bool-cases (p y)) [
    | inl pass ↦ absurd (other ((decides y).0 pass))
    | inr fail ↦ rw fail (scalar-first before rest x h q)
  ]

  scalar_iff : (xs : List A) (x : A) → (scalar p xs ≡ some x) ↔ IsFirst P x xs
  scalar_iff xs x = (
    scalar-IsFirst xs,
    λ f. ap (scalar p) f.rows ∙ scalar-first f.before f.rest x f.not_before f.holds,
  )

-- an Authorization header that bears a token: the scheme is the text before the first blank, in any case of its
-- letters, and the token is what follows without the blanks around it
pub record Bears (platform : Platform) (header raw : Text) : Type 0 where
  pub scheme : Text
  pub rest : Text
  pub parts : header ≡ scheme ++ 32 ∷ rest
  pub no_blank : All (λ c. (c == 32) ≡ false) scheme
  pub is_bearer : platform.lower scheme ≡ codes "bearer"
  pub token : raw ≡ strip rest
  pub some_token : non_empty raw ≡ true

-- the token that a request presents
pub data Presents (platform : Platform) (cookie_token authorization : Option Text) (raw : Text)
    : Type 0 where
  by_cookie : cookie_token ≡ some raw → Presents platform cookie_token authorization raw
  by_header :
      (header : Text)
      → cookie_token ≡ none
      → authorization ≡ some header
      → Bears platform header raw
      → Presents platform cookie_token authorization raw

module _ (platform : Platform) where
  bearer_part-Bears :
      (header : Text) (o : Option (Text × Text)) {raw : Text}
      → split_once 32 header ≡ o
      → bearer_part platform o ≡ some raw
      → Bears platform header raw
  bearer_part-Bears header none e h = absurd (cc h)
  bearer_part-Bears header (some (scheme, rest)) {raw} e h =
      elim (Bool-cases (text_eq (platform.lower scheme) (codes "bearer"))) [
        | inl bearer ↦ elim (Bool-cases (non_empty (strip rest))) [
          | inl token ↦
              let same : strip rest ≡ raw = cc (rw (bearer, token) at h) in
              record {
                scheme = scheme;
                rest = rest;
                parts = split_once-some 32 header e;
                no_blank = before_blank header e;
                is_bearer = text_eq→eq (platform.lower scheme) (codes "bearer") bearer;
                token = sym same;
                some_token = ap non_empty (sym same) ∙ token;
              }
          | inr empty ↦ absurd (cc (rw (bearer, empty) at h))
        ]
        | inr other ↦ absurd (cc (rw other at h))
      ]

  Bears-bearer_token :
      (header raw : Text) → Bears platform header raw → bearer_token platform header ≡ some raw
  unfolding bearer_token
  Bears-bearer_token header raw b =
      let token : non_empty (strip b.rest) ≡ true = ap non_empty (sym b.token) ∙ b.some_token in
      let bearer : text_eq (platform.lower b.scheme) (codes "bearer") ≡ true =
        (text_eq_iff _ _).1 b.is_bearer in
      ap (λ t. bearer_part platform (split_once 32 t)) b.parts
      ∙ ap (bearer_part platform) (split_once-append 32 b.rest b.no_blank)
      ∙ rw (bearer, token) (ap some (sym b.token))

  raw_token-Presents :
      (cookie_token authorization : Option Text) {raw : Text}
      → raw_token platform cookie_token authorization ≡ some raw
      → Presents platform cookie_token authorization raw
  unfolding raw_token bearer_token
  raw_token-Presents (some cookie) authorization h = by_cookie h
  raw_token-Presents none none h = absurd (cc h)
  raw_token-Presents none (some header) h =
      by_header header refl refl (bearer_part-Bears header _ refl h)

  Presents-raw_token :
      (cookie_token authorization : Option Text) (raw : Text)
      → Presents platform cookie_token authorization raw
      → raw_token platform cookie_token authorization ≡ some raw
  unfolding raw_token
  Presents-raw_token cookie_token authorization raw (by_cookie e) =
      ap (λ c. raw_token platform c authorization) e
  Presents-raw_token cookie_token authorization raw (by_header header e f b) =
      rw (e, f) (Bears-bearer_token header raw b)

module _ (platform : Platform) (cookie_token authorization : Option Text) (now : Datetime)
    (db : Db) where
  -- What lets a request through as a user: a token, the first session with the token's SHA-256, which is usable,
  -- and the first user with the id of that session, who is active.
  pub record IsLetThrough (u : User) : Type 0 where
    pub raw : Text
    pub row : Session
    pub credential : Presents platform cookie_token authorization raw
    pub some_token : non_empty raw ≡ true
    pub found : IsFirst (λ s. s.token_hash ≡ platform.sha256_hex raw) row db.sessions
    pub usable : IsUsable now row
    pub of_row : IsFirst (λ v. v.id ≡ row.user_id) u db.users
    pub active : u.is_active ≡ true

  by_hash_iff :
      (raw : Text) (row : Session)
      → (by_token_hash (hash_token platform raw) db ≡ some row)
        ↔ IsFirst (λ s. s.token_hash ≡ platform.sha256_hex raw) row db.sessions
  unfolding by_token_hash hash_token
  by_hash_iff raw =
      scalar_iff (λ (s : Session). text_eq s.token_hash (platform.sha256_hex raw)) _
        (λ s. text_eq_iff s.token_hash (platform.sha256_hex raw)) db.sessions

  by_id_iff :
      (id : Uuid) (u : User) → (get_user id db ≡ some u) ↔ IsFirst (λ v. v.id ≡ id) u db.users
  unfolding get_user
  by_id_iff id = scalar_iff (λ (v : User). v.id == id) _ (λ v. ==_iff v.id id) db.users

  authenticated-IsLetThrough :
      (u : User) → IsAuthenticated platform cookie_token authorization now db u → IsLetThrough u
  authenticated-IsLetThrough u a =
      let (token, found) = presented-by_token_hash platform a.raw now db a.row a.found in
      record {
        raw = a.raw;
        row = a.row;
        credential = raw_token-Presents platform cookie_token authorization a.credential;
        some_token = token;
        found = (by_hash_iff a.raw a.row).0 found;
        usable = a.usable;
        of_row = (by_id_iff a.row.user_id u).0 a.of_row;
        active = a.active;
      }

  let_through-IsAuthenticated :
      (u : User) → IsLetThrough u → IsAuthenticated platform cookie_token authorization now db u
  let_through-IsAuthenticated u l = record {
    raw = l.raw;
    row = l.row;
    credential = Presents-raw_token platform cookie_token authorization l.raw l.credential;
    found = rw l.some_token ((by_hash_iff l.raw l.row).1 l.found);
    usable = l.usable;
    of_row = (by_id_iff l.row.user_id u).1 l.of_row;
    active = l.active;
  }

  -- A request is let through as a user exactly when it presents a token that is not empty, the first session whose
  -- hash is the SHA-256 of the token is usable, and the first user with the session's user id is that user and is
  -- active. The token is the cookie's; without a cookie it is that of an Authorization header whose scheme, in any
  -- case of its letters, is bearer.
  pub get_current_user_iff :
      (u : User)
      → ((with_session (get_current_user platform cookie_token authorization now) db).0 ≡ ok u)
        ↔ IsLetThrough u
  get_current_user_iff u =
      let answered =
        get_current_user-IsAuthenticated platform cookie_token authorization now db u in
      (
        λ h. authenticated-IsLetThrough u (answered.0 h),
        λ l. answered.1 (let_through-IsAuthenticated u l),
      )
