-- ===== src/Sessions/RevokeAll.antt =====
-- `revoke_all_user_sessions`: what it counts, what it revokes and what it leaves alone.
use specter_cloud.Prelude.{
  ℕ, ◌≤◌, ◌≡◌, refl, ap, ◌⊎◌, inl, inr, Text, Bool, true, false, Option, none, some, List, [], ◌∷◌,
  Any, All-update_cases, Any-update, select-none, arith, select, length, leb, le→leb,
}
use specter_cloud.Models.{Uuid, Datetime, SessionTransport, Session}
use specter_cloud.Store.{Db, Result, ok, with_session}
use specter_cloud.Sessions.{revoked, is_target, revoke_all_user_sessions}
use specter_cloud.Sessions.Requests.{revoked_rows, revoke_all_lem}

revoked-not_target :
    (user_id : Uuid) (t : Option SessionTransport) (now : Datetime) (reason : Text) (r : Session)
    → is_target user_id t (revoked now reason r) ≡ false
unfolding is_target
revoked-not_target user_id none now reason r = ground arith
revoked-not_target user_id (some t) now reason r = ground arith

List-cases : {A : Type 0} (xs : List A) → (xs ≡ []) ⊎ ((y : A) × (ys : List A) × (xs ≡ y ∷ ys))
List-cases [] = inl refl
List-cases (y ∷ ys) = inr (y, ys, refl)

-- What a mass revocation achieves: the count is that of the sessions it is meant for, none of them
-- is active afterwards, and every other row is as it was.
pub record RevokesAll (target : Session → Bool) (db : Db) (result : Result ℕ × Db) : Type 0 where
  pub counted : result.0 ≡ ok (length (select target db.sessions))
  pub none_left : select target result.1.sessions ≡ []
  pub others :
      (r : Session)
      → Any (λ x. x ≡ r) db.sessions
      → target r ≡ false
      → Any (λ x. x ≡ r) result.1.sessions

module _ (user_id : Uuid) (reason : Text) (t : Option SessionTransport) (now : Datetime)
    (db : Db) where
  abbrev target : Session → Bool
  target = is_target user_id t

  revoked_rows-RevokesAll :
      (rows : List Session)
      → select target db.sessions ≡ rows
      → leb (length reason) 40 ≡ true
      → RevokesAll target db (revoked_rows user_id reason t now rows db)
  revoked_rows-RevokesAll [] e short = record {
    counted = rw e refl;
    none_left = e;
    others = λ r m f. m;
  }
  revoked_rows-RevokesAll (y ∷ rows) e short = rw short (record {
    counted = rw e refl;
    none_left = select-none target _ (
        All-update_cases target (revoked now reason) db.sessions
          (λ r _ _. revoked-not_target user_id t now reason r) (λ r _ f. f));
    others = λ r m f.
        Any-update target (revoked now reason) (λ x p same. absurd (cc (ap target same, p, f)))
          (λ x p same. same) m;
  })

  -- With a reason that fits its column, `revoke_all_user_sessions` revokes exactly the active
  -- sessions of the user, over the given transport if one is given, and returns their number.
  pub revoke_all-RevokesAll :
      length reason ≤ 40
      → RevokesAll target db (with_session (revoke_all_user_sessions user_id reason t now) db)
  revoke_all-RevokesAll h =
      rw revoke_all_lem (revoked_rows-RevokesAll (select target db.sessions) refl (le→leb _ _ h))
