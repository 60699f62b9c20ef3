-- ===== src/Sessions/Keys.antt =====
-- The unique keys of `sessions`: a row is inserted only with an id and a token hash of its own.
use specter_cloud.Prelude.{
  ◌≡◌, ◌≢◌, true, false, ◌||◌, All, All-map_fun, any-false, arith, text_eq, text_eq_iff, ◌==◌,
}
use specter_cloud.Models.{Session}
use specter_cloud.Store.{Db}
use specter_cloud.Sessions.{session_refers}

-- `r` has neither the id nor the token hash of `s`.
abbrev pub IsApart : Session → Session → Type 0
IsApart s r = (r.id ≢ s.id) × (r.token_hash ≢ s.token_hash)

test-IsApart :
    (s r : Session) → (r.id == s.id || text_eq r.token_hash s.token_hash) ≡ false → IsApart s r
test-IsApart s r e = (
  λ same. absurd (ground arith),
  λ same. absurd (ground (arith, text_eq_iff r.token_hash s.token_hash)),
)

pub session_refers-IsApart :
    (db : Db) (s : Session) → session_refers db s ≡ true → All (IsApart s) db.sessions
unfolding session_refers
session_refers-IsApart db s h =
    All-map_fun (test-IsApart s) (any-false _ db.sessions (ground arith))
