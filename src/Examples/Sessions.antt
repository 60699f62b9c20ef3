-- ===== src/Examples/Sessions.antt =====
-- Examples of the session requests.
use specter_cloud.Prelude.{
  [], ◌∷◌, List, ◌+◌, ◌≤◌, ◌≡◌, ◌≢◌, ◌↔◌, refl, codes, Text, none, some, All, nil, scalar,
}
use specter_cloud.Models.{Datetime, Session, bearer}
use specter_cloud.Store.{ok, with_session, commit, refused}
use specter_cloud.Sessions.{
  days, session_ttl_days, create_session, lookup_session, revoke_session, insert_session,
  session_fits, session_refers, by_token_hash,
}
use specter_cloud.Sessions.Lookup.{presented, request, debounced, IsUsable, lookup_session_iff}
use specter_cloud.Sessions.Steps.{Step, start, next, look_up, issued}
use specter_cloud.Sessions.Holds.{IsRevoked}
use specter_cloud.Sessions.Fixed.{revocation_final, expiry_final}
use specter_cloud.Sessions.Unique.{IsDistinct, no_rows, one_more, Reach-IsDistinct}
use specter_cloud.Sessions.Ledger.{SessionRequest, run, replay, view, returned, ended}
use specter_cloud.Sessions.Ledger.Refines.{Presents, run_refines}
use specter_cloud.Examples.Data.{db, platform, issue, alices, with_alices}

issued-db :
    with_session (issued platform 70 bearer none none (issue 500)) db
    ≡ (ok (codes "token", alices), with_alices)
unfolding issued with_session create_session commit insert_session refused session_fits
    session_refers
issued-db = refl

lookup_session_iff_example :
    ((request platform (codes "token") 2000 with_alices).0 ≡ ok (some alices)) ↔ (
      (row : Session) × (presented platform (codes "token") 2000 with_alices ≡ some row)
      × IsUsable 2000 row
      × (alices ≡ debounced 2000 row))
lookup_session_iff_example = lookup_session_iff platform (codes "token") 2000 with_alices alices

revocation_final_example :
    let result =
      with_session
        (lookup_session platform (codes "token") 4000)
        (with_session (revoke_session 500 (codes "logout") 3000) with_alices).1 in
    All (λ r. r.id ≡ 500 → IsRevoked 3000 (codes "logout") r) result.1.sessions
    × ((raw : Text) (now : Datetime) (s : Session)
        → (with_session (lookup_session platform raw now) result.1).0 ≡ ok (some s)
        → s.id ≢ 500)
unfolding revoke_session with_session commit scalar refused
revocation_final_example =
    revocation_final platform 500 (codes "logout") 3000 with_alices _ refl
      (next start (look_up (codes "token") 4000))

expiry_final_example : 2000 ≤ 1000 + days session_ttl_days
unfolding issued with_session create_session commit insert_session refused session_fits
    session_refers lookup_session by_token_hash scalar
expiry_final_example =
    expiry_final platform 70 bearer none none (issue 500) db _ alices refl start (codes "token")
      2000 alices refl refl

Reach-IsDistinct_example :
    IsDistinct
      (with_session (issued platform 70 bearer none none (issue 500)) with_alices).1.sessions
Reach-IsDistinct_example =
    Reach-IsDistinct (next start (Step.issue 70 bearer none none (issue 500)))
      (one_more nil no_rows)

abbrev requests : List SessionRequest
requests =
    SessionRequest.issue 70 bearer none none (issue 500)
    ∷ SessionRequest.look_up (codes "token") 2000
    ∷ SessionRequest.revoke 500 (codes "logout") 3000
    ∷ []

run_refines_example :
    let (events, last) = run platform requests db in
    (view last ≡ replay events (view db))
    × ((raw : Text) (now : Datetime) (s : Session)
        → ((with_session (lookup_session platform raw now) last).0 ≡ ok (some s))
          ↔ Presents platform raw now (replay events (view db)) s)
run_refines_example = run_refines platform requests db no_rows

-- what its replies say: the session is issued, found and revoked
requests-events :
    (run platform requests db).0
    ≡ returned alices ∷ returned alices ∷ ended 500 (codes "logout") 3000 ∷ []
unfolding issued with_session create_session commit insert_session refused session_fits
    session_refers lookup_session revoke_session scalar by_token_hash
requests-events = refl
