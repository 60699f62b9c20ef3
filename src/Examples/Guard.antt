-- ===== src/Examples/Guard.antt =====
-- Examples of the route guard.
use specter_cloud.Prelude.{ap, ◌++◌, codes, Text, ◌≡◌, refl, Option, none, some, [], ◌∷◌, select}
use specter_cloud.Models.{Uuid, User, AuditLog}
use specter_cloud.Permissions.{Permission, mission_read, mission_write}
use specter_cloud.Store.{
  State, Result, Action, pure, ok, err, http_exception, integrity_error, refused, with_session,
  open_session,
}
use specter_cloud.Rbac.{Request, check_permission, decision_row, resolve, checker}
use specter_cloud.App.RequestId.{Context, Incoming, Replied, dispatch}
use specter_cloud.App.Responses.{success, failure}
use specter_cloud.App.Identified.{IsExceptionMiddleware, guarded, audit_unlinked}
use specter_cloud.Rbac.Guard.{deny_persists, deny_refused, allow_pending}
use specter_cloud.Examples.Data.{db, alice, bob}

abbrev request : Request
request = record {
  state_request_id = none;
  client_host = some (codes "10.0.0.1");
  user_agent = some (codes "curl");
}

abbrev no_uuid : Text → Option Uuid
no_uuid raw = none

-- the audit row of a decision at org 3, without a request id
abbrev row_for : User → Permission → AuditLog
row_for user permission =
    decision_row none request user permission 3 (check_permission user permission 3 db)

deny_persists_example : with_session (checker no_uuid mission_write none request bob) db ≡ (
  err (http_exception 403 (codes "Insufficient permissions")),
  record db { audit_log = row_for bob mission_write ∷ [] },
)
unfolding refused check_permission select resolve
deny_persists_example = deny_persists no_uuid mission_write none request bob db 3 refl refl refl

allow_pending_example :
    (checker no_uuid mission_read none request alice (open_session db)
      ≡ (ok alice, record (open_session db) { pending = row_for alice mission_read ∷ [] }))
    × (with_session (checker no_uuid mission_read none request alice) db ≡ (ok alice, db))
unfolding check_permission select resolve
allow_pending_example = allow_pending no_uuid mission_read none request alice db 3 refl refl

-- a resolver that names an org without a row
deny_refused_example :
    with_session (checker no_uuid mission_write (some (λ s. (ok 44, s))) request alice) db
    ≡ (err integrity_error, db)
unfolding refused check_permission select resolve
deny_refused_example =
    deny_refused no_uuid mission_write (some (λ s. (ok 44, s))) request alice db 44 refl
      integrity_error refl refl

abbrev incoming : Incoming
incoming = record { x_request_id = some (codes "id-1"); request = request }

abbrev endpoint : User → Context → Action (Unit {0})
endpoint user context = pure tt

-- what an endpoint leaves, as a response
abbrev answer : Result (Unit {0}) × State → Result (Replied (Unit {0})) × State
answer (ok body, s) = (ok (record { content = success body; x_request_id = none }), s)
answer (err (http_exception status detail), s) =
    (ok (record { content = failure status detail; x_request_id = none }), s)
answer (err e, s) = (err e, s)

abbrev handle_exceptions : Action (Unit {0}) → Action (Replied (Unit {0}))
handle_exceptions m s = answer (m s)

handle_exceptions-IsExceptionMiddleware : IsExceptionMiddleware handle_exceptions
handle_exceptions-IsExceptionMiddleware = record {
  returned = λ m s s' body e. ap answer e;
  answered = λ m s s' status detail error e. ap answer e;
}

-- The request is denied with its own id, and the row has none.
audit_unlinked_example :
    (row : AuditLog) × (row.request_id ≡ none)
    × (with_session
          (dispatch
            (codes "fresh")
            incoming
            (λ r c. handle_exceptions (guarded no_uuid mission_write none bob endpoint r c))
            [])
          db
        ≡ (
          ok (record {
            content = failure 403 (codes "Insufficient permissions");
            x_request_id = some (codes "id-1");
          }),
          record db { audit_log = db.audit_log ++ row ∷ [] },
        ))
unfolding refused check_permission select resolve
audit_unlinked_example =
    audit_unlinked handle_exceptions (codes "fresh") incoming [] no_uuid mission_write none bob
      endpoint db 3 handle_exceptions-IsExceptionMiddleware refl refl refl refl
