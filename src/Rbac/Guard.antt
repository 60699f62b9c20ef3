-- ===== src/Rbac/Guard.antt =====
-- The guard of `require_permission`: what it returns or raises, and which audit rows last.
use specter_cloud.Prelude.{◌≡◌, ◌∙◌, Text, codes, true, false, Option, none, some, [], ◌∷◌, ◌++◌}
use specter_cloud.Models.{Uuid, User, AuditLog}
use specter_cloud.Permissions.{Permission}
use specter_cloud.Store.{
  Db, State, Action, Error, ok, err, http_exception, refused, commit, with_session, open_session,
  ◌>>=◌, raise, >>=_ok, >>=_err, with_session_lem, commit_accepted, commit-refused, saved,
}
use specter_cloud.Rbac.{
  PermissionCheckResult, check_permission, Request, extract_request_id, decision_row, resolve,
  authorize, checker,
}

module _ (uuid : Text → Option Uuid) (permission : Permission) (org_resolver : Option (Action Uuid))
    (request : Request) (user : User) (db : Db) (target : Uuid)
    (resolved : resolve org_resolver user (open_session db) ≡ (ok target, open_session db)) where
  abbrev outcome : PermissionCheckResult
  outcome = check_permission user permission target db

  -- the audit row of the decision
  abbrev row : AuditLog
  row = decision_row (extract_request_id uuid request) request user permission target outcome

  -- the state of the request when the decision is taken
  abbrev decided : State
  decided = record (open_session db) { pending = row ∷ [] }

  abbrev pub guard : Action User
  guard = checker uuid permission org_resolver request user

  guard_lem :
      guard (open_session db)
      ≡ authorize (extract_request_id uuid request) permission request user target (open_session db)
  unfolding checker
  guard_lem =
      >>=_ok (resolve org_resolver user)
        (authorize (extract_request_id uuid request) permission request user) (open_session db)
        resolved

  abbrev forbid : Unit {0} → Action User
  forbid _ = raise (http_exception 403 (codes "Insufficient permissions"))

  authorize_denied :
      outcome.allowed ≡ false
      → authorize (extract_request_id uuid request) permission request user target (open_session db)
        ≡ (commit >>= forbid) decided
  unfolding authorize
  authorize_denied d = rw d

  authorize_allowed :
      outcome.allowed ≡ true
      → authorize (extract_request_id uuid request) permission request user target (open_session db)
        ≡ (ok user, decided)
  unfolding authorize
  authorize_allowed a = rw a

  -- the run of such a denial
  pub deny_run :
      outcome.allowed ≡ false
      → refused db (row ∷ []) ≡ none
      → guard (open_session db)
        ≡ (err (http_exception 403 (codes "Insufficient permissions")), saved decided)
  deny_run d e =
      guard_lem ∙ authorize_denied d ∙ >>=_ok commit forbid decided (commit_accepted decided e)

  -- With the target org resolved without a change, a denial that the database accepts raises 403, and its audit row is committed.
  pub deny_persists :
      outcome.allowed ≡ false
      → refused db (row ∷ []) ≡ none
      → with_session guard db ≡ (
        err (http_exception 403 (codes "Insufficient permissions")),
        record db { audit_log = db.audit_log ++ row ∷ [] },
      )
  deny_persists d e = with_session_lem guard db (deny_run d e)

  -- With the target org resolved without a change, a denial whose audit row the database refuses
  -- raises the database's error, and leaves no row.
  pub deny_refused :
      (e : Error)
      → outcome.allowed ≡ false
      → refused db (row ∷ []) ≡ some e
      → with_session guard db ≡ (err e, db)
  deny_refused e d r =
      with_session_lem guard db (
        guard_lem ∙ authorize_denied d ∙ >>=_err commit forbid decided (commit-refused decided e r))

  -- With the target org resolved without a change, the guard lets an allowed user through and commits nothing: the audit row of the decision is
  -- pending, and a request that does not commit afterwards drops it.
  pub allow_pending :
      outcome.allowed ≡ true
      → (guard (open_session db) ≡ (ok user, decided)) × (with_session guard db ≡ (ok user, db))
  allow_pending a =
      (guard_lem ∙ authorize_allowed a, with_session_lem guard db (guard_lem ∙ authorize_allowed a))
