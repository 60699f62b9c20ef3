-- ===== src/App/Identified.antt =====
-- What the id of a request is bound to.
use specter_cloud.Prelude.{
  arith, ◌≤◌, ℕ, ◌≡◌, ◌∙◌, ap, Text, codes, false, Option, none, some, [], ◌∷◌, ◌++◌,
}
use specter_cloud.Models.{Uuid, User, AuditLog}
use specter_cloud.Store.{
  Db, State, Result, http_exception, ok, err, Action, pure, ◌>>=◌, after, open_session, refused,
  with_session, with_session_lem, >>=_err,
}
use specter_cloud.Permissions.{Permission}
use specter_cloud.Rbac.{
  Request, check_permission, extract_request_id, decision_row, resolve, checker,
}
use specter_cloud.Rbac.Guard.{deny_run}
use specter_cloud.App.Responses.{success, failure}
use specter_cloud.App.RequestId.{
  Context, Incoming, Replied, header_or, request_context, with_header, dispatch,
}

module _ {A : Type 0} (fresh : Text) (incoming : Incoming)
    (call_next : Request → Context → Action (Replied A)) (before : Context) where
  abbrev request_id : Text
  request_id = header_or fresh incoming.x_request_id

  by_result :
      (o : Result (Replied A) × State) {response : Replied A} {s' : State}
      → after o (λ r. pure (with_header request_id r)) ≡ (ok response, s')
      → (inner : Replied A) × (o ≡ (ok inner, s'))
        × (response.x_request_id ≡ some request_id)
        × (response.content ≡ inner.content)
  by_result (ok inner, t) h =
      (inner, ap (λ (o : Result (Replied A) × State). (ok inner, o.1)) h, cc h, cc h)
  by_result (err x, t) h = absurd (cc (ap (λ (o : Result (Replied A) × State). o.0) h))

  -- Whatever context an earlier request left and whatever the endpoint does, it runs with the id of the request as its
  -- only context, and the response that comes back has the same id as its header and the endpoint's content.
  pub dispatch_identifies :
      (s s' : State) (response : Replied A)
      → dispatch fresh incoming call_next before s ≡ (ok response, s')
      → (inner : Replied A) × (call_next incoming.request ((codes "request_id", request_id) ∷ []) s
          ≡ (ok inner, s'))
        × (response.x_request_id ≡ some request_id)
        × (response.content ≡ inner.content)
  unfolding dispatch
  dispatch_identifies s s' response h =
      by_result (call_next incoming.request (request_context request_id before) s) h

-- What Starlette documents of its ExceptionMiddleware, which stands between `call_next` and the endpoint: a body is
-- passed on, and an HTTPException of an error status is a response with its status and detail; neither has an
-- X-Request-ID yet.
pub record IsExceptionMiddleware {A : Type 0} (handle_exceptions : Action A → Action (Replied A))
    : Type 0 where
  pub returned :
      (endpoint : Action A) (s s' : State) (body : A)
      → endpoint s ≡ (ok body, s')
      → handle_exceptions endpoint s
        ≡ (ok (record { content = success body; x_request_id = none }), s')
  pub answered :
      (endpoint : Action A) (s s' : State) (status : ℕ) (detail : Text)
      → 400 ≤ status
      → endpoint s ≡ (err (http_exception status detail), s')
      → handle_exceptions endpoint s
        ≡ (ok (record { content = failure status detail; x_request_id = none }), s')

-- the endpoint behind the guard of a route
abbrev pub guarded :
    {A : Type 0}
    → (Text → Option Uuid)
    → Permission
    → Option (Action Uuid)
    → User
    → (User → Context → Action A)
    → Request
    → Context
    → Action A
guarded uuid permission org_resolver user endpoint request context =
    checker uuid permission org_resolver request user >>= λ u. endpoint u context

-- A request without a value in its state, which the middleware does not set, whose user is denied: with the
-- target org resolved without a change, a row that the database accepts and Starlette's ExceptionMiddleware as it
-- is documented, the answer is 403 with the id of the request as its X-Request-ID, and the audit row that is
-- committed has no request id.
pub audit_unlinked :
    {A : Type 0} (handle_exceptions : Action A → Action (Replied A)) (fresh : Text)
    (incoming : Incoming) (before : Context) (uuid : Text → Option Uuid) (permission : Permission)
    (org_resolver : Option (Action Uuid)) (user : User) (endpoint : User → Context → Action A)
    (db : Db) (target : Uuid)
    → IsExceptionMiddleware handle_exceptions
    → resolve org_resolver user (open_session db) ≡ (ok target, open_session db)
    → incoming.request.state_request_id ≡ none
    → (check_permission user permission target db).allowed ≡ false
    → refused db (
        decision_row none incoming.request user permission target
          (check_permission user permission target db)
        ∷ [])
      ≡ none
    → (row : AuditLog) × (row.request_id ≡ none)
      × (with_session
            (dispatch fresh incoming
              (λ request context.
                handle_exceptions
                  (guarded uuid permission org_resolver user endpoint request context))
              before)
            db
          ≡ (
            ok (record {
              content = failure 403 (codes "Insufficient permissions");
              x_request_id = some (header_or fresh incoming.x_request_id);
            }),
            record db { audit_log = db.audit_log ++ row ∷ [] },
          ))
unfolding dispatch
audit_unlinked handle_exceptions fresh incoming before uuid permission org_resolver user endpoint db
      target documented resolved no_state denied accepted =
    let request = incoming.request in
    let outcome = check_permission user permission target db in
    let none_id : extract_request_id uuid request ≡ none =
      ap (λ (o : Option Text). elim o [ none ↦ none | some raw ↦ uuid raw ]) no_state in
    let row =
      decision_row (extract_request_id uuid request) request user permission target outcome in
    let run = deny_run uuid permission org_resolver request user db target resolved denied (
      ap (λ i. refused db (decision_row i request user permission target outcome ∷ [])) none_id
      ∙ accepted) in
    let request_id = header_or fresh incoming.x_request_id in
    let context = request_context request_id before in
    let behind = guarded uuid permission org_resolver user endpoint request context in
    (
      row,
      none_id,
      with_session_lem
          (dispatch fresh incoming
            (λ r c. handle_exceptions (guarded uuid permission org_resolver user endpoint r c))
            before)
          db
          (ap (λ o. after o (λ r. pure (with_header request_id r)))
            (documented.answered behind (open_session db) _ 403 (codes "Insufficient permissions")
              (omega arith)
              (>>=_err (checker uuid permission org_resolver request user) (λ u. endpoint u context)
                (open_session db) run))),
    )
