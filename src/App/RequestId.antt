-- ===== src/App/RequestId.antt =====
-- app/core/middleware.py: the id of a request, in the context of its log lines and in its response.
use specter_cloud.Prelude.{Text, codes, Option, none, some, List, [], ◌∷◌}
use specter_cloud.Store.{Action, pure, ◌>>=◌}
use specter_cloud.Rbac.{Request}
use specter_cloud.App.Responses.{Response}

-- structlog's context variables, which `merge_contextvars` adds to each line
abbrev pub Context : Type 0
Context = List (Text × Text)

abbrev pub clear_contextvars : Context → Context
clear_contextvars context = []

abbrev pub bind_contextvars : Text → Text → Context → Context
bind_contextvars key value context = (key, value) ∷ context

-- What a request brings: its X-Request-ID header, and what the routes read of it. `state_request_id` is None: the
-- state of a request is empty when it arrives.
pub record Incoming : Type 0 where
  pub x_request_id : Option Text
  pub request : Request

-- a response, with its X-Request-ID header
pub record Replied (A : Type 0) : Type 0 where
  pub content : Response A
  pub x_request_id : Option Text

-- `request.headers.get('X-Request-ID', …)`, where the default is `uuid4`, drawn in any case
abbrev pub header_or : Text → Option Text → Text
header_or fresh none = fresh
header_or fresh (some id) = id

abbrev pub request_context : Text → Context → Context
request_context request_id before =
    bind_contextvars (codes "request_id") request_id (clear_contextvars before)

abbrev pub with_header : {A : Type 0} → Text → Replied A → Replied A
with_header request_id response = record response { x_request_id = some request_id }

-- `dispatch`, for what Starlette calls behind it and the context that an earlier request may have left. An
-- HTTPException of the endpoint is a response when `call_next` returns; any other exception it raises.
unfoldable pub dispatch :
    {A : Type 0}
    → Text
    → Incoming
    → (Request → Context → Action (Replied A))
    → Context
    → Action (Replied A)
dispatch fresh incoming call_next before =
    let request_id = header_or fresh incoming.x_request_id in
    call_next incoming.request (request_context request_id before) >>= λ response.
    pure (with_header request_id response)
