-- ===== src/Store/Monad.antt =====
-- The state of a request, and calls that may raise.
use specter_cloud.Prelude.{ℕ, ◌≡◌, ap, Text, Option, List, [], ◌∷◌, ◌++◌}
use specter_cloud.Models.{Org, Drone, DroneApiKey, User, Role, UserRole, Session, AuditLog}

pub record Db : Type 0 where
  pub orgs : List Org
  pub drones : List Drone
  pub drone_api_keys : List DroneApiKey
  pub users : List User
  pub roles : List Role
  pub user_roles : List UserRole
  pub sessions : List Session
  pub audit_log : List AuditLog

-- A structlog line: the event and its `reason`, without the other fields.
pub record LogLine : Type 0 where
  pub event : Text
  pub reason : Option Text

pub record State : Type 0 where
  pub committed : Db
  pub current : Db
  pub pending : List AuditLog
  pub logs : List LogLine

-- What a call can raise; `http_exception` carries the status code and the detail.
pub data Error : Type 0 where
  http_exception : ℕ → Text → Error
  value_error : Error
  integrity_error : Error
  data_error : Error
  multiple_results_found : Error

pub data Result (A : Type 0) : Type 0 where
  ok : A → Result A
  err : Error → Result A

abbrev pub Action : Type 0 → Type 0
Action A = State → Result A × State

module _ {A : Type 0} where
  abbrev pub pure : A → Action A
  pure a s = (ok a, s)

  abbrev pub raise : Error → Action A
  raise e s = (err e, s)

  -- a value read from the tables
  abbrev pub query : (Db → A) → Action A
  query f s = (ok (f s.current), s)

-- what follows a call, by how it ended
abbrev pub after : {A B : Type 0} → Result A × State → (A → Action B) → Result B × State
after (ok a, s) f = f a s
after (err e, s) f = (err e, s)

infixl 5 ◌>>=◌ ◌>>◌
abbrev pub ◌>>=◌ : {A B : Type 0} → Action A → (A → Action B) → Action B
◌>>=◌ m f s = after (m s) f

abbrev pub ◌>>◌ : {A B : Type 0} → Action A → Action B → Action B
m >> k = m >>= λ _. k

abbrev pub modify : (Db → Db) → Action (Unit {0})
modify f s = (ok tt, record s { current = f s.current })

-- log.warning(event, reason=reason)
abbrev pub log_warning : Text → Option Text → Action (Unit {0})
log_warning event reason s =
    (ok tt, record s { logs = s.logs ++ record { event = event; reason = reason } ∷ [] })

module _ {A B : Type 0} (m : Action A) (f : A → Action B) (s : State) where
  pub >>=_ok : {a : A} {s' : State} → m s ≡ (ok a, s') → (m >>= f) s ≡ f a s'
  >>=_ok e = ap (λ r. after r f) e

  pub >>=_err : {e : Error} {s' : State} → m s ≡ (err e, s') → (m >>= f) s ≡ (err e, s')
  >>=_err e = ap (λ r. after r f) e
