-- ===== src/App/Responses.antt =====
-- The answers of the application: what FastAPI makes of an HTTPException, and `global_exception_handler` of
-- app/main.py of any other exception.
use specter_cloud.Prelude.{ℕ, Text, codes}
use specter_cloud.Store.{Error, http_exception, Result, ok, err}

-- a body with status 200, or a status with a detail
pub data Response (A : Type 0) : Type 0 where
  success : A → Response A
  failure : ℕ → Text → Response A

abbrev pub internal_server_error : ℕ × Text
internal_server_error = (500, codes "Internal Server Error")

-- the handler, for the exceptions that no other handler takes
abbrev pub global_exception_handler : Error → ℕ × Text
global_exception_handler e = internal_server_error

-- the answer to an exception
abbrev pub failure_of : Error → ℕ × Text
failure_of (http_exception status detail) = (status, detail)
failure_of e = global_exception_handler e

abbrev pub respond : {A : Type 0} → Result A → Response A
respond (ok a) = success a
respond (err e) = let (status, detail) = failure_of e in failure status detail
