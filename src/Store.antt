-- ===== src/Store.antt =====
-- app/core/database.py and the part of SQLAlchemy's `AsyncSession` that the program sees: the
-- committed tables, the tables as the open transaction sees them, and the objects that are added
-- and not yet flushed (`autoflush=False`). A call returns a value or raises, and the state comes
-- back either way.
mod Monad
pub mod Raises
pub use Monad.*
use mathlib.Core.List.{append-nil}
use specter_cloud.Models.{Uuid, Org, User, Role, AuditLog}
use specter_cloud.Prelude.{
  ◌≡◌, ap, ℕ, Text, Bool, true, false, Option, none, some, List, [], ◌∷◌, ◌++◌, ◌&&◌, ◌||◌, ◌==◌,
  leb, any, length, if◌then◌else◌, is_none,
}

-- `value` fits a column `String(limit)`; NULL does.
abbrev pub fits : ℕ → Option Text → Bool
fits limit none = true
fits limit (some s) = leb (length s) limit

abbrev pub user_exists : Db → Uuid → Bool
user_exists db i = any (λ u. u.id == i) db.users

abbrev pub org_exists : Db → Uuid → Bool
org_exists db i = any (λ o. o.id == i) db.orgs

abbrev pub role_exists : Db → ℕ → Bool
role_exists db i = any (λ r. r.id == i) db.roles

-- A foreign key may be NULL.
abbrev null_or : (ℕ → Bool) → Option ℕ → Bool
null_or p none = true
null_or p (some i) = p i

-- the column limits of `audit_log`
unfoldable pub row_fits : AuditLog → Bool
row_fits r =
    leb (length r.action) 60
    && fits 60 r.permission
    && fits 40 r.resource_type
    && fits 64 r.resource_id
    && leb (length r.decision) 10
    && fits 500 r.user_agent

-- the foreign keys of `audit_log`
unfoldable pub row_refers : Db → AuditLog → Bool
unfolding any
row_refers db r =
    null_or (user_exists db) r.user_id
    && null_or (org_exists db) r.target_org_id
    && null_or (role_exists db) r.matched_role_id
    && null_or (org_exists db) r.matched_org_id

-- the error of the first pending row that the database refuses
unfoldable pub refused : Db → List AuditLog → Option Error
unfolding row_fits row_refers
refused db [] = none
refused db (r ∷ rows) =
    if row_fits r
    then (if row_refers db r then refused db rows else some integrity_error)
    else some data_error

-- `await db.rollback()`, and what a failing flush does
abbrev pub rolled_back : State → State
rolled_back s = record s { current = s.committed; pending = [] }

-- what a flush does, by what the database says of the pending rows
abbrev flushed : Option Error → Action (Unit {0})
flushed none s = (
  ok tt,
  record s {
    current = record s.current { audit_log = s.current.audit_log ++ s.pending };
    pending = [];
  },
)
flushed (some e) s = (err e, rolled_back s)

-- `await db.flush()`: the pending rows are inserted, or the transaction is undone.
unfoldable pub flush : Action (Unit {0})
flush s = flushed (refused s.current s.pending) s

abbrev keep_current : Action (Unit {0})
keep_current s = (ok tt, record s { committed = s.current })

-- `await db.commit()`
unfoldable pub commit : Action (Unit {0})
unfolding flush
commit = flush >> keep_current

-- the state after a commit that the database accepts
abbrev pub saved : State → State
saved s =
    let db = record s.current { audit_log = s.current.audit_log ++ s.pending } in
    record s { committed = db; current = db; pending = [] }

pub commit_accepted : (s : State) → refused s.current s.pending ≡ none → commit s ≡ (ok tt, saved s)
unfolding commit
commit_accepted s e = ap (λ o. after (flushed o s) (λ _. keep_current)) e

pub commit-refused :
    (s : State) (e : Error)
    → refused s.current s.pending ≡ some e
    → commit s ≡ (err e, rolled_back s)
unfolding commit
commit-refused s e h = ap (λ o. after (flushed o s) (λ _. keep_current)) h

-- A request in the middle of a transaction, with nothing pending.
abbrev pub clean : Db → Db → List LogLine → State
clean before now logs = record { committed = before; current = now; pending = []; logs = logs }

pub flush-clean :
    (before now : Db) (logs : List LogLine)
    → flush (clean before now logs) ≡ (ok tt, clean before now logs)
unfolding flush refused
flush-clean before now logs = rw append-nil

-- A commit with nothing pending saves the tables as they are.
pub commit-clean :
    (before now : Db) (logs : List LogLine)
    → commit (clean before now logs) ≡ (ok tt, clean now now logs)
unfolding commit refused
commit-clean before now logs = rw append-nil

abbrev pub open_session : Db → State
open_session db = record { committed = db; current = db; pending = []; logs = [] }

-- `get_db`: a request runs in a session of its own, and what it has not committed is dropped.
unfoldable pub with_session : {A : Type 0} → Action A → Db → Result A × Db
with_session m db = let o = m (open_session db) in (o.0, o.1.committed)

pub with_session_lem :
    {A : Type 0} (m : Action A) (db : Db) {r : Result A} {s : State}
    → m (open_session db) ≡ (r, s)
    → with_session m db ≡ (r, s.committed)
unfolding with_session
with_session_lem m db e = ap (λ o. (o.0, o.1.committed)) e

-- a result, and the tables that are committed, at the end of a step of a request that leaves nothing
-- uncommitted and logs nothing
abbrev pub settled : {A : Type 0} → Result A × Db → Result A × State
settled r = (r.0, open_session r.1)

pub with_session-settled :
    {A : Type 0} (m : Action A) (db : Db) {r : Result A × Db}
    → m (open_session db) ≡ settled r
    → with_session m db ≡ r
with_session-settled m db e = with_session_lem m db e
