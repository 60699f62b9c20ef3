-- ===== src/Sessions/Ledger.antt =====
-- The sessions as a ledger that a client keeps from the replies of its requests alone: for each id, the
-- session that was last returned, with the revocations that were acknowledged.
pub mod Entries
pub mod Replies
pub mod Refines
use specter_cloud.Prelude.{
  ◌&&◌, Text, Bool, true, false, Option, none, some, List, [], ◌∷◌, scalar, ◌==◌, if◌then◌else◌,
}
use specter_cloud.Platform.{Platform}
use specter_cloud.Models.{Uuid, Datetime, SessionTransport, cookie, bearer, Session}
use specter_cloud.Store.{Db, Result, ok, err, with_session}
use specter_cloud.Sessions.{
  is_none, ℕ, Issue, revoked, is_target, lookup_session, revoke_session, revoke_all_user_sessions,
}
use specter_cloud.Sessions.Steps.{issued}

pub data SessionRequest : Type 0 where
  issue : Uuid → SessionTransport → Option Text → Option Text → Issue → SessionRequest
  look_up : Text → Datetime → SessionRequest
  revoke : Uuid → Text → Datetime → SessionRequest
  revoke_all : Uuid → Text → Option SessionTransport → Datetime → SessionRequest

-- What a client learns from a reply.
pub data Event : Type 0 where
  nothing : Event
  returned : Session → Event
  ended : Uuid → Text → Datetime → Event
  all_ended : Uuid → Text → Option SessionTransport → Datetime → Event

abbrev pub on_issue : Result (Text × Session) → Event
on_issue (ok (raw, s)) = returned s
on_issue (err e) = nothing

abbrev pub on_lookup : Result (Option Session) → Event
on_lookup (ok (some s)) = returned s
on_lookup (ok none) = nothing
on_lookup (err e) = nothing

abbrev pub on_revoke : Uuid → Text → Datetime → Result Bool → Event
on_revoke id reason now (ok true) = ended id reason now
on_revoke id reason now (ok false) = nothing
on_revoke id reason now (err e) = nothing

abbrev pub on_revoke_all : Uuid → Text → Option SessionTransport → Datetime → Result ℕ → Event
on_revoke_all user_id reason transport now (ok count) = all_ended user_id reason transport now
on_revoke_all user_id reason transport now (err e) = nothing

abbrev pub Ledger : Type 0
Ledger = Uuid → Option Session

abbrev pub changed : {A : Type 0} → (A → A) → Option A → Option A
changed f none = none
changed f (some s) = some (f s)

-- a session that has ended
abbrev pub with_end : Text → Datetime → Session → Session
with_end reason now s = record s { revoked_at = some now; revoked_reason = some reason }

abbrev pub was_asked : Option SessionTransport → SessionTransport → Bool
was_asked none t = true
was_asked (some cookie) cookie = true
was_asked (some bearer) bearer = true
was_asked (some cookie) bearer = false
was_asked (some bearer) cookie = false

-- a session of the user, of the transport if there is one, that has not ended before
abbrev pub is_open_of : Uuid → Option SessionTransport → Session → Bool
is_open_of user_id transport s =
    is_none s.revoked_at && (s.user_id == user_id && was_asked transport s.transport)

-- one entry of the ledger after an event
abbrev pub entered : Event → Uuid → Option Session → Option Session
entered nothing id o = o
entered (returned s) id o = if s.id == id then some s else o
entered (ended at_id reason now) id o = if at_id == id then changed (with_end reason now) o else o
entered (all_ended user_id reason transport now) id o =
    changed (λ s. if is_open_of user_id transport s then with_end reason now s else s) o

abbrev pub replay : List Event → Ledger → Ledger
replay [] ledger = ledger
replay (e ∷ events) ledger = replay events (λ id. entered e id (ledger id))

-- the ledger that the tables stand for
abbrev pub view : Db → Ledger
view db id = scalar (λ r. r.id == id) db.sessions

module _ (platform : Platform) where
  -- one request: what its reply says, and the tables that it commits
  abbrev pub handle : SessionRequest → Db → Event × Db
  handle (issue user_id transport user_agent ip_address draw) db =
      let o = with_session (issued platform user_id transport user_agent ip_address draw) db in
      (on_issue o.0, o.1)
  handle (look_up raw now) db =
      let o = with_session (lookup_session platform raw now) db in (on_lookup o.0, o.1)
  handle (revoke id reason now) db =
      let o = with_session (revoke_session id reason now) db in (on_revoke id reason now o.0, o.1)
  handle (revoke_all user_id reason transport now) db =
      let o = with_session (revoke_all_user_sessions user_id reason transport now) db in
      (on_revoke_all user_id reason transport now o.0, o.1)

  -- the requests one after another
  abbrev pub run : List SessionRequest → Db → List Event × Db
  run [] db = ([], db)
  run (q ∷ requests) db =
      let (e, mid) = handle q db in let (events, last) = run requests mid in (e ∷ events, last)
