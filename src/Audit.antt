-- ===== src/Audit.antt =====
-- app/audit/log.py: the audit writer.
use specter_cloud.Prelude.{Text, codes, text_eq, none, List, [], ◌∷◌, ◌++◌, any, if◌then◌else◌}
use specter_cloud.Models.{AuditLog}
use specter_cloud.Store.{Action, value_error, ok, err}

abbrev pub allow : Text
allow = codes "allow"

abbrev pub deny : Text
deny = codes "deny"

abbrev pub valid_decisions : List Text
valid_decisions = allow ∷ deny ∷ []

-- `audit_log.write`: the row is added to the session, and not flushed.
unfoldable pub write : AuditLog → Action AuditLog
unfolding any text_eq
write entry s =
    if any (λ d. text_eq d entry.decision) valid_decisions
    then (ok entry, record s { pending = s.pending ++ entry ∷ [] })
    else (err value_error, s)

-- The keyword arguments that a caller leaves out are None.
abbrev pub entry : Text → Text → AuditLog
entry action decision = record {
  user_id = none;
  request_id = none;
  action = action;
  permission = none;
  resource_type = none;
  resource_id = none;
  target_org_id = none;
  matched_role_id = none;
  matched_org_id = none;
  decision = decision;
  reason = none;
  ip_address = none;
  user_agent = none;
  extra = none;
}
