-- ===== src/Scripts/Commands/Revoking.antt =====
-- What revoke_key.py revokes.
use mathlib.Core.Path.{fun_ext}
use specter_cloud.Prelude.{
  arith, ◌==◌, update, ◌&&◌, ◌||◌, not, is_none, ◌≢◌, ℕ, ◌≡◌, ◌∙◌, refl, sym, ap, inl, inr, Text,
  non_empty, text_eq, text_eq→eq, true, false, Option, none, some, Any, length, select, Bool-cases,
}
use specter_cloud.Models.{Uuid, DroneApiKey, Datetime, Org, Drone}
use specter_cloud.Store.{
  ◌>>=◌, Db, Result, State, Error, err, with_session, open_session, value_error,
  multiple_results_found,
}
use specter_cloud.Scripts.Keys.{revoke_for, has_prefix, is_active_key, org_with_slug}
use specter_cloud.Scripts.Mint.{one_or_none}
use specter_cloud.Scripts.Revoke.{
  Revokes, refused, revoked_all, revoke_by_prefix_lem, revoke_by_drone-Revokes,
}
use specter_cloud.Scripts.Commands.Printing.{print_result-ok, print_result-err, print_result-tables}
use specter_cloud.Scripts.Commands.{
  Bool, Exit, printed, usage_error, print_result, RevokeArgs, one_of_group, truthy, revoke_slugless,
  revoke_slugs, run_revoke, revoke_main,
}

abbrev pub active_with_prefix : Text → DroneApiKey → Bool
active_with_prefix prefix key = is_none key.revoked_at && text_eq key.prefix prefix

abbrev pub active_of : Uuid → DroneApiKey → Bool
active_of drone_id key = is_none key.revoked_at && key.drone_id == drone_id

-- the tables with the keys that pass a test revoked at a moment
abbrev pub with_revoked : (DroneApiKey → Bool) → Datetime → Db → Db
with_revoked p now db = record db {
  drone_api_keys = update p (λ key. record key { revoked_at = some now }) db.drone_api_keys;
}

-- How revoke_key.py ends: without a number and with the tables as they were, or with the number of the keys that
-- it revoked, which are the active keys of the prefix or of the drone that its options name.
pub data RevokesAsked (args : RevokeArgs) (now : Datetime) (db : Db) (r : Exit ℕ × Db)
    : Type 0 where
  nothing :
      ((count : ℕ) → r.0 ≢ printed count)
      → (args.drone_slug ≡ none → truthy args.prefix ≡ false)
      → r.1 ≡ db
      → RevokesAsked args now db r
  one_prefix :
      (prefix : Text)
      → args.prefix ≡ some prefix
      → non_empty prefix ≡ true
      → r.0 ≡ printed (length (select (active_with_prefix prefix) db.drone_api_keys))
      → r.1 ≡ with_revoked (active_with_prefix prefix) now db
      → RevokesAsked args now db r
  one_drone :
      (org : Org) (drone : Drone)
      → Any (λ o. o ≡ org) db.orgs
      → Any (λ d. d ≡ drone) db.drones
      → args.org_slug ≡ some org.slug
      → args.drone_slug ≡ some drone.slug
      → drone.org_id ≡ org.id
      → r.0 ≡ printed (length (select (active_of drone.id) db.drone_api_keys))
      → r.1 ≡ with_revoked (active_of drone.id) now db
      → RevokesAsked args now db r

and_comm : (a b : Bool) → (a && b) ≡ (b && a)
and_comm a b = ground arith

has_prefix-active : (prefix : Text) → has_prefix prefix ≡ active_with_prefix prefix
has_prefix-active prefix =
    fun_ext (λ key. and_comm (text_eq key.prefix prefix) (is_none key.revoked_at))

is_active_key-active : (drone_id : Uuid) → is_active_key drone_id ≡ active_of drone_id
is_active_key-active drone_id =
    fun_ext (λ key. and_comm (key.drone_id == drone_id) (is_none key.revoked_at))

module _ (args : RevokeArgs) (now : Datetime) (db : Db) where
  -- a call that raises and changes nothing
  raised :
      (o : Result ℕ × Db) (e : Error)
      → (args.drone_slug ≡ none → truthy args.prefix ≡ false)
      → o.0 ≡ err e
      → o.1 ≡ db
      → RevokesAsked args now db (print_result o)
  raised o e no_prefix r c =
      nothing (λ count h. absurd (cc (print_result-err o r, h))) no_prefix
        (print_result-tables o ∙ c)

  abbrev printed_of : (DroneApiKey → Bool) → Exit ℕ
  printed_of p = printed (length (select p db.drone_api_keys))

  by_slugs :
      (org_slug drone_slug : Text) {o : Result ℕ × State}
      → args.org_slug ≡ some org_slug
      → args.drone_slug ≡ some drone_slug
      → Revokes org_slug drone_slug now db o
      → RevokesAsked args now db (print_result (o.0, o.1.committed))
  by_slugs org_slug drone_slug given_org given_drone (refused e r c) =
      raised _ e (λ none_given. absurd (cc (none_given, given_drone))) r c
  by_slugs org_slug drone_slug given_org given_drone
        (revoked_all org drone in_orgs same_org of_org in_drones same_drone r c) =
      one_drone org drone in_orgs in_drones
        (given_org ∙ ap some (sym (text_eq→eq org.slug org_slug same_org)))
        (given_drone ∙ ap some (sym (text_eq→eq drone.slug drone_slug same_drone))) of_org
        (print_result-ok _ r ∙ ap printed_of (is_active_key-active drone.id))
        (print_result-tables _
          ∙ c
          ∙ ap (λ p. with_revoked p now db) (is_active_key-active drone.id))

  -- Without the slug of a drone, nothing is found.
  slugless_raises :
      (org_slug : Text)
      → (e : Error) × ((org_with_slug org_slug >>= revoke_slugless now) (open_session db)
          ≡ (err e, open_session db))
  unfolding revoke_slugless revoke_for org_with_slug
  slugless_raises org_slug =
      one_or_none (λ o. (e : Error) × (o ≡ (err e, open_session db)))
        (select (λ o. text_eq o.slug org_slug) db.orgs) (revoke_slugless now) (open_session db)
        (λ e. (value_error, refl)) (λ org e. (value_error, refl)) (multiple_results_found, refl)

  run_slugs :
      (org_slug drone_slug : Option Text)
      → args.org_slug ≡ org_slug
      → args.drone_slug ≡ drone_slug
      → (drone_slug ≡ none → truthy args.prefix ≡ false)
      → RevokesAsked args now db
          (print_result (with_session (revoke_slugs org_slug drone_slug now) db))
  unfolding revoke_slugs with_session
  run_slugs none drone_slug given_org given_drone no_prefix =
      raised _ value_error (λ e. no_prefix (sym given_drone ∙ e)) refl refl
  run_slugs (some org_slug) none given_org given_drone no_prefix =
      let (e, h) = slugless_raises org_slug in
      raised _ e (λ n. no_prefix refl) (ap (λ o. o.0) h) (ap (λ o. o.1.committed) h)
  run_slugs (some org_slug) (some drone_slug) given_org given_drone no_prefix =
      by_slugs org_slug drone_slug given_org given_drone
        (revoke_by_drone-Revokes org_slug drone_slug now db)

  run_revoke-RevokesAsked :
      (prefix : Option Text)
      → args.prefix ≡ prefix
      → RevokesAsked args now db (print_result (with_session (run_revoke args prefix now) db))
  unfolding run_revoke
  run_revoke-RevokesAsked none given =
      run_slugs args.org_slug args.drone_slug refl refl (λ n. ap truthy given)
  run_revoke-RevokesAsked (some prefix) given = elim (Bool-cases (non_empty prefix)) [
    | inl some_text ↦
        let run = revoke_by_prefix_lem prefix now db in
        rw some_text (
          one_prefix prefix given some_text
            (print_result-ok _ (ap (λ o. o.0) run) ∙ ap printed_of (has_prefix-active prefix))
            (print_result-tables _
              ∙ ap (λ o. o.1) run
              ∙ ap (λ p. with_revoked p now db) (has_prefix-active prefix)))
    | inr empty ↦
        rw empty (run_slugs args.org_slug args.drone_slug refl refl (λ n. ap truthy given ∙ empty))
  ]

  abbrev group_of : Option Text → Option Text → Bool
  group_of prefix drone_slug =
      is_none prefix && not (is_none drone_slug) || not (is_none prefix) && is_none drone_slug

  no_option : (prefix : Option Text) → group_of prefix none ≡ false → truthy prefix ≡ false
  no_option none h = refl
  no_option (some prefix) h = cc

  misused :
      (args.drone_slug ≡ none → truthy args.prefix ≡ false)
      → RevokesAsked args now db (usage_error, db)
  misused no_prefix = nothing (λ count h. cc) no_prefix refl

  -- revoke_key.py ends in one of three ways. It prints no number and leaves the tables as they were, which it
  -- does not if a prefix that is not empty is its only option of the group. Or it prints the number of the active
  -- keys with the prefix that it was given, of whichever drones, and revokes them all. Or it prints the number of the active keys of the
  -- drone whose slug, and whose org's slug, it was given, and revokes them. No other row is changed.
  pub revoke_main-RevokesAsked : RevokesAsked args now db (revoke_main args now db)
  unfolding revoke_main
  revoke_main-RevokesAsked = elim (Bool-cases (one_of_group args)) [
    | inl one ↦ elim (Bool-cases (truthy args.drone_slug && not (truthy args.org_slug))) [
      | inl no_org ↦
          rw (one, no_org)
            (misused
              (λ n. absurd (cc (no_org, ap (λ d. truthy d && not (truthy args.org_slug)) n))))
      | inr fine ↦ rw (one, fine) (run_revoke-RevokesAsked args.prefix refl)
    ]
    | inr many ↦
        rw many
          (misused (λ n. no_option args.prefix (sym (ap (λ d. group_of args.prefix d) n) ∙ many)))
  ]
