-- ===== src/Approvals/Service.antt =====
-- src/child-approvals/child-approval.service.ts and
-- src/visitor-approvals/visitor-approval.service.ts: what the users of the panels do. The lists of
-- `history` and the events are not modelled. `between` is what other instances do before the
-- transaction; `can_read_clients` is what the permissions say of a company's operator.
use face2go_server.Base.{
  ℕ, Bool, true, false, Option, none, some, not, ◌&&◌, ◌||◌, ltb, ◌==◌, if◌then◌else◌, is_some,
}
use face2go_server.Documents.{Text}
use face2go_server.SyncQueue.Admin.{
  Role, company_admin, company_operator, client_admin, client_operator, JwtPayload,
}
use face2go_server.Approvals.Rows.{
  Flow, child, visitor, admin, RegistrationStatus, draft, rejected, Client, Registration, Consent,
  Store, intent, set_intent, codes,
}
use face2go_server.Approvals.Rules.{date_column, age_for_approval, needs_approval}
use face2go_server.Approvals.Repository.{
  is_approved, holds, find_client, find_registration, active_consent_count, patch_registration,
  request_approval, remember_faces, deactivate_members, record_rejection,
}
use face2go_server.Approvals.Requests.{find_consent}
use face2go_server.Approvals.Revocation.{revoke}
use face2go_server.Approvals.Invitation.{Draw, request_emails}
use face2go_server.Approvals.Public.{enabled}

pub data Failure : Type 0 where
  forbidden not_awaiting_approval consent_not_found not_enabled not_legacy : Failure

abbrev pub is_client_admin : Role → Bool
is_client_admin client_admin = true
is_client_admin _ = false

-- `role === 'client_admin' || (!admin && role === 'client_operator')`
abbrev pub client_role : Bool → Role → Bool
client_role admin_only client_admin = true
client_role admin_only client_operator = not admin_only
client_role admin_only _ = false

abbrev pub company_role : Bool → Bool → Role → Bool
company_role admin_only can_read_clients company_admin = true
company_role admin_only can_read_clients company_operator = not admin_only && can_read_clients
company_role admin_only can_read_clients _ = false

abbrev pub same_company : Option Client → Option ℕ → Bool
same_company none company_id = false
same_company (some c) company_id = holds company_id c.company_id

-- Whether the source returns; if not, it throws `ForbiddenException`.
unfoldable pub assert_scope : JwtPayload → ℕ → Bool → Bool → Store → Bool
unfolding find_client
assert_scope user client_id admin_only can_read_clients s =
    (holds user.client_id client_id && client_role admin_only user.role)
    || (same_company (find_client client_id s) user.company_id
        && company_role admin_only can_read_clients user.role)

-- `['draft', 'rejected'].includes(status)`
abbrev pub may_be_asked : RegistrationStatus → Bool
may_be_asked draft = true
may_be_asked rejected = true
may_be_asked _ = false

pub data Outcome : Type 0 where
  deferred not_needed : Outcome
  failure : Failure → Outcome

module _ (flow : Flow) (now : ℕ) where
  module _ (digest : Text → Text) (draw : Registration → Draw) where
    abbrev pub defer_found :
        ℕ → ℕ → Option ℕ → Store → Option Client → Option Registration → Outcome × Store
    defer_found client_id id user_id s (some client) (some r) =
        if not (needs_approval flow client r now)
          || ltb 0 (active_consent_count flow client_id id now s)
        then (not_needed, s)
        else if not r.is_active || not (may_be_asked r.status)
        then (failure not_awaiting_approval, s)
        else (
          deferred,
          request_emails digest draw flow false now client_id id
              (request_approval flow client_id id user_id now s),
        )
    defer_found client_id id user_id s _ _ = (not_needed, s)

    unfoldable pub defer_approval : ℕ → ℕ → Option ℕ → Store → Outcome × Store
    unfolding find_client find_registration needs_approval active_consent_count request_approval
        request_emails
    defer_approval client_id id user_id s =
        defer_found client_id id user_id s (find_client client_id s)
          (find_registration client_id id s)

  abbrev pub revoke_found :
      JwtPayload → ℕ → ℕ → Text → (Store → Store) → Store → Option Consent → Option Failure × Store
  revoke_found user client_id id reason between s none = (some consent_not_found, s)
  revoke_found user client_id id reason between s (some c) =
      if not (c.registration_id == id)
      then (some consent_not_found, s)
      else (none, revoke flow client_id c.id id (admin user.sub) reason now (between s))

  unfoldable pub revoke_admin :
      JwtPayload → ℕ → ℕ → Text → ℕ → (Store → Store) → Store → Option Failure × Store
  unfolding find_consent revoke
  revoke_admin user client_id consent_id reason id between s =
      if not (is_client_admin user.role) || not (holds user.client_id client_id)
      then (some forbidden, s)
      else revoke_found user client_id id reason between s
          (find_consent flow client_id consent_id s)

  -- `regularize` of the repository
  abbrev pub regularization_note : Flow → Text
  regularization_note child =
      codes "Cadastro encaminhado manualmente para regularização de autorização de menor."
  regularization_note visitor =
      codes "Cadastro encaminhado manualmente para regularização de autorização de visitante."

  abbrev pub regularized_row : Flow → ℕ → Registration → Registration
  regularized_row f user_id r =
      let cleared = record r {
        status = rejected;
        approved_by = some user_id;
        approved_at = some now;
        rejection_notes =
            some (codes "Regularização: autorização de adulto da mesma unidade necessária.");
        is_visitor = elim f [ child ↦ r.is_visitor | visitor ↦ true ];
        updated_at = now;
      } in
      set_intent f
        (record {
          required = true;
          removal_pending = true;
          requested_at = none;
          requested_by = none;
        })
        cleared

  unfoldable pub regularize_rows : ℕ → ℕ → ℕ → Store → Store
  unfolding remember_faces patch_registration deactivate_members record_rejection
  regularize_rows client_id id user_id s =
      record_rejection client_id id (some user_id) (regularization_note flow) (
        deactivate_members client_id id now (
          patch_registration client_id id (regularized_row flow user_id)
            (remember_faces flow client_id id s)))

  -- `age == null || age >= 18`, of minors only
  abbrev pub has_flow_age : Flow → Option ℕ → Bool
  has_flow_age visitor age = true
  has_flow_age child none = false
  has_flow_age child (some age) = ltb age 18

  abbrev pub is_legacy : Client → Registration → Bool
  is_legacy client r =
      r.is_active
      && (is_approved r.status
          && (has_flow_age flow
                (age_for_approval (date_column r.birth_date) client.timezone_offset_minutes now)
              && (is_some r.unit_id && not (intent flow r).required)))

  abbrev pub regularize_found :
      JwtPayload → ℕ → ℕ → Client → Store → Option Registration → Option Failure × Store
  regularize_found user client_id id client s none = (some not_legacy, s)
  regularize_found user client_id id client s (some r) =
      if not (is_legacy client r)
      then (some not_legacy, s)
      else (none, regularize_rows client_id id user.sub s)

  abbrev pub regularize_client :
      JwtPayload → ℕ → ℕ → (Store → Store) → Store → Option Client → Option Failure × Store
  regularize_client user client_id id between s none = (some not_enabled, s)
  regularize_client user client_id id between s (some client) =
      if not (enabled flow client)
      then (some not_enabled, s)
      else regularize_found user client_id id client (between s)
          (find_registration client_id id (between s))

  unfoldable pub regularize : JwtPayload → ℕ → ℕ → (Store → Store) → Store → Option Failure × Store
  unfolding assert_scope find_client find_registration date_column age_for_approval regularize_rows
  regularize user client_id id between s =
      if not (assert_scope user client_id true false s)
      then (some forbidden, s)
      else regularize_client user client_id id between s (find_client client_id s)
