-- ===== src/Approvals/Revocation.antt =====
-- src/child-approvals/child-approval-revocation.service.ts and
-- src/visitor-approvals/visitor-approval-revocation.service.ts, within a transaction.
use face2go_server.Base.{ℕ, Bool, true, false, Option, none, some, not, ◌||◌, ltb, if◌then◌else◌}
use face2go_server.Documents.{Text}
use face2go_server.Approvals.Rows.{
  Flow, child, visitor, Actor, admin, rejected, Client, Intent, Registration, Store, intent,
  set_intent, codes,
}
use face2go_server.Approvals.Rules.{needs_approval}
use face2go_server.Approvals.Repository.{
  is_rejected, find_client, find_registration, active_consent_count, patch_registration,
  remember_faces, deactivate_members, record_rejection,
}
use face2go_server.Approvals.Requests.{revoke_consent, cancel_open_requests}

abbrev pub rejection_reason : Flow → Text
rejection_reason child =
    codes "Autorização de menor revogada ou inválida: não há outro aceite válido."
rejection_reason visitor =
    codes "Autorização de visitante revogada ou inválida: não há outro aceite válido."

abbrev pub unrequested : Intent → Intent
unrequested i = record i { requested_at = none; requested_by = none }

-- The patch keeps `removal_pending` of the other flow.
abbrev pub rejected_row : Flow → ℕ → Registration → Registration
rejected_row flow now r =
    let cleared = record r {
      status = rejected;
      rejection_notes = some (rejection_reason flow);
      child_intent = unrequested r.child_intent;
      visitor_intent = unrequested r.visitor_intent;
      updated_at = now;
    } in
    set_intent flow (record (intent flow cleared) { removal_pending = true }) cleared

abbrev pub reject_with : Flow → ℕ → ℕ → Option ℕ → ℕ → Store → Store
reject_with flow client_id id author now s =
    record_rejection client_id id author (rejection_reason flow) (
      cancel_open_requests flow client_id id now (
        deactivate_members client_id id now (
          patch_registration client_id id (rejected_row flow now)
            (remember_faces flow client_id id s))))

abbrev pub reject_found :
    Flow → ℕ → ℕ → Option ℕ → ℕ → Store → Option Registration → Option Client → Bool × Store
reject_found flow client_id id author now s (some r) (some client) =
    if not (needs_approval flow client r now)
      || ltb 0 (active_consent_count flow client_id id now s)
    then (false, s)
    else if is_rejected r.status
    then (true, s)
    else (true, reject_with flow client_id id author now s)
reject_found flow client_id id author now s _ _ = (false, s)

unfoldable pub reject_if_unauthorized : Flow → ℕ → ℕ → Option ℕ → ℕ → Store → Bool × Store
unfolding find_registration find_client needs_approval active_consent_count record_rejection
    cancel_open_requests deactivate_members patch_registration remember_faces
reject_if_unauthorized flow client_id id author now s =
    reject_found flow client_id id author now s (find_registration client_id id s)
      (find_client client_id s)

-- `actor.startsWith('admin:') ? actor.slice(6) : null`
abbrev pub author_of : Actor → Option ℕ
author_of (admin n) = some n
author_of _ = none

unfoldable pub revoke : Flow → ℕ → ℕ → ℕ → Actor → Text → ℕ → Store → Store
unfolding remember_faces revoke_consent reject_if_unauthorized
revoke flow client_id consent_id id actor reason now s =
    (reject_if_unauthorized flow client_id id (author_of actor) now (
      revoke_consent flow client_id consent_id actor reason now
        (remember_faces flow client_id id s))).1
