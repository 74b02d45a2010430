-- ===== src/Approvals/Visitors.antt =====
-- The services of src/visitor-approvals: the functions of the parent at the flow of visitors, whose
-- tests and texts they choose by the flow.
use face2go_server.Base.{ℕ, Bool, Option, List}
use face2go_server.Documents.{Text}
use face2go_server.SyncQueue.Admin.{JwtPayload}
use face2go_server.Approvals.Rows.{visitor, Actor, Registration, Request, Consent, Store}
use face2go_server.Approvals.Repository.{
  active_consent_count, request_approval, face_ids, remember_faces, tracked_faces,
}
use face2go_server.Approvals.Requests.{
  history, requests, request_by_hash, locked_request, insert_request, update_request,
  insert_consent, find_consent, consent_by_request, revoke_consent, cancel_open_requests,
}
use face2go_server.Approvals.Policy.{Summary, summary}
use face2go_server.Approvals.Revocation.{reject_if_unauthorized, revoke}
use face2go_server.Approvals.Invitation.{Bundle, bundle, CpfError, verify_cpf, Draw, request_emails}
use face2go_server.Approvals.Public.{Input, Refusal, accept, revoke_own}
use face2go_server.Approvals.Service.{
  Failure, Outcome, defer_approval, revoke_admin, regularize, regularize_rows,
}

unfoldable pub visitor_active_consent_count : ℕ → ℕ → ℕ → Store → ℕ
unfolding active_consent_count
visitor_active_consent_count = active_consent_count visitor

unfoldable pub visitor_request_approval : ℕ → ℕ → Option ℕ → ℕ → Store → Store
unfolding request_approval
visitor_request_approval = request_approval visitor

unfoldable pub visitor_face_ids : ℕ → ℕ → Store → List ℕ
unfolding face_ids
visitor_face_ids = face_ids visitor

unfoldable pub visitor_remember_faces : ℕ → ℕ → Store → Store
unfolding remember_faces
visitor_remember_faces = remember_faces visitor

unfoldable pub visitor_tracked_faces : ℕ → Store → List ℕ
unfolding tracked_faces
visitor_tracked_faces = tracked_faces visitor

unfoldable pub visitor_history : ℕ → ℕ → Store → List Consent
unfolding history
visitor_history = history visitor

unfoldable pub visitor_requests : ℕ → ℕ → Store → List Request
unfolding requests
visitor_requests = requests visitor

unfoldable pub visitor_request_by_hash : Text → Store → Option Request
unfolding request_by_hash
visitor_request_by_hash = request_by_hash visitor

unfoldable pub visitor_locked_request : ℕ → ℕ → Store → Option Request
unfolding locked_request
visitor_locked_request = locked_request visitor

unfoldable pub visitor_insert_request : Request → Store → Store
unfolding insert_request
visitor_insert_request = insert_request visitor

unfoldable pub visitor_update_request : ℕ → ℕ → (Request → Request) → Store → Store
unfolding update_request
visitor_update_request = update_request visitor

unfoldable pub visitor_insert_consent : Consent → Store → Store
unfolding insert_consent
visitor_insert_consent = insert_consent visitor

unfoldable pub visitor_find_consent : ℕ → ℕ → Store → Option Consent
unfolding find_consent
visitor_find_consent = find_consent visitor

unfoldable pub visitor_consent_by_request : ℕ → ℕ → Store → Option Consent
unfolding consent_by_request
visitor_consent_by_request = consent_by_request visitor

unfoldable pub visitor_revoke_consent : ℕ → ℕ → Actor → Text → ℕ → Store → Store
unfolding revoke_consent
visitor_revoke_consent = revoke_consent visitor

unfoldable pub visitor_cancel_open_requests : ℕ → ℕ → ℕ → Store → Store
unfolding cancel_open_requests
visitor_cancel_open_requests = cancel_open_requests visitor

unfoldable pub visitor_summary : ℕ → ℕ → ℕ → Store → Summary
unfolding summary
visitor_summary = summary visitor

unfoldable pub visitor_reject_if_unauthorized : ℕ → ℕ → Option ℕ → ℕ → Store → Bool × Store
unfolding reject_if_unauthorized
visitor_reject_if_unauthorized = reject_if_unauthorized visitor

unfoldable pub visitor_revoke : ℕ → ℕ → ℕ → Actor → Text → ℕ → Store → Store
unfolding revoke
visitor_revoke = revoke visitor

unfoldable pub visitor_bundle : (Text → Text) → Text → Store → Option Bundle
unfolding bundle
visitor_bundle digest = bundle digest visitor

unfoldable pub visitor_verify_cpf :
    (Text → Text) → Request → Option Text → Text → ℕ → Store → Option CpfError × Store
unfolding verify_cpf
visitor_verify_cpf digest = verify_cpf digest visitor

unfoldable pub visitor_request_emails :
    (Text → Text) → (Registration → Draw) → Bool → ℕ → ℕ → ℕ → Store → Store
unfolding request_emails
visitor_request_emails digest draw = request_emails digest draw visitor

unfoldable pub visitor_accept :
    (Text → Text) → ℕ → ℕ → Text → Input → (Store → Store) → Store → Option Refusal × Store
unfolding accept
visitor_accept digest = accept digest visitor

unfoldable pub visitor_revoke_own :
    (Text → Text) → ℕ → Text → Text → (Store → Store) → Store → Option Refusal × Store
unfolding revoke_own
visitor_revoke_own digest = revoke_own digest visitor

unfoldable pub visitor_defer_approval :
    ℕ → (Text → Text) → (Registration → Draw) → ℕ → ℕ → Option ℕ → Store → Outcome × Store
unfolding defer_approval
visitor_defer_approval = defer_approval visitor

unfoldable pub visitor_revoke_admin :
    ℕ → JwtPayload → ℕ → ℕ → Text → ℕ → (Store → Store) → Store → Option Failure × Store
unfolding revoke_admin
visitor_revoke_admin = revoke_admin visitor

unfoldable pub visitor_regularize :
    ℕ → JwtPayload → ℕ → ℕ → (Store → Store) → Store → Option Failure × Store
unfolding regularize
visitor_regularize = regularize visitor

unfoldable pub visitor_regularize_rows : ℕ → ℕ → ℕ → ℕ → Store → Store
unfolding regularize_rows
visitor_regularize_rows = regularize_rows visitor
