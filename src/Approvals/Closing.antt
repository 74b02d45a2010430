-- ===== src/Approvals/Closing.antt =====
-- What the revocation of the last valid consent does: the faces of the registration are refused.
use face2go_server.Base.{ℕ, Option}
use face2go_server.Documents.{Text}
use face2go_server.Approvals.Rows.{Flow, Actor, Store}
use face2go_server.Approvals.Repository.{
  remember_faces, patch_registration, deactivate_members, record_rejection,
}
use face2go_server.Approvals.Requests.{revoke_consent, cancel_open_requests}
use face2go_server.Approvals.Revocation.{rejection_reason, rejected_row}

-- the rest of `reject_with`, on the store that remembers the faces
abbrev after_remembering : Flow → ℕ → ℕ → Option ℕ → ℕ → Store → Store
after_remembering flow client_id id author now u =
    record_rejection client_id id author (rejection_reason flow) (
      cancel_open_requests flow client_id id now (
        deactivate_members client_id id now
          (patch_registration client_id id (rejected_row flow now) u)))

module _ (client_id consent_id id : ℕ) (actor : Actor) (reason : Text) (now : ℕ) (s : Store) where
  revoked_store : Flow → Store
  revoked_store flow =
      revoke_consent flow client_id consent_id actor reason now (remember_faces flow client_id id s)
