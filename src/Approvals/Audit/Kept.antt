-- ===== src/Approvals/Audit/Kept.antt =====
-- The transactions of src/child-approvals and src/visitor-approvals in any order.
use face2go_server.Base.{ℕ, Bool, Option}
use face2go_server.Documents.{Text}
use face2go_server.Approvals.Rows.{Flow, Actor, Registration, Store}
use face2go_server.Approvals.Repository.{request_approval, remember_faces}
use face2go_server.Approvals.Revocation.{revoke, reject_if_unauthorized}
use face2go_server.Approvals.Invitation.{Bundle, Draw, request_emails}
use face2go_server.Approvals.Public.{Input, accept_in, revoke_own_in}
use face2go_server.Approvals.Service.{regularize_rows}
use face2go_server.Approvals.Audit.Trail.{Trail}

-- One transaction of either flow, at any time.
pub data Step (digest : Text → Text) (s : Store) : Store → Type 0 where
  accepts :
      (flow : Flow) (now id : ℕ) (input : Input) (b : Bundle)
      → Step digest s (accept_in digest flow now id input b s).1
  revokes_own :
      (flow : Flow) (now : ℕ) (cpf : Text) (b : Bundle)
      → Step digest s (revoke_own_in digest flow now cpf b s).1
  revokes :
      (flow : Flow) (client_id consent_id id : ℕ) (actor : Actor) (reason : Text) (now : ℕ)
      → Step digest s (revoke flow client_id consent_id id actor reason now s)
  rejects :
      (flow : Flow) (client_id id : ℕ) (author : Option ℕ) (now : ℕ)
      → Step digest s (reject_if_unauthorized flow client_id id author now s).1
  regularizes :
      (flow : Flow) (now client_id id user_id : ℕ)
      → Step digest s (regularize_rows flow now client_id id user_id s)
  asks :
      (flow : Flow) (client_id id : ℕ) (user_id : Option ℕ) (now : ℕ)
      → Step digest s (request_approval flow client_id id user_id now s)
  invites :
      (flow : Flow) (draw : Registration → Draw) (resend : Bool) (now client_id id : ℕ)
      → Step digest s (request_emails digest draw flow resend now client_id id s)
  remembers : (flow : Flow) (client_id id : ℕ) → Step digest s (remember_faces flow client_id id s)

pub data Reach (digest : Text → Text) (s : Store) : Store → Type 0 where
  here : Reach digest s s
  next : {t u : Store} → Reach digest s t → Step digest t u → Reach digest s u
