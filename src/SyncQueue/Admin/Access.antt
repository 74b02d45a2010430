-- ===== src/SyncQueue/Admin/Access.antt =====
-- Who may manage a client's queue, and that the rows of other clients stay.
use face2go_server.Base.{ℕ, ◌≡◌, refl, some, arith, Option-cases, inl, inr}
use face2go_server.SyncQueue.Job.{Job, Table}
use face2go_server.SyncQueue.Service.{Env}
use face2go_server.SyncQueue.Admin.{
  company_admin, JwtPayload, Answer, ok, fail, Clients, ensure_client, guarded, cancel,
  CancelResult,
}

-- The user is an administrator of the client's company.
pub record Manages (clients : Clients) (user : JwtPayload) (client_id : ℕ) : Type 0 where
  pub admin : user.role ≡ company_admin
  pub company : ℕ
  pub own : user.company_id ≡ some company
  pub owner : clients client_id ≡ some company

pub ensure_client-Manages :
    (clients : Clients) (user : JwtPayload) (client_id : ℕ)
    → ensure_client clients user client_id ≡ ok tt
    → Manages clients user client_id
unfolding ensure_client
ensure_client-Manages clients user client_id h = elim (Option-cases user.company_id) [
  | inl e ↦ absurd (ground arith)
  | inr (c, e) ↦ record { admin = ground arith; company = c; own = e; owner = ground arith }
]

guarded-ok :
    {A : Type 0} (g : Answer (Unit {0})) (t : Table) (next : Answer A × Table) {a : A}
    → (guarded g t next).0 ≡ ok a
    → g ≡ ok tt
guarded-ok (ok u) t next h = refl
guarded-ok (fail e) t next h = cc

module _ (clients : Clients) (user : JwtPayload) (client_id : ℕ) where
  -- A cancelation that succeeds was asked for by an administrator of the client's company.
  pub cancel-authorized :
      (env : Env) (job_id now : ℕ) (t : Table) (r : CancelResult)
      → (cancel clients user client_id env job_id now t).0 ≡ ok r
      → Manages clients user client_id
  unfolding cancel
  cancel-authorized env job_id now t r h =
      ensure_client-Manages clients user client_id (guarded-ok _ t _ h)
