-- ===== src/SyncQueue/Admin.antt =====
-- src/device-sync-queue/device-sync-admin.service.ts: what a company's administrator does to the
-- queue of a client. `client_company` is the table of clients: the company of each one that exists.
pub mod Access
use text.Mathlib.Text.{◌==◌ as str_eq}
use face2go_server.Base.{
  ℕ, String, Bool, true, false, Option, none, some, List, [], ◌∷◌, not, ◌==◌, if◌then◌else◌,
}
use face2go_server.SyncQueue.Job.{
  Kind, face_person, lpr_vehicle, Status, failed, canceled, is_queued, Json, null, bool, num, str,
  Job, Table,
}
use face2go_server.SyncQueue.Queries.{EnqueueInput, get_device_sync_job_by_id}
use face2go_server.SyncQueue.AdminQueries.{
  cancel_queued_device_sync_jobs, request_cancel_running_device_sync_job,
  clear_failed_device_sync_jobs,
}
use face2go_server.SyncQueue.Service.{Env, Enqueued, enqueue, property}

pub data Role : Type 0 where
  super_admin company_admin company_operator client_admin client_operator : Role

pub record JwtPayload : Type 0 where
  pub sub : ℕ
  pub role : Role
  pub company_id : Option ℕ
  pub client_id : Option ℕ

pub data Failure : Type 0 where
  forbidden client_not_found job_not_found already_finished not_retryable : Failure

pub data Answer {ℓ} (A : Type ℓ) : Type ℓ where
  ok : A → Answer A
  fail : Failure → Answer A

abbrev pub Clients : Type 0
Clients = ℕ → Option ℕ

-- `getClientById(db, clientId, companyId)` finds a row.
abbrev pub belongs : Clients → ℕ → ℕ → Bool
belongs clients client_id company_id = elim (clients client_id) [
  | none ↦ false
  | some c ↦ c == company_id
]

abbrev is_company_admin : Role → Bool
is_company_admin company_admin = true
is_company_admin _ = false

abbrev client_of_company : Clients → ℕ → Option ℕ → Answer (Unit {0})
client_of_company clients client_id none = fail forbidden
client_of_company clients client_id (some company_id) =
    if belongs clients client_id company_id then ok tt else fail client_not_found

unfoldable pub ensure_client : Clients → JwtPayload → ℕ → Answer (Unit {0})
ensure_client clients user client_id =
    if not (is_company_admin user.role)
    then fail forbidden
    else client_of_company clients client_id user.company_id

abbrev same_client : ℕ → Option ℕ → Answer (Unit {0})
same_client client_id none = fail job_not_found
same_client client_id (some c) = if c == client_id then ok tt else fail job_not_found

abbrev company_reads : Clients → ℕ → Option ℕ → Answer (Unit {0})
company_reads clients client_id none = fail job_not_found
company_reads clients client_id (some company_id) =
    if belongs clients client_id company_id then ok tt else fail job_not_found

unfoldable pub ensure_job_readable : Clients → JwtPayload → ℕ → Answer (Unit {0})
ensure_job_readable clients user client_id = elim user.role [
  | super_admin ↦ ok tt
  | client_admin ↦ same_client client_id user.client_id
  | client_operator ↦ same_client client_id user.client_id
  | _ ↦ company_reads clients client_id user.company_id
]

-- A call that fails leaves the table as it was.
abbrev pub guarded {ℓ} :
    {A : Type ℓ} → Answer (Unit {0}) → Table → Answer A × Table → Answer A × Table
guarded (fail e) t next = (fail e, t)
guarded (ok u) t next = next

abbrev truthy : Option Json → Bool
truthy none = false
truthy (some null) = false
truthy (some (bool b)) = b
truthy (some (num n)) = not (n == 0)
truthy (some (str s)) = not (str_eq s "")
truthy (some _) = true

-- The rows whose person is told that the sync was canceled.
abbrev is_told : Job → Bool
is_told row = elim row.kind [ face_person ↦ truthy (property "entityKind" row.payload) | _ ↦ false ]

unfoldable pub persist_canceled : List Job → List Job
unfolding property
persist_canceled [] = []
persist_canceled (row ∷ rows) =
    let rest = persist_canceled rows in if is_told row then row ∷ rest else rest

pub data CancelResult : Type 0 where
  canceled_now : List Job → CancelResult
  cancel_requested : CancelResult

module _ (clients : Clients) (user : JwtPayload) (client_id : ℕ) where
  abbrev pub asked : Bool × Table → Answer CancelResult × Table
  asked (true, t) = (ok cancel_requested, t)
  asked (false, t) = (fail already_finished, t)

  abbrev pub cancel_or_ask : Env → ℕ → ℕ → List Job × Table → Answer CancelResult × Table
  cancel_or_ask env job_id now ([], t) =
      asked (request_cancel_running_device_sync_job client_id job_id now (env 2 t))
  cancel_or_ask env job_id now (j ∷ js, t) = (ok (canceled_now (persist_canceled (j ∷ js))), t)

  abbrev pub cancel_found : Env → ℕ → ℕ → Option Job → Table → Answer CancelResult × Table
  cancel_found env job_id now none t = (fail job_not_found, t)
  cancel_found env job_id now (some job) t =
      if is_queued job.status
      then cancel_or_ask env job_id now
          (cancel_queued_device_sync_jobs client_id (some (job_id ∷ [])) now (env 1 t))
      else asked (request_cancel_running_device_sync_job client_id job_id now (env 2 t))

  unfoldable pub cancel : Env → ℕ → ℕ → Table → Answer CancelResult × Table
  unfolding ensure_client get_device_sync_job_by_id cancel_queued_device_sync_jobs
      request_cancel_running_device_sync_job persist_canceled
  cancel env job_id now t = guarded (ensure_client clients user client_id) t (
      cancel_found env job_id now (get_device_sync_job_by_id job_id (some client_id) (env 0 t))
        (env 0 t))

  -- The rows that it cancels, of which the answer gives the number.
  unfoldable pub cancel_queued : ℕ → Table → Answer (List Job) × Table
  unfolding ensure_client cancel_queued_device_sync_jobs
  cancel_queued now t =
      guarded (ensure_client clients user client_id) t
        (let (rows, u) = cancel_queued_device_sync_jobs client_id none now t in (ok rows, u))

  unfoldable pub clear_failed : Table → Answer ℕ × Table
  unfolding ensure_client clear_failed_device_sync_jobs
  clear_failed t =
      guarded (ensure_client clients user client_id) t
        (let (removed, u) = clear_failed_device_sync_jobs client_id t in (ok removed, u))

  abbrev is_retryable : Status → Bool
  is_retryable failed = true
  is_retryable canceled = true
  is_retryable _ = false

  abbrev retry_total : Kind → ℕ
  retry_total face_person = 1
  retry_total lpr_vehicle = 1
  retry_total _ = 0

  abbrev pub retry_input : Job → EnqueueInput
  retry_input job = record {
    kind = job.kind;
    client_id = client_id;
    target_id = job.target_id;
    force = some job.force;
    dedupe_key = job.dedupe_key;
    payload = some job.payload;
    total = some (retry_total job.kind);
    created_by = some user.sub;
  }

  abbrev retry_found : Env → ℕ → ℕ → Option Job → Table → Answer Enqueued × Table
  retry_found env id now none t = (fail job_not_found, t)
  retry_found env id now (some job) t =
      if is_retryable job.status
      then (let (r, u) = enqueue env id now (retry_input job) t in (ok r, u))
      else (fail not_retryable, t)

  unfoldable pub retry : Env → ℕ → ℕ → ℕ → Table → Answer Enqueued × Table
  unfolding ensure_client get_device_sync_job_by_id enqueue
  retry env job_id id now t =
      guarded (ensure_client clients user client_id) t
        (retry_found env id now (get_device_sync_job_by_id job_id (some client_id) t) t)
