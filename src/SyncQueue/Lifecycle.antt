-- ===== src/SyncQueue/Lifecycle.antt =====
-- The table of sync jobs under every query that the server makes, in any order and by any instance.
use face2go_server.Base.{
  ℕ, ◌≤◌, ◌<◌, ◌≡◌, String, Bool, true, Option, some, List, [], arith, count, All-mem, Memᴰ,
}
use face2go_server.SyncQueue.Job.{Job, Table, Payload, job_running}
use face2go_server.SyncQueue.Queries.{
  EnqueueInput, update_queued_job_payload, insert_device_sync_job, claim_next_device_sync_job,
  heartbeat_device_sync_job, Final, finish_device_sync_job, purge_finished_device_sync_jobs,
  update_device_sync_job,
}
use face2go_server.SyncQueue.AdminQueries.{
  clear_failed_device_sync_jobs, cancel_queued_device_sync_jobs,
  request_cancel_running_device_sync_job,
}
use face2go_server.SyncQueue.Recovery.{RecoverRunningScope, recover_running_jobs}
use face2go_server.SyncQueue.Valid.{IsValid, IsWellFormed, has_id, progress_patch}
use face2go_server.SyncQueue.Valid.Tables.{
  insert-IsValid, merge-IsValid, heartbeat-IsValid, finish-IsValid, recover-IsValid, purge-IsValid,
  clear_failed-IsValid, cancel_queued-IsValid, request_cancel-IsValid, progress-IsValid,
}
use face2go_server.SyncQueue.Valid.Claim.{claim-IsValid}

-- One query of any instance; a new row's id is one that no row has.
pub data Step (tries : ℕ) (t : Table) : Table → Type 0 where
  insert :
      (id now : ℕ) (input : EnqueueInput) {u : Table} {row : Job}
      → count (has_id id) t ≡ 0
      → insert_device_sync_job id now input t ≡ some (row, u)
      → Step tries t u
  merge :
      (id : ℕ) (payload : Payload) (force : Bool) (by : Option ℕ) (now : ℕ)
      → Step tries t (update_queued_job_payload id payload force by now t).1
  claim :
      (is_locked : ℕ → Bool) (now worker : ℕ)
      → Step tries t (claim_next_device_sync_job is_locked now worker t).1
  heartbeat : (id worker now : ℕ) → Step tries t (heartbeat_device_sync_job id worker now t).1
  finish :
      (id worker : ℕ) (status : Final) (error : Option String) (now : ℕ)
      → Step tries t (finish_device_sync_job id worker status error now t).1
  recover :
      (scope : RecoverRunningScope) (now : ℕ)
      → Step tries t (recover_running_jobs scope now tries t).1
  purge :
      (done_days failed_days limit now : ℕ)
      → Step tries t (purge_finished_device_sync_jobs done_days failed_days limit now t).1
  progress :
      (id now : ℕ) (processed total : Option ℕ)
      → Step tries t (update_device_sync_job id (progress_patch processed total) now t)
  cancel_queued :
      (client_id : ℕ) (ids : Option (List ℕ)) (now : ℕ)
      → Step tries t (cancel_queued_device_sync_jobs client_id ids now t).1
  request_cancel :
      (client_id id now : ℕ)
      → Step tries t (request_cancel_running_device_sync_job client_id id now t).1
  clear_failed : (client_id : ℕ) → Step tries t (clear_failed_device_sync_jobs client_id t).1

pub data Reach (tries : ℕ) : Table → Type 0 where
  start : Reach tries []
  next : {t u : Table} → Reach tries t → Step tries t u → Reach tries u

module _ {tries : ℕ} (pos : 0 < tries) where
  pub Step-IsValid : {t u : Table} → Step tries t u → IsValid tries t → IsValid tries u
  Step-IsValid (insert id now input fresh e) v = insert-IsValid tries id now input pos fresh e v
  Step-IsValid (merge id payload force by now) v = merge-IsValid tries id payload force by now v
  Step-IsValid (claim is_locked now worker) v = claim-IsValid tries is_locked now worker v
  Step-IsValid (heartbeat id worker now) v = heartbeat-IsValid tries id worker now v
  Step-IsValid (finish id worker status error now) v =
      finish-IsValid tries id worker status error now v
  Step-IsValid (recover scope now) v = recover-IsValid tries scope now v
  Step-IsValid (purge d f limit now) v = purge-IsValid tries d f limit now v
  Step-IsValid (progress id now processed total) v = progress-IsValid tries id now processed total v
  Step-IsValid (cancel_queued client_id ids now) v = cancel_queued-IsValid tries client_id ids now v
  Step-IsValid (request_cancel client_id id now) v = request_cancel-IsValid tries client_id id now v
  Step-IsValid (clear_failed client_id) v = clear_failed-IsValid tries client_id v

  pub Reach-IsValid : {t : Table} → Reach tries t → IsValid tries t
  Reach-IsValid start = record {
    rows = tt;
    one_id = λ i. omega arith;
    one_queued = λ k. omega arith;
    one_running = λ k g. omega arith;
  }
  Reach-IsValid (next r s) = Step-IsValid s (Reach-IsValid r)

  -- In every reachable table, a running job has had at least one attempt and at most the limit.
  pub attempts_bounded :
      {t : Table} {j : Job}
      → Reach tries t
      → Memᴰ j t
      → job_running j ≡ true
      → (1 ≤ j.attempts) × (j.attempts ≤ tries)
  attempts_bounded {t} {j} r m run =
      let shape = All-mem (IsWellFormed tries) j t m (Reach-IsValid r).rows in ground arith
