-- ===== src/SyncQueue/AdminQueries.antt =====
-- src/database/queries/device-sync-jobs-admin.queries.ts, but for the joined names of its list.
use face2go_server.Base.{
  ℕ, Bool, true, false, Option, none, some, List, ◌&&◌, any, count, length, filter, ◌==◌,
}
use face2go_server.SyncQueue.Job.{
  Status, done, failed, canceled, Job, Table, job_queued, job_running,
}
use face2go_server.SyncQueue.Sql.{update_where, returning, delete_where}

abbrev is_failed : Status → Bool
is_failed failed = true
is_failed _ = false

abbrev is_done : Status → Bool
is_done done = true
is_done _ = false

abbrev is_canceled : Status → Bool
is_canceled canceled = true
is_canceled _ = false

abbrev pub failed_of : ℕ → Job → Bool
failed_of client_id j = j.client_id == client_id && is_failed j.status

unfoldable pub clear_failed_device_sync_jobs : ℕ → Table → ℕ × Table
unfolding delete_where
clear_failed_device_sync_jobs client_id t =
    (length (filter (failed_of client_id) t), delete_where (failed_of client_id) t)

abbrev id_listed : Option (List ℕ) → ℕ → Bool
id_listed none id = true
id_listed (some ids) id = any (λ i. id == i) ids

unfoldable pub cancelable : ℕ → Option (List ℕ) → Job → Bool
cancelable client_id ids j = j.client_id == client_id && (job_queued j && id_listed ids j.id)

unfoldable pub canceled_row : ℕ → Job → Job
canceled_row now j = record j {
  status = canceled;
  error = some "Cancelado.";
  finished_at = some now;
  updated_at = now;
}

unfoldable pub cancel_queued_device_sync_jobs : ℕ → Option (List ℕ) → ℕ → Table → List Job × Table
unfolding cancelable canceled_row update_where returning
cancel_queued_device_sync_jobs client_id ids now t = (
  returning (cancelable client_id ids) (canceled_row now) t,
  update_where (cancelable client_id ids) (canceled_row now) t,
)

unfoldable pub stoppable : ℕ → ℕ → Job → Bool
stoppable client_id id j = j.id == id && (j.client_id == client_id && job_running j)

unfoldable pub stop_asked : ℕ → Job → Job
stop_asked now j = record j { cancel_requested = true; updated_at = now }

unfoldable pub request_cancel_running_device_sync_job : ℕ → ℕ → ℕ → Table → Bool × Table
unfolding stoppable stop_asked update_where
request_cancel_running_device_sync_job client_id id now t =
    (any (stoppable client_id id) t, update_where (stoppable client_id id) (stop_asked now) t)

-- `summary` of the admin service: the counts that the query groups by status.
pub record Summary : Type 0 where
  pub queued : ℕ
  pub running : ℕ
  pub done : ℕ
  pub failed : ℕ
  pub canceled : ℕ

unfoldable pub summary_of : ℕ → Table → Summary
summary_of client_id t = record {
  queued = count (λ j. j.client_id == client_id && job_queued j) t;
  running = count (λ j. j.client_id == client_id && job_running j) t;
  done = count (λ j. j.client_id == client_id && is_done j.status) t;
  failed = count (λ j. j.client_id == client_id && is_failed j.status) t;
  canceled = count (λ j. j.client_id == client_id && is_canceled j.status) t;
}
