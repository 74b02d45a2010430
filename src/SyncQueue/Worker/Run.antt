-- ===== src/SyncQueue/Worker/Run.antt =====
-- How a run of a job ends, whatever the other instances do meanwhile.
use face2go_server.Base.{ℕ, ◌≡◌, String, none, some, Bool-cases, inl, inr, count, ◌-◌, leb}
use face2go_server.SyncQueue.Job.{Job, Table}
use face2go_server.SyncQueue.Queries.{owned_by, Final, is_device_sync_job_cancel_requested}
use face2go_server.SyncQueue.Recovery.{stale_seconds}
use face2go_server.SyncQueue.Service.{Env}
use face2go_server.SyncQueue.Ownership.{finish-releases}
use face2go_server.SyncQueue.Valid.{IsValid}
use face2go_server.SyncQueue.Valid.Tables.{recover-IsValid, purge-IsValid}
use face2go_server.SyncQueue.Worker.{
  HandlerResult, returned, canceled_error, raised, Handlers, fail_job, complete_job, run_job,
  maintain, max_attempts, stale_after_sec, purge_every_ms,
}

module _ (env : Env) (now worker : ℕ) (job : Job) where
  fail_job-releases :
      (status : Final) (message told : String) (t : Table)
      → count (owned_by job.id worker) (fail_job env now worker job status message told t).1 ≡ 0
  unfolding fail_job
  fail_job-releases status message told t =
      finish-releases job.id worker status (some message) now (env 3 t)

  complete_job-releases :
      (result : HandlerResult) (t : Table)
      → count (owned_by job.id worker) (complete_job env now worker job result t).1 ≡ 0
  unfolding complete_job
  complete_job-releases (raised m) t = fail_job-releases Final.failed m m t
  complete_job-releases canceled_error t =
      fail_job-releases Final.canceled "Cancelado." "Sync cancelado." t
  complete_job-releases returned t =
      elim (Bool-cases (is_device_sync_job_cancel_requested job.id (env 1 t))) [
        | inl e ↦ rw e (fail_job-releases Final.canceled "Cancelado." "Sync cancelado." (env 1 t))
        | inr e ↦ rw e (finish-releases job.id worker Final.done none now (env 2 (env 1 t)))
      ]

  -- However the handler ends and whatever the other instances do, after a run the instance owns no
  -- row of the job.
  pub run_job-releases :
      (run : Handlers) (t : Table)
      → count (owned_by job.id worker) (run_job env now worker job run t).1 ≡ 0
  unfolding run_job
  run_job-releases run t =
      elim (Bool-cases (is_device_sync_job_cancel_requested job.id (env 0 t))) [
        | inl e ↦ rw e (fail_job-releases Final.canceled "Cancelado." "Sync cancelado." (env 0 t))
        | inr e ↦ rw e (complete_job-releases (run job (env 0 t)).0 (run job (env 0 t)).1)
      ]

-- A round of upkeep keeps a valid table valid.
pub maintain-IsValid :
    (last now : ℕ) (t : Table)
    → IsValid max_attempts t
    → IsValid max_attempts (maintain last now t).table
unfolding maintain
maintain-IsValid last now t v =
    let w = recover-IsValid max_attempts (stale_seconds stale_after_sec) now v in
    elim (Bool-cases (leb purge_every_ms (now - last))) [
      | inl e ↦ rw e (purge-IsValid max_attempts 7 30 1000 now w)
      | inr e ↦ rw e w
    ]
