-- ===== src/SyncQueue/Worker.antt =====
-- src/device-sync-queue/device-sync-worker.service.ts: a job's run, the upkeep and the shutdown.
-- `env n` is what the other instances, and the heartbeats, do before the n-th query; the handlers
-- are a parameter, which may change the table too.
pub mod Run
use text.Mathlib.Text.{◌==◌ as str_eq}
use face2go_server.Base.{
  ℕ, ◌+◌, ◌-◌, ◌*◌, String, Bool, true, false, Option, none, some, List, [], ◌∷◌, map, not, filter,
  leb, if◌then◌else◌, or_else,
}
use face2go_server.SyncQueue.Job.{
  Kind, face_person, Status, queued, done, failed, canceled, is_queued, Job, Table,
}
use face2go_server.SyncQueue.Queries.{
  Final, final_status, is_device_sync_job_cancel_requested, finish_device_sync_job,
  claim_next_device_sync_job, list_device_sync_jobs_by_ids, purge_finished_device_sync_jobs,
}
use face2go_server.SyncQueue.Recovery.{
  RecoverRunningScope, stale_seconds, locked_by, recover_running_jobs, superseded_job_error,
}
use face2go_server.SyncQueue.Service.{Env}

abbrev pub stale_after_sec : ℕ
stale_after_sec = 120

abbrev pub max_attempts : ℕ
max_attempts = 3

abbrev pub purge_every_ms : ℕ
purge_every_ms = 600000

-- How a handler ends: it returns, throws `JobCanceledError`, or throws another error.
pub data HandlerResult : Type 0 where
  returned canceled_error : HandlerResult
  raised : String → HandlerResult

abbrev pub Handlers : Type 0
Handlers = Job → Table → HandlerResult × Table

-- What the registration of the job's person is told, if anything.
abbrev pub Persisted : Type 0
Persisted = Option String

module _ (env : Env) (now worker : ℕ) (job : Job) where
  -- the `catch` of `runJob`
  unfoldable pub fail_job : Final → String → String → Table → Persisted × Table
  unfolding finish_device_sync_job
  fail_job status message told t =
      let (owned, u) = finish_device_sync_job job.id worker status (some message) now (env 3 t) in
      (if owned then some told else none, u)

  abbrev pub cancel_job : Table → Persisted × Table
  cancel_job t = fail_job Final.canceled "Cancelado." "Sync cancelado." t

  -- after the handler: the second checkpoint and the finish
  unfoldable pub complete_job : HandlerResult → Table → Persisted × Table
  unfolding finish_device_sync_job is_device_sync_job_cancel_requested fail_job
  complete_job (raised message) t = fail_job Final.failed message message t
  complete_job canceled_error t = cancel_job t
  complete_job returned t =
      let t1 = env 1 t in
      if is_device_sync_job_cancel_requested job.id t1
      then cancel_job t1
      else (none, (finish_device_sync_job job.id worker Final.done none now (env 2 t1)).1)

  unfoldable pub run_job : Handlers → Table → Persisted × Table
  unfolding is_device_sync_job_cancel_requested fail_job complete_job
  run_job run t =
      let t0 = env 0 t in
      if is_device_sync_job_cancel_requested job.id t0
      then cancel_job t0
      else (let (result, t1) = run job t0 in complete_job result t1)

-- `persistFailedFacePerson` is called with a row and a message.
abbrev pub Call : Type 0
Call = Job × String

abbrev pub is_superseded : Option String → Bool
is_superseded none = false
is_superseded (some e) = str_eq e superseded_job_error

abbrev abandoned_message : Job → String
abandoned_message row = elim row.status [ canceled ↦ "Sync cancelado." | _ ↦ or_else row.error "" ]

unfoldable pub abandoned_calls : List Job → List Call
abandoned_calls [] = []
abandoned_calls (row ∷ rows) =
    let rest = abandoned_calls rows in
    if is_superseded row.error then rest else (row, abandoned_message row) ∷ rest

abbrev pub ended_ids : List (ℕ × Status) → List ℕ
ended_ids recovered = map (λ (r : ℕ × Status). r.0) (filter (λ r. not (is_queued r.1)) recovered)

unfoldable pub persist_abandoned : List (ℕ × Status) → Table → List Call
unfolding list_device_sync_jobs_by_ids abandoned_calls
persist_abandoned recovered t =
    abandoned_calls (list_device_sync_jobs_by_ids (ended_ids recovered) t)

-- One round of `maintain` at the time `now`: the calls, the time of the last purge, the table.
pub record Upkeep : Type 0 where
  pub calls : List Call
  pub last_purge_at : ℕ
  pub table : Table

unfoldable pub maintain : ℕ → ℕ → Table → Upkeep
unfolding recover_running_jobs purge_finished_device_sync_jobs persist_abandoned
maintain last_purge_at now t =
    let (recovered, t1) = recover_running_jobs (stale_seconds stale_after_sec) now max_attempts t in
    let calls = persist_abandoned recovered t1 in
    if leb purge_every_ms (now - last_purge_at)
    then record {
      calls = calls;
      last_purge_at = now;
      table = (purge_finished_device_sync_jobs 7 30 1000 now t1).1;
    }
    else record { calls = calls; last_purge_at = last_purge_at; table = t1 }

-- `onModuleDestroy`: loops that did not drain give their jobs back.
unfoldable pub on_module_destroy : Bool → ℕ → ℕ → Table → Table
unfolding recover_running_jobs
on_module_destroy drained worker now t =
    if drained then t else (recover_running_jobs (locked_by worker) now max_attempts t).1
