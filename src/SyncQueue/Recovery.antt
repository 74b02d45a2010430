-- ===== src/SyncQueue/Recovery.antt =====
-- `recoverRunningJobs` of src/database/queries/device-sync-jobs.queries.ts: the plan `t`, `d` of its
-- query, then the update. A row number ranks the rows of one dedupe key; rows that the order leaves
-- tied are ranked by their place in the table.
use face2go_server.Base.{
  ℕ, ◌+◌, ◌-◌, ◌*◌, String, Bool, true, false, Option, none, some, List, [], ◌∷◌, map, not, ◌&&◌,
  ◌||◌, any, count, ltb, leb, ◌==◌, if◌then◌else◌, or_else, decimal, ◌<>◌,
}
use face2go_server.SyncQueue.Job.{Status, queued, failed, canceled, Job, Table, job_running}
use face2go_server.SyncQueue.Queries.{queued_with, holds_worker}

pub data RecoverRunningScope : Type 0 where
  stale_seconds : ℕ → RecoverRunningScope
  locked_by : ℕ → RecoverRunningScope

pub data Action : Type 0 where
  cancel supersede exhaust requeue : Action

abbrev pub is_graceful : RecoverRunningScope → Bool
is_graceful (stale_seconds s) = false
is_graceful (locked_by w) = true

abbrev pub superseded_job_error : String
superseded_job_error = "Substituído por um job mais recente."

-- the rows of `t`
unfoldable pub in_scope : RecoverRunningScope → ℕ → Job → Bool
in_scope (stale_seconds s) now j =
    job_running j && ltb (or_else j.heartbeat_at j.updated_at + s * 1000) now
in_scope (locked_by w) now j = job_running j && holds_worker w j.locked_by

-- `started_at DESC NULLS LAST, created_at DESC`: `x` stands strictly before `j`.
unfoldable pub precedes : Job → Job → Bool
precedes x j = elim x.started_at [
  | none ↦ elim j.started_at [ none ↦ ltb j.created_at x.created_at | some b ↦ false ]
  | some a ↦ elim j.started_at [
    | none ↦ true
    | some b ↦ ltb b a || (a == b && ltb j.created_at x.created_at)
  ]
]

module _ (scope : RecoverRunningScope) (now max_attempts : ℕ) where
  -- the rows of one window partition
  unfoldable pub partition : ℕ → Job → Bool
  unfolding in_scope
  partition key x = in_scope scope now x && x.dedupe_key == key

  -- How many rows of its partition stand before `j`, so that `rn` is one more; `above` holds the
  -- rows of the table above `j`, and `below` those below it.
  unfoldable pub row_number : List Job → Job → List Job → ℕ
  unfolding partition precedes
  row_number above j below =
      1
      + count (λ x. partition j.dedupe_key x && not (precedes j x)) above
      + count (λ x. partition j.dedupe_key x && precedes x j) below

  unfoldable pub action : Table → ℕ → Job → Action
  action table rn j =
      if j.cancel_requested
      then cancel
      else if any (queued_with j.dedupe_key) table || ltb 1 rn
      then supersede
      else if not (is_graceful scope) && leb max_attempts j.attempts
      then exhaust
      else requeue

  -- the rows of the table, each with its action of `d` if it has one
  unfoldable pub plan : Table → List Job → List Job → List (Job × Option Action)
  unfolding row_number action
  plan table above [] = []
  plan table above (j ∷ below) =
      (j, if in_scope scope now j then some (action table (row_number above j below) j) else none)
      ∷ plan table (j ∷ above) below

module _ (scope : RecoverRunningScope) (now max_attempts : ℕ) where
  abbrev pub action_status : Action → Status
  action_status cancel = canceled
  action_status supersede = failed
  action_status exhaust = failed
  action_status requeue = queued

  abbrev action_error : Action → Option String → Option String
  action_error cancel error = some "Cancelado."
  action_error supersede error = some superseded_job_error
  action_error exhaust error =
      some ("Worker parou de responder (" <> decimal max_attempts <> " tentativas).")
  action_error requeue error = error

  abbrev action_finished : Action → Option ℕ
  action_finished requeue = none
  action_finished _ = some now

  abbrev action_attempts : Action → ℕ → ℕ
  action_attempts requeue n = if is_graceful scope then n - 1 else n
  action_attempts _ n = n

  unfoldable pub recovered : Action → Job → Job
  recovered a j = record j {
    status = action_status a;
    error = action_error a j.error;
    finished_at = action_finished a;
    attempts = action_attempts a j.attempts;
    locked_by = none;
    heartbeat_at = none;
    updated_at = now;
  }

  unfoldable pub apply_action : Job × Option Action → Job
  unfolding recovered
  apply_action (j, none) = j
  apply_action (j, some a) = recovered a j

  unfoldable pub recovered_rows : List (Job × Option Action) → List (ℕ × Status)
  recovered_rows [] = []
  recovered_rows ((j, none) ∷ p) = recovered_rows p
  recovered_rows ((j, some a) ∷ p) = (j.id, action_status a) ∷ recovered_rows p

  unfoldable pub recover_running_jobs : Table → List (ℕ × Status) × Table
  unfolding plan apply_action recovered_rows
  recover_running_jobs t =
      let p = plan scope now max_attempts t [] t in (recovered_rows p, map apply_action p)
