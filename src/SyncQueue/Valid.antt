-- ===== src/SyncQueue/Valid.antt =====
-- Well-formed tables of sync jobs.
pub mod Rows
pub mod Recovering
pub mod Tables
pub mod Claim
use face2go_server.Base.{
  ℕ, suc, ◌≤◌, ◌<◌, ◌≡◌, Bool, true, Option, none, List, ◌&&◌, All, count, ◌==◌, is_some,
}
use face2go_server.SyncQueue.Job.{
  Kind, Status, queued, running, done, failed, canceled, same_kind, Job, Table, job_running,
}
use face2go_server.SyncQueue.Queries.{queued_with, JobPatch}

-- What the columns of a row hold in each state, when a job is tried at most `tries` times.
abbrev pub Shape : ℕ → Status → Job → Type 0
Shape tries queued j =
    (j.locked_by ≡ none) × (j.heartbeat_at ≡ none) × (j.finished_at ≡ none) × (j.attempts < tries)
Shape tries running j =
    (is_some j.locked_by ≡ true)
    × (is_some j.heartbeat_at ≡ true)
    × (is_some j.started_at ≡ true)
    × (j.finished_at ≡ none)
    × (1 ≤ j.attempts)
    × (j.attempts ≤ tries)
Shape tries _ j = (j.locked_by ≡ none) × (j.heartbeat_at ≡ none) × (is_some j.finished_at ≡ true)

abbrev pub IsWellFormed : ℕ → Job → Type 0
IsWellFormed tries j = Shape tries j.status j

abbrev pub has_id : ℕ → Job → Bool
has_id i j = j.id == i

abbrev pub runs_for : Kind → ℕ → Job → Bool
runs_for kind target j = job_running j && (same_kind j.kind kind && j.target_id == target)

pub record IsValid (tries : ℕ) (t : Table) : Type 0 where
  pub rows : All (IsWellFormed tries) t
  pub one_id : (i : ℕ) → count (has_id i) t ≤ 1
  pub one_queued : (key : ℕ) → count (queued_with key) t ≤ 1
  pub one_running : (kind : Kind) (target : ℕ) → count (runs_for kind target) t ≤ 1

-- The patches that the handlers pass to `update`.
abbrev pub progress_patch : Option ℕ → Option ℕ → JobPatch
progress_patch processed total = record {
  status = none;
  processed = processed;
  total = total;
  error = none;
  finished_at = none;
}
