-- ===== src/SyncQueue/Service.antt =====
-- src/device-sync-queue/device-sync-queue.service.ts. Each query is one step; `env n` is what the other instances do to
-- the table before the n-th query of a call.
pub mod Enqueue
pub mod LastWins
use text.Mathlib.Text.{◌==◌ as str_eq}
use face2go_server.Base.{
  ℕ, String, Bool, true, false, Option, none, some, List, [], ◌∷◌, ◌||◌, ◌≡◌, if◌then◌else◌,
  or_else,
}
use face2go_server.SyncQueue.Job.{
  Kind, face_person, face_reader, face_school, lpr_vehicle, Status, queued, running, done, failed,
  canceled, is_queued, Json, str, Payload, empty, field, Job, Table,
}
use face2go_server.SyncQueue.Queries.{
  EnqueueInput, find_active_job_by_dedupe, update_queued_job_payload, insert_device_sync_job,
  get_device_sync_job_by_id, list_active_device_sync_jobs,
}
use face2go_server.SyncQueue.AdminQueries.{
  cancel_queued_device_sync_jobs, request_cancel_running_device_sync_job,
}

abbrev pub Env : Type 0
Env = ℕ → Table → Table

abbrev pub is_set : Option Bool → Bool
is_set none = false
is_set (some b) = b

abbrev pub first_of : Option ℕ → Option ℕ → Option ℕ
first_of none b = b
first_of (some a) b = some a

-- The last state wins while the job has not started.
unfoldable pub merge_queued : Job → EnqueueInput → ℕ → Table → Option Job × Table
unfolding update_queued_job_payload
merge_queued existing input now t =
    update_queued_job_payload existing.id (or_else input.payload empty)
      (existing.force || is_set input.force) (first_of input.created_by existing.created_by) now t

-- `if (existing?.status === 'queued')` and the merge; `none` goes on.
unfoldable pub merge_if_queued :
    Env → ℕ → Option Job → EnqueueInput → ℕ → Table → Option Job × Table
unfolding merge_queued
merge_if_queued env n none input now t = (none, t)
merge_if_queued env n (some existing) input now t =
    if is_queued existing.status then merge_queued existing input now (env n t) else (none, t)

pub data Enqueued : Type 0 where
  ok : Job → Enqueued
  -- "Não foi possível enfileirar o sync."
  refused : Enqueued

abbrev found : Option Job → Enqueued
found none = refused
found (some j) = ok j

abbrev pub merged_or {ℓ} : {A : Type ℓ} → Option Job → (Job → A) → A → A
merged_or none f a = a
merged_or (some j) f a = f j

-- the `catch`: the row that took the place of ours
unfoldable pub after_race : Env → ℕ → EnqueueInput → Table → Enqueued × Table
unfolding find_active_job_by_dedupe merge_if_queued
after_race env now input t =
    let t1 = env 3 t in
    let raced = find_active_job_by_dedupe input.dedupe_key t1 in
    let (merged, t2) = merge_if_queued env 4 raced input now t1 in
    merged_or merged (λ m. (ok m, t2)) (found raced, t2)

unfoldable pub insert_or_join : Env → ℕ → ℕ → EnqueueInput → Table → Enqueued × Table
unfolding insert_device_sync_job after_race
insert_or_join env id now input t = elim (insert_device_sync_job id now input (env 2 t)) [
  | some (row, t') ↦ (ok row, t')
  | none ↦ after_race env now input (env 2 t)
]

unfoldable pub enqueue : Env → ℕ → ℕ → EnqueueInput → Table → Enqueued × Table
unfolding find_active_job_by_dedupe merge_if_queued insert_or_join
enqueue env id now input t =
    let t0 = env 0 t in
    let existing = find_active_job_by_dedupe input.dedupe_key t0 in
    let (merged, t1) = merge_if_queued env 1 existing input now t0 in
    merged_or merged (λ m. (ok m, t1)) (insert_or_join env id now input t1)

pub record JobDto : Type 0 where
  pub job_id : ℕ
  pub kind : Kind
  pub status : Status
  pub force : Bool
  pub target_id : ℕ
  pub entity_kind : Option String
  pub processed : ℕ
  pub total : ℕ
  pub error : Option String

-- A property of an object, the first of its name.
unfoldable pub property : String → Payload → Option Json
property name empty = none
property name (field k v rest) =
    let later = property name rest in if str_eq k name then some v else later

abbrev text_of : Option Json → Option String
text_of (some (str s)) = some s
text_of _ = none

-- `typeof payload.entityKind === 'string' ? payload.entityKind : undefined`
unfoldable pub entity_kind_of : Payload → Option String
unfolding property
entity_kind_of payload = text_of (property "entityKind" payload)

unfoldable pub to_dto : Job → JobDto
unfolding entity_kind_of
to_dto row = record {
  job_id = row.id;
  kind = row.kind;
  status = row.status;
  force = row.force;
  target_id = row.target_id;
  entity_kind = entity_kind_of row.payload;
  processed = row.processed;
  total = row.total;
  error = row.error;
}

unfoldable pub list_active_face : ℕ → Table → List Job
unfolding list_active_device_sync_jobs
list_active_face client_id t =
    list_active_device_sync_jobs client_id (face_person ∷ face_reader ∷ face_school ∷ []) t
