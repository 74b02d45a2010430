-- ===== src/SyncQueue/Queries.antt =====
-- src/database/queries/device-sync-jobs.queries.ts, but for the recovery of running jobs. One
-- statement is one step on the table; the time and the new row's id come as arguments.
use face2go_server.Base.{
  ℕ, ◌+◌, ◌*◌, String, Bool, true, false, Option, none, some, List, [], ◌∷◌, ◌++◌, map, not, ◌&&◌,
  ◌||◌, any, filter, find?, length, take, ltb, ◌==◌, if◌then◌else◌, or_else,
}
use face2go_server.SyncQueue.Job.{
  Kind, Status, queued, running, same_kind, is_active, is_running, Payload, empty, Job, Table,
  job_queued, job_running,
}
use face2go_server.SyncQueue.Sql.{update_where, returning, delete_where}

pub record EnqueueInput : Type 0 where
  pub kind : Kind
  pub client_id : ℕ
  pub target_id : ℕ
  pub force : Option Bool
  pub dedupe_key : ℕ
  pub payload : Option Payload
  pub total : Option ℕ
  pub created_by : Option ℕ

abbrev pub queued_with : ℕ → Job → Bool
queued_with key j = job_queued j && j.dedupe_key == key

abbrev pub head? {ℓ} : {A : Type ℓ} → List A → Option A
head? [] = none
head? (x ∷ xs) = some x

-- The queued row comes first.
unfoldable pub find_active_job_by_dedupe : ℕ → Table → Option Job
find_active_job_by_dedupe key t = elim (find? (queued_with key) t) [
  | some j ↦ some j
  | none ↦ find? (λ j. job_running j && j.dedupe_key == key) t
]

unfoldable pub merged_row : Payload → Bool → Option ℕ → ℕ → Job → Job
merged_row payload force created_by now j = record j {
  payload = payload;
  force = force;
  created_by = created_by;
  updated_at = now;
}

unfoldable pub update_queued_job_payload :
    ℕ → Payload → Bool → Option ℕ → ℕ → Table → Option Job × Table
unfolding update_where returning merged_row
update_queued_job_payload id payload force created_by now t =
    let hit = λ (j : Job). j.id == id && job_queued j in
    let set = merged_row payload force created_by now in
    (head? (returning hit set t), update_where hit set t)

unfoldable pub new_row : ℕ → ℕ → EnqueueInput → Job
new_row id now input = record {
  id = id;
  kind = input.kind;
  client_id = input.client_id;
  target_id = input.target_id;
  force = or_else input.force false;
  status = queued;
  dedupe_key = input.dedupe_key;
  payload = or_else input.payload empty;
  processed = 0;
  total = or_else input.total 0;
  error = none;
  locked_by = none;
  heartbeat_at = none;
  attempts = 0;
  cancel_requested = false;
  created_by = input.created_by;
  created_at = now;
  updated_at = now;
  started_at = none;
  finished_at = none;
}

-- The unique index on the dedupe keys of queued rows refuses a second one: `none`.
unfoldable pub insert_device_sync_job : ℕ → ℕ → EnqueueInput → Table → Option (Job × Table)
unfolding new_row
insert_device_sync_job id now input t =
    if any (queued_with input.dedupe_key) t
    then none
    else some (new_row id now input, t ++ new_row id now input ∷ [])

unfoldable pub get_device_sync_job_by_id : ℕ → Option ℕ → Table → Option Job
get_device_sync_job_by_id id none t = find? (λ j. j.id == id) t
get_device_sync_job_by_id id (some client_id) t =
    find? (λ j. j.id == id && j.client_id == client_id) t

unfoldable pub list_device_sync_jobs_by_ids : List ℕ → Table → List Job
list_device_sync_jobs_by_ids ids t = filter (λ j. any (λ id. j.id == id) ids) t

-- An empty or absent list of kinds does not filter.
abbrev kind_listed : List Kind → Kind → Bool
kind_listed [] k = true
kind_listed (x ∷ xs) k = any (same_kind k) (x ∷ xs)

unfoldable pub list_active_device_sync_jobs : ℕ → List Kind → Table → List Job
list_active_device_sync_jobs client_id kinds t =
    filter (λ j. j.client_id == client_id && is_active j.status && kind_listed kinds j.kind) t

-- Another active job of the same target that runs or is older.
unfoldable pub blocks : Job → Job → Bool
blocks r q =
    same_kind r.kind q.kind
    && (r.target_id == q.target_id
        && (not (r.id == q.id)
            && (is_active r.status && (is_running r.status || ltb r.created_at q.created_at))))

unfoldable pub eligible : Table → Job → Bool
unfolding blocks
eligible t q = job_queued q && not (any (λ r. blocks r q) t)

abbrev older_of : Job → Option Job → Job
older_of j none = j
older_of j (some k) = if ltb k.created_at j.created_at then k else j

-- `ORDER BY created_at ASC LIMIT 1`
unfoldable pub oldest : (Job → Bool) → Table → Option Job
oldest p [] = none
oldest p (j ∷ t) = let rest = oldest p t in if p j then some (older_of j rest) else rest

unfoldable pub claimed : ℕ → ℕ → Job → Job
claimed now worker j = record j {
  status = running;
  locked_by = some worker;
  heartbeat_at = some now;
  attempts = j.attempts + 1;
  started_at = some (or_else j.started_at now);
  updated_at = now;
}

-- `is_locked` names the rows that another transaction holds: SKIP LOCKED.
unfoldable pub claim_next_device_sync_job : (ℕ → Bool) → ℕ → ℕ → Table → Option Job × Table
unfolding eligible oldest claimed update_where returning
claim_next_device_sync_job is_locked now worker t =
    elim (oldest (λ q. eligible t q && not (is_locked q.id)) t) [
      | none ↦ (none, t)
      | some q ↦ (
        head? (returning (λ j. j.id == q.id) (claimed now worker) t),
        update_where (λ j. j.id == q.id) (claimed now worker) t,
      )
    ]

-- The row still waits when the query comes to lock it, so that another claim has not taken it.
abbrev pub still_waits : Table → Job → Bool
still_waits u q = any (λ j. j.id == q.id && job_queued j) u

-- The same query beside others that are not finished when it begins: it looks for a job in the
-- snapshot `t` from its beginning, and locks and changes the row in the table `u`.
unfoldable pub claim_on_snapshot : Table → (ℕ → Bool) → ℕ → ℕ → Table → Option Job × Table
unfolding eligible oldest claimed update_where returning
claim_on_snapshot t is_locked now worker u =
    elim (oldest (λ q. eligible t q && (still_waits u q && not (is_locked q.id))) t) [
      | none ↦ (none, u)
      | some q ↦ (
        head? (returning (λ j. j.id == q.id) (claimed now worker) u),
        update_where (λ j. j.id == q.id) (claimed now worker) u,
      )
    ]

abbrev pub holds_worker : ℕ → Option ℕ → Bool
holds_worker worker none = false
holds_worker worker (some w) = w == worker

-- `id = … AND status = 'running' AND locked_by = …`
unfoldable pub owned_by : ℕ → ℕ → Job → Bool
owned_by id worker j = j.id == id && (job_running j && holds_worker worker j.locked_by)

pub record Heartbeat : Type 0 where
  pub owned : Bool
  pub cancel_requested : Bool

abbrev pub heartbeat_of : Option Job → Heartbeat
heartbeat_of none = record { owned = false; cancel_requested = false }
heartbeat_of (some j) = record { owned = true; cancel_requested = j.cancel_requested }

unfoldable pub beaten : ℕ → Job → Job
beaten now j = record j { heartbeat_at = some now }

unfoldable pub heartbeat_device_sync_job : ℕ → ℕ → ℕ → Table → Heartbeat × Table
unfolding owned_by beaten update_where returning
heartbeat_device_sync_job id worker now t = (
  heartbeat_of (head? (returning (owned_by id worker) (beaten now) t)),
  update_where (owned_by id worker) (beaten now) t,
)

abbrev requested : Option Job → Bool
requested none = false
requested (some j) = j.cancel_requested

unfoldable pub is_device_sync_job_cancel_requested : ℕ → Table → Bool
is_device_sync_job_cancel_requested id t = requested (find? (λ j. j.id == id) t)

-- The states that a finish may write.
pub data Final : Type 0 where
  done failed canceled : Final

abbrev pub final_status : Final → Status
final_status Final.done = Status.done
final_status Final.failed = Status.failed
final_status Final.canceled = Status.canceled

unfoldable pub finished : Final → Option String → ℕ → Job → Job
finished status error now j = record j {
  status = final_status status;
  error = error;
  finished_at = some now;
  locked_by = none;
  heartbeat_at = none;
  updated_at = now;
}

unfoldable pub finish_device_sync_job : ℕ → ℕ → Final → Option String → ℕ → Table → Bool × Table
unfolding owned_by finished update_where
finish_device_sync_job id worker status error now t =
    (any (owned_by id worker) t, update_where (owned_by id worker) (finished status error now) t)

-- Days in milliseconds.
abbrev days : ℕ → ℕ
days n = n * 86400000

abbrev before : Option ℕ → ℕ → ℕ → Bool
before none age now = false
before (some at) age now = ltb (at + days age) now

unfoldable pub is_expired : ℕ → ℕ → ℕ → Job → Bool
is_expired done_days failed_days now j = elim j.status [
  | queued ↦ false
  | running ↦ false
  | Status.done ↦ before j.finished_at done_days now
  | Status.failed ↦ before j.finished_at failed_days now
  | Status.canceled ↦ before j.finished_at failed_days now
]

unfoldable pub purge_finished_device_sync_jobs : ℕ → ℕ → ℕ → ℕ → Table → ℕ × Table
unfolding is_expired delete_where
purge_finished_device_sync_jobs done_days failed_days limit now t =
    let ids =
      take limit (map (λ (j : Job). j.id) (filter (is_expired done_days failed_days now) t)) in
    (
      length (filter (λ (j : Job). any (λ id. j.id == id) ids) t),
      delete_where (λ j. any (λ id. j.id == id) ids) t,
    )

-- An absent field of the patch leaves the column.
pub record JobPatch : Type 0 where
  pub status : Option Status
  pub processed : Option ℕ
  pub total : Option ℕ
  pub error : Option (Option String)
  pub finished_at : Option (Option ℕ)

unfoldable pub patched : JobPatch → ℕ → Job → Job
patched p now j = record j {
  status = or_else p.status j.status;
  processed = or_else p.processed j.processed;
  total = or_else p.total j.total;
  error = or_else p.error j.error;
  finished_at = or_else p.finished_at j.finished_at;
  updated_at = now;
}

unfoldable pub update_device_sync_job : ℕ → JobPatch → ℕ → Table → Table
unfolding patched update_where
update_device_sync_job id p now t = update_where (λ j. j.id == id) (patched p now) t
