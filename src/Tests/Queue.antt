-- ===== src/Tests/Queue.antt =====
-- The queue of sync jobs at small tables.
use face2go_server.Base.{ℕ, ◌≤◌, ◌≡◌, refl, true, false, none, some, [], ◌∷◌, arith, Memᴰ}
use face2go_server.SyncQueue.Job.{face_person, queued, running, empty, field, str, Job, Table}
use face2go_server.SyncQueue.Queries.{
  EnqueueInput, insert_device_sync_job, claim_next_device_sync_job, claimed,
}
use face2go_server.SyncQueue.Service.{ok, enqueue}
use face2go_server.SyncQueue.Service.Enqueue.{alone, Waits}
use face2go_server.SyncQueue.Service.LastWins.{enqueue-last_wins}
use face2go_server.SyncQueue.Valid.{IsValid}
use face2go_server.SyncQueue.Lifecycle.{
  insert, claim, Reach, start, next, Reach-IsValid, attempts_bounded,
}
use face2go_server.SyncQueue.ClaimOrder.{IsOldest, claim-IsOldest}

-- A request to sync the face of the person 7.
abbrev pub request : ℕ → EnqueueInput
request key = record {
  kind = face_person;
  client_id = 5;
  target_id = 7;
  force = some true;
  dedupe_key = key;
  payload = some (field "entityKind" (str "member") empty);
  total = some 1;
  created_by = none;
}

abbrev pub first_job : Job
first_job = record {
  id = 1;
  kind = face_person;
  client_id = 5;
  target_id = 7;
  force = true;
  dedupe_key = 40;
  payload = field "entityKind" (str "member") empty;
  status = queued;
  processed = 0;
  total = 1;
  error = none;
  locked_by = none;
  heartbeat_at = none;
  attempts = 0;
  cancel_requested = false;
  created_by = none;
  created_at = 100;
  updated_at = 100;
  started_at = none;
  finished_at = none;
}

abbrev pub second_job : Job
second_job = record {
  id = 2;
  kind = face_person;
  client_id = 5;
  target_id = 7;
  force = true;
  dedupe_key = 41;
  payload = field "entityKind" (str "member") empty;
  status = queued;
  processed = 0;
  total = 1;
  error = none;
  locked_by = none;
  heartbeat_at = none;
  attempts = 0;
  cancel_requested = false;
  created_by = none;
  created_at = 200;
  updated_at = 200;
  started_at = none;
  finished_at = none;
}

abbrev pub two_jobs : Table
two_jobs = first_job ∷ second_job ∷ []

pub two_jobs-Reach : Reach 3 two_jobs
unfolding insert_device_sync_job
two_jobs-Reach =
    next (next start (insert 1 100 (request 40) {row = first_job} refl refl))
      (insert 2 200 (request 41) {row = second_job} refl refl)

pub two_jobs-IsValid : IsValid 3 two_jobs
two_jobs-IsValid = Reach-IsValid (omega arith) two_jobs-Reach

-- The worker 9 takes the first job at the time 300.
abbrev pub running_job : Job
running_job = record {
  id = 1;
  kind = face_person;
  client_id = 5;
  target_id = 7;
  force = true;
  dedupe_key = 40;
  payload = field "entityKind" (str "member") empty;
  status = running;
  processed = 0;
  total = 1;
  error = none;
  locked_by = some 9;
  heartbeat_at = some 300;
  attempts = 1;
  cancel_requested = false;
  created_by = none;
  created_at = 100;
  updated_at = 300;
  started_at = some 300;
  finished_at = none;
}

abbrev pub taken : Table
taken = running_job ∷ second_job ∷ []

claim_test : claim_next_device_sync_job (λ _. false) 300 9 two_jobs ≡ (some running_job, taken)
unfolding claim_next_device_sync_job
claim_test = refl

-- The second job waits for the target of the first.
claim_waits_test : (claim_next_device_sync_job (λ _. false) 400 8 taken).0 ≡ none
unfolding claim_next_device_sync_job
claim_waits_test = refl

pub taken-Reach : Reach 3 taken
unfolding claim_next_device_sync_job
taken-Reach = next two_jobs-Reach (claim (λ _. false) 300 9)

pub taken-IsValid : IsValid 3 taken
taken-IsValid = Reach-IsValid (omega arith) taken-Reach

attempts_bounded_example : (1 ≤ running_job.attempts) × (running_job.attempts ≤ 3)
attempts_bounded_example =
    attempts_bounded (omega arith) {j = running_job} taken-Reach (Memᴰ.head refl) refl

claim-IsOldest_example :
    (q : Job) × IsOldest (λ _. false) two_jobs q × (running_job ≡ claimed 300 9 q)
unfolding claim_next_device_sync_job
claim-IsOldest_example =
    claim-IsOldest (λ _. false) 300 9 two_jobs {row = running_job} two_jobs-IsValid refl

enqueue-last_wins_example :
    (row : Job) × ((enqueue alone 3 500 (request 41) two_jobs).0 ≡ ok row)
    × Waits (request 41) row (enqueue alone 3 500 (request 41) two_jobs).1
enqueue-last_wins_example = enqueue-last_wins 3 500 (request 41) two_jobs two_jobs-IsValid
