-- ===== src/SyncQueue/Job.antt =====
-- The row of src/database/schema/device-sync-jobs.ts, and the JSON object of its payload.
-- Uuids and text keys that the code only compares are numbers; a time is a number of milliseconds.
use face2go_server.Base.{ℕ, ◌≡◌, refl, arith, String, Bool, true, false, Option, List, ◌||◌}

pub data Kind : Type 0 where
  face_person face_remove face_reader face_school lpr_vehicle lpr_camera : Kind

pub data Status : Type 0 where
  queued running done failed canceled : Status

abbrev pub same_kind : Kind → Kind → Bool
same_kind face_person face_person = true
same_kind face_remove face_remove = true
same_kind face_reader face_reader = true
same_kind face_school face_school = true
same_kind lpr_vehicle lpr_vehicle = true
same_kind lpr_camera lpr_camera = true
same_kind _ _ = false

pub same_kind-eq : (a b : Kind) → same_kind a b ≡ true → a ≡ b
same_kind-eq face_person face_person h = refl
same_kind-eq face_remove face_remove h = refl
same_kind-eq face_reader face_reader h = refl
same_kind-eq face_school face_school h = refl
same_kind-eq lpr_vehicle lpr_vehicle h = refl
same_kind-eq lpr_camera lpr_camera h = refl
same_kind-eq _ _ h = cc

pub same_kind_refl : (a : Kind) → same_kind a a ≡ true
same_kind_refl a = ground arith

abbrev pub is_queued : Status → Bool
is_queued queued = true
is_queued _ = false

abbrev pub is_running : Status → Bool
is_running running = true
is_running _ = false

-- `inArray(status, ['queued', 'running'])`
abbrev pub is_active : Status → Bool
is_active s = is_queued s || is_running s

mutual
  pub data Json : Type 0 where
    null : Json
    bool : Bool → Json
    num : ℕ → Json
    str : String → Json
    arr : Items → Json
    obj : Payload → Json

  pub data Items : Type 0 where
    nil : Items
    cons : Json → Items → Items

  -- `Record<string, unknown>`
  pub data Payload : Type 0 where
    empty : Payload
    field : String → Json → Payload → Payload

pub record Job : Type 0 where
  pub id : ℕ
  pub kind : Kind
  pub client_id : ℕ
  pub target_id : ℕ
  pub force : Bool
  pub status : Status
  pub dedupe_key : ℕ
  pub payload : Payload
  pub processed : ℕ
  pub total : ℕ
  pub error : Option String
  pub locked_by : Option ℕ
  pub heartbeat_at : Option ℕ
  pub attempts : ℕ
  pub cancel_requested : Bool
  pub created_by : Option ℕ
  pub created_at : ℕ
  pub updated_at : ℕ
  pub started_at : Option ℕ
  pub finished_at : Option ℕ

-- The table `device_sync_jobs`, oldest row first.
abbrev pub Table : Type 0
Table = List Job

abbrev pub job_queued : Job → Bool
job_queued j = is_queued j.status

abbrev pub job_running : Job → Bool
job_running j = is_running j.status
