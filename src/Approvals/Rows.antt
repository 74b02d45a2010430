-- ===== src/Approvals/Rows.antt =====
-- The tables that the approvals read and write: src/database/schema/child-approvals.ts and
-- src/database/schema/visitor-approvals.ts, and of the other tables the columns that matter. Ids are
-- numbers, an instant a number of milliseconds, and a text the list of its UTF-16 code units.
use Prim.Native.Char.{code}
use face2go_server.Base.{ℕ, String, Bool, Option, List, [], ◌∷◌, map, ℤ, if◌then◌else◌}
use face2go_server.Documents.{Text}
use face2go_server.Civil.{Parts}

abbrev pub codes : String → Text
codes String.[] = []
codes (String.◌∷◌ c s) = code c ∷ codes s

pub data Flow : Type 0 where
  child visitor : Flow

pub data RegistrationStatus : Type 0 where
  draft approved rejected blocked : RegistrationStatus

pub record Client : Type 0 where
  pub id : ℕ
  pub company_id : ℕ
  pub name : Text
  pub is_active : Bool
  pub timezone_offset_minutes : ℤ
  pub enable_child_approve : Bool
  pub enable_visitor_approve : Bool

-- The columns of one flow: `…ApprovalRequired`, `…RemovalPending`, `…RequestedAt`, `…RequestedByUserId`.
pub record Intent : Type 0 where
  pub required : Bool
  pub removal_pending : Bool
  pub requested_at : Option ℕ
  pub requested_by : Option ℕ

pub record Registration : Type 0 where
  pub id : ℕ
  pub client_id : ℕ
  pub name : Option Text
  pub birth_date : Option Parts
  pub document : Option Text
  pub email : Option Text
  pub block : Option Text
  pub unit : Option Text
  pub unit_id : Option ℕ
  pub face_id : Option ℕ
  pub is_visitor : Bool
  pub is_active : Bool
  pub status : RegistrationStatus
  pub rejection_notes : Option Text
  pub approved_by : Option ℕ
  pub approved_at : Option ℕ
  pub child_intent : Intent
  pub visitor_intent : Intent
  pub updated_at : ℕ

pub record Member : Type 0 where
  pub client_id : ℕ
  pub registration_id : Option ℕ
  pub face_id : Option ℕ
  pub is_active : Bool
  pub blocked_at : Option ℕ
  pub updated_at : ℕ

pub record Snapshot : Type 0 where
  pub registration_id : ℕ
  pub name : Text
  pub birth_date : Option Text
  pub block : Option Text
  pub unit : Option Text

pub record Request : Type 0 where
  pub id : ℕ
  pub client_id : ℕ
  pub registration_id : ℕ
  pub adult_registration_id : ℕ
  pub unit_id : ℕ
  pub token_hash : Text
  pub email : Text
  pub term_version : Text
  pub term_content : Text
  pub expires_at : ℕ
  pub accepted_at : Option ℕ
  pub canceled_at : Option ℕ
  pub verification_failures : ℕ
  pub locked_until : Option ℕ
  pub email_sent_at : Option ℕ
  pub email_attempts : ℕ
  pub email_next_attempt_at : ℕ
  pub email_error : Option Text
  pub created_at : ℕ

-- `admin:<id>`, `adult:<id>` and `system`
pub data Actor : Type 0 where
  admin adult : ℕ → Actor
  system : Actor

pub record Consent : Type 0 where
  pub id : ℕ
  pub client_id : ℕ
  pub registration_id : ℕ
  pub adult_registration_id : ℕ
  pub request_id : ℕ
  pub unit_id : ℕ
  pub child_snapshot : Snapshot
  pub adult_snapshot : Snapshot
  pub term_version : Text
  pub term_content : Text
  pub term_hash : Text
  pub accepted_at : ℕ
  pub revoked_at : Option ℕ
  pub revoked_by : Option Actor
  pub revocation_reason : Option Text

pub record FaceRow : Type 0 where
  pub client_id : ℕ
  pub registration_id : ℕ
  pub face_id : ℕ

-- A row of `registration_events` of the type `rejected`.
pub record Rejection : Type 0 where
  pub client_id : ℕ
  pub registration_id : ℕ
  pub author_user_id : Option ℕ
  pub body : Text

pub record Tables : Type 0 where
  pub requests : List Request
  pub consents : List Consent
  pub faces : List FaceRow

pub record Store : Type 0 where
  pub clients : List Client
  pub registrations : List Registration
  pub members : List Member
  pub rejections : List Rejection
  pub child_tables : Tables
  pub visitor_tables : Tables

abbrev pub tables : Flow → Store → Tables
tables child s = s.child_tables
tables visitor s = s.visitor_tables

abbrev pub set_tables : Flow → Tables → Store → Store
set_tables child t s = record s { child_tables = t }
set_tables visitor t s = record s { visitor_tables = t }

abbrev pub intent : Flow → Registration → Intent
intent child r = r.child_intent
intent visitor r = r.visitor_intent

abbrev pub set_intent : Flow → Intent → Registration → Registration
set_intent child i r = record r { child_intent = i }
set_intent visitor i r = record r { visitor_intent = i }

-- `UPDATE … SET f WHERE p`
abbrev pub update_rows {ℓ} : {A : Type ℓ} → (A → Bool) → (A → A) → List A → List A
update_rows p f xs = map (λ x. if p x then f x else x) xs
