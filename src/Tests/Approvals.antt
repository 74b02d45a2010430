-- ===== src/Tests/Approvals.antt =====
-- The approvals at a small store: a client, a child, an adult of the child's unit, and a request.
use face2go_server.Base.{
  ℕ, ◌+◌, ◌≡◌, ◌↔◌, refl, Bool, true, false, none, some, List, [], ◌∷◌, arith, All, pos,
}
use face2go_server.Documents.{
  Text, is_valid_cpf, normalize_cpf, only_digits, all_same_digits, mod11_check_digit,
}
use face2go_server.Civil.{
  Parts, to_iso_date_string, parse_iso_date_parts, parse_trimmed, trim, calculate_age_on_date,
  calendar_date_in_offset, age_between,
}
use face2go_server.Approvals.Rules.{needs_approval, is_of_age, matches_adult_cpf}
use face2go_server.Approvals.Rows.{
  child, visitor, approved, Client, Intent, Registration, Snapshot, Request, Consent, Tables, Store,
}
use face2go_server.Approvals.Repository.{
  adult_available, is_available, local_date, find_registration, find_client, active_consent_count,
  registration_by_face,
}
use face2go_server.Approvals.Requests.{locked_request}
use face2go_server.Approvals.Policy.{face_allowed}
use face2go_server.Approvals.Access.{Cleared, face_allowed_iff}
use face2go_server.Approvals.Invitation.{Bundle}
use face2go_server.Approvals.Public.{Input, may_accept, accept_in}
use face2go_server.Approvals.Adulthood.{IsDate, today}
use face2go_server.Approvals.Acceptance.{MayAccept}
use face2go_server.Approvals.Authorizing.{accept-authorizes}

abbrev now : ℕ
now = 1790000000000

abbrev market : Client
market = record {
  id = 1;
  company_id = 2;
  name = 77 ∷ [];
  is_active = true;
  timezone_offset_minutes = pos 0;
  enable_child_approve = true;
  enable_visitor_approve = false;
}

abbrev intent_of : Bool → Intent
intent_of required = record {
  required = required;
  removal_pending = false;
  requested_at = none;
  requested_by = none;
}

-- `529.982.247-25`
abbrev cpf : Text
cpf = 53 ∷ 50 ∷ 57 ∷ 57 ∷ 56 ∷ 50 ∷ 50 ∷ 52 ∷ 55 ∷ 50 ∷ 53 ∷ []

abbrev minor : Registration
minor = record {
  id = 10;
  client_id = 1;
  name = none;
  birth_date = some (record { y = 2015; m = 1; d = 1 });
  document = none;
  email = none;
  block = none;
  unit = none;
  unit_id = some 7;
  face_id = some 99;
  is_visitor = false;
  is_active = true;
  status = approved;
  rejection_notes = none;
  approved_by = none;
  approved_at = none;
  child_intent = intent_of true;
  visitor_intent = intent_of false;
  updated_at = 0;
}

abbrev parent_birth : Parts
parent_birth = record { y = 1980; m = 5; d = 1 }

abbrev parent : Registration
parent = record minor {
  id = 20;
  birth_date = some parent_birth;
  document = some cpf;
  email = some (97 ∷ []);
  face_id = none;
  child_intent = intent_of false;
}

abbrev link : Request
link = record {
  id = 30;
  client_id = 1;
  registration_id = 10;
  adult_registration_id = 20;
  unit_id = 7;
  token_hash = 1 ∷ [];
  email = 97 ∷ [];
  term_version = 118 ∷ [];
  term_content = 116 ∷ [];
  expires_at = 1790000000001;
  accepted_at = none;
  canceled_at = none;
  verification_failures = 0;
  locked_until = none;
  email_sent_at = none;
  email_attempts = 0;
  email_next_attempt_at = 0;
  email_error = none;
  created_at = 0;
}

abbrev shown : Snapshot
shown = record { registration_id = 10; name = []; birth_date = none; block = none; unit = none }

-- a consent of the parent for the child, for a unit
abbrev consent_for : ℕ → Consent
consent_for unit_id = record {
  id = 40;
  client_id = 1;
  registration_id = 10;
  adult_registration_id = 20;
  request_id = 29;
  unit_id = unit_id;
  child_snapshot = shown;
  adult_snapshot = shown;
  term_version = [];
  term_content = [];
  term_hash = [];
  accepted_at = 0;
  revoked_at = none;
  revoked_by = none;
  revocation_reason = none;
}

abbrev no_rows : Tables
no_rows = record { requests = []; consents = []; faces = [] }

abbrev store_with : List Consent → Store
store_with consents = record {
  clients = market ∷ [];
  registrations = minor ∷ parent ∷ [];
  members = [];
  rejections = [];
  child_tables = record { requests = link ∷ []; consents = consents; faces = [] };
  visitor_tables = no_rows;
}

abbrev read : Bundle
read = record { request = link; client = market; subject = minor; adult = parent }

abbrev input : Input
input = record { cpf = cpf; agreed = true; term_version = 118 ∷ [] }

abbrev digest : Text → Text
digest t = t

face_allowed_iff_example : (face_allowed 1 99 now (store_with (consent_for 7 ∷ [])) ≡ true) ↔ (
    All
      (Cleared 1 now (store_with (consent_for 7 ∷ [])) visitor)
      (registration_by_face 1 99 (store_with (consent_for 7 ∷ [])))
    × All
        (Cleared 1 now (store_with (consent_for 7 ∷ [])) child)
        (registration_by_face 1 99 (store_with (consent_for 7 ∷ []))))
face_allowed_iff_example = face_allowed_iff 1 99 now (store_with (consent_for 7 ∷ []))

abbrev mark_done : Store → ℕ × Store
mark_done s = (5, s)

may-accept :
    (cs : List Consent)
    → MayAccept digest child now input read (store_with cs) minor link parent market
unfolding find_registration locked_request find_client matches_adult_cpf is_valid_cpf normalize_cpf
    only_digits all_same_digits mod11_check_digit may_accept needs_approval is_of_age
    adult_available is_available to_iso_date_string parse_iso_date_parts parse_trimmed trim
    calculate_age_on_date calendar_date_in_offset age_between
may-accept cs = record {
  subject_found = refl;
  request_found = refl;
  author_found = refl;
  client_found = refl;
  not_canceled = refl;
  not_accepted = refl;
  not_locked = refl;
  client_on = refl;
  cpf_right = refl;
  eligible = refl;
}

today-IsDate : IsDate (today market parent now)
unfolding local_date
today-IsDate = record { from = omega arith; below = omega arith; valid = refl }

accept-authorizes_example :
    ((accept_in digest child now 41 input read (store_with [])).0 ≡ none)
    × (active_consent_count child 1 10 now
          (accept_in digest child now 41 input read (store_with [])).1
        ≡ active_consent_count child 1 10 now (store_with []) + 1)
accept-authorizes_example =
    accept-authorizes digest child now 41 input read (store_with []) minor link parent market
      (may-accept []) parent_birth refl
      (record { from = omega arith; below = omega arith; valid = refl }) today-IsDate (omega arith)
      refl
