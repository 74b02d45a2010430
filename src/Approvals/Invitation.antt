-- ===== src/Approvals/Invitation.antt =====
-- src/child-approvals/child-approval-invitation.service.ts and
-- src/visitor-approvals/visitor-approval-invitation.service.ts. The queries of one call follow one
-- another with nothing between them. The sending of the mails is not modelled.
use face2go_server.Base.{
  ℕ, ◌+◌, ◌*◌, Bool, true, false, Option, none, some, List, [], ◌∷◌, not, ◌&&◌, ◌||◌, ltb, leb,
  ◌==◌, if◌then◌else◌, any, all, find?, is_some, length, or_else,
}
use face2go_server.Documents.{Text}
use face2go_server.Approvals.Rows.{
  Flow, child, visitor, Client, Registration, Request, Consent, Store, intent,
}
use face2go_server.Approvals.Rules.{
  text_eq, matches_adult_cpf, needs_approval, approval_snapshot, approval_term, term_version,
}
use face2go_server.Approvals.Repository.{is_rejected, find_client, find_registration}
use face2go_server.Approvals.Requests.{
  history, requests, request_by_hash, is_open, insert_request, update_request,
  recipient_limit_reached,
}
use face2go_server.Approvals.Policy.{eligible_adults}

-- `/^[a-f0-9]{64}$/`
abbrev pub is_hex : ℕ → Bool
is_hex c = (leb b'a' c && leb c b'f') || (leb b'0' c && leb c b'9')

abbrev pub is_token : Text → Bool
is_token token = length token == 64 && all is_hex token

pub record Bundle : Type 0 where
  pub request : Request
  pub client : Client
  pub subject : Registration
  pub adult : Registration

abbrev pub bundle_of :
    Request → Option Client → Option Registration → Option Registration → Option Bundle
bundle_of request (some client) (some subject) (some adult) =
    if client.is_active
    then some (record { request = request; client = client; subject = subject; adult = adult })
    else none
bundle_of request _ _ _ = none

abbrev pub bundle_found : Store → Option Request → Option Bundle
bundle_found s none = none
bundle_found s (some r) =
    if is_some r.canceled_at
    then none
    else bundle_of r (find_client r.client_id s) (find_registration r.client_id r.registration_id s)
        (find_registration r.client_id r.adult_registration_id s)

-- Each error of `bundle` (`NotFoundException`) is `none`.
unfoldable pub bundle : (Text → Text) → Flow → Text → Store → Option Bundle
unfolding request_by_hash find_client find_registration
bundle digest flow token s =
    if not (is_token token) then none else bundle_found s (request_by_hash flow (digest token) s)

pub data CpfError : Type 0 where
  too_many_attempts cpf_not_confirmed : CpfError

abbrev pub is_locked : ℕ → Request → Bool
is_locked now r = elim r.locked_until [ none ↦ false | some until ↦ ltb now until ]

abbrev pub failures_after : Request → ℕ
failures_after r = if is_some r.locked_until then 1 else r.verification_failures + 1

abbrev pub failed_row : ℕ → ℕ → Request → Request
failed_row now n r = record r {
  verification_failures = n;
  locked_until = if leb 5 n then some (now + 900000) else none;
}

unfoldable pub verify_cpf :
    (Text → Text) → Flow → Request → Option Text → Text → ℕ → Store → Option CpfError × Store
unfolding matches_adult_cpf update_request
verify_cpf digest flow request expected input now s =
    if is_locked now request
    then (some too_many_attempts, s)
    else if matches_adult_cpf digest input expected
    then (none, s)
    else (
      some cpf_not_confirmed,
      update_request flow request.client_id request.id (failed_row now (failures_after request)) s,
    )

-- What the call draws at random for an adult: the id of a request and its token.
pub record Draw : Type 0 where
  pub request_id : ℕ
  pub token : Text

abbrev pub authorizes : ℕ → Option ℕ → Consent → Bool
authorizes adult_id unit_id c =
    c.adult_registration_id == adult_id
    && (not (is_some c.revoked_at) && elim unit_id [ none ↦ false | some u ↦ c.unit_id == u ])

abbrev pub open_for : ℕ → Request → Bool
open_for adult_id r = r.adult_registration_id == adult_id && is_open r

abbrev pub still_good : Registration → ℕ → ℕ → Request → Bool
still_good adult unit_id now r =
    r.unit_id == unit_id && (ltb now r.expires_at && text_eq r.email (or_else adult.email []))

-- The children's mails are sent again on demand, the visitors' after five minutes only.
abbrev pub may_resend : Flow → ℕ → Request → Bool
may_resend child now r = true
may_resend visitor now r = elim r.email_sent_at [ none ↦ true | some at ↦ ltb (at + 300000) now ]

abbrev pub is_limited : Flow → ℕ → ℕ → ℕ → Store → Bool
is_limited child client_id adult_id now s = false
is_limited visitor client_id adult_id now s =
    recipient_limit_reached visitor client_id adult_id now s

abbrev pub requeued : ℕ → Request → Request
requeued now r = record r {
  email_sent_at = none;
  email_attempts = 0;
  email_error = none;
  email_next_attempt_at = now;
}

abbrev pub cancel_previous : Flow → Option Request → ℕ → Store → Store
cancel_previous flow none now s = s
cancel_previous flow (some r) now s =
    update_request flow r.client_id r.id (λ r. record r { canceled_at = some now }) s

module _ (digest : Text → Text) (draw : Registration → Draw) (flow : Flow) (client : Client)
    (subject : Registration) (unit_id : ℕ) (resend : Bool) (now : ℕ) where
  abbrev pub new_request : Registration → Request
  new_request adult = record {
    id = (draw adult).request_id;
    client_id = client.id;
    registration_id = subject.id;
    adult_registration_id = adult.id;
    unit_id = unit_id;
    token_hash = digest (draw adult).token;
    email = or_else adult.email [];
    term_version = term_version flow;
    term_content = approval_term flow client.name (approval_snapshot subject);
    expires_at = now + 30 * 86400000;
    accepted_at = none;
    canceled_at = none;
    verification_failures = 0;
    locked_until = none;
    email_sent_at = none;
    email_attempts = 0;
    email_next_attempt_at = now;
    email_error = none;
    created_at = now;
  }

  abbrev pub replace : Registration → Option Request → Store → Store
  replace adult previous s =
      if is_limited flow client.id adult.id now s
      then s
      else insert_request flow (new_request adult) (cancel_previous flow previous now s)

  abbrev pub ask_again : Registration → Option Request → Store → Store
  ask_again adult none s = replace adult none s
  ask_again adult (some r) s =
      if still_good adult unit_id now r
      then (if resend && may_resend flow now r
          then update_request flow client.id r.id (requeued now) s
          else s)
      else replace adult (some r) s

  -- The loop over the adults; `existing` is read before it.
  unfoldable pub ask_adults : List Request → List Registration → Store → Store
  unfolding history insert_request update_request recipient_limit_reached approval_term
      approval_snapshot
  ask_adults existing [] s = s
  ask_adults existing (adult ∷ adults) s = ask_adults existing adults (
      if any (authorizes adult.id (some unit_id)) (history flow client.id subject.id s)
      then s
      else ask_again adult (find? (open_for adult.id) existing) s)

module _ (digest : Text → Text) (draw : Registration → Draw) (flow : Flow) (resend : Bool)
    (now : ℕ) where
  abbrev pub ask_found : Store → Option Client → Option Registration → Store
  ask_found s (some client) (some subject) = elim subject.unit_id [
    | none ↦ s
    | some unit_id ↦
        if not subject.is_active
          || (not (needs_approval flow client subject now)
              || (is_rejected subject.status && not (is_some (intent flow subject).requested_at)))
        then s
        else ask_adults digest draw flow client subject unit_id resend now
            (requests flow client.id subject.id s) (eligible_adults client subject unit_id now s) s
  ]
  ask_found s _ _ = s

  unfoldable pub request_emails : ℕ → ℕ → Store → Store
  unfolding find_client find_registration ask_adults requests eligible_adults needs_approval
  request_emails client_id id s =
      ask_found s (find_client client_id s) (find_registration client_id id s)
