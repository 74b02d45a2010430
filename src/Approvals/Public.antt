-- ===== src/Approvals/Public.antt =====
-- src/child-approvals/child-approval-public.service.ts and
-- src/visitor-approvals/visitor-approval-public.service.ts: what an adult does with the link of a
-- request. `between` is what other instances do between the reading of the link and the transaction,
-- which reads its rows again. The events that follow are not modelled.
use face2go_server.Base.{
  ℕ, Bool, true, false, Option, none, some, not, ◌&&◌, ◌||◌, ltb, ◌==◌, if◌then◌else◌, is_some,
}
use face2go_server.Documents.{Text}
use face2go_server.Approvals.Rows.{
  Flow, child, visitor, adult, Client, Registration, Request, Consent, Store, intent, codes,
}
use face2go_server.Approvals.Rules.{text_eq, needs_approval, is_of_age, approval_snapshot}
use face2go_server.Approvals.Repository.{
  is_approved, is_rejected, holds, find_client, find_registration, adult_available, remember_faces,
}
use face2go_server.Approvals.Requests.{
  locked_request, insert_consent, update_request, consent_by_request,
}
use face2go_server.Approvals.Revocation.{revoke}
use face2go_server.Approvals.Invitation.{Bundle, bundle, CpfError, verify_cpf}

pub data Refusal : Type 0 where
  link_not_found unavailable consent_revoked not_eligible no_consent invalid_request : Refusal
  cpf : CpfError → Refusal

abbrev pub enabled : Flow → Client → Bool
enabled child client = client.enable_child_approve
enabled visitor client = client.enable_visitor_approve

pub record Input : Type 0 where
  pub cpf : Text
  pub agreed : Bool
  pub term_version : Text

abbrev pub same_unit : Option ℕ → Option ℕ → Bool
same_unit none none = true
same_unit (some a) (some b) = a == b
same_unit _ _ = false

-- None of the conditions for which the source refuses.
unfoldable pub may_accept :
    Flow → Client → Registration → Registration → Request → Input → ℕ → Store → Bool
unfolding needs_approval is_of_age adult_available
may_accept flow client subject author request input now s =
    needs_approval flow client subject now
    && (subject.is_active
        && (not (is_rejected subject.status && not (is_some (intent flow subject).requested_at))
            && (adult_available client.id author.id s
                && (author.is_active
                    && (is_approved author.status
                        && (not author.is_visitor
                            && (same_unit author.unit_id subject.unit_id
                                && (holds subject.unit_id request.unit_id
                                    && (is_of_age client author now
                                        && (not (ltb request.expires_at now)
                                            && (text_eq input.term_version request.term_version
                                                && input.agreed)))))))))))

module _ (digest : Text → Text) (flow : Flow) (now : ℕ) where
  abbrev pub new_consent : ℕ → Client → Registration → Registration → Request → Consent
  new_consent id client subject author request = record {
    id = id;
    client_id = client.id;
    registration_id = subject.id;
    adult_registration_id = author.id;
    request_id = request.id;
    unit_id = request.unit_id;
    child_snapshot = approval_snapshot subject;
    adult_snapshot = approval_snapshot author;
    term_version = request.term_version;
    term_content = request.term_content;
    term_hash = digest request.term_content;
    accepted_at = now;
    revoked_at = none;
    revoked_by = none;
    revocation_reason = none;
  }

  abbrev pub accepted_row : Request → Request
  accepted_row r = record r {
    accepted_at = some now;
    verification_failures = 0;
    locked_until = none;
  }

  -- the writes of an acceptance
  unfoldable pub write_consent : ℕ → Client → Registration → Registration → Request → Store → Store
  unfolding remember_faces insert_consent update_request approval_snapshot
  write_consent id client subject author request s =
      update_request flow client.id request.id accepted_row (
        insert_consent flow (new_consent id client subject author request)
          (remember_faces flow client.id subject.id s))

  abbrev pub repeated : Option Consent → Option Refusal
  repeated none = none
  repeated (some c) = if is_some c.revoked_at then some consent_revoked else none

  abbrev pub after_cpf :
      ℕ
      → Input
      → Client
      → Registration
      → Registration
      → Request
      → Option CpfError × Store
      → Option Refusal × Store
  after_cpf id input client subject author request (some e, s) = (some (cpf e), s)
  after_cpf id input client subject author request (none, s) =
      if is_some request.accepted_at
      then (repeated (consent_by_request flow client.id request.id s), s)
      else if not (may_accept flow client subject author request input now s)
      then (some not_eligible, s)
      else (none, write_consent id client subject author request s)

  -- The transaction of `accept`, on the rows that it reads; `none` is success.
  abbrev pub accept_rows :
      ℕ
      → Input
      → Store
      → Option Registration
      → Option Request
      → Option Registration
      → Option Client
      → Option Refusal × Store
  accept_rows id input s (some subject) (some request) (some author) (some client) =
      if is_some request.canceled_at || (not (enabled flow client) || not client.is_active)
      then (some unavailable, s)
      else after_cpf id input client subject author request
          (verify_cpf digest flow request author.document input.cpf now s)
  accept_rows id input s _ _ _ _ = (some unavailable, s)

  unfoldable pub accept_in : ℕ → Input → Bundle → Store → Option Refusal × Store
  unfolding find_registration locked_request find_client verify_cpf consent_by_request may_accept
      write_consent
  accept_in id input b s =
      accept_rows id input s (find_registration b.client.id b.subject.id s)
        (locked_request flow b.client.id b.request.id s)
        (find_registration b.client.id b.adult.id s) (find_client b.client.id s)

  abbrev pub accept_found :
      ℕ → Input → (Store → Store) → Store → Option Bundle → Option Refusal × Store
  accept_found id input between s none = (some link_not_found, s)
  accept_found id input between s (some b) = accept_in id input b (between s)

  unfoldable pub accept : ℕ → Text → Input → (Store → Store) → Store → Option Refusal × Store
  unfolding bundle accept_in
  accept id token input between s = accept_found id input between s (bundle digest flow token s)

  abbrev pub revoke_found : Bundle → Option Consent → Store → Option Refusal × Store
  revoke_found b none s = (some no_consent, s)
  revoke_found b (some c) s = (
    none,
    revoke flow b.client.id c.id b.subject.id (adult b.adult.id)
        (codes "Revogado pelo autor do aceite.") now s,
  )

  abbrev pub revoke_after_cpf : Bundle → Option CpfError × Store → Option Refusal × Store
  revoke_after_cpf b (some e, s) = (some (cpf e), s)
  revoke_after_cpf b (none, s) =
      revoke_found b (consent_by_request flow b.client.id b.request.id s) s

  abbrev pub revoke_rows :
      Text → Bundle → Store → Option Request → Option Registration → Option Refusal × Store
  revoke_rows input b s (some request) (some author) =
      revoke_after_cpf b (verify_cpf digest flow request author.document input now s)
  revoke_rows input b s _ _ = (some invalid_request, s)

  unfoldable pub revoke_own_in : Text → Bundle → Store → Option Refusal × Store
  unfolding locked_request find_registration verify_cpf consent_by_request revoke
  revoke_own_in input b s =
      revoke_rows input b s (locked_request flow b.client.id b.request.id s)
        (find_registration b.client.id b.adult.id s)

  abbrev pub revoke_own_found :
      Text → (Store → Store) → Store → Option Bundle → Option Refusal × Store
  revoke_own_found input between s none = (some link_not_found, s)
  revoke_own_found input between s (some b) = revoke_own_in input b (between s)

  unfoldable pub revoke_own : Text → Text → (Store → Store) → Store → Option Refusal × Store
  unfolding bundle revoke_own_in
  revoke_own token input between s = revoke_own_found input between s (bundle digest flow token s)
