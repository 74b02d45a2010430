-- ===== src/Approvals/Requests.antt =====
-- The requests and consents of src/child-approvals/child-approval-requests.repository.ts and its
-- twin in src/visitor-approvals, with the unique indexes of the two tables.
use face2go_server.Base.{
  ℕ, ◌+◌, Bool, Option, some, List, [], ◌∷◌, ◌++◌, not, ◌&&◌, ◌||◌, ltb, leb, ◌==◌, if◌then◌else◌,
  filter, any, find?, count, is_some,
}
use face2go_server.Documents.{Text}
use face2go_server.Approvals.Rows.{
  Flow, Actor, Request, Consent, Store, tables, set_tables, update_rows,
}
use face2go_server.Approvals.Rules.{text_eq}
use face2go_server.Approvals.Repository.{consent_of}

unfoldable pub history : Flow → ℕ → ℕ → Store → List Consent
history flow client_id id s = filter (consent_of client_id id) (tables flow s).consents

abbrev pub request_of : ℕ → ℕ → Request → Bool
request_of client_id id r = r.client_id == client_id && r.registration_id == id

unfoldable pub requests : Flow → ℕ → ℕ → Store → List Request
requests flow client_id id s = filter (request_of client_id id) (tables flow s).requests

unfoldable pub request_by_hash : Flow → Text → Store → Option Request
request_by_hash flow hash s =
    find? (λ (r : Request). text_eq r.token_hash hash) (tables flow s).requests

abbrev pub is_request : ℕ → ℕ → Request → Bool
is_request client_id id r = r.client_id == client_id && r.id == id

unfoldable pub locked_request : Flow → ℕ → ℕ → Store → Option Request
locked_request flow client_id id s = find? (is_request client_id id) (tables flow s).requests

-- neither accepted nor canceled
abbrev pub is_open : Request → Bool
is_open r = not (is_some r.accepted_at) && not (is_some r.canceled_at)

-- The unique indexes on tokens and on the open requests of a pair refuse the row.
abbrev pub request_conflict : Request → Request → Bool
request_conflict new r =
    text_eq r.token_hash new.token_hash
    || (is_open r
        && (is_open new
            && (r.registration_id == new.registration_id
                && r.adult_registration_id == new.adult_registration_id)))

unfoldable pub insert_request : Flow → Request → Store → Store
insert_request flow new s =
    let t = tables flow s in
    if any (request_conflict new) t.requests
    then s
    else set_tables flow (record t { requests = t.requests ++ new ∷ [] }) s

unfoldable pub update_request : Flow → ℕ → ℕ → (Request → Request) → Store → Store
update_request flow client_id id patch s =
    let t = tables flow s in
    set_tables flow (record t { requests = update_rows (is_request client_id id) patch t.requests })
      s

-- The unique indexes on requests and on the active consents of a pair refuse the row.
abbrev pub consent_conflict : Consent → Consent → Bool
consent_conflict new c =
    c.request_id == new.request_id
    || (not (is_some c.revoked_at)
        && (not (is_some new.revoked_at)
            && (c.registration_id == new.registration_id
                && c.adult_registration_id == new.adult_registration_id)))

unfoldable pub insert_consent : Flow → Consent → Store → Store
insert_consent flow new s =
    let t = tables flow s in
    if any (consent_conflict new) t.consents
    then s
    else set_tables flow (record t { consents = t.consents ++ new ∷ [] }) s

abbrev pub is_consent : ℕ → ℕ → Consent → Bool
is_consent client_id id c = c.client_id == client_id && c.id == id

unfoldable pub find_consent : Flow → ℕ → ℕ → Store → Option Consent
find_consent flow client_id id s = find? (is_consent client_id id) (tables flow s).consents

unfoldable pub consent_by_request : Flow → ℕ → ℕ → Store → Option Consent
consent_by_request flow client_id request_id s =
    find? (λ (c : Consent). c.client_id == client_id && c.request_id == request_id)
      (tables flow s).consents

abbrev pub revocable : ℕ → ℕ → Consent → Bool
revocable client_id id c = is_consent client_id id c && not (is_some c.revoked_at)

abbrev pub revoked_row : Actor → Text → ℕ → Consent → Consent
revoked_row actor reason now c = record c {
  revoked_at = some now;
  revoked_by = some actor;
  revocation_reason = some reason;
}

unfoldable pub revoke_consent : Flow → ℕ → ℕ → Actor → Text → ℕ → Store → Store
revoke_consent flow client_id id actor reason now s =
    let t = tables flow s in
    set_tables flow
      (record t {
        consents = update_rows (revocable client_id id) (revoked_row actor reason now) t.consents;
      })
      s

unfoldable pub cancel_open_requests : Flow → ℕ → ℕ → ℕ → Store → Store
cancel_open_requests flow client_id id now s =
    let t = tables flow s in
    set_tables flow
      (record t {
        requests =
            update_rows (λ r. request_of client_id id r && is_open r)
              (λ r. record r { canceled_at = some now }) t.requests;
      })
      s

-- `recipientLimitReached`, of the visitors' repository only
unfoldable pub recipient_limit_reached : Flow → ℕ → ℕ → ℕ → Store → Bool
recipient_limit_reached flow client_id adult_id now s = leb 20 (
    count
      (λ (r : Request).
        r.client_id == client_id
        && (r.adult_registration_id == adult_id && ltb now (r.created_at + 3600000)))
      (tables flow s).requests)
