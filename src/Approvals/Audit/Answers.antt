-- ===== src/Approvals/Audit/Answers.antt =====
-- The trail of the answers to a link, and of the requests that are sent.
use face2go_server.Base.{
  ℕ, Bool, Option, none, some, List, [], ◌∷◌, any, if◌then◌else◌, Option-cases, inl, inr, not, ◌&&◌,
  find?, ◌||◌, is_some,
}
use face2go_server.Documents.{Text}
use face2go_server.Approvals.Rows.{Flow, Client, Registration, Request, Consent, Store, intent}
use face2go_server.Approvals.Repository.{is_rejected, find_registration, find_client}
use face2go_server.Approvals.Rules.{needs_approval, matches_adult_cpf}
use face2go_server.Approvals.Requests.{update_request, consent_by_request, history, requests}
use face2go_server.Approvals.Invitation.{
  CpfError, too_many_attempts, cpf_not_confirmed, is_locked, failures_after, failed_row, verify_cpf,
  Bundle, Draw, ask_again, replace, cancel_previous, is_limited, still_good, may_resend, requeued,
  authorizes, open_for, ask_found, ask_adults, request_emails,
}
use face2go_server.Approvals.Public.{
  Input, Refusal, unavailable, not_eligible, repeated, accepted_row, enabled, may_accept,
  new_consent, write_consent, after_cpf, accept_rows, accept_in, revoke_own_in, revoke_rows,
  revoke_after_cpf, revoke_found,
}
use face2go_server.Approvals.Policy.{eligible_adults}
use face2go_server.Approvals.Audit.Trail.{start, Trail-trans}
use face2go_server.Approvals.Audit.Effects.{
  Leaves, Leaves-if, Leaves-pair, insert_consent-Leaves, insert_request-Leaves, remember-Leaves,
  revoke-Leaves, update_request-Leaves,
}

module _ (f : Flow) where
  module _ (digest : Text → Text) (flow : Flow) (now : ℕ) where
    verify_cpf-Leaves :
        (request : Request) (document : Option Text) (input : Text) (s : Store)
        → Leaves f s (verify_cpf digest flow request document input now s).1
    unfolding verify_cpf
    verify_cpf-Leaves request document input s =
        let mark = failed_row now (failures_after request) in
        let last : Option CpfError × Store =
          (some cpf_not_confirmed, update_request flow request.client_id request.id mark s) in
        let right : Option CpfError × Store = (none, s) in
        Leaves-pair f (is_locked now request) s (some too_many_attempts, s)
          (if matches_adult_cpf digest input document then right else last) start
          (Leaves-pair f (matches_adult_cpf digest input document) s right last start
            (update_request-Leaves f flow request.client_id request.id mark s))

    write_consent-Leaves :
        (id : ℕ) (client : Client) (subject author : Registration) (request : Request) (s : Store)
        → Leaves f s (write_consent digest flow now id client subject author request s)
    unfolding write_consent
    write_consent-Leaves id client subject author request s =
        Trail-trans (remember-Leaves f flow client.id subject.id s) (
          Trail-trans
            (insert_consent-Leaves f flow
              (new_consent digest flow now id client subject author request) _)
            (update_request-Leaves f flow client.id request.id (accepted_row digest flow now) _))

    after_cpf-Leaves :
        (id : ℕ) (input : Input) (client : Client) (subject author : Registration)
        (request : Request) (e : Option CpfError) (s : Store)
        → Leaves f s (after_cpf digest flow now id input client subject author request (e, s)).1
    after_cpf-Leaves id input client subject author request (some e) s = start
    after_cpf-Leaves id input client subject author request none s =
        let last : Option Refusal × Store =
          (none, write_consent digest flow now id client subject author request s) in
        let out : Option Refusal × Store = (some not_eligible, s) in
        let again : Option Refusal × Store =
          (repeated digest flow now (consent_by_request flow client.id request.id s), s) in
        let test = not (may_accept flow client subject author request input now s) in
        Leaves-pair f (is_some request.accepted_at) s again (if test then out else last) start (
          Leaves-pair f test s out last start
            (write_consent-Leaves id client subject author request s))

    accept_rows-Leaves :
        (id : ℕ) (input : Input) (s : Store) (subject : Option Registration)
        (request : Option Request) (author : Option Registration) (client : Option Client)
        → Leaves f s (accept_rows digest flow now id input s subject request author client).1
    accept_rows-Leaves id input s (some subject) (some request) (some author) (some client) =
        let checked = verify_cpf digest flow request author.document input.cpf now s in
        let out : Option Refusal × Store = (some unavailable, s) in
        Leaves-pair f
          (is_some request.canceled_at || (not (enabled flow client) || not client.is_active)) s out
          (after_cpf digest flow now id input client subject author request checked) start
          (Trail-trans (verify_cpf-Leaves request author.document input.cpf s)
            (after_cpf-Leaves id input client subject author request checked.0 checked.1))
    accept_rows-Leaves id input s none request author client = start
    accept_rows-Leaves id input s (some subject) none author client = start
    accept_rows-Leaves id input s (some subject) (some request) none client = start
    accept_rows-Leaves id input s (some subject) (some request) (some author) none = start

    pub accept-Leaves :
        (id : ℕ) (input : Input) (b : Bundle) (s : Store)
        → Leaves f s (accept_in digest flow now id input b s).1
    unfolding accept_in
    accept-Leaves id input b s = accept_rows-Leaves id input s _ _ _ _

    revoke_found-Leaves :
        (b : Bundle) (c : Option Consent) (s : Store)
        → Leaves f s (revoke_found digest flow now b c s).1
    revoke_found-Leaves b none s = start
    revoke_found-Leaves b (some c) s = revoke-Leaves f flow b.client.id c.id b.subject.id _ _ now s

    revoke_after_cpf-Leaves :
        (b : Bundle) (e : Option CpfError) (s : Store)
        → Leaves f s (revoke_after_cpf digest flow now b (e, s)).1
    revoke_after_cpf-Leaves b (some e) s = start
    revoke_after_cpf-Leaves b none s =
        revoke_found-Leaves b (consent_by_request flow b.client.id b.request.id s) s

    revoke_rows-Leaves :
        (input : Text) (b : Bundle) (s : Store) (request : Option Request)
        (author : Option Registration)
        → Leaves f s (revoke_rows digest flow now input b s request author).1
    revoke_rows-Leaves input b s (some request) (some author) =
        let checked = verify_cpf digest flow request author.document input now s in
        Trail-trans (verify_cpf-Leaves request author.document input s)
          (revoke_after_cpf-Leaves b checked.0 checked.1)
    revoke_rows-Leaves input b s none author = start
    revoke_rows-Leaves input b s (some request) none = start

    pub revoke_own-Leaves :
        (input : Text) (b : Bundle) (s : Store)
        → Leaves f s (revoke_own_in digest flow now input b s).1
    unfolding revoke_own_in
    revoke_own-Leaves input b s = revoke_rows-Leaves input b s _ _

    module _ (draw : Registration → Draw) (client : Client) (subject : Registration) (unit_id : ℕ)
        (resend : Bool) where
      cancel_previous-Leaves :
          (previous : Option Request) (s : Store) → Leaves f s (cancel_previous flow previous now s)
      cancel_previous-Leaves none s = start
      cancel_previous-Leaves (some r) s =
          update_request-Leaves f flow r.client_id r.id (λ r. record r { canceled_at = some now }) s

      replace-Leaves :
          (adult : Registration) (previous : Option Request) (s : Store)
          → Leaves f s (replace digest draw flow client subject unit_id resend now adult previous s)
      replace-Leaves adult previous s =
          Leaves-if f (is_limited flow client.id adult.id now s) s s _ start
            (Trail-trans (cancel_previous-Leaves previous s) (insert_request-Leaves f flow _ _))

      ask_again-Leaves :
          (adult : Registration) (r : Option Request) (s : Store)
          → Leaves f s (ask_again digest draw flow client subject unit_id resend now adult r s)
      ask_again-Leaves adult none s = replace-Leaves adult none s
      ask_again-Leaves adult (some r) s =
          Leaves-if f (still_good adult unit_id now r) s _ _
            (Leaves-if f (resend && may_resend flow now r) s _ s
              (update_request-Leaves f flow client.id r.id (requeued now) s) start)
            (replace-Leaves adult (some r) s)

      ask_adults-Leaves :
          (existing : List Request) (adults : List Registration) (s : Store)
          → Leaves f s
              (ask_adults digest draw flow client subject unit_id resend now existing adults s)
      unfolding ask_adults
      ask_adults-Leaves existing [] s = start
      ask_adults-Leaves existing (adult ∷ adults) s =
          Trail-trans
            (Leaves-if f
              (any (authorizes adult.id (some unit_id)) (history flow client.id subject.id s)) s s _
              start (ask_again-Leaves adult (find? (open_for adult.id) existing) s))
            (ask_adults-Leaves existing adults _)

    ask_found-Leaves :
        (draw : Registration → Draw) (resend : Bool) (s : Store) (client : Option Client)
        (subject : Option Registration)
        → Leaves f s (ask_found digest draw flow resend now s client subject)
    ask_found-Leaves draw resend s (some client) (some subject) =
        elim (Option-cases subject.unit_id) [
          | inl e ↦ rw e start
          | inr (unit_id, e) ↦ rw e (
              Leaves-if f
                (not subject.is_active
                  || (not (needs_approval flow client subject now)
                      || (is_rejected subject.status
                          && not (is_some (intent flow subject).requested_at))))
                s s _ start
                (ask_adults-Leaves draw client subject unit_id resend
                  (requests flow client.id subject.id s)
                  (eligible_adults client subject unit_id now s) s))
        ]
    ask_found-Leaves draw resend s none subject = start
    ask_found-Leaves draw resend s (some client) none = start

    pub request_emails-Leaves :
        (draw : Registration → Draw) (resend : Bool) (client_id id : ℕ) (s : Store)
        → Leaves f s (request_emails digest draw flow resend now client_id id s)
    unfolding request_emails
    request_emails-Leaves draw resend client_id id s =
        ask_found-Leaves draw resend s (find_client client_id s) (find_registration client_id id s)
