-- ===== src/Approvals/Authorizing.antt =====
-- What an acceptance is worth: when the new consent counts, and when there is none.
use face2go_server.Base.{
  ℕ, ◌+◌, ◌≤◌, ◌≡◌, ◌∙◌, refl, sym, ap, subst, true, false, none, some, [], ◌∷◌, ◌++◌, not, ◌&&◌,
  any, count, count-append, find?-some, arith, ==-refl, if◌then◌else◌, ◌==◌, is_some, ltb,
}
use face2go_server.Civil.{Parts}
use face2go_server.Documents.{Text}
use face2go_server.Approvals.Rows.{
  Flow, Client, Registration, Request, Consent, Store, tables, intent,
}
use face2go_server.Approvals.Rules.{is_of_age, needs_approval, text_eq}
use face2go_server.Approvals.Repository.{
  find_client, find_registration, is_registration, holds, is_approved, is_rejected, is_available,
  adult_available, consent_of, is_valid_consent, active_consent_count,
}
use face2go_server.Approvals.Requests.{consent_conflict}
use face2go_server.Approvals.Invitation.{Bundle, verify_cpf}
use face2go_server.Approvals.Public.{
  Input, may_accept, new_consent, same_unit, write_consent, accept_in,
}
use face2go_server.Approvals.Adulthood.{IsDate, today, is_of_age-born_by}
use face2go_server.Approvals.Acceptance.{
  MayAccept, available-of, write_consent-count, conjuncts, count-one,
}

module _ (digest : Text → Text) (flow : Flow) (now id : ℕ) (input : Input) (b : Bundle) (s : Store)
    (subject : Registration) (request : Request) (author : Registration) (client : Client)
    (may : MayAccept digest flow now input b s subject request author client) where
  abbrev new : Consent
  new = new_consent digest flow now id client subject author request

  accept-eq :
      accept_in digest flow now id input b s
      ≡ (none, write_consent digest flow now id client subject author request s)
  unfolding accept_in verify_cpf
  accept-eq =
      rw (may.subject_found, may.request_found, may.author_found, may.client_found)
        (ground (
          arith, may.not_canceled, may.not_accepted, may.not_locked, may.client_on, may.cpf_right,
          may.eligible,
        ))

  own_client : client.id ≡ b.client.id
  unfolding find_client
  own_client =
      let found = find?-some (λ (c : Client). c.id == b.client.id) s.clients may.client_found in
      ground arith

  found_self :
      (i : ℕ) (r : Registration)
      → find_registration b.client.id i s ≡ some r
      → find_registration client.id r.id s ≡ some r
  unfolding find_registration
  found_self i r h =
      let found = find?-some (is_registration b.client.id i) s.registrations h in
      let e : i ≡ r.id = ground arith in
      subst (λ c. find_registration c r.id s ≡ some r) (sym own_client)
        (subst (λ j. find_registration b.client.id j s ≡ some r) e h)

  author-available :
      count (is_registration client.id author.id) s.registrations ≤ 1 → is_available s author ≡ true
  unfolding may_accept find_registration adult_available
  author-available one =
      available-of s (is_registration client.id author.id) s.registrations
        (found_self b.adult.id author may.author_found) one (ground (arith, may.eligible))

  tests :
      (same_unit author.unit_id subject.unit_id ≡ true)
      × (holds subject.unit_id request.unit_id ≡ true)
      × (is_of_age client author now ≡ true)
  unfolding may_accept
  tests =
      conjuncts (needs_approval flow client subject now) subject.is_active
        (not (is_rejected subject.status && not (is_some (intent flow subject).requested_at)))
        (adult_available client.id author.id s) author.is_active (is_approved author.status)
        (not author.is_visitor) (same_unit author.unit_id subject.unit_id)
        (holds subject.unit_id request.unit_id) (is_of_age client author now)
        (not (ltb request.expires_at now)
          && (text_eq input.term_version request.term_version && input.agreed))
        may.eligible

  author-unit : holds author.unit_id request.unit_id ≡ true
  author-unit = let t = tests in ground (arith, t.0, t.1)

  new-valid :
      (p : Parts)
      → author.birth_date ≡ some p
      → IsDate p
      → IsDate (today client author now)
      → count (is_registration client.id author.id) s.registrations ≤ 1
      → is_valid_consent s now new ≡ true
  unfolding is_valid_consent may_accept
  new-valid p e birth this one =
      let available = author-available one in
      let c : find_client client.id s ≡ some client =
        subst (λ x. find_client x s ≡ some client) (sym own_client) may.client_found in
      let born = is_of_age-born_by client author now p e birth this tests.2 in
      rw
        (
          found_self b.subject.id subject may.subject_found,
          found_self b.adult.id author may.author_found,
          c,
          tests.1,
          author-unit,
          available,
          born,
        )
        refl

  -- If no consent of the adult for the registration is active and none stands for the request, an
  -- acceptance succeeds, and one more consent of the registration counts than before: the adult's
  -- birth date and today's date have years of four digits, and no other row has the adult's id.
  pub accept-authorizes :
      (p : Parts)
      → author.birth_date ≡ some p
      → IsDate p
      → IsDate (today client author now)
      → count (is_registration client.id author.id) s.registrations ≤ 1
      → any
          (consent_conflict (new_consent digest flow now id client subject author request))
          (tables flow s).consents
        ≡ false
      → ((accept_in digest flow now id input b s).0 ≡ none)
        × (active_consent_count flow client.id subject.id now
              (accept_in digest flow now id input b s).1
            ≡ active_consent_count flow client.id subject.id now s + 1)
  unfolding active_consent_count
  accept-authorizes p e birth this one free =
      let counts = λ (c : Consent). consent_of client.id subject.id c && is_valid_consent s now c in
      let valid = new-valid p e birth this one in
      let all =
        write_consent-count digest flow now id client subject author request s
        ∙ ap
            (λ x.
              count counts
                (if x then (tables flow s).consents else (tables flow s).consents ++ new ∷ []))
            free in
      rw accept-eq (
        refl,
        all
            ∙ (count-append counts (tables flow s).consents (new ∷ [])
                ∙ ap (λ k. count counts (tables flow s).consents + k)
                    (count-one counts new (rw (==-refl client.id, ==-refl subject.id) valid))),
      )
