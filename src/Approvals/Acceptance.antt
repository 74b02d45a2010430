-- ===== src/Approvals/Acceptance.antt =====
-- The rows under which an acceptance goes through, and what its writes do to the consents that count.
use face2go_server.Base.{
  ℕ, ◌≤◌, ◌≡◌, ◌∙◌, refl, ap, subst, Bool, true, false, none, some, List, [], ◌∷◌, ◌++◌, ◌&&◌, any,
  any-eq-true, count, count-le, find?, arith, if◌then◌else◌, Bool-cases, inl, inr,
}
use face2go_server.Documents.{Text}
use face2go_server.Approvals.Rows.{
  Flow, child, visitor, Client, Registration, Request, Consent, Store, tables,
}
use face2go_server.Approvals.Rules.{matches_adult_cpf}
use face2go_server.Approvals.Repository.{
  find_client, find_registration, is_available, consent_of, is_valid_consent, active_consent_count,
  remember_faces,
}
use face2go_server.Approvals.Requests.{
  locked_request, consent_conflict, insert_consent, update_request,
}
use face2go_server.Approvals.Invitation.{Bundle, is_locked}
use face2go_server.Approvals.Public.{
  Input, enabled, may_accept, new_consent, accepted_row, write_consent,
}

-- The transaction finds these rows, and the adult may accept with this input.
pub record MayAccept (digest : Text → Text) (flow : Flow) (now : ℕ) (input : Input) (b : Bundle)
    (s : Store) (subject : Registration) (request : Request) (author : Registration)
    (client : Client) : Type 0 where
  pub subject_found : find_registration b.client.id b.subject.id s ≡ some subject
  pub request_found : locked_request flow b.client.id b.request.id s ≡ some request
  pub author_found : find_registration b.client.id b.adult.id s ≡ some author
  pub client_found : find_client b.client.id s ≡ some client
  pub not_canceled : request.canceled_at ≡ none
  pub not_accepted : request.accepted_at ≡ none
  pub not_locked : is_locked now request ≡ false
  pub client_on : (enabled flow client && client.is_active) ≡ true
  pub cpf_right : matches_adult_cpf digest input.cpf author.document ≡ true
  pub eligible : may_accept flow client subject author request input now s ≡ true

pub available-of :
    (s : Store) (p : Registration → Bool) (rs : List Registration) {r : Registration}
    → find? p rs ≡ some r
    → count p rs ≤ 1
    → any (λ x. p x && is_available s x) rs ≡ true
    → is_available s r ≡ true
available-of s p [] e one h = cc
available-of s p (x ∷ rs) {r} e one h = elim (Bool-cases (p x)) [
  | inr out ↦ available-of s p rs (ground arith) (ground arith) (ground arith)
  | inl hit ↦
      let same : x ≡ r = ground arith in
      elim (Bool-cases (is_available s x)) [
        | inl ok ↦ subst (λ y. is_available s y ≡ true) same ok
        | inr no_one ↦ absurd (
            ground (
              arith,
              any-eq-true (λ y. p y && is_available s y) rs,
              count-le (λ y. p y && is_available s y) p (λ y k. ground arith) rs,
            ))
      ]
]

-- The rows that the count of consents joins are those of the other store.
abbrev SameRows : Store → Store → Type 0
SameRows u s =
    (u.registrations ≡ s.registrations) × (u.clients ≡ s.clients) × (u.members ≡ s.members)

is_valid_consent-same :
    (u s : Store) (now : ℕ) (c : Consent)
    → SameRows u s
    → is_valid_consent u now c ≡ is_valid_consent s now c
unfolding is_valid_consent
is_valid_consent-same u s now c (r, k, m) = rw (r, k, m) refl

pub any-imp :
    (p q : Consent → Bool)
    → ((c : Consent) → p c ≡ true → q c ≡ true)
    → (cs : List Consent) → any p cs ≡ true
    → any q cs ≡ true
any-imp p q f [] h = cc
any-imp p q f (c ∷ cs) h = ground (arith, f c, any-imp p q f cs)

abbrev with_new : Consent → List Consent → List Consent
with_new new cs = if any (consent_conflict new) cs then cs else cs ++ new ∷ []

insert_consent-same :
    (flow : Flow) (new : Consent) (s : Store) → SameRows (insert_consent flow new s) s
unfolding insert_consent
insert_consent-same child new s =
    elim (Bool-cases (any (consent_conflict new) s.child_tables.consents)) [
      | inl e ↦ rw e (refl, refl, refl)
      | inr e ↦ rw e (refl, refl, refl)
    ]
insert_consent-same visitor new s =
    elim (Bool-cases (any (consent_conflict new) s.visitor_tables.consents)) [
      | inl e ↦ rw e (refl, refl, refl)
      | inr e ↦ rw e (refl, refl, refl)
    ]

insert_consent-consents :
    (flow : Flow) (new : Consent) (s : Store)
    → (tables flow (insert_consent flow new s)).consents ≡ with_new new (tables flow s).consents
unfolding insert_consent
insert_consent-consents child new s =
    elim (Bool-cases (any (consent_conflict new) s.child_tables.consents)) [
      | inl e ↦ rw e refl
      | inr e ↦ rw e refl
    ]
insert_consent-consents visitor new s =
    elim (Bool-cases (any (consent_conflict new) s.visitor_tables.consents)) [
      | inl e ↦ rw e refl
      | inr e ↦ rw e refl
    ]

update_request-same :
    (flow : Flow) (client_id id : ℕ) (patch : Request → Request) (s : Store)
    → SameRows (update_request flow client_id id patch s) s
      × ((tables flow (update_request flow client_id id patch s)).consents
          ≡ (tables flow s).consents)
unfolding update_request
update_request-same child client_id id patch s = ((refl, refl, refl), refl)
update_request-same visitor client_id id patch s = ((refl, refl, refl), refl)

remember-same :
    (flow : Flow) (client_id id : ℕ) (s : Store)
    → SameRows (remember_faces flow client_id id s) s
      × ((tables flow (remember_faces flow client_id id s)).consents ≡ (tables flow s).consents)
unfolding remember_faces
remember-same child client_id id s = ((refl, refl, refl), refl)
remember-same visitor client_id id s = ((refl, refl, refl), refl)

count-ext :
    (p q : Consent → Bool)
    → ((c : Consent) → p c ≡ q c)
    → (cs : List Consent) → count p cs ≡ count q cs
count-ext p q same [] = refl
count-ext p q same (c ∷ cs) = rw (same c, count-ext p q same cs) refl

module _ (digest : Text → Text) (flow : Flow) (now id : ℕ) (client : Client)
    (subject author : Registration) (request : Request) (s : Store) where
  write_consent-same : SameRows (write_consent digest flow now id client subject author request s) s
  unfolding write_consent
  write_consent-same =
      let new = new_consent digest flow now id client subject author request in
      let t = remember_faces flow client.id subject.id s in
      let r = (remember-same flow client.id subject.id s).0 in
      let i = insert_consent-same flow new t in
      let w =
        (update_request-same flow client.id request.id (accepted_row digest flow now)
          (insert_consent flow new t)).0 in
      (w.0 ∙ (i.0 ∙ r.0), w.1 ∙ (i.1 ∙ r.1), w.2 ∙ (i.2 ∙ r.2))

  pub write_consent-consents :
      (tables flow (write_consent digest flow now id client subject author request s)).consents
      ≡ with_new
          (new_consent digest flow now id client subject author request)
          (tables flow s).consents
  unfolding write_consent
  write_consent-consents =
      let new = new_consent digest flow now id client subject author request in
      (update_request-same flow client.id request.id (accepted_row digest flow now) _).1
      ∙ (insert_consent-consents flow new _
          ∙ ap (with_new new) (remember-same flow client.id subject.id s).1)

  -- After the writes, the consents that count are those of before, or these and perhaps the new one.
  pub write_consent-count :
      active_consent_count flow client.id subject.id now
        (write_consent digest flow now id client subject author request s)
      ≡ count
          (λ c. consent_of client.id subject.id c && is_valid_consent s now c)
          (with_new
            (new_consent digest flow now id client subject author request)
            (tables flow s).consents)
  unfolding active_consent_count
  write_consent-count =
      let u = write_consent digest flow now id client subject author request s in
      let counts = λ (c : Consent). consent_of client.id subject.id c && is_valid_consent s now c in
      count-ext (λ c. consent_of client.id subject.id c && is_valid_consent u now c) counts
        (λ c.
          ap (λ x. consent_of client.id subject.id c && x)
            (is_valid_consent-same u s now c write_consent-same))
        (tables flow u).consents
      ∙ ap (count counts) write_consent-consents

pub conjuncts :
    (a b c d e f g h i j k : Bool)
    → (a && (b && (c && (d && (e && (f && (g && (h && (i && (j && k)))))))))) ≡ true
    → (h ≡ true) × (i ≡ true) × (j ≡ true)
conjuncts a b c d e f g h i j k all = ground arith

pub count-one : (q : Consent → Bool) (c : Consent) → q c ≡ true → count q (c ∷ []) ≡ 1
count-one q c h = rw h (omega arith)
