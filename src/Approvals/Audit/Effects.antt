-- ===== src/Approvals/Audit/Effects.antt =====
-- The trail that each transaction leaves in the consents of either flow.
use face2go_server.Base.{
  ℕ, Bool, true, false, Option, none, some, any, if◌then◌else◌, Bool-cases, inl, inr, not, ltb,
  ◌||◌,
}
use face2go_server.Documents.{Text}
use face2go_server.Approvals.Rows.{
  Flow, child, visitor, Actor, Client, Registration, Request, Consent, Tables, Store, tables,
  set_tables,
}
use face2go_server.Approvals.Repository.{
  is_rejected, active_consent_count, find_registration, find_client, remember_faces,
  patch_registration, deactivate_members, record_rejection, request_approval,
}
use face2go_server.Approvals.Rules.{needs_approval}
use face2go_server.Approvals.Requests.{
  consent_conflict, insert_consent, revoke_consent, update_request, insert_request,
  cancel_open_requests,
}
use face2go_server.Approvals.Revocation.{
  reject_with, reject_found, reject_if_unauthorized, author_of, revoke,
}
use face2go_server.Approvals.Service.{regularize_rows}
use face2go_server.Approvals.Audit.Trail.{Trail, start, inserted, revoked, Trail-trans}

-- The consents of the flow `f` go from the store `s` to the store `u` by a trail.
abbrev pub Leaves : Flow → Store → Store → Type 0
Leaves f s u = Trail (tables f s).consents (tables f u).consents

Leaves-set_tables :
    (f flow : Flow) (t : Tables) (s : Store)
    → Trail (tables flow s).consents t.consents
    → Leaves f s (set_tables flow t s)
Leaves-set_tables child child t s h = h
Leaves-set_tables child visitor t s h = start
Leaves-set_tables visitor child t s h = start
Leaves-set_tables visitor visitor t s h = h

patch-Leaves :
    (f : Flow) (client_id id : ℕ) (patch : Registration → Registration) (s : Store)
    → Leaves f s (patch_registration client_id id patch s)
unfolding patch_registration
patch-Leaves child client_id id patch s = start
patch-Leaves visitor client_id id patch s = start

pub request-Leaves :
    (f : Flow) (flow : Flow) (client_id id : ℕ) (user_id : Option ℕ) (now : ℕ) (s : Store)
    → Leaves f s (request_approval flow client_id id user_id now s)
unfolding request_approval
request-Leaves child flow client_id id user_id now s = start
request-Leaves visitor flow client_id id user_id now s = start

deactivate-Leaves :
    (f : Flow) (client_id id now : ℕ) (s : Store)
    → Leaves f s (deactivate_members client_id id now s)
unfolding deactivate_members
deactivate-Leaves child client_id id now s = start
deactivate-Leaves visitor client_id id now s = start

rejection-Leaves :
    (f : Flow) (client_id id : ℕ) (author : Option ℕ) (body : Text) (s : Store)
    → Leaves f s (record_rejection client_id id author body s)
unfolding record_rejection
rejection-Leaves child client_id id author body s = start
rejection-Leaves visitor client_id id author body s = start

module _ (f : Flow) where
  pub Leaves-if :
      (b : Bool) (s u v : Store) → Leaves f s u → Leaves f s v → Leaves f s (if b then u else v)
  Leaves-if true s u v h k = h
  Leaves-if false s u v h k = k

  pub Leaves-pair {ℓ} :
      {X : Type ℓ} (b : Bool) (s : Store) (p q : X × Store)
      → Leaves f s p.1
      → Leaves f s q.1
      → Leaves f s (if b then p else q).1
  Leaves-pair true s p q h k = h
  Leaves-pair false s p q h k = k

  pub remember-Leaves :
      (flow : Flow) (client_id id : ℕ) (s : Store) → Leaves f s (remember_faces flow client_id id s)
  unfolding remember_faces
  remember-Leaves flow client_id id s = Leaves-set_tables f flow _ s start

  cancel-Leaves :
      (flow : Flow) (client_id id now : ℕ) (s : Store)
      → Leaves f s (cancel_open_requests flow client_id id now s)
  unfolding cancel_open_requests
  cancel-Leaves flow client_id id now s = Leaves-set_tables f flow _ s start

  pub update_request-Leaves :
      (flow : Flow) (client_id id : ℕ) (patch : Request → Request) (s : Store)
      → Leaves f s (update_request flow client_id id patch s)
  unfolding update_request
  update_request-Leaves flow client_id id patch s = Leaves-set_tables f flow _ s start

  pub insert_request-Leaves :
      (flow : Flow) (new : Request) (s : Store) → Leaves f s (insert_request flow new s)
  unfolding insert_request
  insert_request-Leaves flow new s = Leaves-if _ s s _ start (Leaves-set_tables f flow _ s start)

  pub insert_consent-Leaves :
      (flow : Flow) (new : Consent) (s : Store) → Leaves f s (insert_consent flow new s)
  unfolding insert_consent
  insert_consent-Leaves flow new s =
      elim (Bool-cases (any (consent_conflict new) (tables flow s).consents)) [
        | inl e ↦ rw e start
        | inr e ↦ rw e (Leaves-set_tables f flow _ s (inserted new e start))
      ]

  revoke_consent-Leaves :
      (flow : Flow) (client_id id : ℕ) (actor : Actor) (reason : Text) (now : ℕ) (s : Store)
      → Leaves f s (revoke_consent flow client_id id actor reason now s)
  unfolding revoke_consent
  revoke_consent-Leaves flow client_id id actor reason now s =
      Leaves-set_tables f flow _ s (revoked client_id id actor reason now start)

  reject_with-Leaves :
      (flow : Flow) (client_id id : ℕ) (author : Option ℕ) (now : ℕ) (s : Store)
      → Leaves f s (reject_with flow client_id id author now s)
  reject_with-Leaves flow client_id id author now s =
      Trail-trans (remember-Leaves flow client_id id s) (
        Trail-trans (patch-Leaves f client_id id _ _) (
          Trail-trans (deactivate-Leaves f client_id id now _) (
            Trail-trans (cancel-Leaves flow client_id id now _)
              (rejection-Leaves f client_id id author _ _))))

  reject_found-Leaves :
      (flow : Flow) (client_id id : ℕ) (author : Option ℕ) (now : ℕ) (s : Store)
      (r : Option Registration) (client : Option Client)
      → Leaves f s (reject_found flow client_id id author now s r client).1
  reject_found-Leaves flow client_id id author now s (some r) (some client) =
      let last : Bool × Store = (true, reject_with flow client_id id author now s) in
      Leaves-pair
        (not (needs_approval flow client r now)
          || ltb 0 (active_consent_count flow client_id id now s))
        s (false, s) (if is_rejected r.status then (true, s) else last) start
        (Leaves-pair (is_rejected r.status) s (true, s) last start
          (reject_with-Leaves flow client_id id author now s))
  reject_found-Leaves flow client_id id author now s none client = start
  reject_found-Leaves flow client_id id author now s (some r) none = start

  pub reject_if_unauthorized-Leaves :
      (flow : Flow) (client_id id : ℕ) (author : Option ℕ) (now : ℕ) (s : Store)
      → Leaves f s (reject_if_unauthorized flow client_id id author now s).1
  unfolding reject_if_unauthorized
  reject_if_unauthorized-Leaves flow client_id id author now s =
      reject_found-Leaves flow client_id id author now s (find_registration client_id id s)
        (find_client client_id s)

  pub revoke-Leaves :
      (flow : Flow) (client_id consent_id id : ℕ) (actor : Actor) (reason : Text) (now : ℕ)
      (s : Store)
      → Leaves f s (revoke flow client_id consent_id id actor reason now s)
  unfolding revoke
  revoke-Leaves flow client_id consent_id id actor reason now s =
      Trail-trans (remember-Leaves flow client_id id s) (
        Trail-trans (revoke_consent-Leaves flow client_id consent_id actor reason now _)
          (reject_if_unauthorized-Leaves flow client_id id (author_of actor) now _))

  pub regularize-Leaves :
      (flow : Flow) (now client_id id user_id : ℕ) (s : Store)
      → Leaves f s (regularize_rows flow now client_id id user_id s)
  unfolding regularize_rows
  regularize-Leaves flow now client_id id user_id s =
      Trail-trans (remember-Leaves flow client_id id s) (
        Trail-trans (patch-Leaves f client_id id _ _) (
          Trail-trans (deactivate-Leaves f client_id id now _)
            (rejection-Leaves f client_id id (some user_id) _ _)))
