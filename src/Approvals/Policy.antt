-- ===== src/Approvals/Policy.antt =====
-- src/child-approvals/child-approval-policy.service.ts and
-- src/visitor-approvals/visitor-approval-policy.service.ts: whether a face may be on the readers.
use face2go_server.Base.{
  ℕ, Bool, true, false, Option, none, some, List, [], ◌∷◌, not, ◌&&◌, ◌||◌, ltb, ◌==◌,
  if◌then◌else◌, any, is_some, filter,
}
use face2go_server.Documents.{Text, is_valid_cpf}
use face2go_server.Approvals.Rows.{
  Flow, child, visitor, RegistrationStatus, approved, blocked, Client, Registration, Store, intent,
}
use face2go_server.Approvals.Rules.{needs_approval, is_of_age}
use face2go_server.Approvals.Repository.{
  is_rejected, find_client, find_registration, registration_by_face, active_consent_count,
  remember_faces, adults_in_unit,
}

-- `['approved', 'blocked'].includes(status)`
abbrev pub may_keep_face : RegistrationStatus → Bool
may_keep_face approved = true
may_keep_face blocked = true
may_keep_face _ = false

-- a face that waits for its removal, of a registration that is out of use
abbrev pub awaits_removal : Registration → Bool
awaits_removal r =
    (r.child_intent.removal_pending || r.visitor_intent.removal_pending)
    && (not r.is_active || is_rejected r.status)

-- The loop of `faceAllowed`.
unfoldable pub rows_allowed : Flow → ℕ → ℕ → Store → List (Client × Registration) → Bool
rows_allowed flow client_id now s [] = true
rows_allowed flow client_id now s ((client, r) ∷ rows) =
    let rest = rows_allowed flow client_id now s rows in
    if awaits_removal r
    then false
    else if not (needs_approval flow client r now)
    then rest
    else if not r.is_active
        || (not (may_keep_face r.status) || active_consent_count flow client_id r.id now s == 0)
    then false
    else rest

-- The visitors' `faceAllowed` and the loop of the children's.
unfoldable pub flow_allows : Flow → ℕ → ℕ → ℕ → Store → Bool
unfolding rows_allowed registration_by_face
flow_allows flow client_id face_id now s =
    rows_allowed flow client_id now s (registration_by_face client_id face_id s)

unfoldable pub face_allowed : ℕ → ℕ → ℕ → Store → Bool
unfolding flow_allows
face_allowed client_id face_id now s =
    if not (flow_allows visitor client_id face_id now s)
    then false
    else flow_allows child client_id face_id now s

-- `work` is what the caller does with the readers; `none` is that it was not done.
module _ {T : Type 0} (client_id face_id now : ℕ) (work : Store → T × Store) where
  -- `removeIfUnauthorized`
  unfoldable pub remove_if_unauthorized : Store → Option T × Store
  unfolding face_allowed
  remove_if_unauthorized s =
      if face_allowed client_id face_id now s
      then (none, s)
      else (let (t, u) = work s in (some t, u))

  abbrev pub is_concerned : Client × Registration → Bool
  is_concerned (client, r) =
      client.enable_child_approve
      || (client.enable_visitor_approve
          || (r.child_intent.required
              || (r.visitor_intent.required
                  || (r.child_intent.removal_pending || r.visitor_intent.removal_pending))))

  abbrev enables : Flow → Client → Bool
  enables child client = client.enable_child_approve
  enables visitor client = client.enable_visitor_approve

  -- the two loops before the transaction
  unfoldable pub remember_rows : Flow → List (Client × Registration) → Store → Store
  unfolding remember_faces
  remember_rows flow [] s = s
  remember_rows flow ((client, r) ∷ rows) s = remember_rows flow rows (
      if enables flow client && (intent flow r).required
      then remember_faces flow client_id r.id s
      else s)

  -- `withFaceAccess`; `between` is what other instances do before the transaction. An error
  -- (`ChildApprovalPendingError`) is `none`.
  unfoldable pub with_face_access : (Store → Store) → Store → Option T × Store
  unfolding registration_by_face remember_rows face_allowed
  with_face_access between s =
      let rows = registration_by_face client_id face_id s in
      if not (any is_concerned rows)
      then (let (t, u) = work s in (some t, u))
      else (let u = between (remember_rows visitor rows (remember_rows child rows s)) in
          if not (face_allowed client_id face_id now u)
          then (none, u)
          else (let (t, v) = work u in (some t, v)))

pub data ApprovalStatus : Type 0 where
  not_applicable authorized pending : ApprovalStatus

pub record Summary : Type 0 where
  pub is_enabled : Bool
  pub is_required : Bool
  pub status : ApprovalStatus
  pub valid_count : ℕ
  pub is_requested : Bool
  pub removal_pending : Bool

abbrev enabled_of : Flow → Option Client → Bool
enabled_of flow none = false
enabled_of child (some c) = c.enable_child_approve
enabled_of visitor (some c) = c.enable_visitor_approve

abbrev required_of : Flow → ℕ → Option Client → Option Registration → Bool
required_of flow now (some c) (some r) = needs_approval flow c r now
required_of flow now _ _ = false

abbrev status_of : Bool → ℕ → ApprovalStatus
status_of required n =
    if not required then not_applicable else if ltb 0 n then authorized else pending

abbrev summary_row : Flow → Option Client → Bool → ℕ → Option Registration → Summary
summary_row flow client required n none = record {
  is_enabled = enabled_of flow client;
  is_required = false;
  status = status_of required n;
  valid_count = n;
  is_requested = false;
  removal_pending = false;
}
summary_row flow client required n (some r) = record {
  is_enabled = enabled_of flow client;
  is_required = (intent flow r).required;
  status = status_of required n;
  valid_count = n;
  is_requested = is_some (intent flow r).requested_at;
  removal_pending = (intent flow r).removal_pending;
}

unfoldable pub summary : Flow → ℕ → ℕ → ℕ → Store → Summary
unfolding find_client find_registration active_consent_count needs_approval
summary flow client_id id now s =
    let client = find_client client_id s in
    let r = find_registration client_id id s in
    summary_row flow client (required_of flow now client r)
      (active_consent_count flow client_id id now s) r

-- `a.email`, which is falsy if it is empty
abbrev pub has_text : Option Text → Bool
has_text none = false
has_text (some []) = false
has_text (some (c ∷ t)) = true

abbrev pub has_valid_cpf : Option Text → Bool
has_valid_cpf none = false
has_valid_cpf (some d) = is_valid_cpf d

abbrev pub is_eligible_adult : Client → Registration → ℕ → Registration → Bool
is_eligible_adult client subject now a =
    not (a.id == subject.id)
    && (is_of_age client a now && (has_text a.email && has_valid_cpf a.document))

-- The adults of the unit who may authorize.
unfoldable pub eligible_adults : Client → Registration → ℕ → ℕ → Store → List Registration
unfolding adults_in_unit is_of_age
eligible_adults client subject unit_id now s =
    filter (is_eligible_adult client subject now) (adults_in_unit subject.client_id unit_id s)

pub data PendingReason : Type 0 where
  no_eligible_adult awaiting_consent : PendingReason

abbrev reason_of : List Registration → PendingReason
reason_of [] = no_eligible_adult
reason_of (a ∷ as') = awaiting_consent

abbrev adults_for : Option Client → Option Registration → ℕ → Store → List Registration
adults_for (some client) (some r) now s = elim r.unit_id [
  | none ↦ []
  | some unit_id ↦ eligible_adults client r unit_id now s
]
adults_for _ _ now s = []

-- `visitorApprovalPendingReason` of the visitors' summary
unfoldable pub pending_reason : ℕ → ℕ → ℕ → Store → Option PendingReason
unfolding find_client find_registration active_consent_count needs_approval eligible_adults
pending_reason client_id id now s =
    let client = find_client client_id s in
    let r = find_registration client_id id s in
    if not (required_of visitor now client r)
      || ltb 0 (active_consent_count visitor client_id id now s)
    then none
    else some (reason_of (adults_for client r now s))
