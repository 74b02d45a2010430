-- ===== src/Approvals/Repository.antt =====
-- The queries of src/child-approvals/child-approval.repository.ts and
-- src/child-approvals/child-approval-requests.repository.ts, and their twins in
-- src/visitor-approvals. A transaction is one step, so its row and advisory locks are not modelled.
use face2go_server.Base.{
  ℕ, ◌-◌, ◌/◌, Bool, true, false, Option, none, some, List, [], ◌∷◌, ◌++◌, not, ◌&&◌, ◌||◌, ltb,
  leb, ◌==◌, if◌then◌else◌, filter, any, find?, count, is_some, map, ℤ,
}
use face2go_server.Civil.{Parts, is_leap, civil_from_days, shifted}
use face2go_server.Documents.{Text}
use face2go_server.Approvals.Rows.{
  Flow, RegistrationStatus, approved, rejected, Client, Registration, Member, Consent, FaceRow,
  Store, tables, set_tables, intent, set_intent, update_rows,
}

abbrev pub is_approved : RegistrationStatus → Bool
is_approved approved = true
is_approved _ = false

abbrev pub is_rejected : RegistrationStatus → Bool
is_rejected rejected = true
is_rejected _ = false

-- `= value` of a column that may be NULL
abbrev pub holds : Option ℕ → ℕ → Bool
holds none n = false
holds (some m) n = m == n

unfoldable pub find_client : ℕ → Store → Option Client
find_client client_id s = find? (λ (c : Client). c.id == client_id) s.clients

abbrev pub is_registration : ℕ → ℕ → Registration → Bool
is_registration client_id id r = r.client_id == client_id && r.id == id

unfoldable pub find_registration : ℕ → ℕ → Store → Option Registration
find_registration client_id id s = find? (is_registration client_id id) s.registrations

abbrev pub of_registration : ℕ → ℕ → Member → Bool
of_registration client_id id m = m.client_id == client_id && holds m.registration_id id

abbrev pub face_row : ℕ → ℕ → ℕ → FaceRow → Bool
face_row client_id id face_id f =
    f.client_id == client_id && (f.registration_id == id && f.face_id == face_id)

-- the four tests of the `or`
unfoldable pub has_face : Store → ℕ → ℕ → Registration → Bool
has_face s client_id face_id r =
    holds r.face_id face_id
    || (any (face_row client_id r.id face_id) s.visitor_tables.faces
        || (any (face_row client_id r.id face_id) s.child_tables.faces
            || any (λ m. of_registration client_id r.id m && holds m.face_id face_id) s.members))

abbrev with_client :
    Option Client → Registration → List (Client × Registration) → List (Client × Registration)
with_client none r rest = rest
with_client (some c) r rest = (c, r) ∷ rest

abbrev pub join_clients : Store → List Registration → List (Client × Registration)
join_clients s [] = []
join_clients s (r ∷ rs) =
    with_client (find? (λ (c : Client). c.id == r.client_id) s.clients) r (join_clients s rs)

unfoldable pub registration_by_face : ℕ → ℕ → Store → List (Client × Registration)
unfolding has_face
registration_by_face client_id face_id s = join_clients s (
    filter (λ (r : Registration). r.client_id == client_id && has_face s client_id face_id r)
      s.registrations)

-- `(now() AT TIME ZONE 'UTC' + make_interval(mins => offset))::date`
unfoldable pub local_date : ℤ → ℕ → Parts
unfolding civil_from_days
local_date offset now = civil_from_days (shifted offset now / 86400000)

-- `- interval '18 years'`, which stops at the month's last day
unfoldable pub eighteen_years_before : Parts → Parts
eighteen_years_before p = record {
  y = p.y - 18;
  m = p.m;
  d = if p.m == 2 && (p.d == 29 && not (is_leap (p.y - 18))) then 28 else p.d;
}

abbrev pub on_or_before : Parts → Parts → Bool
on_or_before a b = ltb a.y b.y || (a.y == b.y && (ltb a.m b.m || (a.m == b.m && leb a.d b.d)))

abbrev pub born_by : Option Parts → Parts → Bool
born_by none limit = false
born_by (some p) limit = on_or_before p limit

abbrev out_of_use : ℕ → ℕ → Member → Bool
out_of_use client_id id m =
    of_registration client_id id m && (not m.is_active || is_some m.blocked_at)

-- `adult.is_active AND adult.status = 'approved' AND NOT adult.is_visitor AND NOT EXISTS …`
unfoldable pub is_available : Store → Registration → Bool
is_available s adult =
    adult.is_active
    && (is_approved adult.status
        && (not adult.is_visitor && not (any (out_of_use adult.client_id adult.id) s.members)))

abbrev pub valid_join :
    Store → ℕ → Consent → Option Registration → Option Registration → Option Client → Bool
valid_join s now c (some subject) (some adult) (some client) =
    holds subject.unit_id c.unit_id
    && (holds adult.unit_id c.unit_id
        && (is_available s adult
            && born_by adult.birth_date
                (eighteen_years_before (local_date client.timezone_offset_minutes now))))
valid_join s now c _ _ _ = false

-- The joins and conditions of `activeConsentCount` on one consent.
unfoldable pub is_valid_consent : Store → ℕ → Consent → Bool
unfolding is_available eighteen_years_before local_date find_registration find_client
is_valid_consent s now c =
    not (is_some c.revoked_at)
    && valid_join s now c (find_registration c.client_id c.registration_id s)
        (find_registration c.client_id c.adult_registration_id s) (find_client c.client_id s)

abbrev pub consent_of : ℕ → ℕ → Consent → Bool
consent_of client_id id c = c.client_id == client_id && c.registration_id == id

unfoldable pub active_consent_count : Flow → ℕ → ℕ → ℕ → Store → ℕ
unfolding is_valid_consent
active_consent_count flow client_id id now s =
    count (λ c. consent_of client_id id c && is_valid_consent s now c) (tables flow s).consents

unfoldable pub adult_available : ℕ → ℕ → Store → Bool
unfolding is_available
adult_available client_id adult_id s =
    any (λ r. is_registration client_id adult_id r && is_available s r) s.registrations

unfoldable pub adults_in_unit : ℕ → ℕ → Store → List Registration
unfolding is_available
adults_in_unit client_id unit_id s =
    filter
      (λ (r : Registration).
        r.client_id == client_id && (holds r.unit_id unit_id && is_available s r))
      s.registrations

unfoldable pub patch_registration : ℕ → ℕ → (Registration → Registration) → Store → Store
patch_registration client_id id patch s = record s {
  registrations = update_rows (is_registration client_id id) patch s.registrations;
}

unfoldable pub request_approval : Flow → ℕ → ℕ → Option ℕ → ℕ → Store → Store
request_approval flow client_id id user_id now s = record s {
  registrations =
      update_rows (λ r. is_registration client_id id r && r.is_active)
        (λ r.
          set_intent flow
            (record (intent flow r) { requested_at = some now; requested_by = user_id }) r)
        s.registrations;
}

-- A face id goes into the sorted list of distinct ids.
unfoldable pub insert_face : ℕ → List ℕ → List ℕ
insert_face n [] = n ∷ []
insert_face n (m ∷ ms) =
    let rest = insert_face n ms in
    if n == m then m ∷ ms else if ltb n m then n ∷ m ∷ ms else m ∷ rest

unfoldable pub sort_distinct : List (Option ℕ) → List ℕ
unfolding insert_face
sort_distinct [] = []
sort_distinct (none ∷ ids) = sort_distinct ids
sort_distinct (some n ∷ ids) = insert_face n (sort_distinct ids)

abbrev own_face : Option Registration → Option ℕ
own_face none = none
own_face (some r) = r.face_id

abbrev pub recorded : ℕ → ℕ → FaceRow → Bool
recorded client_id id f = f.client_id == client_id && f.registration_id == id

unfoldable pub face_ids : Flow → ℕ → ℕ → Store → List ℕ
unfolding sort_distinct find_registration
face_ids flow client_id id s = sort_distinct (
    own_face (find_registration client_id id s)
    ∷ (map (λ (m : Member). m.face_id) (filter (of_registration client_id id) s.members)
        ++ map (λ (f : FaceRow). some f.face_id)
            (filter (recorded client_id id) (tables flow s).faces)))

-- `onConflictDoNothing`, for each id
unfoldable pub add_faces : ℕ → ℕ → List ℕ → List FaceRow → List FaceRow
add_faces client_id id [] faces = faces
add_faces client_id id (n ∷ ns) faces = add_faces client_id id ns (
    if any (face_row client_id id n) faces
    then faces
    else faces ++ record { client_id = client_id; registration_id = id; face_id = n } ∷ [])

unfoldable pub remember_faces : Flow → ℕ → ℕ → Store → Store
unfolding face_ids add_faces
remember_faces flow client_id id s =
    let t = tables flow s in
    set_tables flow
      (record t { faces = add_faces client_id id (face_ids flow client_id id s) t.faces }) s

unfoldable pub tracked_faces : Flow → ℕ → Store → List ℕ
tracked_faces flow client_id s =
    map (λ (f : FaceRow). f.face_id)
      (filter (λ (f : FaceRow). f.client_id == client_id) (tables flow s).faces)

unfoldable pub deactivate_members : ℕ → ℕ → ℕ → Store → Store
deactivate_members client_id id now s = record s {
  members =
      update_rows (of_registration client_id id)
        (λ m. record m { is_active = false; updated_at = now }) s.members;
}

unfoldable pub record_rejection : ℕ → ℕ → Option ℕ → Text → Store → Store
record_rejection client_id id author body s = record s {
  rejections =
      s.rejections
      ++ record {
        client_id = client_id;
        registration_id = id;
        author_user_id = author;
        body = body;
      }
        ∷ [];
}
