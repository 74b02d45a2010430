-- ===== src/Approvals/Refusing.antt =====
-- When one registration among those of a face is enough for its refusal, and what an update of a list of
-- rows keeps.
use face2go_server.Base.{
  ℕ, ◌≤◌, ◌≡◌, ap, subst, Bool, true, false, some, List, [], ◌∷◌, ◌++◌, not, ◌&&◌, ◌||◌, any, find?,
  filter, map, count, arith, Bool-cases, Option-cases, inl, inr, Memᴰ, ◌==◌,
}
use face2go_server.Documents.{Text}
use face2go_server.Approvals.Rows.{
  Flow, child, visitor, Actor, Client, Registration, Consent, FaceRow, Store, update_rows,
}
use face2go_server.Approvals.Rules.{needs_approval}
use face2go_server.Approvals.Repository.{
  find_client, has_face, join_clients, registration_by_face, is_valid_consent, consent_of,
  add_faces,
}
use face2go_server.Approvals.Requests.{revocable, revoked_row}
use face2go_server.Approvals.Policy.{
  may_keep_face, awaits_removal, rows_allowed, flow_allows, face_allowed,
}

-- The test that makes `faceAllowed` refuse without a look at the consents.
abbrev pub is_refused : Flow → ℕ → Client → Registration → Bool
is_refused flow now client r =
    awaits_removal r || (needs_approval flow client r now && not (may_keep_face r.status))

module _ (flow : Flow) (client_id now : ℕ) (s : Store) where
  -- One refused registration among the rows is enough.
  refused-rows_allowed :
      (p : Registration → Bool) (client : Client) (r : Registration) (rs : List Registration)
      → Memᴰ r rs
      → p r ≡ true
      → find? (λ (c : Client). c.id == r.client_id) s.clients ≡ some client
      → is_refused flow now client r ≡ true
      → rows_allowed flow client_id now s (join_clients s (filter p rs)) ≡ false
  unfolding rows_allowed
  refused-rows_allowed p client r [] m hp found h = elim m [ ]
  refused-rows_allowed p client r (x ∷ rs) (Memᴰ.head e) hp found h =
      let hp' : p x ≡ true = subst (λ y. p y ≡ true) e hp in
      let found' : find? (λ (c : Client). c.id == x.client_id) s.clients ≡ some client =
        subst
          (λ (y : Registration).
            find? (λ (c : Client). c.id == y.client_id) s.clients ≡ some client)
          e found in
      let h' : is_refused flow now client x ≡ true =
        subst (λ y. is_refused flow now client y ≡ true) e h in
      rw (hp', found') (ground arith)
  refused-rows_allowed p client r (x ∷ rs) (Memᴰ.tail m) hp found h =
      let ih = refused-rows_allowed p client r rs m hp found h in
      elim (Bool-cases (p x)) [
        | inr out ↦ rw out ih
        | inl listed ↦ elim (Option-cases (find? (λ (c : Client). c.id == x.client_id) s.clients)) [
          | inl gone ↦ rw (listed, gone) ih
          | inr (c, e) ↦ rw (listed, e) (ground arith)
        ]
      ]

  pub refused-flow_allows :
      (face_id : ℕ) (client : Client) (r : Registration)
      → Memᴰ r s.registrations
      → r.client_id ≡ client_id
      → has_face s client_id face_id r ≡ true
      → find_client client_id s ≡ some client
      → is_refused flow now client r ≡ true
      → flow_allows flow client_id face_id now s ≡ false
  unfolding flow_allows find_client registration_by_face
  refused-flow_allows face_id client r m own face found h =
      refused-rows_allowed
        (λ (x : Registration). x.client_id == client_id && has_face s client_id face_id x) client r
        s.registrations m (ground arith) (rw own found) h

pub refused-face_allowed :
    (flow : Flow) (client_id face_id now : ℕ) (s : Store)
    → flow_allows flow client_id face_id now s ≡ false
    → face_allowed client_id face_id now s ≡ false
unfolding face_allowed
refused-face_allowed child client_id face_id now s h = ground arith
refused-face_allowed visitor client_id face_id now s h = ground arith

module _ {A : Type 0} where
  pub any-map :
      (q : A → Bool) (f : A → A)
      → ((x : A) → q x ≡ true → q (f x) ≡ true)
      → (xs : List A) → any q xs ≡ true
      → any q (map f xs) ≡ true
  any-map q f keep [] h = h
  any-map q f keep (x ∷ xs) h = ground (arith, keep x, any-map q f keep xs)

  pub any-append_left : (q : A → Bool) (xs ys : List A) → any q xs ≡ true → any q (xs ++ ys) ≡ true
  any-append_left q [] ys h = cc
  any-append_left q (x ∷ xs) ys h = ground (arith, any-append_left q xs ys)

  pub mem-update_rows :
      (p : A → Bool) (f : A → A) (x : A) (xs : List A)
      → Memᴰ x xs
      → p x ≡ true
      → Memᴰ (f x) (update_rows p f xs)
  mem-update_rows p f x [] m h = elim m [ ]
  mem-update_rows p f x (y ∷ xs) (Memᴰ.head e) h =
      let h' : p y ≡ true = subst (λ z. p z ≡ true) e h in rw h' (Memᴰ.head (ap f e))
  mem-update_rows p f x (y ∷ xs) (Memᴰ.tail m) h = Memᴰ.tail (mem-update_rows p f x xs m h)

pub any-add_faces :
    (q : FaceRow → Bool) (client_id id : ℕ) (ns : List ℕ) (faces : List FaceRow)
    → any q faces ≡ true
    → any q (add_faces client_id id ns faces) ≡ true
unfolding add_faces
any-add_faces q client_id id [] faces h = h
any-add_faces q client_id id (n ∷ ns) faces h = any-add_faces q client_id id ns _ (
    ground (
      arith,
      any-append_left q faces
          (record { client_id = client_id; registration_id = id; face_id = n } ∷ []),
    ))

-- The registration's consents that count, but for this one.
abbrev pub valid_other : ℕ → ℕ → ℕ → ℕ → Store → Consent → Bool
valid_other client_id id consent_id now s c =
    (consent_of client_id id c && is_valid_consent s now c) && not (c.id == consent_id)

module _ (client_id id consent_id : ℕ) (actor : Actor) (reason : Text) (now : ℕ) (s : Store) where
  pub count-revoked :
      (cs : List Consent)
      → count
          (λ c. consent_of client_id id c && is_valid_consent s now c)
          (update_rows (revocable client_id consent_id) (revoked_row actor reason now) cs)
        ≤ count (valid_other client_id id consent_id now s) cs
  unfolding is_valid_consent
  count-revoked [] = omega arith
  count-revoked (c ∷ cs) = ground (arith, count-revoked cs)
