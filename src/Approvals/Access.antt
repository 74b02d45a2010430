-- ===== src/Approvals/Access.antt =====
-- When a face may be on the readers, and what is done under that condition.
use face2go_server.Base.{
  ℕ, ◌<◌, ◌≡◌, ◌↔◌, refl, true, false, List, [], ◌∷◌, All, arith, Bool-cases, inl, inr,
}
use face2go_server.Approvals.Rows.{Flow, child, visitor, Client, Registration, Store}
use face2go_server.Approvals.Rules.{needs_approval}
use face2go_server.Approvals.Repository.{registration_by_face, active_consent_count}
use face2go_server.Approvals.Policy.{
  may_keep_face, awaits_removal, rows_allowed, flow_allows, face_allowed,
}

-- The registration is no obstacle to its faces in the flow.
pub record IsCleared (flow : Flow) (client_id now : ℕ) (s : Store) (client : Client)
    (r : Registration) : Type 0 where
  pub stays : awaits_removal r ≡ false
  pub authorized :
      needs_approval flow client r now ≡ true
      → (r.is_active ≡ true)
        × (may_keep_face r.status ≡ true)
        × (0 < active_consent_count flow client_id r.id now s)

module _ (client_id now : ℕ) (s : Store) where
  abbrev pub Cleared : Flow → Client × Registration → Type 0
  Cleared flow (client, r) = IsCleared flow client_id now s client r

  rows_allowed-Cleared :
      (flow : Flow) (rows : List (Client × Registration))
      → rows_allowed flow client_id now s rows ≡ true
      → All (Cleared flow) rows
  unfolding rows_allowed
  rows_allowed-Cleared flow [] h = tt
  rows_allowed-Cleared flow ((client, r) ∷ rows) h = (
    record { stays = ground arith; authorized = λ need. ground arith },
    rows_allowed-Cleared flow rows (ground arith),
  )

  Cleared-rows_allowed :
      (flow : Flow) (rows : List (Client × Registration))
      → All (Cleared flow) rows
      → rows_allowed flow client_id now s rows ≡ true
  unfolding rows_allowed
  Cleared-rows_allowed flow [] h = refl
  Cleared-rows_allowed flow ((client, r) ∷ rows) (c, rest) =
      elim (Bool-cases (needs_approval flow client r now)) [
        | inl need ↦
            let (a, k, n) = c.authorized need in
            ground (arith, c.stays, Cleared-rows_allowed flow rows rest)
        | inr free ↦ ground (arith, c.stays, Cleared-rows_allowed flow rows rest)
      ]

-- A face is allowed exactly if every registration of the client that has it is cleared in both flows:
-- it does not wait for its removal, and if it needs an authorization, it is active, approved or
-- blocked, and has a valid consent.
pub face_allowed_iff :
    (client_id face_id now : ℕ) (s : Store)
    → (face_allowed client_id face_id now s ≡ true) ↔ (
        All (Cleared client_id now s visitor) (registration_by_face client_id face_id s)
        × All (Cleared client_id now s child) (registration_by_face client_id face_id s))
unfolding face_allowed flow_allows
face_allowed_iff client_id face_id now s = (
  λ h. (
    rows_allowed-Cleared client_id now s visitor (registration_by_face client_id face_id s)
        (ground arith),
    rows_allowed-Cleared client_id now s child (registration_by_face client_id face_id s)
        (ground arith),
  ),
  λ (v, c). ground (
    arith,
    Cleared-rows_allowed client_id now s visitor (registration_by_face client_id face_id s) v,
    Cleared-rows_allowed client_id now s child (registration_by_face client_id face_id s) c,
  ),
)
