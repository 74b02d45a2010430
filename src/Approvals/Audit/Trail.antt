-- ===== src/Approvals/Audit/Trail.antt =====
-- Sequences of the two writes to a table of consents, and what they keep.
use face2go_server.Base.{
  ℕ, ◌≤◌, ◌≡◌, refl, ◌⊎◌, inl, inr, Bool, true, false, none, List, [], ◌∷◌, ◌++◌, any, any-eq-false,
  count, count-append, count-le, arith, if◌then◌else◌, Bool-cases, is_some, not, ◌&&◌, ◌==◌,
}
use face2go_server.Documents.{Text}
use face2go_server.Approvals.Rows.{Actor, Consent, update_rows}
use face2go_server.Approvals.Requests.{consent_conflict, revocable, revoked_row}

pub data Trail : List Consent → List Consent → Type 0 where
  start : {cs : List Consent} → Trail cs cs
  inserted :
      {cs ds : List Consent} (new : Consent)
      → any (consent_conflict new) ds ≡ false
      → Trail cs ds
      → Trail cs (ds ++ new ∷ [])
  revoked :
      {cs ds : List Consent} (client_id id : ℕ) (actor : Actor) (reason : Text) (now : ℕ)
      → Trail cs ds
      → Trail cs (update_rows (revocable client_id id) (revoked_row actor reason now) ds)

pub Trail-trans : {cs ds es : List Consent} → Trail cs ds → Trail ds es → Trail cs es
Trail-trans t start = t
Trail-trans t (inserted new h u) = inserted new h (Trail-trans t u)
Trail-trans t (revoked client_id id actor reason now u) =
    revoked client_id id actor reason now (Trail-trans t u)

-- The later form of a consent is the same, or it was revoked, once.
abbrev pub Kept : Consent → Consent → Type 0
Kept c d =
    (d ≡ c)
    ⊎ ((c.revoked_at ≡ none)
        × ((actor : Actor) × (reason : Text) × (now : ℕ) × (d ≡ revoked_row actor reason now c)))

-- Every consent is still there, in its place.
abbrev pub AllKept : List Consent → List Consent → Type 0
AllKept [] ds = Unit
AllKept (c ∷ cs) [] = ⊥
AllKept (c ∷ cs) (d ∷ ds) = Kept c d × AllKept cs ds

AllKept-refl : (cs : List Consent) → AllKept cs cs
AllKept-refl [] = tt
AllKept-refl (c ∷ cs) = (inl refl, AllKept-refl cs)

AllKept-append : (cs ds es : List Consent) → AllKept cs ds → AllKept cs (ds ++ es)
AllKept-append [] ds es k = tt
AllKept-append (c ∷ cs) [] es k = absurd k
AllKept-append (c ∷ cs) (d ∷ ds) es (k, rest) = (k, AllKept-append cs ds es rest)

module _ (client_id id : ℕ) (actor : Actor) (reason : Text) (now : ℕ) where
  Kept-revoked :
      (c d : Consent)
      → Kept c d
      → Kept c (if revocable client_id id d then revoked_row actor reason now d else d)
  Kept-revoked c d (inl e) = elim (Bool-cases (revocable client_id id d)) [
    | inl hit ↦ rw hit (rw e (inr (ground arith, (actor, reason, now, refl))))
    | inr miss ↦ rw miss (inl e)
  ]
  Kept-revoked c d (inr (open_before, (a, r, n, e))) =
      let miss : revocable client_id id d ≡ false = ground arith in
      rw miss (inr (open_before, (a, r, n, e)))

  AllKept-revoked :
      (cs ds : List Consent)
      → AllKept cs ds
      → AllKept cs (update_rows (revocable client_id id) (revoked_row actor reason now) ds)
  AllKept-revoked [] ds k = tt
  AllKept-revoked (c ∷ cs) [] k = absurd k
  AllKept-revoked (c ∷ cs) (d ∷ ds) (k, rest) = (Kept-revoked c d k, AllKept-revoked cs ds rest)

pub Trail-AllKept : {cs ds : List Consent} → Trail cs ds → AllKept cs ds
Trail-AllKept {cs} start = AllKept-refl cs
Trail-AllKept {cs} (inserted {ds} new h t) = AllKept-append cs ds (new ∷ []) (Trail-AllKept t)
Trail-AllKept {cs} (revoked {ds} client_id id actor reason now t) =
    AllKept-revoked client_id id actor reason now cs ds (Trail-AllKept t)

abbrev pub active_pair : ℕ → ℕ → Consent → Bool
active_pair registration_id adult_id c =
    not (is_some c.revoked_at)
    && (c.registration_id == registration_id && c.adult_registration_id == adult_id)

abbrev pub of_request : ℕ → Consent → Bool
of_request request_id c = c.request_id == request_id

pub record IsConsistent (cs : List Consent) : Type 0 where
  pub one_active :
      (registration_id adult_id : ℕ) → count (active_pair registration_id adult_id) cs ≤ 1
  pub one_per_request : (request_id : ℕ) → count (of_request request_id) cs ≤ 1

count-insert :
    (p : Consent → Bool) (new : Consent) (cs : List Consent)
    → ((c : Consent) → p new ≡ true → p c ≡ true → consent_conflict new c ≡ true)
    → any (consent_conflict new) cs ≡ false
    → count p cs ≤ 1
    → count p (cs ++ new ∷ []) ≤ 1
count-insert p new cs clash h one = elim (Bool-cases (p new)) [
  | inl hit ↦ omega (
    arith,
    count-append p cs (new ∷ []),
    any-eq-false (consent_conflict new) cs h,
    count-le p (consent_conflict new) (λ c. clash c hit) cs,
    ap_count hit,
  )
  | inr miss ↦ omega (arith, count-append p cs (new ∷ []), ap_count miss)
]
  where
    ap_count : {b : Bool} → p new ≡ b → count p (new ∷ []) ≡ (if b then 1 else 0)
    ap_count e = rw e (ground arith)

count-revoked_le :
    (p : Consent → Bool) (client_id id : ℕ) (actor : Actor) (reason : Text) (now : ℕ)
    → ((c : Consent) → p (revoked_row actor reason now c) ≡ true → p c ≡ true)
    → (cs : List Consent)
    → count p (update_rows (revocable client_id id) (revoked_row actor reason now) cs) ≤ count p cs
count-revoked_le p client_id id actor reason now keep [] = omega arith
count-revoked_le p client_id id actor reason now keep (c ∷ cs) =
    ground (arith, keep c, count-revoked_le p client_id id actor reason now keep cs)

pub Trail-IsConsistent : {cs ds : List Consent} → Trail cs ds → IsConsistent cs → IsConsistent ds
Trail-IsConsistent start v = v
Trail-IsConsistent (inserted {ds} new h t) v =
    let w = Trail-IsConsistent t v in
    record {
      one_active = λ r a.
          count-insert (active_pair r a) new ds (λ c hn hc. ground arith) h (w.one_active r a);
      one_per_request =
          λ q. count-insert (of_request q) new ds (λ c hn hc. ground arith) h (w.one_per_request q);
    }
Trail-IsConsistent (revoked {ds} client_id id actor reason now t) v =
    let w = Trail-IsConsistent t v in
    record {
      one_active = λ r a. omega (
        arith,
        w.one_active r a,
        count-revoked_le (active_pair r a) client_id id actor reason now (λ c h. ground arith) ds,
      );
      one_per_request = λ q. omega (
        arith,
        w.one_per_request q,
        count-revoked_le (of_request q) client_id id actor reason now (λ c h. h) ds,
      );
    }
