-- ===== src/SyncQueue/ClaimOrder.antt =====
-- Which job a claim takes: the oldest that may run, and one whenever a job waits for a free target.
use face2go_server.Base.{
  ℕ, ◌≤◌, ◌≡◌, refl, ap, Bool, true, false, none, some, [], ◌∷◌, arith, not, Bool-cases,
  Option-cases, inl, inr, filter, All, All-imp, All-eq_of_count, ◌&&◌, ◌==◌, ==-refl, Memᴰ, subst,
  sym,
}
use face2go_server.SyncQueue.Job.{Kind, Job, Table, job_queued, same_kind}
use face2go_server.SyncQueue.Sql.{returning}
use face2go_server.SyncQueue.Queries.{eligible, oldest, claimed, claim_next_device_sync_job, head?}
use face2go_server.SyncQueue.Valid.{IsValid, has_id}
use face2go_server.SyncQueue.Valid.Claim.{oldest-some}

oldest-none : (p : Job → Bool) (t : Table) → oldest p t ≡ none → All (λ j. p j ≡ false) t
unfolding oldest
oldest-none p [] h = tt
oldest-none p (j ∷ t) h = (ground arith, oldest-none p t (ground arith))

oldest-le :
    (p : Job → Bool) (t : Table) {q : Job}
    → oldest p t ≡ some q
    → All (λ j. p j ≡ true → q.created_at ≤ j.created_at) t
unfolding oldest
oldest-le p [] h = tt
oldest-le p (j ∷ t) {q} h = elim (Option-cases (oldest p t)) [
  | inl e ↦ (
    λ here. ground arith,
    All-imp _ _ (λ x out here. absurd (ground arith)) t (oldest-none p t e),
  )
  | inr (k, e) ↦ (
    λ here. ground arith,
    All-imp _ _ (λ x le here. ground (arith, le)) t (oldest-le p t {q = k} e),
  )
]

-- The one row that an update returns.
pub returning-one :
    (p : Job → Bool) (f : Job → Job) (q : Job) (t : Table)
    → Memᴰ q t
    → p q ≡ true
    → All (λ j. p j ≡ true → j ≡ q) t
    → head? (returning p f t) ≡ some (f q)
unfolding returning
returning-one p f q [] m h only = elim m [ ]
returning-one p f q (j ∷ t) (Memᴰ.head e) h (here, only) =
    let same : p j ≡ true = subst (λ x. p x ≡ true) e h in rw same (ap (λ x. some (f x)) (sym e))
returning-one p f q (j ∷ t) (Memᴰ.tail m) h (here, only) = elim (Bool-cases (p j)) [
  | inl e ↦ rw e (ap (λ x. some (f x)) (here e))
  | inr e ↦ rw e (returning-one p f q t m h only)
]

All-filter_of :
    (p : Job → Bool) (Q : Job → Type 0) (t : Table)
    → All (λ j. p j ≡ true → Q j) t
    → All Q (filter p t)
All-filter_of p Q [] h = tt
All-filter_of p Q (j ∷ t) (here, rest) = elim (Bool-cases (p j)) [
  | inl e ↦ rw e (here e, All-filter_of p Q t rest)
  | inr e ↦ rw e (All-filter_of p Q t rest)
]

-- The claimed row comes from `q`, the oldest of the rows that may run and are not locked.
pub record IsOldest (is_locked : ℕ → Bool) (t : Table) (q : Job) : Type 0 where
  pub listed : Memᴰ q t
  pub fits : eligible t q ≡ true
  pub unlocked : is_locked q.id ≡ false
  pub least :
      All (λ j. q.created_at ≤ j.created_at) (filter (λ j. eligible t j && not (is_locked j.id)) t)

module _ (is_locked : ℕ → Bool) (now worker : ℕ) (t : Table) where
  abbrev candidate : Job → Bool
  candidate q = eligible t q && not (is_locked q.id)

  IsOldest-of : (q : Job) → oldest candidate t ≡ some q → IsOldest is_locked t q
  IsOldest-of q e =
      let (fits, m) = oldest-some candidate t e in
      record {
        listed = m;
        fits = ground arith;
        unlocked = ground arith;
        least =
            All-filter_of candidate (λ j. q.created_at ≤ j.created_at) t (oldest-le candidate t e);
      }

  claim-eq-none :
      oldest candidate t ≡ none → (claim_next_device_sync_job is_locked now worker t).0 ≡ none
  unfolding claim_next_device_sync_job
  claim-eq-none e = rw (e, claim_next_device_sync_job) refl

  claim-eq-some :
      {tries : ℕ} (q : Job)
      → IsValid tries t
      → oldest candidate t ≡ some q
      → (claim_next_device_sync_job is_locked now worker t).0 ≡ some (claimed now worker q)
  unfolding claim_next_device_sync_job
  claim-eq-some q v e =
      let m = (IsOldest-of q e).listed in
      rw (e, claim_next_device_sync_job)
        (returning-one (has_id q.id) (claimed now worker) q t m (==-refl q.id)
          (All-eq_of_count (has_id q.id) q t m (==-refl q.id) (v.one_id q.id)))

  -- From a valid table, a claim that returns a row returns the claimed form of the oldest row that
  -- may run and is not locked.
  pub claim-IsOldest :
      {tries : ℕ} {row : Job}
      → IsValid tries t
      → (claim_next_device_sync_job is_locked now worker t).0 ≡ some row
      → (q : Job) × IsOldest is_locked t q × (row ≡ claimed now worker q)
  claim-IsOldest {row} v h = elim (Option-cases (oldest candidate t)) [
    | inl e ↦ absurd (cc (claim-eq-none e))
    | inr (q, e) ↦ (q, IsOldest-of q e, cc (claim-eq-some q v e))
  ]

module _ (t : Table) where
  abbrev waits_for : Kind → ℕ → Job → Bool
  waits_for kind target j = job_queued j && (same_kind j.kind kind && j.target_id == target)
