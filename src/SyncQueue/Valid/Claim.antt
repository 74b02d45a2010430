-- ===== src/SyncQueue/Valid/Claim.antt =====
-- A claim keeps a well-formed table well formed: one job of a kind and target runs at a time.
use face2go_server.Base.{
  ℕ, ◌≤◌, ◌≡◌, Bool, true, false, some, [], ◌∷◌, arith, not, Bool-cases, Option-cases, inl, inr,
  count, count-le_of_All, All, All-imp, All-zip, All-eq_of_count, ◌&&◌, ◌==◌, ==-refl, Memᴰ,
  any-eq-false, subst, sym, ltb,
}
use face2go_server.SyncQueue.Job.{
  Kind, Job, Table, job_queued, job_running, same_kind, same_kind-eq, same_kind_refl,
}
use face2go_server.SyncQueue.Sql.{
  update_where, All-update_where, count-update_where-le, count-update_where-le_of_All,
  count-update_where-le-add,
}
use face2go_server.SyncQueue.Queries.{
  blocks, eligible, oldest, claimed, claim_next_device_sync_job, queued_with,
}
use face2go_server.SyncQueue.Valid.{IsWellFormed, IsValid, has_id, runs_for}
use face2go_server.SyncQueue.Valid.Rows.{claimed-IsWellFormed}

-- The row that a query takes satisfies its condition and is a row of the table.
pub oldest-some :
    (p : Job → Bool) (t : Table) {q : Job} → oldest p t ≡ some q → (p q ≡ true) × Memᴰ q t
unfolding oldest
oldest-some p [] h = cc
oldest-some p (j ∷ t) {q} h = elim (Bool-cases (p j)) [
  | inr out ↦ let (hp, m) = oldest-some p t {q = q} (ground arith) in (hp, Memᴰ.tail m)
  | inl here ↦ elim (Option-cases (oldest p t)) [
    | inl e ↦ take_head here (ground arith)
    | inr (k, e) ↦ elim (Bool-cases (ltb k.created_at j.created_at)) [
      | inl older ↦
          let (hp, m) = oldest-some p t {q = k} e in
          let same : k ≡ q = ground arith in
          (subst (λ x. p x ≡ true) same hp, Memᴰ.tail (subst (λ x. Memᴰ x t) same m))
      | inr newer ↦ take_head here (ground arith)
    ]
  ]
]
  where
    take_head : p j ≡ true → j ≡ q → (p q ≡ true) × Memᴰ q (j ∷ t)
    take_head here same = (subst (λ x. p x ≡ true) same here, Memᴰ.head (sym same))

blocks_of_runs_for :
    (q r : Job) (k : Kind) (g : ℕ)
    → job_queued q ≡ true
    → (same_kind q.kind k && q.target_id == g) ≡ true
    → ((r.id == q.id) ≡ true → r ≡ q)
    → runs_for k g r ≡ true
    → blocks r q ≡ true
unfolding blocks
blocks_of_runs_for q r k g waits slot only runs =
    let apart : (r.id == q.id) ≡ false = elim (Bool-cases (r.id == q.id)) [
      | inr e ↦ e
      | inl e ↦
          let run : job_running q ≡ true =
            subst (λ x. job_running x ≡ true) (only e) (ground arith) in
          absurd (ground arith)
    ] in
    let r_kind : r.kind ≡ k = same_kind-eq r.kind k (ground arith) in
    let q_kind : q.kind ≡ k = same_kind-eq q.kind k (ground arith) in
    let kinds : same_kind r.kind q.kind ≡ true = rw (r_kind, q_kind) (same_kind_refl k) in
    ground arith

-- No row of the slot of an eligible one runs.
eligible-free :
    (t : Table) (q : Job) (k : Kind) (g : ℕ)
    → All (λ j. has_id q.id j ≡ true → j ≡ q) t
    → eligible t q ≡ true
    → (same_kind q.kind k && q.target_id == g) ≡ true
    → count (runs_for k g) t ≡ 0
unfolding eligible
eligible-free t q k g same e slot =
    let none_blocks = any-eq-false (λ r. blocks r q) t (ground arith) in
    omega (
      arith,
      count-le_of_All (runs_for k g) (λ r. blocks r q) t
          (All-imp _ _ (λ r only runs. blocks_of_runs_for q r k g (ground arith) slot only runs) t
            same),
    )

module _ (tries now worker : ℕ) (q : Job) where
  abbrev pub claim_rows : Table → Table
  claim_rows t = update_where (λ j. j.id == q.id) (claimed now worker) t

  module _
      {t : Table}
      (v : IsValid tries t)
      (m : Memᴰ q t)
      (waits_q : job_queued q ≡ true)
      (free :
        (k : Kind) (g : ℕ)
        → (same_kind q.kind k && q.target_id == g) ≡ true
        → count (runs_for k g) t ≡ 0) where
    same_row : All (λ j. has_id q.id j ≡ true → j ≡ q) t
    same_row = All-eq_of_count (has_id q.id) q t m (==-refl q.id) (v.one_id q.id)

    claim_rows-one_running : (k : Kind) (g : ℕ) → count (runs_for k g) (claim_rows t) ≤ 1
    unfolding claimed
    claim_rows-one_running k g = elim (Bool-cases (same_kind q.kind k && q.target_id == g)) [
      | inl slot ↦ omega (
        arith,
        free k g slot,
        count-update_where-le-add (runs_for k g) (has_id q.id) (claimed now worker) t,
        v.one_id q.id,
      )
      | inr other ↦ omega (
        arith,
        count-update_where-le_of_All (runs_for k g) (has_id q.id) (claimed now worker) t (
            All-imp _ _
              (λ j only hit runs.
                let slot : (same_kind q.kind k && q.target_id == g) ≡ true =
                  subst (λ x. (same_kind x.kind k && x.target_id == g) ≡ true) (only hit)
                    (ground arith) in
                absurd (ground arith))
              t same_row),
        v.one_running k g,
      )
    ]

    pub claim_rows-IsValid : IsValid tries (claim_rows t)
    unfolding claimed
    claim_rows-IsValid = record {
      rows =
          All-update_where (λ j. IsWellFormed tries j × (has_id q.id j ≡ true → j ≡ q))
            (IsWellFormed tries) (has_id q.id) (claimed now worker)
            (λ j hit h.
              let waits : job_queued j ≡ true =
                subst (λ x. job_queued x ≡ true) (sym (h.1 hit)) waits_q in
              claimed-IsWellFormed tries now worker j waits h.0)
            (λ j h. h.0) t
            (All-zip (IsWellFormed tries) (λ j. has_id q.id j ≡ true → j ≡ q) t v.rows same_row);
      one_id = λ i. omega (
        arith,
        count-update_where-le (has_id i) (has_id q.id) (claimed now worker) (λ j _ h. h) t,
        v.one_id i,
      );
      one_queued = λ k. omega (
        arith,
        count-update_where-le (queued_with k) (has_id q.id) (claimed now worker)
            (λ j _ h. ground arith) t,
        v.one_queued k,
      );
      one_running = claim_rows-one_running;
    }

pub waits_of_eligible : (t : Table) (q : Job) → eligible t q ≡ true → job_queued q ≡ true
unfolding eligible
waits_of_eligible t q e = ground arith

pub claim-IsValid :
    (tries : ℕ) (is_locked : ℕ → Bool) (now worker : ℕ) {t : Table}
    → IsValid tries t
    → IsValid tries (claim_next_device_sync_job is_locked now worker t).1
unfolding claim_next_device_sync_job
claim-IsValid tries is_locked now worker {t} v =
    elim (Option-cases (oldest (λ q. eligible t q && not (is_locked q.id)) t)) [
      | inl e ↦ rw (e, claim_next_device_sync_job) v
      | inr (q, e) ↦
          let (fits, m) = oldest-some (λ q. eligible t q && not (is_locked q.id)) t e in
          rw (e, claim_next_device_sync_job)
            (claim_rows-IsValid tries now worker q v m (waits_of_eligible t q (ground arith))
              (λ k g slot. eligible-free t q k g
                (All-eq_of_count (has_id q.id) q t m (==-refl q.id) (v.one_id q.id))
                (ground arith)
                slot))
    ]
