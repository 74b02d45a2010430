-- ===== src/SyncQueue/Service/LastWins.antt =====
-- Enqueuing alone always succeeds, and the last request of a key is the one that waits.
use face2go_server.Base.{
  ℕ, ◌≡◌, refl, ap, ◌∙◌, Bool, true, false, Option, none, some, [], ◌∷◌, ◌++◌, arith, any,
  Option-cases, inl, inr, All-eq_of_count, All-imp, ◌&&◌, ◌||◌, ◌==◌, ==-refl, find?, find?-some,
  or_else,
}
use face2go_server.SyncQueue.Job.{Job, Table, empty, job_queued, job_running, is_queued}
use face2go_server.SyncQueue.Sql.{update_where, returning}
use face2go_server.SyncQueue.Queries.{
  EnqueueInput, queued_with, find_active_job_by_dedupe, merged_row, new_row, insert_device_sync_job,
  head?,
}
use face2go_server.SyncQueue.Service.{
  is_set, first_of, merge_if_queued, ok, merged_or, insert_or_join, enqueue,
}
use face2go_server.SyncQueue.Service.Enqueue.{alone, Waits, mem-update_where, mem-snoc}
use face2go_server.SyncQueue.Valid.{IsValid, has_id}
use face2go_server.SyncQueue.ClaimOrder.{returning-one}

any-of_find? : (p : Job → Bool) (t : Table) → find? p t ≡ none → any p t ≡ false
any-of_find? p [] h = refl
any-of_find? p (j ∷ t) h = ground (arith, any-of_find? p t)

module _ (id now : ℕ) (input : EnqueueInput) (t : Table) where
  abbrev key : ℕ
  key = input.dedupe_key

  abbrev merged : Job → Job → Job
  merged e =
      merged_row (or_else input.payload empty) (e.force || is_set input.force)
        (first_of input.created_by e.created_by) now

  abbrev merged_table : Job → Table
  merged_table e = update_where (λ j. j.id == e.id && job_queued j) (merged e) t

  enqueue-eq :
      (o m : Option Job) (u : Table)
      → find_active_job_by_dedupe key t ≡ o
      → merge_if_queued alone 1 o input now t ≡ (m, u)
      → enqueue alone id now input t
        ≡ merged_or m (λ j. (ok j, u)) (insert_or_join alone id now input u)
  unfolding enqueue
  enqueue-eq o m u p q =
      ap
        (λ (x : Option Job × Table).
          merged_or x.0 (λ j. (ok j, x.1)) (insert_or_join alone id now input x.1))
        (ap (λ (y : Option Job). merge_if_queued alone 1 y input now t) p ∙ q)

  merge_if_queued-eq :
      (e : Job)
      → is_queued e.status ≡ true
      → head? (returning (λ j. j.id == e.id && job_queued j) (merged e) t) ≡ some (merged e e)
      → merge_if_queued alone 1 (some e) input now t ≡ (some (merged e e), merged_table e)
  unfolding merge_if_queued
  merge_if_queued-eq e waits one = rw waits (ap (λ (m : Option Job). (m, merged_table e)) one)

  insert-eq :
      any (queued_with key) t ≡ false
      → insert_device_sync_job id now input t
        ≡ some (new_row id now input, t ++ new_row id now input ∷ [])
  unfolding insert_device_sync_job
  insert-eq h = rw h refl

  insert_or_join-eq :
      any (queued_with key) t ≡ false
      → insert_or_join alone id now input t
        ≡ (ok (new_row id now input), t ++ new_row id now input ∷ [])
  unfolding insert_or_join
  insert_or_join-eq h = rw (insert-eq h, insert_or_join) refl

  -- With a waiting job of the key, the call rewrites it.
  enqueue-eq_merged :
      {tries : ℕ} (e : Job)
      → IsValid tries t
      → find? (queued_with key) t ≡ some e
      → enqueue alone id now input t ≡ (ok (merged e e), merged_table e)
  enqueue-eq_merged e v h =
      let (fits, m) = find?-some (queued_with key) t h in
      let waits : is_queued e.status ≡ true = ground arith in
      let hit = λ (j : Job). j.id == e.id && job_queued j in
      let only =
        All-imp _ _ (λ j same hits. same (ground arith)) t
          (All-eq_of_count (has_id e.id) e t m (==-refl e.id) (v.one_id e.id)) in
      enqueue-eq (some e) (some (merged e e)) (merged_table e)
        (unfold find_active_job_by_dedupe in rw (h, find_active_job_by_dedupe) refl)
        (merge_if_queued-eq e waits
          (returning-one hit (merged e) e t m (ground (arith, ==-refl e.id)) only))

  -- With none, it inserts one.
  enqueue-eq_inserted :
      find? (queued_with key) t ≡ none
      → enqueue alone id now input t ≡ (ok (new_row id now input), t ++ new_row id now input ∷ [])
  enqueue-eq_inserted h =
      enqueue-eq (find? runs t) none t
        (unfold find_active_job_by_dedupe in rw (h, find_active_job_by_dedupe) refl) passes
      ∙ insert_or_join-eq (any-of_find? (queued_with key) t h)
    where
      runs : Job → Bool
      runs j = job_running j && j.dedupe_key == key

      passes : merge_if_queued alone 1 (find? runs t) input now t ≡ (none, t)
      passes = elim (Option-cases (find? runs t)) [
        | inl e ↦ rw e (unfold merge_if_queued in refl)
        | inr (x, e) ↦
            let run = (find?-some runs t e).0 in
            let idle : is_queued x.status ≡ false = ground arith in
            rw e (unfold merge_if_queued in rw idle refl)
      ]

-- Enqueuing alone from a valid table succeeds: the row that it returns waits under the input's key
-- with the input's payload, and is forced if the input asks for it.
pub enqueue-last_wins :
    {tries : ℕ} (id now : ℕ) (input : EnqueueInput) (t : Table)
    → IsValid tries t
    → (row : Job) × ((enqueue alone id now input t).0 ≡ ok row)
      × Waits input row (enqueue alone id now input t).1
enqueue-last_wins id now input t v = elim (Option-cases (find? (queued_with input.dedupe_key) t)) [
  | inl none_waits ↦
      let row = new_row id now input in
      rw (enqueue-eq_inserted id now input t none_waits) (
        row,
        refl,
        record {
          listed = mem-snoc row t;
          queued = unfold new_row in ground (arith, ==-refl input.dedupe_key);
          payload = unfold new_row in refl;
          forced = unfold new_row in ground arith;
        },
      )
  | inr (e, h) ↦
      let (fits, m) = find?-some (queued_with input.dedupe_key) t h in
      rw (enqueue-eq_merged id now input t e v h) (
        merged id now input t e e,
        refl,
        record {
          listed =
              mem-update_where (λ j. j.id == e.id && job_queued j) (merged id now input t e) e t m
                (ground (arith, ==-refl e.id));
          queued = unfold merged_row in fits;
          payload = unfold merged_row in refl;
          forced = unfold merged_row in ground arith;
        },
      )
]
