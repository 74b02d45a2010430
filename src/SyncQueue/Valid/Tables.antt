-- ===== src/SyncQueue/Valid/Tables.antt =====
-- Each query keeps a well-formed table well formed.
use face2go_server.Base.{
  ℕ, ◌<◌, ◌≡◌, String, Bool, true, false, Option, some, List, [], ◌∷◌, ◌++◌, arith, not, any,
  Bool-cases, inl, inr, count, All-append, All-filter, any-eq-false, count-append, count-filter-le,
  subst,
}
use face2go_server.SyncQueue.Job.{Kind, Job, Table, Payload}
use face2go_server.SyncQueue.Sql.{
  update_where, delete_where, All-update_where, count-update_where-le,
}
use face2go_server.SyncQueue.Queries.{
  EnqueueInput, update_queued_job_payload, new_row, insert_device_sync_job,
  heartbeat_device_sync_job, owned_by, beaten, Final, finished, finish_device_sync_job,
  purge_finished_device_sync_jobs, patched, update_device_sync_job, queued_with,
}
use face2go_server.SyncQueue.AdminQueries.{
  clear_failed_device_sync_jobs, cancelable, canceled_row, cancel_queued_device_sync_jobs,
  stoppable, stop_asked, request_cancel_running_device_sync_job,
}
use face2go_server.SyncQueue.Recovery.{RecoverRunningScope, recover_running_jobs, recovered, Action}
use face2go_server.SyncQueue.Valid.{IsWellFormed, IsValid, has_id, runs_for, progress_patch}
use face2go_server.SyncQueue.Valid.Rows.{
  merged_row-IsWellFormed, new_row-IsWellFormed, beaten-IsWellFormed, finished-IsWellFormed,
}
use face2go_server.SyncQueue.Valid.Recovering.{All-after, count-after-le, count-queued-after-le-one}

module _ (tries : ℕ) where
  -- An update that keeps the shape of its rows and makes no row queued or running.
  update-IsValid :
      (p : Job → Bool) (f : Job → Job)
      → ((j : Job) → p j ≡ true → IsWellFormed tries j → IsWellFormed tries (f j))
      → ((i : ℕ) (j : Job) → p j ≡ true → has_id i (f j) ≡ true → has_id i j ≡ true)
      → ((k : ℕ) (j : Job) → p j ≡ true → queued_with k (f j) ≡ true → queued_with k j ≡ true)
      → ((k : Kind) (g : ℕ) (j : Job)
          → p j ≡ true
          → runs_for k g (f j) ≡ true
          → runs_for k g j ≡ true)
      → {t : Table} → IsValid tries t
      → IsValid tries (update_where p f t)
  update-IsValid p f shape ids queue runs {t} v = record {
    rows = All-update_where (IsWellFormed tries) (IsWellFormed tries) p f shape (λ j h. h) t v.rows;
    one_id = λ i. omega (arith, count-update_where-le (has_id i) p f (ids i) t, v.one_id i);
    one_queued =
        λ k. omega (arith, count-update_where-le (queued_with k) p f (queue k) t, v.one_queued k);
    one_running = λ k g.
        omega (arith, count-update_where-le (runs_for k g) p f (runs k g) t, v.one_running k g);
  }

  delete-IsValid : (p : Job → Bool) {t : Table} → IsValid tries t → IsValid tries (delete_where p t)
  unfolding delete_where
  delete-IsValid p {t} v = record {
    rows = All-filter (IsWellFormed tries) (λ j. not (p j)) t v.rows;
    one_id = λ i. omega (arith, count-filter-le (has_id i) (λ j. not (p j)) t, v.one_id i);
    one_queued =
        λ k. omega (arith, count-filter-le (queued_with k) (λ j. not (p j)) t, v.one_queued k);
    one_running =
        λ k g. omega (arith, count-filter-le (runs_for k g) (λ j. not (p j)) t, v.one_running k g);
  }

  append-IsValid :
      (id now : ℕ) (input : EnqueueInput) (t : Table)
      → 0 < tries
      → count (has_id id) t ≡ 0
      → any (queued_with input.dedupe_key) t ≡ false
      → IsValid tries t
      → IsValid tries (t ++ new_row id now input ∷ [])
  unfolding new_row
  append-IsValid id now input t pos fresh free v =
      let row = new_row id now input in
      record {
        rows =
            All-append (IsWellFormed tries) t (row ∷ []) v.rows
              (new_row-IsWellFormed tries id now input pos, tt);
        one_id = λ i. ground (arith, count-append (has_id i) t (row ∷ []), v.one_id i);
        one_queued = λ k. ground (
          arith,
          count-append (queued_with k) t (row ∷ []),
          v.one_queued k,
          any-eq-false (queued_with input.dedupe_key) t free,
        );
        one_running =
            λ k g. ground (arith, count-append (runs_for k g) t (row ∷ []), v.one_running k g);
      }

  pub insert-IsValid :
      (id now : ℕ) (input : EnqueueInput) {t u : Table} {row : Job}
      → 0 < tries
      → count (has_id id) t ≡ 0
      → insert_device_sync_job id now input t ≡ some (row, u)
      → IsValid tries t
      → IsValid tries u
  unfolding insert_device_sync_job
  insert-IsValid id now input {t} {u} pos fresh e v =
      elim (Bool-cases (any (queued_with input.dedupe_key) t)) [
        | inl full ↦ cc full
        | inr free ↦
            let same : t ++ new_row id now input ∷ [] ≡ u = ground arith in
            subst (IsValid tries) same (append-IsValid id now input t pos fresh free v)
      ]

  pub merge-IsValid :
      (id : ℕ) (payload : Payload) (force : Bool) (by : Option ℕ) (now : ℕ) {t : Table}
      → IsValid tries t
      → IsValid tries (update_queued_job_payload id payload force by now t).1
  unfolding update_queued_job_payload
  merge-IsValid id payload force by now v =
      update-IsValid _ _ (λ j _ h. merged_row-IsWellFormed tries payload force by now j h)
        (λ i j _ h. h) (λ k j _ h. h) (λ k g j _ h. h) v

  pub heartbeat-IsValid :
      (id worker now : ℕ) {t : Table}
      → IsValid tries t
      → IsValid tries (heartbeat_device_sync_job id worker now t).1
  unfolding heartbeat_device_sync_job
  heartbeat-IsValid id worker now v =
      update-IsValid (owned_by id worker) (beaten now)
        (λ j o h. beaten-IsWellFormed tries id worker now j o h) (λ i j _ h. h) (λ k j _ h. h)
        (λ k g j _ h. h) v

  pub finish-IsValid :
      (id worker : ℕ) (s : Final) (error : Option String) (now : ℕ) {t : Table}
      → IsValid tries t
      → IsValid tries (finish_device_sync_job id worker s error now t).1
  unfolding finish_device_sync_job
  finish-IsValid id worker s error now v =
      update-IsValid (owned_by id worker) (finished s error now)
        (λ j _ _. finished-IsWellFormed tries s error now j) (λ i j _ h. h)
        (λ k j _ h. ground arith) (λ k g j _ h. ground arith) v

  has_id-recovered :
      (scope : RecoverRunningScope) (now i : ℕ) (a : Action) (j : Job)
      → has_id i (recovered scope now tries a j) ≡ true
      → has_id i j ≡ true
  unfolding recovered
  has_id-recovered scope now i a j h = h

  runs_for-recovered :
      (scope : RecoverRunningScope) (now : ℕ) (k : Kind) (g : ℕ) (a : Action) (j : Job)
      → runs_for k g (recovered scope now tries a j) ≡ true
      → runs_for k g j ≡ true
  unfolding recovered
  runs_for-recovered scope now k g a j h = ground arith

  pub recover-IsValid :
      (scope : RecoverRunningScope) (now : ℕ) {t : Table}
      → IsValid tries t
      → IsValid tries (recover_running_jobs scope now tries t).1
  unfolding recover_running_jobs
  recover-IsValid scope now {t} v =
      let le = count-after-le scope now tries t in
      record {
        rows = All-after scope now tries t [] t v.rows;
        one_id = λ i.
            omega
              (arith, le (has_id i) (λ a j h. has_id-recovered scope now i a j h) [] t, v.one_id i);
        one_queued = λ k. count-queued-after-le-one scope now tries t k (v.one_queued k);
        one_running = λ k g. omega (
          arith,
          le (runs_for k g) (λ a j h. runs_for-recovered scope now k g a j h) [] t,
          v.one_running k g,
        );
      }

  pub purge-IsValid :
      (done_days failed_days limit now : ℕ) {t : Table}
      → IsValid tries t
      → IsValid tries (purge_finished_device_sync_jobs done_days failed_days limit now t).1
  unfolding purge_finished_device_sync_jobs
  purge-IsValid done_days failed_days limit now v = delete-IsValid _ v

  pub clear_failed-IsValid :
      (client_id : ℕ) {t : Table}
      → IsValid tries t
      → IsValid tries (clear_failed_device_sync_jobs client_id t).1
  unfolding clear_failed_device_sync_jobs
  clear_failed-IsValid client_id v = delete-IsValid _ v

  pub cancel_queued-IsValid :
      (client_id : ℕ) (ids : Option (List ℕ)) (now : ℕ) {t : Table}
      → IsValid tries t
      → IsValid tries (cancel_queued_device_sync_jobs client_id ids now t).1
  unfolding cancel_queued_device_sync_jobs
  cancel_queued-IsValid client_id ids now v =
      update-IsValid (cancelable client_id ids) (canceled_row now) (λ j c h. ground arith)
        (λ i j _ h. h) (λ k j _ h. ground arith) (λ k g j _ h. ground arith) v

  pub request_cancel-IsValid :
      (client_id id now : ℕ) {t : Table}
      → IsValid tries t
      → IsValid tries (request_cancel_running_device_sync_job client_id id now t).1
  unfolding request_cancel_running_device_sync_job
  request_cancel-IsValid client_id id now v =
      update-IsValid (stoppable client_id id) (stop_asked now) (λ j c h. ground arith)
        (λ i j _ h. h) (λ k j _ h. h) (λ k g j _ h. h) v

  -- The handlers write their progress only.
  pub progress-IsValid :
      (id now : ℕ) (processed total : Option ℕ) {t : Table}
      → IsValid tries t
      → IsValid tries (update_device_sync_job id (progress_patch processed total) now t)
  unfolding update_device_sync_job
  progress-IsValid id now processed total v =
      update-IsValid (has_id id) (patched (progress_patch processed total) now)
        (λ j _ h. ground arith) (λ i j _ h. h) (λ k j _ h. h) (λ k g j _ h. h) v
