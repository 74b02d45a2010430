-- ===== src/SyncQueue/Ownership.antt =====
-- Who may end a job: a finish is refused to an instance that has lost the job.
use face2go_server.Base.{
  ℕ, ◌≡◌, refl, String, Bool, true, false, Option, [], ◌∷◌, arith, any, any-eq-true, Bool-cases,
  inl, inr, count, ◌&&◌,
}
use face2go_server.SyncQueue.Job.{Job, Table, job_running}
use face2go_server.SyncQueue.Sql.{update_where}
use face2go_server.SyncQueue.Queries.{
  owned_by, holds_worker, Final, finished, finish_device_sync_job,
}
use face2go_server.SyncQueue.Recovery.{locked_by}

update_where-none :
    (p : Job → Bool) (f : Job → Job) (t : Table) → count p t ≡ 0 → update_where p f t ≡ t
unfolding update_where
update_where-none p f [] h = refl
update_where-none p f (j ∷ t) h =
    let out : p j ≡ false = ground arith in rw (out, update_where-none p f t (ground arith)) refl

count-update_where-none :
    (q p : Job → Bool) (f : Job → Job) (t : Table)
    → ((j : Job) → q j ≡ true → p j ≡ true)
    → ((j : Job) → q (f j) ≡ false)
    → count q (update_where p f t) ≡ 0
unfolding update_where
count-update_where-none q p f [] all gone = refl
count-update_where-none q p f (j ∷ t) all gone =
    ground (arith, all j, gone j, count-update_where-none q p f t all gone)

any-none : (p : Job → Bool) (t : Table) → count p t ≡ 0 → any p t ≡ false
any-none p t h = elim (Bool-cases (any p t)) [
  | inl e ↦ absurd (omega (arith, any-eq-true p t e))
  | inr e ↦ e
]

-- An instance that owns no row of the id writes no final state.
pub finish-fenced :
    (id worker : ℕ) (status : Final) (error : Option String) (now : ℕ) (t : Table)
    → count (owned_by id worker) t ≡ 0
    → finish_device_sync_job id worker status error now t ≡ (false, t)
unfolding finish_device_sync_job
finish-fenced id worker status error now t h =
    rw
      (
        any-none (owned_by id worker) t h,
        update_where-none (owned_by id worker) (finished status error now) t h,
      )
      refl

-- After a finish, the instance owns no row of the id.
pub finish-releases :
    (id worker : ℕ) (status : Final) (error : Option String) (now : ℕ) (t : Table)
    → count (owned_by id worker) (finish_device_sync_job id worker status error now t).1 ≡ 0
unfolding finish_device_sync_job
finish-releases id worker status error now t =
    count-update_where-none (owned_by id worker) (owned_by id worker) (finished status error now) t
      (λ j h. h) (λ j. unfold owned_by finished in ground arith)

abbrev pub runs_under : ℕ → Job → Bool
runs_under worker j = job_running j && holds_worker worker j.locked_by
