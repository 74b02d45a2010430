-- ===== src/SyncQueue/Valid/Rows.antt =====
-- Each query leaves the columns of every row in the shape of its state.
use face2go_server.Base.{ℕ, ◌<◌, ◌≡◌, refl, String, Bool, true, Option, arith}
use face2go_server.SyncQueue.Job.{Job, Table, Payload, queued, running, job_queued, job_running}
use face2go_server.SyncQueue.Queries.{
  EnqueueInput, merged_row, new_row, claimed, Final, finished, owned_by, beaten,
}
use face2go_server.SyncQueue.Recovery.{RecoverRunningScope, in_scope, action, recovered}
use face2go_server.SyncQueue.Valid.{IsWellFormed}

pub eq-queued : (j : Job) → job_queued j ≡ true → j.status ≡ queued
eq-queued j h = ground arith

pub eq-running : (j : Job) → job_running j ≡ true → j.status ≡ running
eq-running j h = ground arith

module _ (tries : ℕ) where
  pub merged_row-IsWellFormed :
      (payload : Payload) (force : Bool) (by : Option ℕ) (now : ℕ) (j : Job)
      → IsWellFormed tries j
      → IsWellFormed tries (merged_row payload force by now j)
  unfolding merged_row
  merged_row-IsWellFormed payload force by now j h = ground arith

  pub new_row-IsWellFormed :
      (id now : ℕ) (input : EnqueueInput) → 0 < tries → IsWellFormed tries (new_row id now input)
  unfolding new_row
  new_row-IsWellFormed id now input h = (refl, refl, refl, h)

  pub claimed-IsWellFormed :
      (now worker : ℕ) (j : Job)
      → job_queued j ≡ true
      → IsWellFormed tries j
      → IsWellFormed tries (claimed now worker j)
  unfolding claimed
  claimed-IsWellFormed now worker j q h = ground arith

  pub beaten-IsWellFormed :
      (id worker now : ℕ) (j : Job)
      → owned_by id worker j ≡ true
      → IsWellFormed tries j
      → IsWellFormed tries (beaten now j)
  unfolding beaten owned_by
  beaten-IsWellFormed id worker now j o h = ground arith

  pub finished-IsWellFormed :
      (s : Final) (e : Option String) (now : ℕ) (j : Job) → IsWellFormed tries (finished s e now j)
  unfolding finished
  finished-IsWellFormed s e now j = ground arith

  pub recovered-IsWellFormed :
      (scope : RecoverRunningScope) (now rn : ℕ) (table : Table) (j : Job)
      → in_scope scope now j ≡ true
      → IsWellFormed tries j
      → IsWellFormed tries (recovered scope now tries (action scope now tries table rn j) j)
  unfolding recovered action in_scope
  recovered-IsWellFormed scope now rn table j s h = ground arith
