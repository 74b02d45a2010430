-- ===== src/Tests/Work.antt =====
-- The worker, the administration and the observer at small tables.
use face2go_server.Base.{◌≡◌, refl, true, Option, none, some, List, [], ◌∷◌, ◌++◌, count}
use face2go_server.SyncQueue.Job.{Job}
use face2go_server.SyncQueue.Queries.{owned_by}
use face2go_server.SyncQueue.Service.Enqueue.{alone}
use face2go_server.SyncQueue.Worker.{Handlers, raised, run_job}
use face2go_server.SyncQueue.Worker.Run.{run_job-releases}
use face2go_server.SyncQueue.Observe.{
  Event, unseen, is_ending, observe_device_sync_job, observe-ends, observe-goes_on,
}
use face2go_server.SyncQueue.Admin.{company_admin, JwtPayload, Clients, canceled_now, cancel}
use face2go_server.SyncQueue.AdminQueries.{canceled_row}
use face2go_server.SyncQueue.Admin.Access.{Manages, cancel-authorized}
use face2go_server.Tests.Queue.{first_job, second_job, running_job, two_jobs, taken}

abbrev failing : Handlers
failing job t = (raised "sem leitor", t)

run_job-releases_example :
    count (owned_by 1 9) (run_job alone 600 9 running_job failing taken).1 ≡ 0
run_job-releases_example = run_job-releases alone 600 9 running_job failing taken

abbrev polls : List (Option Job)
polls = some first_job ∷ some running_job ∷ none ∷ []

observe-ends_example :
    (es : List Event) × (e : Event) × (observe_device_sync_job unseen polls ≡ es ++ e ∷ [])
    × (is_ending e ≡ true)
    × (count is_ending es ≡ 0)
observe-ends_example = observe-ends unseen polls refl

observe-goes_on_example :
    count is_ending (observe_device_sync_job unseen (some first_job ∷ some running_job ∷ [])) ≡ 0
observe-goes_on_example = observe-goes_on unseen (some first_job ∷ some running_job ∷ []) refl

abbrev clients : Clients
clients _ = some 2

abbrev user : JwtPayload
user = record { sub = 1; role = company_admin; company_id = some 2; client_id = none }

cancel-authorized_example : Manages clients user 5
unfolding cancel
cancel-authorized_example =
    cancel-authorized clients user 5 alone 2 600 two_jobs
      (canceled_now (canceled_row 600 second_job ∷ [])) refl
