-- ===== src/SyncQueue/Observe.antt =====
-- src/device-sync-queue/observe-device-sync-job.ts: the events that a client is sent while it follows
-- a job. The polls of the row are a list, `none` where the row is gone; the loop ends by a return, or
-- goes on when the list ends.
use mathlib.Core.List.{append_assoc}
use face2go_server.Base.{
  ℕ, ◌≡◌, refl, String, Bool, true, false, Option, none, some, List, [], ◌∷◌, ◌++◌, arith, count,
  not, ◌==◌, if◌then◌else◌, or_else, inl, inr, Option-cases, sym, count-append,
}
use face2go_server.SyncQueue.Job.{Status, queued, running, Job}

pub data Event : Type 0 where
  start : ℕ → Event
  progress : ℕ → ℕ → ℕ → Event
  done : ℕ → ℕ → Event
  error : String → Event
  ping : Event

-- `lastProcessed` and `lastTotal`, which begin at -1: no number yet.
pub record Seen : Type 0 where
  pub processed : Option ℕ
  pub total : Option ℕ

abbrev pub unseen : Seen
unseen = record { processed = none; total = none }

abbrev differs : Option ℕ → ℕ → Bool
differs none n = true
differs (some m) n = not (m == n)

abbrev opening : Seen → Job → List Event
opening seen job =
    (if differs seen.total job.total then start job.total ∷ [] else [])
    ++ (if differs seen.processed job.processed
        then progress job.processed job.total job.id ∷ []
        else [])

abbrev pub ending : Job → Option Event
ending job = elim job.status [
  | queued ↦ none
  | running ↦ none
  | Status.done ↦ some (done job.processed job.total)
  | Status.failed ↦ some (error (or_else job.error "Falha no sync."))
  | Status.canceled ↦ some (error (or_else job.error "Falha no sync."))
]

abbrev closing : Option Event → List Event → List Event
closing none rest = ping ∷ rest
closing (some e) rest = e ∷ []

unfoldable pub observe_device_sync_job : Seen → List (Option Job) → List Event
observe_device_sync_job seen [] = []
observe_device_sync_job seen (none ∷ polls) = error "Job não encontrado." ∷ []
observe_device_sync_job seen (some job ∷ polls) =
    let rest =
      observe_device_sync_job (record { processed = some job.processed; total = some job.total })
        polls in
    opening seen job ++ closing (ending job) rest

abbrev pub is_ending : Event → Bool
is_ending (done p t) = true
is_ending (error m) = true
is_ending _ = false

abbrev pub is_ended : Option Job → Bool
is_ended none = true
is_ended (some job) = elim job.status [ queued ↦ false | running ↦ false | _ ↦ true ]

abbrev pub any_ended : List (Option Job) → Bool
any_ended [] = false
any_ended (p ∷ ps) = let rest = any_ended ps in if is_ended p then true else rest

-- The events before the last: those that a poll of a job which has not ended sends.
count-opening : (seen : Seen) (job : Job) → count is_ending (opening seen job) ≡ 0
count-opening seen job = ground arith

-- If some poll finds the job ended or gone, the events are some that are not final, and one final.
pub observe-ends :
    (seen : Seen) (polls : List (Option Job))
    → any_ended polls ≡ true
    → (es : List Event) × (e : Event) × (observe_device_sync_job seen polls ≡ es ++ e ∷ [])
      × (is_ending e ≡ true)
      × (count is_ending es ≡ 0)
unfolding observe_device_sync_job
observe-ends seen [] h = cc
observe-ends seen (none ∷ polls) h = ([], error "Job não encontrado.", refl, refl, refl)
observe-ends seen (some job ∷ polls) h = elim (Option-cases (ending job)) [
  | inr (e, last) ↦
      (opening seen job, e, rw last refl, ending-is_ending job e last, count-opening seen job)
  | inl more ↦
      let next : Seen = record { processed = some job.processed; total = some job.total } in
      let (es, e, same, final, none_before) = observe-ends next polls (ground arith) in
      (
        opening seen job ++ ping ∷ es,
        e,
        rw (more, same) (sym (append_assoc (opening seen job) (ping ∷ es) (e ∷ []))),
        final,
        rw (count-append is_ending (opening seen job) (ping ∷ es), count-opening seen job)
            (omega (arith, none_before)),
      )
]
  where
    ending-is_ending : (j : Job) (e : Event) → ending j ≡ some e → is_ending e ≡ true
    ending-is_ending j e h = ground arith

-- While no poll finds the job ended or gone, no event is final.
pub observe-goes_on :
    (seen : Seen) (polls : List (Option Job))
    → any_ended polls ≡ false
    → count is_ending (observe_device_sync_job seen polls) ≡ 0
unfolding observe_device_sync_job
observe-goes_on seen [] h = refl
observe-goes_on seen (none ∷ polls) h = cc
observe-goes_on seen (some job ∷ polls) h =
    let next : Seen = record { processed = some job.processed; total = some job.total } in
    ground (arith, observe-goes_on next polls)
