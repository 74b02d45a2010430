-- ===== src/Tests/Concurrency.antt =====
-- The gate of the readers' syncs and the workers of src/common/concurrency on concrete runs.
use face2go_server.Base.{true, ℕ, List, [], ◌∷◌, ◌≡◌, ◌≢◌, ◌+◌, refl, Option, some, none, arith}
use face2go_server.Concurrency.Tails
use face2go_server.Concurrency.Tails.{
  CallPhase, waits_reader, waits_slot, done, Gates, no_calls, arrive, move, finish, settled, Has,
  here, there, arrives, passes, begins, finishes, get_tail, set_tail, delete_tail,
}
use face2go_server.Concurrency.Tails.Order.{earlier_calls_done}
use face2go_server.Concurrency.Tails.Progress.{reader_progress}
use face2go_server.Concurrency.Workers
use face2go_server.Concurrency.Workers.{
  Pool, started, take_item, settle_item, take, settle, IsDone, calls_from,
}
use face2go_server.Concurrency.Workers.Results.{results-eq-calls}

-- Two calls of one reader: the second waits until the first is done.
abbrev two_calls : Gates
two_calls = arrive 7 (arrive 7 no_calls)

abbrev first_runs : Gates
first_runs = move 0 Tails.running (move 0 waits_slot two_calls)

abbrev second_waits : Gates
second_waits = move 1 waits_slot (finish 0 7 first_runs)

second_waits-Reach : Tails.Reach second_waits
unfolding arrive move finish settled get_tail set_tail
second_waits-Reach =
    Tails.next
      (Tails.next
        (Tails.next
          (Tails.next (Tails.next (Tails.next Tails.start (arrives 7)) (arrives 7))
            (passes (there here) refl))
          (begins (there here)))
        (finishes (there here)))
      (passes here refl)

earlier_calls_done_example : ◌≡◌ {A = CallPhase} done done
unfolding arrive move finish settled get_tail set_tail
earlier_calls_done_example =
    earlier_calls_done {g = second_waits} {i = 1} {j = 0} {k = 7} {p = some 0} {q = none}
      {ph = waits_slot} {ph' = done} second_waits-Reach here (there here) (λ e. cc) (omega arith)

-- The first call of the two may go on.
two_calls-Reach : Tails.Reach two_calls
two_calls-Reach = Tails.next (Tails.next Tails.start (arrives 7)) (arrives 7)

reader_progress_example :
    (j : ℕ) × (q : Option ℕ) × (ph : CallPhase) × Has j 7 q ph two_calls.calls
    × (ph ≢ done)
    × (settled q two_calls.calls ≡ true)
unfolding arrive get_tail set_tail
reader_progress_example =
    reader_progress {g = two_calls} {i = 1} {k = 7} {p = some 0} {ph = waits_reader} two_calls-Reach
      here (λ e. cc)

abbrev items : List ℕ
items = 5 ∷ 6 ∷ []

abbrev sum_with_index : ℕ → ℕ → Option ℕ
sum_with_index x i = some (x + i)

-- The second call settles first.
abbrev ended : Pool ℕ
ended = take_item items 2 sum_with_index (
    take_item items 2 sum_with_index (
      settle_item items 2 sum_with_index [] 0 [] (
        settle_item items 2 sum_with_index (0 ∷ []) 1 [] (
          take_item items 2 sum_with_index
            (take_item items 2 sum_with_index (started items 2 sum_with_index))))))

ended-Reach : Workers.Reach items 2 sum_with_index ended
unfolding started take_item settle_item
ended-Reach =
    Workers.next
      (Workers.next
        (Workers.next
          (Workers.next
            (Workers.next (Workers.next Workers.start (take (omega arith))) (take (omega arith)))
            (settle (0 ∷ []) 1 [] refl))
          (settle [] 0 [] refl))
        (take (omega arith)))
      (take (omega arith))

ended-IsDone : IsDone items 2 sum_with_index ended
unfolding started take_item settle_item
ended-IsDone = record { none_ready = refl; none_pending = refl; none_failed = refl }

results-eq-calls_example : ended.results ≡ some 5 ∷ some 7 ∷ []
results-eq-calls_example =
    results-eq-calls items 2 sum_with_index {p = ended} ended-Reach ended-IsDone
