-- ===== src/Concurrency/Slots/Overrun.antt =====
-- The limit is not kept: a call may take the slot that a release has promised to a woken waiter.
use native.Mathlib.Nat.{zero-add}
use face2go_server.Base.{ℕ, zero, suc, ◌+◌, ◌<◌, ◌≡◌, refl, List, [], ◌∷◌, ◌++◌, arith, subst}
use face2go_server.Concurrency.Slots.{
  Gate, acquire_global_slot, resume, release_global_slot, Step, acquire, go_on, release, Reach,
  start, next,
}

-- `n` calls that wait.
abbrev queue : ℕ → List ℕ
queue zero = []
queue (suc n) = 0 ∷ queue n

queue-snoc : (n : ℕ) → queue n ++ 0 ∷ [] ≡ queue (suc n)
queue-snoc zero = refl
queue-snoc (suc n) = rw (queue-snoc n) refl

abbrev gate : ℕ → List ℕ → ℕ → Gate
gate active waiters woken = record {
  active = active;
  waiters = waiters;
  woken = woken;
  in_flight = active;
}

to : {g h k : Gate} → Reach g → Step g h → h ≡ k → Reach k
to r s e = subst Reach e (next r s)

wait_eq :
    (n k : ℕ)
    → acquire_global_slot 0 (gate (suc (suc n)) (queue k) 0) ≡ gate (suc (suc n)) (queue (suc k)) 0
unfolding acquire_global_slot
wait_eq n k = rw (← queue-snoc k) (ground arith)

wait : (n k : ℕ) → Reach (gate (suc (suc n)) [] 0) → Reach (gate (suc (suc n)) (queue k) 0)
wait n zero r = r
wait n (suc k) r = to (wait n k r) (acquire 0) (wait_eq n k)

release_eq :
    (a k w : ℕ) → release_global_slot (gate (suc a) (queue (suc k)) w) ≡ gate a (queue k) (suc w)
unfolding release_global_slot
release_eq a k w = ground arith

release_all : (k w : ℕ) → Reach (gate (suc k) (queue k) w) → Reach (gate 1 [] (k + w))
release_all zero w r = rw zero-add r
release_all (suc k) w r =
    let e : k + suc w ≡ suc k + w = omega arith in
    subst (λ x. Reach (gate 1 [] x)) e
      (release_all k (suc w) (to r (release (omega arith)) (release_eq (suc k) k w)))

go_on_eq : (a k : ℕ) → resume (gate a [] (suc k)) ≡ gate (suc a) [] k
unfolding resume
go_on_eq a k = ground arith

go_on_all : (a k : ℕ) → Reach (gate a [] k) → Reach (gate (k + a) [] 0)
go_on_all a zero r = rw zero-add r
go_on_all a (suc k) r =
    let e : k + suc a ≡ suc k + a = omega arith in
    subst (λ x. Reach (gate x [] 0)) e
      (go_on_all (suc a) k (to r (go_on (omega arith)) (go_on_eq a k)))

steal_eq : (w : ℕ) → acquire_global_slot 0 (gate 1 [] w) ≡ gate 2 [] w
unfolding acquire_global_slot
steal_eq w = ground arith

-- With n + 2 syncs in flight, n + 1 calls that wait and as many releases make room for one more.
overrun_once : (n : ℕ) → Reach (gate (suc (suc n)) [] 0) → Reach (gate (suc (suc (suc n))) [] 0)
overrun_once n r =
    let released = release_all (suc n) 0 (wait n (suc n) r) in
    let stolen = to released (acquire 0) (steal_eq (suc n + 0)) in
    let e : suc n + 0 + 2 ≡ suc (suc (suc n)) = omega arith in
    subst (λ x. Reach (gate x [] 0)) e (go_on_all 2 (suc n + 0) stolen)

first_eq : (a : ℕ) → a < 2 → acquire_global_slot 0 (gate a [] 0) ≡ gate (suc a) [] 0
unfolding acquire_global_slot
first_eq a h = ground arith

overrun_at : (n : ℕ) → Reach (gate (suc (suc n)) [] 0)
overrun_at zero =
    to (to start (acquire 0) (first_eq 0 (omega arith))) (acquire 0) (first_eq 1 (omega arith))
overrun_at (suc n) = overrun_once n (overrun_at n)

-- For every number of syncs there is a reachable state in which more are in flight.
pub limit_overrun : (n : ℕ) → (g : Gate) × Reach g × (n < g.in_flight)
limit_overrun n = (gate (suc (suc n)) [] 0, overrun_at n, omega arith)
