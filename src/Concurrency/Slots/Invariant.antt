-- ===== src/Concurrency/Slots/Invariant.antt =====
-- What holds in every state of the slots.
use face2go_server.Base.{◌+◌, ◌≤◌, ◌<◌, ◌≡◌, [], ◌∷◌, arith, length, length-append}
use face2go_server.Concurrency.Slots.{
  Gate, acquire_global_slot, resume, release_global_slot, Step, acquire, go_on, release, Reach,
  start, next,
}

pub record IsSound (g : Gate) : Type 0 where
  pub counted : g.active ≡ g.in_flight
  pub busy : 0 < length g.waiters → 2 ≤ g.active + g.woken

Step-IsSound : {g h : Gate} → Step g h → IsSound g → IsSound h
unfolding acquire_global_slot resume release_global_slot
Step-IsSound {g} (acquire call) s = ground (arith, length-append g.waiters (call ∷ []))
Step-IsSound (go_on w) s = ground arith
Step-IsSound (release f) s = ground arith

pub Reach-IsSound : {g : Gate} → Reach g → IsSound g
Reach-IsSound start = omega arith
Reach-IsSound (next r s) = Step-IsSound s (Reach-IsSound r)

-- In a reachable state where a call waits, the counter is the number of syncs in flight, and two
-- syncs are in flight or about to go on: no waiter is forgotten.
pub no_lost_wakeup :
    {g : Gate}
    → Reach g
    → 0 < length g.waiters
    → (g.active ≡ g.in_flight) × (2 ≤ g.in_flight + g.woken)
no_lost_wakeup r h = let s = Reach-IsSound r in ground arith
