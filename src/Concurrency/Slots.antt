-- ===== src/Concurrency/Slots.antt =====
-- The global slots of src/common/concurrency/reader-sync-gate.ts: `acquireGlobalSlot` and
-- `releaseGlobalSlot`. A call that waits goes on in two moments: a release takes it from the queue
-- and resolves its promise, and later its own continuation takes the slot. Between the two any other
-- code may run.
pub mod Invariant
pub mod Overrun
use face2go_server.Base.{
  ℕ, ◌+◌, ◌-◌, ◌≤◌, ◌<◌, ◌≡◌, List, [], ◌∷◌, ◌++◌, Bool, true, false, ltb, max, if◌then◌else◌,
  Option, none, some, length,
}

abbrev pub global_face_sync_limit : ℕ
global_face_sync_limit = 2

-- `active` is `globalActive`, `waiters` the calls of `globalWaiters`; `woken` the calls whose promise
-- is resolved and that have not gone on, and `in_flight` the calls that run their sync.
pub record Gate : Type 0 where
  pub active : ℕ
  pub waiters : List ℕ
  pub woken : ℕ
  pub in_flight : ℕ

abbrev pub idle : Gate
idle = record { active = 0; waiters = []; woken = 0; in_flight = 0 }

-- `acquireGlobalSlot`, up to its end or to its `await`
unfoldable pub acquire_global_slot : ℕ → Gate → Gate
acquire_global_slot call g =
    if ltb g.active global_face_sync_limit
    then record g { active = g.active + 1; in_flight = g.in_flight + 1 }
    else record g { waiters = g.waiters ++ call ∷ [] }

-- the rest of `acquireGlobalSlot` behind its `await`
unfoldable pub resume : Gate → Gate
resume g = record g { active = g.active + 1; woken = g.woken - 1; in_flight = g.in_flight + 1 }

abbrev wake : Gate → Gate
wake g = elim g.waiters [ [] ↦ g | w ∷ ws ↦ record g { waiters = ws; woken = g.woken + 1 } ]

-- `releaseGlobalSlot`, when a sync ends
unfoldable pub release_global_slot : Gate → Gate
release_global_slot g = wake (record g { active = g.active - 1; in_flight = g.in_flight - 1 })

-- What may happen next.
pub data Step (g : Gate) : Gate → Type 0 where
  acquire : (call : ℕ) → Step g (acquire_global_slot call g)
  go_on : 0 < g.woken → Step g (resume g)
  release : 0 < g.in_flight → Step g (release_global_slot g)

pub data Reach : Gate → Type 0 where
  start : Reach idle
  next : {g h : Gate} → Reach g → Step g h → Reach h
