-- ===== src/Concurrency/Backoff/Laws.antt =====
-- The delays stay within a fifth of their base, and a device goes cold at its tenth failure.
use face2go_server.Base.{
  ℕ, zero, suc, ◌+◌, ◌*◌, ◌≤◌, ◌<◌, ◌≡◌, refl, false, none, arith, leb, ◌==◌, ==-refl, or_else,
}
use face2go_server.Concurrency.Backoff.{
  draws, BackoffState, create_state, apply_jitter, next_reconnect_delay_ms, Tracker, next_delay,
}

-- A base of a multiple of ten milliseconds is changed by a fifth at most.
apply_jitter_bounds :
    (b draw : ℕ)
    → 0 < b
    → draw < draws
    → (8 * b ≤ apply_jitter (10 * b) draw) × (apply_jitter (10 * b) draw ≤ 12 * b)
unfolding apply_jitter
apply_jitter_bounds b draw pos h = grind arith

-- Every delay is at least four seconds and at most eighteen minutes.
pub delay_bounds :
    (state : BackoffState) (draw : ℕ)
    → draw < draws
    → (4000 ≤ (next_reconnect_delay_ms state draw).delay_ms)
      × ((next_reconnect_delay_ms state draw).delay_ms ≤ 1080000)
unfolding next_reconnect_delay_ms
delay_bounds state draw h = ground (
  arith,
  apply_jitter_bounds 500 draw (omega arith) h,
  apply_jitter_bounds 1000 draw (omega arith) h,
  apply_jitter_bounds 2000 draw (omega arith) h,
  apply_jitter_bounds 4000 draw (omega arith) h,
  apply_jitter_bounds 8000 draw (omega arith) h,
  apply_jitter_bounds 30000 draw (omega arith) h,
  apply_jitter_bounds 90000 draw (omega arith) h,
)

-- The tracker after `n` failures of a device in a row.
abbrev pub fail_times : ℕ → (ℕ → ℕ) → ℕ → Tracker → Tracker
fail_times device draw zero t = t
fail_times device draw (suc n) t = (next_delay device (draw n) (fail_times device draw n t)).1

-- The state that the code keeps for a device that failed `n` times in a row.
abbrev pub failed_state : ℕ → BackoffState
failed_state n = record { consecutive_failures = n; cold = leb 10 n }

state_after :
    (device : ℕ) (draw : ℕ → ℕ) (n : ℕ) (t : Tracker)
    → t device ≡ none
    → or_else (fail_times device draw n t device) create_state ≡ failed_state n
unfolding next_delay next_reconnect_delay_ms
state_after device draw zero t h = rw h refl
state_after device draw (suc n) t h =
    rw (==-refl device, state_after device draw n t h) (ground arith)

others_after :
    (device other : ℕ) (draw : ℕ → ℕ) (n : ℕ) (t : Tracker)
    → (other == device) ≡ false
    → fail_times device draw n t other ≡ t other
unfolding next_delay
others_after device other draw zero t h = refl
others_after device other draw (suc n) t h = rw (h, others_after device other draw n t h) refl

-- After `n` failures of a device that was not tracked, the next failure is counted, is cold from the
-- tenth on, and reports becoming cold at the tenth only; other devices keep their state.
pub goes_cold_once :
    (device other : ℕ) (draw : ℕ → ℕ) (n : ℕ) (t : Tracker)
    → t device ≡ none
    → (other == device) ≡ false
    → ((next_delay device (draw n) (fail_times device draw n t)).0.next ≡ failed_state (n + 1))
      × ((next_delay device (draw n) (fail_times device draw n t)).0.became_cold ≡ (n + 1 == 10))
      × (fail_times device draw n t other ≡ t other)
unfolding next_delay next_reconnect_delay_ms
goes_cold_once device other draw n t h apart = (
  rw (state_after device draw n t h) (ground arith),
  rw (state_after device draw n t h) (ground arith),
  others_after device other draw n t apart,
)
