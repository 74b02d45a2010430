-- ===== src/Concurrency/Backoff.antt =====
-- src/common/reconnect-backoff.ts. The random source is a whole number below `draws`, divided by it,
-- and the product with the jitter is exact where the source's floating point is rounded.
pub mod Laws
use face2go_server.Base.{
  ℕ, suc, ◌+◌, ◌-◌, ◌*◌, ◌/◌, Bool, true, false, Option, none, some, List, [], ◌∷◌, not, ◌&&◌, ◌||◌,
  min, max, leb, ◌==◌, if◌then◌else◌, or_else,
}

abbrev pub draws : ℕ
draws = 9007199254740992

abbrev pub cold_after_failures : ℕ
cold_after_failures = 10

abbrev pub cold_interval_ms : ℕ
cold_interval_ms = 900000

-- `RECONNECT_BACKOFF_STEPS_MS[i]`, for an index within the six steps.
abbrev pub step_ms : ℕ → ℕ
step_ms i =
    if i == 0
    then 5000
    else if i == 1
    then 10000
    else if i == 2
    then 20000
    else if i == 3
    then 40000
    else if i == 4
    then 80000
    else 300000

pub record BackoffState : Type 0 where
  pub consecutive_failures : ℕ
  pub cold : Bool

abbrev pub create_state : BackoffState
create_state = record { consecutive_failures = 0; cold = false }

-- `Math.round(base * (1 + (2r - 1) / 5))` for `r = draw / draws`, at least 1
unfoldable pub apply_jitter : ℕ → ℕ → ℕ
apply_jitter base draw = max 1 ((base * (8 * draws + 4 * draw) + 5 * draws) / (10 * draws))

pub record NextDelay : Type 0 where
  pub delay_ms : ℕ
  pub next : BackoffState
  pub became_cold : Bool

abbrev pub base_ms : Bool → ℕ → ℕ
base_ms cold failures = if cold then cold_interval_ms else step_ms (min (failures - 1) 5)

unfoldable pub next_reconnect_delay_ms : BackoffState → ℕ → NextDelay
unfolding apply_jitter
next_reconnect_delay_ms state draw =
    let failures = state.consecutive_failures + 1 in
    let became_cold = not state.cold && leb cold_after_failures failures in
    let cold = state.cold || became_cold in
    record {
      delay_ms = apply_jitter (base_ms cold failures) draw;
      next = record { consecutive_failures = failures; cold = cold };
      became_cold = became_cold;
    }

-- `states`, by device.
abbrev pub Tracker : Type 0
Tracker = ℕ → Option BackoffState

abbrev pub put_state : ℕ → Option BackoffState → Tracker → Tracker
put_state device s t d = if d == device then s else t d

abbrev was_cold : Option BackoffState → Bool
was_cold none = false
was_cold (some s) = s.cold

unfoldable pub reset : ℕ → Tracker → Bool × Tracker
reset device t = (was_cold (t device), put_state device none t)

unfoldable pub delete : ℕ → Tracker → Tracker
delete device t = put_state device none t

unfoldable pub clear : Tracker → Tracker
clear t d = none

unfoldable pub next_delay : ℕ → ℕ → Tracker → NextDelay × Tracker
unfolding next_reconnect_delay_ms
next_delay device draw t =
    let result = next_reconnect_delay_ms (or_else (t device) create_state) draw in
    (result, put_state device (some result.next) t)
