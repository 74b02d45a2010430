-- ===== src/Concurrency/Tails.antt =====
-- The chain of calls of each reader in src/common/concurrency/reader-sync-gate.ts,
-- `withReaderSyncGate`. A call is an item of the list of calls, the latest first, and its id is
-- also the name of its promise `tail`. When a call that waits for a global slot gets one is left
-- open here: Slots models it.
mod Chain
mod Moves
pub mod Order
pub mod Progress
use face2go_server.Base.{
  ℕ, zero, suc, ◌+◌, ◌≤◌, ◌<◌, ◌≡◌, List, [], ◌∷◌, ◌++◌, Bool, true, false, ◌==◌, ◌&&◌,
  if◌then◌else◌, Option, none, some, length, map, filter,
}

pub data CallPhase : Type 0 where
  waits_reader waits_slot running done : CallPhase

-- `prev` is the tail that the call found in `readerTail`, `none` for a resolved promise.
pub record Call : Type 0 where
  pub id : ℕ
  pub key : ℕ
  pub prev : Option ℕ
  pub phase : CallPhase

-- `tails` is `readerTail`.
pub record Gates : Type 0 where
  pub calls : List Call
  pub tails : List (ℕ × ℕ)

abbrev pub no_calls : Gates
no_calls = record { calls = []; tails = [] }

-- `readerTail.get(key)`, `set` and `delete`
unfoldable pub get_tail : ℕ → List (ℕ × ℕ) → Option ℕ
get_tail key [] = none
get_tail key ((k, t) ∷ ts) = let rest = get_tail key ts in if k == key then some t else rest

unfoldable pub delete_tail : ℕ → List (ℕ × ℕ) → List (ℕ × ℕ)
delete_tail key [] = []
delete_tail key ((k, t) ∷ ts) =
    let rest = delete_tail key ts in if k == key then rest else (k, t) ∷ rest

unfoldable pub set_tail : ℕ → ℕ → List (ℕ × ℕ) → List (ℕ × ℕ)
unfolding delete_tail
set_tail key tail ts = (key, tail) ∷ delete_tail key ts

-- a call up to `await prev`
unfoldable pub arrive : ℕ → Gates → Gates
arrive key g = record {
  calls =
      record { id = length g.calls; key = key; prev = get_tail key g.tails; phase = waits_reader }
      ∷ g.calls;
  tails = set_tail key (length g.calls) g.tails;
}

abbrev pub is_done : CallPhase → Bool
is_done done = true
is_done phase = false

-- Whether the promise is settled: `tail` is when the tail before it is and `releaseReader` has been
-- called.
unfoldable pub settled : Option ℕ → List Call → Bool
settled none calls = true
settled (some t) [] = false
settled (some t) (c ∷ calls) =
    settled (if c.id == t then c.prev else some t) calls
    && (if c.id == t then is_done c.phase else true)

abbrev pub with_phase : ℕ → CallPhase → List Call → List Call
with_phase i phase [] = []
with_phase i phase (c ∷ calls) =
    (if c.id == i then record c { phase = phase } else c) ∷ with_phase i phase calls

unfoldable pub move : ℕ → CallPhase → Gates → Gates
move i phase g = record g { calls = with_phase i phase g.calls }

-- `if (readerTail.get(readerKey) === tail) readerTail.delete(readerKey)`
abbrev pub is_tail : ℕ → Option ℕ → Bool
is_tail i none = false
is_tail i (some t) = t == i

-- the `finally` block
unfoldable pub finish : ℕ → ℕ → Gates → Gates
unfolding move delete_tail get_tail
finish i key g = record (move i done g) {
  tails = if is_tail i (get_tail key g.tails) then delete_tail key g.tails else g.tails;
}

-- A call with this id, reader, predecessor and phase.
pub data Has (i key : ℕ) (prev : Option ℕ) (phase : CallPhase) : List Call → Type 0 where
  here :
      {calls : List Call}
      → Has i key prev phase (record { id = i; key = key; prev = prev; phase = phase } ∷ calls)
  there :
      {c : Call} {calls : List Call} → Has i key prev phase calls → Has i key prev phase (c ∷ calls)

pub data Step (g : Gates) : Gates → Type 0 where
  arrives : (key : ℕ) → Step g (arrive key g)
  passes :
      {i key : ℕ} {prev : Option ℕ}
      → Has i key prev waits_reader g.calls
      → settled prev g.calls ≡ true
      → Step g (move i waits_slot g)
  begins :
      {i key : ℕ} {prev : Option ℕ} → Has i key prev waits_slot g.calls → Step g (move i running g)
  finishes :
      {i key : ℕ} {prev : Option ℕ} → Has i key prev running g.calls → Step g (finish i key g)

pub data Reach : Gates → Type 0 where
  start : Reach no_calls
  next : {g h : Gates} → Reach g → Step g h → Reach h
