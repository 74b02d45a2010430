-- ===== src/Concurrency/Workers.antt =====
-- src/common/concurrency/map-with-concurrency.ts: workers that take the next item of a list until
-- none is left. A worker runs alone from one `await` to the next, and the calls of `fn` settle in
-- any order.
pub mod Results
use face2go_server.Base.{
  ℕ, zero, suc, ◌+◌, ◌-◌, ◌≤◌, ◌<◌, ◌≡◌, List, [], ◌∷◌, ◌++◌, Bool, true, false, leb, max, min,
  if◌then◌else◌, Option, none, some, length, get_elem?,
}

-- `results[index] = value`
abbrev pub set {ℓ} : {A : Type ℓ} → List A → ℕ → A → List A
set [] i v = []
set (x ∷ xs) zero v = v ∷ xs
set (x ∷ xs) (suc i) v = x ∷ set xs i v

abbrev pub replicate {ℓ} : {A : Type ℓ} → ℕ → A → List A
replicate zero v = []
replicate (suc n) v = v ∷ replicate n v

-- `ready` workers are about to take an item, `pending` are the indices whose call is awaited,
-- `returned` workers have ended and `failed` ones stopped at a rejected call. A slot of `results`
-- is `none` until it is written.
pub record Pool (R : Type 0) : Type 0 where
  pub next : ℕ
  pub ready : ℕ
  pub pending : List ℕ
  pub returned : ℕ
  pub failed : ℕ
  pub results : List (Option R)

-- The results of the calls, one after the other.
abbrev pub calls_from : {T R : Type 0} → (T → ℕ → Option R) → ℕ → List T → List (Option R)
calls_from fn i [] = []
calls_from fn i (x ∷ xs) = fn x i ∷ calls_from fn (suc i) xs

-- The call of `fn` with an item and its index resolves to a value or is rejected.
module _ {T R : Type 0} (items : List T) (concurrency : ℕ) (fn : T → ℕ → Option R) where
  -- `Math.min(Math.max(1, concurrency), items.length)`
  abbrev pub workers : ℕ
  workers = min (max 1 concurrency) (length items)

  unfoldable pub started : Pool R
  started = record {
    next = 0;
    ready = workers;
    pending = [];
    returned = 0;
    failed = 0;
    results = replicate (length items) none;
  }

  -- a worker from `const index = next++` to its `await` or its `return`
  unfoldable pub take_item : Pool R → Pool R
  take_item p =
      if leb (length items) p.next
      then record p { next = p.next + 1; ready = p.ready - 1; returned = p.returned + 1 }
      else record p { next = p.next + 1; ready = p.ready - 1; pending = p.pending ++ p.next ∷ [] }

  abbrev pub called : ℕ → Option T → Option R
  called i none = none
  called i (some item) = fn item i

  abbrev pub written : ℕ → Pool R → Option R → Pool R
  written i p none = record p { failed = p.failed + 1 }
  written i p (some value) = record p {
    ready = p.ready + 1;
    results = set p.results i (some value);
  }

  -- a worker whose call has settled, up to the next round of its loop
  unfoldable pub settle_item : List ℕ → ℕ → List ℕ → Pool R → Pool R
  settle_item before i after p =
      written i (record p { pending = before ++ after }) (called i (get_elem? items i))

  pub data Step (p : Pool R) : Pool R → Type 0 where
    take : 0 < p.ready → Step p (take_item p)
    settle :
        (before : List ℕ) (i : ℕ) (after : List ℕ)
        → p.pending ≡ before ++ (i ∷ after)
        → Step p (settle_item before i after p)

  pub data Reach : Pool R → Type 0 where
    start : Reach started
    next : {p q : Pool R} → Reach p → Step p q → Reach q

  -- What `Promise.all` waits for: no worker is left.
  pub record IsDone (p : Pool R) : Type 0 where
    pub none_ready : p.ready ≡ 0
    pub none_pending : p.pending ≡ []
    pub none_failed : p.failed ≡ 0
