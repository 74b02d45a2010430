-- ===== src/Concurrency/Workers/Results.antt =====
-- What the workers leave when all of them have returned.
use face2go_server.Base.{
  ℕ, zero, suc, ◌+◌, ◌≤◌, ◌<◌, ◌≡◌, ◌≢◌, ◌⊎◌, ◌∙◌, inl, inr, refl, ap, subst, List, [], ◌∷◌, ◌++◌,
  Bool, true, leb, max, Option, none, some, length, get_elem?, any, ◌==◌, arith, length-append,
  Bool-cases, Option-cases, ◌||◌,
}
use face2go_server.Concurrency.Workers.{
  set, replicate, Pool, workers, started, take_item, called, settle_item, Step, take, settle, Reach,
  start, next, IsDone, calls_from,
}

abbrev has : ℕ → List ℕ → Bool
has j = any (λ k. k == j)

-- The item with this index has not been taken, or its call is pending.
abbrev Due : ℕ → List ℕ → ℕ → Type 0
Due n pending j = (n ≤ j) ⊎ (has j pending ≡ true)

has-append : (j : ℕ) (xs ys : List ℕ) → has j (xs ++ ys) ≡ (has j xs || has j ys)
has-append j [] ys = refl
has-append j (x ∷ xs) ys = ground (arith, has-append j xs ys)

Due-take : (n : ℕ) (pending : List ℕ) (j : ℕ) → Due n pending j → Due (n + 1) (pending ++ n ∷ []) j
Due-take n pending j (inl h) = elim (Bool-cases (n == j)) [
  | inl e ↦ inr (ground (arith, has-append j pending (n ∷ [])))
  | inr e ↦ inl (ground arith)
]
Due-take n pending j (inr h) = inr (ground (arith, has-append j pending (n ∷ [])))

Due-past :
    (n m : ℕ) (pending : List ℕ) (j : ℕ) → m ≤ n → j < m → Due n pending j → Due (n + 1) pending j
Due-past n m pending j h l (inl d) = absurd (omega arith)
Due-past n m pending j h l (inr d) = inr d

not-Due :
    (n : ℕ) (pending : List ℕ) (m : ℕ)
    → m ≤ n
    → pending ≡ []
    → (j : ℕ) → j < 0 + m
    → Due n pending j
    → ⊥
not-Due n pending m h e j l (inl d) = omega arith
not-Due n [] m h e j l (inr d) = cc
not-Due n (k ∷ ks) m h e j l (inr d) = cc

Due-settle :
    (n : ℕ) (pending before : List ℕ) (i : ℕ) (after : List ℕ)
    → pending ≡ before ++ (i ∷ after)
    → (j : ℕ) → j ≢ i
    → Due n pending j
    → Due n (before ++ after) j
Due-settle n pending before i after e j d (inl h) = inl h
Due-settle n pending before i after e j d (inr h) =
    inr
      (ground (arith, ap (has j) e, has-append j before (i ∷ after), has-append j before after, d))

module _ {T R : Type 0} (fn : T → ℕ → Option R) where
  -- Each slot holds the result of its call, if it is not due.
  abbrev Slots : (ℕ → Type 0) → ℕ → List T → List (Option R) → Type 0
  Slots due i [] [] = Unit {0}
  Slots due i [] (r ∷ rs) = ⊥
  Slots due i (x ∷ xs) [] = ⊥
  Slots due i (x ∷ xs) (r ∷ rs) = ((r ≡ fn x i) ⊎ due i) × Slots due (suc i) xs rs

  Slots-imp :
      (due due' : ℕ → Type 0) (i : ℕ) (xs : List T) (rs : List (Option R))
      → ((j : ℕ) → i ≤ j → j < i + length xs → due j → due' j)
      → Slots due i xs rs
      → Slots due' i xs rs
  Slots-imp due due' i [] [] f h = tt
  Slots-imp due due' i [] (r ∷ rs) f h = h
  Slots-imp due due' i (x ∷ xs) [] f h = h
  Slots-imp due due' i (x ∷ xs) (r ∷ rs) f (inl e, h) =
      (inl e, Slots-imp due due' (suc i) xs rs (λ j l m. f j (omega arith) (omega arith)) h)
  Slots-imp due due' i (x ∷ xs) (r ∷ rs) f (inr d, h) = (
    inr (f i (omega arith) (omega arith) d),
    Slots-imp due due' (suc i) xs rs (λ j l m. f j (omega arith) (omega arith)) h,
  )

  Slots-set :
      (due due' : ℕ → Type 0) (i n k : ℕ) (xs : List T) (rs : List (Option R)) (x : T)
      → k ≡ i + n
      → get_elem? xs n ≡ some x
      → ((j : ℕ) → j ≢ k → due j → due' j)
      → Slots due i xs rs
      → Slots due' i xs (set rs n (fn x k))
  Slots-set due due' i n k [] [] x e g f h = tt
  Slots-set due due' i n k [] (r ∷ rs) x e g f h = absurd h
  Slots-set due due' i n k (y ∷ xs) [] x e g f h = absurd h
  Slots-set due due' i zero k (y ∷ xs) (r ∷ rs) x e g f (s, h) =
      let same : x ≡ y = cc in
      let index : k ≡ i = omega arith in
      (
        inl (ap (fn x) index ∙ ap (λ z. fn z i) same),
        Slots-imp due due' (suc i) xs rs (λ j l m d. f j (λ z. omega arith) d) h,
      )
  Slots-set due due' i (suc n) k (y ∷ xs) (r ∷ rs) x e g f (inl s, h) =
      (inl s, Slots-set due due' (suc i) n k xs rs x (omega arith) g f h)
  Slots-set due due' i (suc n) k (y ∷ xs) (r ∷ rs) x e g f (inr d, h) =
      (inr (f i (λ z. omega arith) d), Slots-set due due' (suc i) n k xs rs x (omega arith) g f h)

  Slots-start : (i : ℕ) (xs : List T) → Slots (Due 0 []) i xs (replicate (length xs) none)
  Slots-start i [] = tt
  Slots-start i (x ∷ xs) = (inr (inl (omega arith)), Slots-start (suc i) xs)

  Slots-done :
      (due : ℕ → Type 0) (i : ℕ) (xs : List T) (rs : List (Option R))
      → ((j : ℕ) → j < i + length xs → due j → ⊥)
      → Slots due i xs rs
      → rs ≡ calls_from fn i xs
  Slots-done due i [] [] f h = refl
  Slots-done due i [] (r ∷ rs) f h = absurd h
  Slots-done due i (x ∷ xs) [] f h = absurd h
  Slots-done due i (x ∷ xs) (r ∷ rs) f (inl e, h) =
      let rest = Slots-done due (suc i) xs rs (λ j l. f j (omega arith)) h in cc
  Slots-done due i (x ∷ xs) (r ∷ rs) f (inr d, h) = absurd (f i (omega arith) d)

module _ {T R : Type 0} (items : List T) (concurrency : ℕ) (fn : T → ℕ → Option R) where
  record IsSound (p : Pool R) : Type 0 where
    counted : p.ready + length p.pending + p.returned + p.failed ≡ workers items concurrency fn
    ended : 0 < p.returned → length items ≤ p.next
    slots : p.failed ≡ 0 → Slots fn (Due p.next p.pending) 0 items p.results

  started-IsSound : IsSound (started items concurrency fn)
  unfolding started
  started-IsSound = record {
    counted = omega arith;
    ended = omega arith;
    slots = λ _. Slots-start fn 0 items;
  }

  take_item-IsSound :
      (p : Pool R) → 0 < p.ready → IsSound p → IsSound (take_item items concurrency fn p)
  unfolding take_item
  take_item-IsSound p h s = elim (Bool-cases (leb (length items) p.next)) [
    | inl e ↦ rw e (record {
      counted = omega (arith, s.counted);
      ended = λ _. ground arith;
      slots = λ f.
          Slots-imp fn (Due p.next p.pending) (Due (p.next + 1) p.pending) 0 items p.results
            (λ j l m d.
              Due-past p.next (length items) p.pending j (ground (arith, e)) (omega arith) d)
            (s.slots f);
    })
    | inr e ↦ rw e (record {
      counted = omega (arith, s.counted, length-append p.pending (p.next ∷ []));
      ended = λ r. omega (arith, s.ended r);
      slots = λ f.
          Slots-imp fn (Due p.next p.pending) (Due (p.next + 1) (p.pending ++ p.next ∷ [])) 0 items
            p.results (λ j l m d. Due-take p.next p.pending j d) (s.slots f);
    })
  ]

  called_item :
      (i : ℕ) (o : Option T) (v : R)
      → called items concurrency fn i o ≡ some v
      → (x : T) × (o ≡ some x) × (fn x i ≡ some v)
  called_item i none v h = absurd (cc)
  called_item i (some x) v h = (x, refl, h)

  settle_item-IsSound :
      (p : Pool R) (before : List ℕ) (i : ℕ) (after : List ℕ)
      → p.pending ≡ before ++ (i ∷ after)
      → IsSound p
      → IsSound (settle_item items concurrency fn before i after p)
  unfolding settle_item
  settle_item-IsSound p before i after e s =
      let sizes : length p.pending ≡ suc (length (before ++ after)) =
        omega (arith, ap length e, length-append before (i ∷ after), length-append before after) in
      elim (Option-cases (called items concurrency fn i (get_elem? items i))) [
        | inl n ↦ rw n (record {
          counted = omega (arith, s.counted, sizes);
          ended = s.ended;
          slots = λ f. absurd (omega arith);
        })
        | inr (v, r) ↦
            let (x, at, value) = called_item i (get_elem? items i) v r in
            rw r (record {
              counted = omega (arith, s.counted, sizes);
              ended = s.ended;
              slots = λ f.
                  subst (λ o. Slots fn (Due p.next (before ++ after)) 0 items (set p.results i o))
                    value
                    (Slots-set fn (Due p.next p.pending) (Due p.next (before ++ after)) 0 i i items
                      p.results x (omega arith) at (Due-settle p.next p.pending before i after e)
                      (s.slots f));
            })
      ]

  Step-IsSound : {p q : Pool R} → Step items concurrency fn p q → IsSound p → IsSound q
  Step-IsSound {p} (take h) s = take_item-IsSound p h s
  Step-IsSound {p} (settle before i after e) s = settle_item-IsSound p before i after e s

  Reach-IsSound : {p : Pool R} → Reach items concurrency fn p → IsSound p
  Reach-IsSound start = started-IsSound
  Reach-IsSound (next r s) = Step-IsSound s (Reach-IsSound r)

-- If all workers have returned and no call was rejected, each slot holds the result of the call
-- with the item and the index of the slot, in whatever order the calls settled.
pub results-eq-calls :
    {T R : Type 0} (items : List T) (concurrency : ℕ) (fn : T → ℕ → Option R) {p : Pool R}
    → Reach items concurrency fn p
    → IsDone items concurrency fn p
    → p.results ≡ calls_from fn 0 items
results-eq-calls [] concurrency fn {p} r d =
    let s = Reach-IsSound [] concurrency fn r in
    Slots-done fn (Due p.next p.pending) 0 [] p.results (λ j l h. omega arith)
      (s.slots d.none_failed)
results-eq-calls (x ∷ xs) concurrency fn {p} r d =
    let s = Reach-IsSound (x ∷ xs) concurrency fn r in
    let all_taken : length (x ∷ xs) ≤ p.next =
      omega (arith, s.counted, s.ended, d.none_ready, d.none_failed, ap length d.none_pending) in
    Slots-done fn (Due p.next p.pending) 0 (x ∷ xs) p.results
      (not-Due p.next p.pending (length (x ∷ xs)) all_taken d.none_pending) (s.slots d.none_failed)

-- No more calls are awaited at once than the limit allows, one if the limit is 0.
pub pending-le :
    {T R : Type 0} (items : List T) (concurrency : ℕ) (fn : T → ℕ → Option R) {p : Pool R}
    → Reach items concurrency fn p
    → length p.pending ≤ max 1 concurrency
pending-le items concurrency fn r =
    let s = Reach-IsSound items concurrency fn r in omega (arith, s.counted)
