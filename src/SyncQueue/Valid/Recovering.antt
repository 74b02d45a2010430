-- ===== src/SyncQueue/Valid/Recovering.antt =====
-- The plan of a recovery: what it does to each row, and that it requeues one row of a key at most.
use face2go_server.Base.{
  ℕ, ◌+◌, ◌≤◌, ◌<◌, ◌≡◌, refl, Bool, true, false, List, [], ◌∷◌, map, arith, not, any, Bool-cases,
  inl, inr, count, All, if◌then◌else◌, ◌&&◌, Memᴰ, one-le-count_of_mem, any-eq-false, subst, ltb,
}
use face2go_server.SyncQueue.Job.{Job, Table}
use face2go_server.SyncQueue.Queries.{queued_with}
use face2go_server.SyncQueue.Recovery.{
  RecoverRunningScope, Action, in_scope, partition, precedes, row_number, plan, action, recovered,
  apply_action,
}
use face2go_server.SyncQueue.Valid.{IsWellFormed}
use face2go_server.SyncQueue.Valid.Rows.{recovered-IsWellFormed}

module _ (scope : RecoverRunningScope) (now tries : ℕ) (table : Table) where
  -- The rows of the table after the recovery, for the part of the table below `above`.
  abbrev pub after : List Job → List Job → List Job
  after above below = map (apply_action scope now tries) (plan scope now tries table above below)

  pub All-after :
      (above below : List Job)
      → All (IsWellFormed tries) below
      → All (IsWellFormed tries) (after above below)
  unfolding plan apply_action
  All-after above [] h = tt
  All-after above (j ∷ below) (here, rest) = (
    elim (Bool-cases (in_scope scope now j)) [
      | inl e ↦ rw e (recovered-IsWellFormed tries scope now _ table j e here)
      | inr e ↦ rw e here
    ],
    All-after (j ∷ above) below rest,
  )

  -- A test that a recovered row passes only if it did before.
  pub count-after-le :
      (q : Job → Bool)
      → ((a : Action) (j : Job) → q (recovered scope now tries a j) ≡ true → q j ≡ true)
      → (above below : List Job) → count q (after above below) ≤ count q below
  unfolding plan apply_action
  count-after-le q keep above [] = omega arith
  count-after-le q keep above (j ∷ below) =
      let rn = row_number scope now tries above j below in
      ground
        (arith, keep (action scope now tries table rn j) j, count-after-le q keep (j ∷ above) below)

  -- The rows of a key whose row number is one.
  firsts : ℕ → List Job → List Job → ℕ
  firsts key above [] = 0
  firsts key above (j ∷ below) =
      (if partition scope now tries key j && not (ltb 1 (row_number scope now tries above j below))
        then 1
        else 0)
      + firsts key (j ∷ above) below

  dedupe_key_of_partition :
      (key : ℕ) (b : Job) → partition scope now tries key b ≡ true → b.dedupe_key ≡ key
  unfolding partition
  dedupe_key_of_partition key b h = ground arith

  -- A row below one of its key that it does not precede is not first.
  row_number-later :
      (key : ℕ) (a b : Job) (above below : List Job)
      → Memᴰ a above
      → partition scope now tries key a ≡ true
      → partition scope now tries key b ≡ true
      → precedes b a ≡ false
      → 2 ≤ row_number scope now tries above b below
  unfolding row_number
  row_number-later key a b above below m pa pb e =
      let same = dedupe_key_of_partition key b pb in
      let pa' : partition scope now tries b.dedupe_key a ≡ true = rw same pa in
      let one =
        one-le-count_of_mem (λ x. partition scope now tries b.dedupe_key x && not (precedes b x)) a
          above m (rw (pa', e) refl) in
      omega arith

  -- Nothing of its key below the first row precedes it.
  row_number-first :
      (key : ℕ) (j : Job) (above below : List Job)
      → partition scope now tries key j ≡ true
      → row_number scope now tries above j below < 2
      → count (λ x. partition scope now tries key x && precedes x j) below ≡ 0
  unfolding row_number
  row_number-first key j above below pj h =
      subst (λ k. count (λ x. partition scope now tries k x && precedes x j) below ≡ 0)
        (dedupe_key_of_partition key j pj) (omega arith)

  -- Behind a row that no later row precedes, none is first.
  firsts-eq-zero :
      (key : ℕ) (a : Job) (above below : List Job)
      → Memᴰ a above
      → partition scope now tries key a ≡ true
      → count (λ x. partition scope now tries key x && precedes x a) below ≡ 0
      → firsts key above below ≡ 0
  unfolding firsts
  firsts-eq-zero key a above [] m pa c = refl
  firsts-eq-zero key a above (b ∷ below) m pa c = ground (
    arith,
    firsts-eq-zero key a (b ∷ above) below (Memᴰ.tail m) pa,
    row_number-later key a b above below m pa,
  )

  firsts-le-one : (key : ℕ) (above below : List Job) → firsts key above below ≤ 1
  unfolding firsts
  firsts-le-one key above [] = omega arith
  firsts-le-one key above (j ∷ below) = ground (
    arith,
    row_number-first key j above below,
    firsts-eq-zero key j (j ∷ above) below (Memᴰ.head refl),
    firsts-le-one key (j ∷ above) below,
  )

  requeued :
      (key rn : ℕ) (j : Job)
      → queued_with key (recovered scope now tries (action scope now tries table rn j) j) ≡ true
      → (any (queued_with j.dedupe_key) table ≡ false) × (ltb 1 rn ≡ false) × (j.dedupe_key ≡ key)
  unfolding recovered action
  requeued key rn j h = ground arith

  partition_of_in_scope :
      (key : ℕ) (j : Job)
      → in_scope scope now j ≡ true
      → j.dedupe_key ≡ key
      → partition scope now tries key j ≡ true
  unfolding partition
  partition_of_in_scope key j h e = ground arith

  -- A row in scope is queued afterwards only where the key has none and the row is first.
  count-requeued :
      (key : ℕ) (above : List Job) (j : Job) (below : List Job)
      → in_scope scope now j ≡ true
      → queued_with key (
          recovered scope now tries
            (action scope now tries table (row_number scope now tries above j below) j)
            j)
        ≡ true
      → (any (queued_with key) table ≡ false)
        × ((partition scope now tries key j
              && not (ltb 1 (row_number scope now tries above j below)))
            ≡ true)
  count-requeued key above j below s h =
      let (empty, first, same) = requeued key (row_number scope now tries above j below) j h in
      (
        subst (λ k. any (queued_with k) table ≡ false) same empty,
        rw (partition_of_in_scope key j s same, first) refl,
      )

  -- With a row of the key in the queue nothing of the key is requeued; with none, the first only.
  count-queued-after :
      (key : ℕ) (above below : List Job)
      → count (queued_with key) (after above below)
        ≤ count (queued_with key) below
          + (if any (queued_with key) table then 0 else firsts key above below)
  unfolding plan apply_action firsts
  count-queued-after key above [] = omega arith
  count-queued-after key above (j ∷ below) = elim (Bool-cases (in_scope scope now j)) [
    | inr out ↦ rw out (ground (arith, count-queued-after key (j ∷ above) below))
    | inl into ↦ rw into (
        ground
          (arith, count-queued-after key (j ∷ above) below, count-requeued key above j below into))
  ]

  pub count-queued-after-le-one :
      (key : ℕ) → count (queued_with key) table ≤ 1 → count (queued_with key) (after [] table) ≤ 1
  count-queued-after-le-one key h = ground (
    arith,
    count-queued-after key [] table,
    firsts-le-one key [] table,
    any-eq-false (queued_with key) table,
  )
