-- ===== src/SyncQueue/Sql.antt =====
-- UPDATE, DELETE and SELECT of one statement over the rows of a table, as the queries use them.
use face2go_server.Base.{
  ◌+◌, ◌≤◌, ◌≡◌, refl, Bool, true, false, List, [], ◌∷◌, map, not, arith, All, count, filter,
  if◌then◌else◌,
}
use face2go_server.SyncQueue.Job.{Job, Table}

-- `UPDATE … SET f WHERE p`
unfoldable pub update_where : (Job → Bool) → (Job → Job) → Table → Table
update_where p f [] = []
update_where p f (j ∷ t) = (if p j then f j else j) ∷ update_where p f t

-- the rows of `… RETURNING`
unfoldable pub returning : (Job → Bool) → (Job → Job) → Table → List Job
returning p f t = map f (filter p t)

-- `DELETE … WHERE p`
unfoldable pub delete_where : (Job → Bool) → Table → Table
delete_where p t = filter (λ j. not (p j)) t

-- An update makes `Q` hold of all rows, if it does on those that it changes and `P` is enough on
-- the others.
pub All-update_where {ℓ κ} :
    (P : Job → Type ℓ) (Q : Job → Type κ) (p : Job → Bool) (f : Job → Job)
    → ((j : Job) → p j ≡ true → P j → Q (f j))
    → ((j : Job) → P j → Q j)
    → (t : Table) → All P t
    → All Q (update_where p f t)
unfolding update_where
All-update_where P Q p f change pass [] h = tt
All-update_where P Q p f change pass (j ∷ t) (here, rest) =
    (one (p j) refl, All-update_where P Q p f change pass t rest)
  where
    one : (b : Bool) → p j ≡ b → Q (if b then f j else j)
    one true e = change j e here
    one false e = pass j here

-- An update that makes no row of the table satisfy `q` anew leaves no more of them.
pub count-update_where-le_of_All :
    (q p : Job → Bool) (f : Job → Job) (t : Table)
    → All (λ j. p j ≡ true → q (f j) ≡ true → q j ≡ true) t
    → count q (update_where p f t) ≤ count q t
unfolding update_where
count-update_where-le_of_All q p f [] keep = omega arith
count-update_where-le_of_All q p f (j ∷ t) (keep, rest) =
    ground (arith, keep, count-update_where-le_of_All q p f t rest)

All-of {ℓ} : {P : Job → Type ℓ} → ((j : Job) → P j) → (t : Table) → All P t
All-of h [] = tt
All-of h (j ∷ t) = (h j, All-of h t)

pub count-update_where-le :
    (q p : Job → Bool) (f : Job → Job)
    → ((j : Job) → p j ≡ true → q (f j) ≡ true → q j ≡ true)
    → (t : Table) → count q (update_where p f t) ≤ count q t
count-update_where-le q p f keep t = count-update_where-le_of_All q p f t (All-of keep t)

-- The rows that an update makes satisfy `q` are among those that it changes.
pub count-update_where-le-add :
    (q p : Job → Bool) (f : Job → Job) (t : Table)
    → count q (update_where p f t) ≤ count q t + count p t
unfolding update_where
count-update_where-le-add q p f [] = omega arith
count-update_where-le-add q p f (j ∷ t) = ground (arith, count-update_where-le-add q p f t)
