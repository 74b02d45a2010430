-- ===== src/SyncQueue/Service/Enqueue.antt =====
-- What `enqueue` does to the table, alone and among other instances.
use face2go_server.Base.{
  ℕ, ◌≡◌, refl, ap, Bool, true, false, [], ◌∷◌, ◌++◌, not, count, ◌&&◌, Memᴰ, subst, or_else,
}
use face2go_server.SyncQueue.Job.{Job, Table, empty}
use face2go_server.SyncQueue.Sql.{update_where}
use face2go_server.SyncQueue.Queries.{EnqueueInput, queued_with}
use face2go_server.SyncQueue.Service.{Env, is_set}
use face2go_server.SyncQueue.Valid.{IsValid, has_id}

-- What the other instances keep between the queries of a call that will insert the id `id`.
pub record IsCalm (tries id : ℕ) (env : Env) : Type 0 where
  pub keeps : (n : ℕ) (t : Table) → IsValid tries t → IsValid tries (env n t)
  pub fresh : (n : ℕ) (t : Table) → count (has_id id) t ≡ 0 → count (has_id id) (env n t) ≡ 0

-- The table between the queries, when no other instance acts.
abbrev pub alone : Env
alone n t = t

-- The row that waits for the input's key after the call.
pub record Waits (input : EnqueueInput) (row : Job) (u : Table) : Type 0 where
  pub listed : Memᴰ row u
  pub queued : queued_with input.dedupe_key row ≡ true
  pub payload : row.payload ≡ or_else input.payload empty
  pub forced : (is_set input.force && not row.force) ≡ false

pub mem-update_where :
    (p : Job → Bool) (f : Job → Job) (q : Job) (t : Table)
    → Memᴰ q t
    → p q ≡ true
    → Memᴰ (f q) (update_where p f t)
unfolding update_where
mem-update_where p f q [] m h = elim m [ ]
mem-update_where p f q (j ∷ t) (Memᴰ.head e) h =
    let here : p j ≡ true = subst (λ x. p x ≡ true) e h in rw here (Memᴰ.head (ap f e))
mem-update_where p f q (j ∷ t) (Memᴰ.tail m) h = Memᴰ.tail (mem-update_where p f q t m h)

pub mem-snoc : (j : Job) (t : Table) → Memᴰ j (t ++ j ∷ [])
mem-snoc j [] = Memᴰ.head refl
mem-snoc j (x ∷ t) = Memᴰ.tail (mem-snoc j t)
