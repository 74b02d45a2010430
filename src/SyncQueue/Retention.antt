-- ===== src/SyncQueue/Retention.antt =====
-- What a purge removes.
use face2go_server.Base.{◌≡◌, Bool, true, [], ◌∷◌, Bool-cases, inl, inr, filter, Memᴰ, subst}
use face2go_server.SyncQueue.Job.{Job, Table}

pub mem-filter_of :
    (p : Job → Bool) (j : Job) (t : Table) → Memᴰ j t → p j ≡ true → Memᴰ j (filter p t)
mem-filter_of p j [] m h = elim m [ ]
mem-filter_of p j (x ∷ t) (Memᴰ.head e) h =
    let here : p x ≡ true = subst (λ y. p y ≡ true) e h in rw here (Memᴰ.head e)
mem-filter_of p j (x ∷ t) (Memᴰ.tail m) h = elim (Bool-cases (p x)) [
  | inl e ↦ rw e (Memᴰ.tail (mem-filter_of p j t m h))
  | inr e ↦ rw e (mem-filter_of p j t m h)
]
