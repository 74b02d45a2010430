-- ===== src/Civil/Age.antt =====
-- Civil ages.
use face2go_server.Base.{ℕ, ◌+◌, ◌≤◌, ◌<◌, ◌≡◌, arith, ◌↔◌, ◌⊎◌, pos, ◌≤ℤ◌}
use face2go_server.Civil.{Parts, age_between}

-- The order of dates, and the date of the n-th birthday.
abbrev pub Before : Parts → Parts → Type 0
Before a b = (a.y < b.y) ⊎ ((a.y ≡ b.y) × ((a.m < b.m) ⊎ ((a.m ≡ b.m) × (a.d ≤ b.d))))

abbrev pub birthday : ℕ → Parts → Parts
birthday n birth = record birth { y = birth.y + n }

-- A person is at least `n` years old exactly if the n-th birthday is not after the date.
pub age_between_iff :
    (n : ℕ) (birth reference : Parts)
    → (pos n ≤ℤ age_between birth reference) ↔ Before (birthday n birth) reference
unfolding age_between
age_between_iff n birth reference = (λ h. ground arith, λ h. ground arith)

-- Ages do not fall as the date goes on.
pub age_between_mono : (birth a b : Parts) → Before a b → age_between birth a ≤ℤ age_between birth b
unfolding age_between
age_between_mono birth a b h = ground arith
