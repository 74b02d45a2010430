-- ===== src/Approvals/Lockout.antt =====
-- How often the CPF of an adult can be guessed with the link of a request.
use face2go_server.Base.{
  ℕ, ◌+◌, ◌-◌, ◌<◌, ◌≡◌, Bool, true, false, Option, none, some, List, [], ◌∷◌, if◌then◌else◌, leb,
}
use face2go_server.Documents.{Text}
use face2go_server.Approvals.Rows.{Flow, Request, Store}
use face2go_server.Approvals.Requests.{locked_request}
use face2go_server.Approvals.Invitation.{CpfError, cpf_not_confirmed, verify_cpf}

-- Nobody but `verifyCpf` sets the lock, and it does so at the fifth failure.
pub record IsCounted (r : Request) : Type 0 where
  pub below_five : r.locked_until ≡ none → r.verification_failures < 5

abbrev is_guess : Option CpfError → Bool
is_guess (some cpf_not_confirmed) = true
is_guess _ = false

module _ (digest : Text → Text) (flow : Flow) (client_id id : ℕ) (document : Option Text) where
  -- Attempts at their times, each with the request's row as the transaction reads it; the number of
  -- inputs that were compared with the document and found wrong.
  abbrev checked : ℕ → Text → Store → Option Request → Option CpfError × Store
  checked now input s none = (none, s)
  checked now input s (some request) = verify_cpf digest flow request document input now s

  unfoldable pub wrong_guesses : List (ℕ × Text) → Store → ℕ
  unfolding locked_request verify_cpf
  wrong_guesses [] s = 0
  wrong_guesses ((now, input) ∷ attempts) s =
      let (result, u) = checked now input s (locked_request flow client_id id s) in
      (if is_guess result then 1 else 0) + wrong_guesses attempts u

  module _ (from : ℕ) where
    -- the guesses that are left within a quarter of an hour
    abbrev left : Request → ℕ
    left r = elim r.locked_until [
      | none ↦ 5 - r.verification_failures
      | some until ↦ if leb (from + 900000) until then 0 else 5
    ]
