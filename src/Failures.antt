-- ===== src/Failures.antt =====
-- The errors that the modelled services throw, one constructor for each `throw`, and results.
-- A message that only repeats its arguments for the reader keeps the argument that decides it.
use adaptive_hire_exam_platf.Common.{ℕ, String, Bool, true, false, ◌≡◌, refl}

pub data Failure : Type 0 where
  -- The evaluation of an answer.
  duplicate_ranking : Failure
  unknown_option : String → Failure
  incomplete_ranking : Failure
  -- The shape of an answer.
  both_answers no_answer not_a_ranking ranking_required single_choice_required : Failure
  -- Questions whose details are missing, or that are gone.
  missing_mcq_details missing_personality_details : ℕ → Failure
  question_gone : ℕ → Failure
  -- The session.
  invitation_not_found invitation_invalid not_open_yet already_closed no_modules : Failure
  session_not_found no_question_on_screen wrong_question module_closed : Failure
  not_advanced : Failure
  -- The unique constraints of the `responses` and of the `assessment_sessions` tables.
  duplicate_response duplicate_session : Failure
  -- A response whose question is not in the bank, which a foreign key rules out.
  dangling_response : Failure

-- The exception class of each: 400, 403, 404, 409, or 500 for a bare `Error`.
unfoldable pub http_status : Failure → ℕ
http_status duplicate_ranking = 400
http_status (unknown_option key) = 400
http_status incomplete_ranking = 400
http_status both_answers = 400
http_status no_answer = 400
http_status not_a_ranking = 400
http_status ranking_required = 400
http_status single_choice_required = 400
http_status (missing_mcq_details id) = 500
http_status (missing_personality_details id) = 500
http_status (question_gone id) = 404
http_status invitation_not_found = 404
http_status invitation_invalid = 403
http_status not_open_yet = 403
http_status already_closed = 403
http_status no_modules = 409
http_status session_not_found = 404
http_status no_question_on_screen = 409
http_status wrong_question = 409
http_status module_closed = 409
http_status not_advanced = 500
http_status duplicate_response = 500
http_status duplicate_session = 500
http_status dangling_response = 500

pub data Result {ℓ} (V : Type ℓ) : Type ℓ where
  ok : V → Result V
  failed : Failure → Result V

abbrev pub IsOk {ℓ} : {V : Type ℓ} → Result V → Type 0
IsOk (ok v) = Unit {0}
IsOk (failed e) = ⊥

-- `if (!test) throw …`
abbrev pub require : Bool → Failure → Result (Unit {0})
require false e = failed e
require true e = ok tt

module _ {ℓ κ} {V : Type ℓ} {W : Type κ} where
  infixl 5 ◌>>=◌
  abbrev pub ◌>>=◌ : Result V → (V → Result W) → Result W
  ok v >>= next = next v
  failed e >>= next = failed e

  -- A chain that succeeds, taken apart.
  pub >>=-eq-ok :
      (r : Result V) (next : V → Result W) {w : W}
      → (r >>= next) ≡ ok w
      → (v : V) × (r ≡ ok v) × (next v ≡ ok w)
  >>=-eq-ok (ok v) next h = (v, refl, h)
  >>=-eq-ok (failed e) next h = cc

infixl 5 ◌>>◌
abbrev pub ◌>>◌ {ℓ} : {V : Type ℓ} → Result (Unit {0}) → Result V → Result V
checked >> after = checked >>= λ done. after

pub ok-injective {ℓ} : {A : Type ℓ} {a b : A} → ok a ≡ ok b → a ≡ b
ok-injective h = cc
