-- ===== src/Session/World/Runs.antt =====
-- Statements about a run against the world: what holds when it returns, and what when it throws.
use mathlib.Core.Path.{subst₂}
use adaptive_hire_exam_platf.Common.{◌≡◌, refl}
use adaptive_hire_exam_platf.Failures.{Failure, Result, ok, failed}
use adaptive_hire_exam_platf.Session.World.{World, Outcome, done, fail, M, ◌>>=◌, lift}

module _ {R A : Type 0} where
  -- `P` holds of the value and the world of a return, `E` of the error and the world of a throw.
  pub data Run (P : A → World R → Type 0) (E : Failure → World R → Type 0)
      : Outcome R A → Type 0 where
    returns : {a : A} {w : World R} → P a w → Run P E (done a w)
    throws : {e : Failure} {w : World R} → E e w → Run P E (fail e w)

module _ {R A B : Type 0} {P : A → World R → Type 0} {Q : B → World R → Type 0}
    {E : Failure → World R → Type 0} where
  pub after_Run :
      (f : A → M R B) {o : Outcome R A}
      → Run P E o
      → ((a : A) (w : World R) → P a w → Run Q E (f a w))
      → Run Q E (elim o [ done a w ↦ f a w | fail e w ↦ fail e w ])
  after_Run f (returns {a} {w} p) k = k a w p
  after_Run f (throws e) k = throws e

  -- The rule for a sequence.
  pub >>=-Run :
      (m : M R A) (f : A → M R B) (w : World R)
      → Run P E (m w)
      → ((a : A) (v : World R) → P a v → Run Q E (f a v))
      → Run Q E ((m >>= f) w)
  >>=-Run m f w r k = after_Run f r k

module _ {R A : Type 0} where
  done_value : {a b : A} {v w : World R} → done a v ≡ done b w → a ≡ b
  done_value h = cc

  done_world : {a b : A} {v w : World R} → done a v ≡ done b w → v ≡ w
  done_world h = cc

  fail_error : {e f : Failure} {v w : World R} → ◌≡◌ {A = Outcome R A} (fail e v) (fail f w) → e ≡ f
  fail_error h = cc

  fail_world : {e f : Failure} {v w : World R} → ◌≡◌ {A = Outcome R A} (fail e v) (fail f w) → v ≡ w
  fail_world h = cc

module _ {R A : Type 0} {P : A → World R → Type 0} {E : Failure → World R → Type 0} where
  pub lift-Run :
      (r : Result A) (w : World R)
      → ((a : A) → r ≡ ok a → P a w)
      → ((e : Failure) → r ≡ failed e → E e w)
      → Run P E (lift r w)
  lift-Run (ok a) w p e = returns (p a refl)
  lift-Run (failed f) w p e = throws (e f refl)

  -- What a run that returned, or threw, has.
  pub Run-done : {o : Outcome R A} → Run P E o → {a : A} {w : World R} → o ≡ done a w → P a w
  Run-done (returns p) h = subst₂ P (done_value h) (done_world h) p
  Run-done (throws e) h = cc

  pub Run-fail : {o : Outcome R A} → Run P E o → {e : Failure} {w : World R} → o ≡ fail e w → E e w
  Run-fail (returns p) h = cc
  Run-fail (throws e) h = subst₂ E (fail_error h) (fail_world h) e

module _ {R A : Type 0} {P Q : A → World R → Type 0} {E F : Failure → World R → Type 0} where
  -- Weaker conclusions.
  pub Run-imp :
      {o : Outcome R A}
      → ((a : A) (w : World R) → P a w → Q a w)
      → ((e : Failure) (w : World R) → E e w → F e w)
      → Run P E o
      → Run Q F o
  Run-imp f g (returns {a} {w} p) = returns (f a w p)
  Run-imp f g (throws {e} {w} x) = throws (g e w x)
