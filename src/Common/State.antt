-- ===== src/Common/State.antt =====
-- `do` blocks for methods on `&mut self`.
use oh_my_dream.Common.{Bool, Result, ok, err, ensure, Exec}

module _ {ℓ} {E S : Type ℓ} where
  unfoldable pub lift : {A : Type ℓ} → Result E A → Exec E S A
  lift x s = (x, s)

  unfoldable pub gets : {A : Type ℓ} → (S → A) → Exec E S A
  gets f s = (ok (f s), s)

  -- A computation that reads the state and may fail.
  unfoldable pub reads : {A : Type ℓ} → (S → Result E A) → Exec E S A
  reads f s = (f s, s)

  unfoldable pub modify : (S → S) → Exec E S Unit
  modify f s = (ok tt, f s)

  -- `if !test(self) { return Err(e) }`
  unfoldable pub require : (S → Bool) → E → Exec E S Unit
  require test e s = (ensure (test s) e, s)

  abbrev pub continue : {A B : Type ℓ} → Result E A → (A → Exec E S B) → Exec E S B
  continue (ok a) f s = f a s
  continue (err e) f s = (err e, s)

  infixl 5 ◌>>=◌ ◌>>◌
  -- Opening this opens the other actions too.
  unfoldable pub ◌>>=◌ : {A B : Type ℓ} → Exec E S A → (A → Exec E S B) → Exec E S B
  unfolding lift gets reads modify require
  ◌>>=◌ m f s = continue (m s).0 f (m s).1

  abbrev pub ◌>>◌ : {B : Type ℓ} → Exec E S Unit → Exec E S B → Exec E S B
  m >> n = m >>= λ _. n
