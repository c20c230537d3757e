-- ===== src/Common/Keeps.antt =====
-- `Keeps P m`: the action `m` keeps the property `P` of the state, also when it returns an error.
use oh_my_dream.Common.{Bool, true, false, Result, ok, err, Exec, if◌then◌else◌}
use oh_my_dream.Common.State.{lift, gets, reads, modify, require, ◌>>=◌, continue}

pub record Keeps {ℓ} {E S A : Type ℓ} (P : S → Type ℓ) (m : Exec E S A) : Type ℓ where
  pub at : (s : S) → P s → P (m s).1

module _ {ℓ} {E S : Type ℓ} {P : S → Type ℓ} where
  pub Keeps-lift : {A : Type ℓ} (x : Result E A) → Keeps P (lift {S = S} x)
  unfolding lift
  Keeps-lift x = record { at = λ s h. h }

  pub Keeps-gets : {A : Type ℓ} (f : S → A) → Keeps {E = E} P (gets f)
  unfolding gets
  Keeps-gets f = record { at = λ s h. h }

  pub Keeps-reads : {A : Type ℓ} (f : S → Result E A) → Keeps P (reads f)
  unfolding reads
  Keeps-reads f = record { at = λ s h. h }

  pub Keeps-require : (test : S → Bool) (e : E) → Keeps P (require test e)
  unfolding require
  Keeps-require test e = record { at = λ s h. h }

  pub Keeps-modify : (f : S → S) → ((s : S) → P s → P (f s)) → Keeps {E = E} P (modify f)
  unfolding modify
  Keeps-modify f kf = record { at = λ s h. kf s h }

  pub Keeps-if :
      {A : Type ℓ} (b : Bool) (m n : Exec E S A)
      → Keeps P m
      → Keeps P n
      → Keeps P (if b then m else n)
  Keeps-if true m n km kn = km
  Keeps-if false m n km kn = kn

  continue-Keeps :
      {A B : Type ℓ} (x : Result E A) (f : A → Exec E S B)
      → ((a : A) → Keeps P (f a))
      → (s : S) → P s
      → P (continue x f s).1
  continue-Keeps (ok a) f kf s h = (kf a).at s h
  continue-Keeps (err e) f kf s h = h

  pub Keeps-bind :
      {A B : Type ℓ} (m : Exec E S A) (f : A → Exec E S B)
      → Keeps P m
      → ((a : A) → Keeps P (f a))
      → Keeps P (m >>= f)
  unfolding ◌>>=◌
  Keeps-bind m f km kf = record { at = λ s h. continue-Keeps (m s).0 f kf (m s).1 (km.at s h) }

pub ruleset keeps_rules =
    (Keeps-lift, Keeps-gets, Keeps-reads, Keeps-require, Keeps-modify, Keeps-if, Keeps-bind)
