-- ===== src/Prelude/Growing.antt =====
-- Actions that do not lower a measure of the world, such as its clock: one rule for each way to
-- build an action.
use ml_template.Prelude.Actions.{Action, return, raise, lift, when, catch, handled, ◌>>=◌}
use ml_template.Prelude.Results.{Error, Result, ok, err}
use ml_template.Prelude.{ℕ, ◌≤◌, Bool, true, false, if◌then◌else◌, arith}

module _ {W : Type 0} (measure : W → ℕ) where
  pub record Growing {A : Type 0} (m : Action W A) : Type 0 where
    pub grows : (w : W) → measure w ≤ measure (m w).1

module _ {W : Type 0} {measure : W → ℕ} where
  pub Growing-return : {A : Type 0} (a : A) → Growing measure (return a)
  Growing-return a = record { grows = λ w. omega arith }

  pub Growing-raise : {A : Type 0} (e : Error) → Growing measure (raise {A = A} e)
  Growing-raise e = record { grows = λ w. omega arith }

  pub Growing-lift : {A : Type 0} (r : Result A) → Growing measure (lift r)
  Growing-lift r = record { grows = λ w. omega arith }

  pub Growing-if :
      {A : Type 0} (t : Bool) (m n : Action W A)
      → Growing measure m
      → Growing measure n
      → Growing measure (if t then m else n)
  Growing-if true m n k l = k
  Growing-if false m n k l = l

  pub Growing-when :
      (t : Bool) (m : Action W (Unit {0})) → Growing measure m → Growing measure (when t m)
  Growing-when true m k = k
  Growing-when false m k = Growing-return tt

  module _ {A B : Type 0} where
    continued :
        (r : Result A) (f : A → Action W B) (v : W)
        → ((a : A) → Growing measure (f a))
        → measure v ≤ measure ((lift r >>= f) v).1
    continued (ok a) f v l = (l a).grows v
    continued (err e) f v l = omega arith

    pub Growing-bind :
        (m : Action W A) (f : A → Action W B)
        → Growing measure m
        → ((a : A) → Growing measure (f a))
        → Growing measure (m >>= f)
    Growing-bind m f k l = record {
      grows = λ w.
          let first = k.grows w in let (r, v) = m w in let rest = continued r f v l in omega arith;
    }

  module _ {A : Type 0} where
    recovered :
        (r : Result A) (handler : Error → Action W A) (v : W)
        → ((e : Error) → Growing measure (handler e))
        → measure v ≤ measure (handled r handler v).1
    recovered (ok a) handler v l = omega arith
    recovered (err e) handler v l = (l e).grows v

    pub Growing-catch :
        (m : Action W A) (handler : Error → Action W A)
        → Growing measure m
        → ((e : Error) → Growing measure (handler e))
        → Growing measure (catch m handler)
    Growing-catch m handler k l = record {
      grows = λ w.
          let first = k.grows w in
          let (r, v) = m w in let rest = recovered r handler v l in omega arith;
    }
