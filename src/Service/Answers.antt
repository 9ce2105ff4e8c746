-- ===== src/Service/Answers.antt =====
-- The exceptions of the service (src/model_service/model/errors.py), and calls that may raise them.
use ml_template.Prelude.{◌≡◌, refl, Bool, true, false, String}

pub data ServiceError : Type 0 where
  model_load_error input_contract_error inference_error not_ready_error : String → ServiceError
  -- any other exception
  unexpected : ServiceError

pub data Answer {ℓ} (A : Type ℓ) : Type ℓ where
  raised : ServiceError → Answer A
  returned : A → Answer A

infixl 5 ◌>>=◌ ◌>>◌
abbrev pub ◌>>=◌ {ℓ κ} : {A : Type ℓ} {B : Type κ} → Answer A → (A → Answer B) → Answer B
raised e >>= next = raised e
returned a >>= next = next a

abbrev pub ◌>>◌ {ℓ κ} : {A : Type ℓ} {B : Type κ} → Answer A → Answer B → Answer B
a >> b = a >>= λ _. b

-- `if not b: raise e`
abbrev pub require : Bool → ServiceError → Answer (Unit {0})
require true e = returned tt
require false e = raised e

module _ {ℓ κ} {A : Type ℓ} {B : Type κ} where
  pub >>=-eq-returned :
      (call : Answer A) (next : A → Answer B) {b : B}
      → (call >>= next) ≡ returned b
      → (a : A) × (call ≡ returned a) × (next a ≡ returned b)
  >>=-eq-returned (raised e) next h = cc
  >>=-eq-returned (returned a) next h = (a, refl, h)

pub require-returned :
    (b : Bool) (e : ServiceError) {u : Unit {0}} → require b e ≡ returned u → b ≡ true
require-returned true e h = refl
require-returned false e h = cc

pub returned-injective {ℓ} : {A : Type ℓ} {a b : A} → returned a ≡ returned b → a ≡ b
returned-injective h = cc
