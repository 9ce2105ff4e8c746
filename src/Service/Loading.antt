-- ===== src/Service/Loading.antt =====
-- What a loaded artifact promises (src/model_service/model/adapter.py, `load`).
use ml_template.Service.Answers.{returned, raised, ServiceError, Answer}
use ml_template.Service.Artifact.{Pipeline, Contract, Value}
use ml_template.Service.Validation.{validate_artifact}
use ml_template.Service.Validation.Checked.{
  IsVerified, validate_artifact-IsVerified, verified_classes,
}
use ml_template.Service.Adapter.{Adapter, load, unloaded, keep}
use ml_template.Prelude.{String, ◌≡◌, some, none, refl, Option, ◌⊎◌, inl, inr, List, ℕ, ap}

-- An adapter with a supported model, its contract and its class names.
pub record IsLoaded (sklearn : String) (a : Adapter) : Type 0 where
  pub model : Pipeline
  pub contract : Contract
  pub has_model : a.model ≡ some model
  pub has_contract : a.contract ≡ some contract
  pub has_names : a.class_name_by_id ≡ some verified_classes
  pub verified : IsVerified sklearn model contract verified_classes

-- What `load` returns, and the adapter it leaves.
unfoldable pub Loading : String → Answer (Unit {0}) × Adapter → Type 0
Loading sklearn result =
    ((e : ServiceError) × (result ≡ (raised e, unloaded)))
    ⊎ ((result.0 ≡ returned tt) × IsLoaded sklearn result.1)

keep-Loading :
    (sklearn : String) (answer : Answer (Pipeline × Contract × List (ℕ × String)))
    → ((m : Pipeline) (c : Contract) (names : List (ℕ × String))
        → answer ≡ returned (m, c, names)
        → IsVerified sklearn m c names)
    → Loading sklearn (keep answer)
unfolding keep Loading
keep-Loading sklearn (raised e) h = inl (e, refl)
keep-Loading sklearn (returned (m, c, names)) h =
    let v = h m c names refl in
    inr (
      refl,
      record {
        model = m;
        contract = c;
        has_model = refl;
        has_contract = refl;
        has_names = ap some v.classes;
        verified = record {
          two_steps = v.two_steps;
          features = v.features;
          least = v.least;
          most = v.most;
          classes = refl;
          runtime = v.runtime;
        };
      },
    )

-- Whatever the adapter held before, loading returns and leaves it with all its parts, from an
-- artifact that is supported, or raises and leaves it with none.
pub load-Loading :
    (sklearn : String) (artifact : Option Value) (a : Adapter)
    → Loading sklearn (load sklearn artifact a)
unfolding load keep Loading
load-Loading sklearn none a = inl (_, refl)
load-Loading sklearn (some artifact) a =
    keep-Loading sklearn (validate_artifact sklearn artifact)
      (λ m. λ c. λ names. λ e. validate_artifact-IsVerified sklearn artifact e)
