-- ===== src/Service/Adapter.antt =====
-- `SklearnJoblibAdapter` of src/model_service/model/adapter.py.
pub mod Answering
pub mod Serving
use ml_template.Service.Validation.{validate_artifact}
use ml_template.Service.Answers.{
  Answer, returned, raised, require, ◌>>=◌, ◌>>◌, input_contract_error, inference_error,
  model_load_error, unexpected,
}
use ml_template.Prelude.{
  Option, none, Bool, ℕ, List, String, is_some, all, ◌∷◌, leb, if◌then◌else◌, any, length, ◌&&◌,
  some, [], ◌==◌, String_eq, ℕ_eq, true, false,
}
use ml_template.Service.Artifact.{
  Contract, Pipeline, Number, Value, natural, not_integral, negative,
}

pub record Adapter : Type 0 where
  pub model : Option Pipeline
  pub contract : Option Contract
  pub class_name_by_id : Option (List (ℕ × String))

abbrev pub unloaded : Adapter
unloaded = record { model = none; contract = none; class_name_by_id = none }

unfoldable pub is_ready : Adapter → Bool
is_ready a = is_some a.model && is_some a.contract && is_some a.class_name_by_id

-- A value of an instance: no number; a number that `float` cannot hold; one that is not finite or
-- not positive; or a positive one.
pub data Feature : Type 0 where
  not_numeric too_large not_positive : Feature
  positive : ℕ → Feature

-- The entries of an instance, with distinct names.
abbrev pub Instance : Type 0
Instance = List (String × Feature)

unfoldable pub is_positive : Feature → Bool
is_positive (positive n) = true
is_positive _ = false

abbrev pub all_positive : Instance → Bool
all_positive instance = all (λ entry. is_positive entry.1) instance

feature : String → Instance → Option Feature
feature name [] = none
feature name ((k, v) ∷ rest) = if k == name then some v else feature name rest

-- `set(instance) == set(names)`
unfoldable pub same_names : Instance → List String → Bool
unfolding feature
same_names instance names =
    all (λ entry. any (λ name. name == entry.0) names) instance
    && all (λ name. is_some (feature name instance)) names

normalize : Feature → Answer ℕ
normalize not_numeric = raised (input_contract_error "All feature values must be numeric")
normalize too_large = raised unexpected
normalize not_positive =
    raised (input_contract_error "All feature values must be positive finite numbers")
normalize (positive n) = returned n

-- `instance[name]`, normalized
entry_value : Option Feature → Answer ℕ
unfolding normalize
entry_value none = raised unexpected
entry_value (some v) = normalize v

prepare_row : Instance → List String → Answer (List ℕ)
unfolding entry_value feature
prepare_row instance [] = returned []
prepare_row instance (name ∷ names) = do
  value ← entry_value (feature name instance)
  rest ← prepare_row instance names
  returned (value ∷ rest)

prepare_all : List String → List Instance → Answer (List (List ℕ))
unfolding prepare_row same_names
prepare_all names [] = returned []
prepare_all names (instance ∷ rest) = do
  require (same_names instance names)
      (input_contract_error "Instance feature names do not match the model")
  row ← prepare_row instance names
  rows ← prepare_all names rest
  returned (row ∷ rows)

-- `_prepare_rows` under a contract
unfoldable pub prepare_rows : Contract → List Instance → Answer (List (List ℕ))
unfolding prepare_all
prepare_rows contract instances = do
  require
      (leb contract.min_batch_size (length instances)
        && leb (length instances) contract.max_batch_size)
      (input_contract_error "Batch size out of bounds")
  prepare_all contract.feature_names instances

class_name : List (ℕ × String) → ℕ → Answer String
class_name [] id = raised (inference_error "Model returned an unknown class index")
class_name ((k, name) ∷ rest) id = if k == id then returned name else class_name rest id

name_of : List (ℕ × String) → Number → Answer String
unfolding class_name
name_of names not_integral =
    raised (inference_error "Model returned an unsupported prediction type")
name_of names negative = raised (inference_error "Model returned an unknown class index")
name_of names (natural id) = class_name names id

names_of : List (ℕ × String) → List Number → Answer (List String)
unfolding name_of
names_of names [] = returned []
names_of names (p ∷ rest) = do
  name ← name_of names p
  others ← names_of names rest
  returned (name ∷ others)

-- what the model returned for the rows
name_predictions : List (ℕ × String) → List (List ℕ) → Option (List Number) → Answer (List String)
unfolding names_of
name_predictions names rows none = raised (inference_error "Model runtime prediction failed")
name_predictions names rows (some predictions) = do
  require (length predictions == length rows)
      (inference_error "Model returned an unexpected number of predictions")
  names_of names predictions

-- `predict` of the loaded parts
run_model : Pipeline → Contract → List (ℕ × String) → List Instance → Answer (List String)
unfolding name_predictions
run_model model contract names instances = do
  rows ← prepare_rows contract instances
  name_predictions names rows (model.run rows)

predict_with :
    Option Pipeline
    → Option Contract
    → Option (List (ℕ × String))
    → List Instance
    → Answer (List String)
unfolding run_model
predict_with (some m) (some c) (some names) instances = run_model m c names instances
predict_with _ _ _ instances = raised (inference_error "Model adapter is not ready")

unfoldable pub predict : Adapter → List Instance → Answer (List String)
unfolding predict_with
predict a instances = predict_with a.model a.contract a.class_name_by_id instances

-- The state is set only when the artifact has been accepted.
unfoldable pub keep : Answer (Pipeline × Contract × List (ℕ × String)) → Answer (Unit {0}) × Adapter
keep (raised e) = (raised e, unloaded)
keep (returned (m, c, names)) =
    (returned tt, record { model = some m; contract = some c; class_name_by_id = some names })

-- `load`, after which the adapter holds nothing of what it held: joblib's artifact is a parameter,
-- none if joblib raises.
unfoldable pub load : String → Option Value → Adapter → Answer (Unit {0}) × Adapter
unfolding keep
load sklearn_version none a = keep (raised (model_load_error "Model artifact could not be loaded"))
load sklearn_version (some artifact) a = keep (validate_artifact sklearn_version artifact)
