-- ===== src/Service/Validation.antt =====
-- `_validate_artifact` of src/model_service/model/adapter.py.
use ml_template.Service.Answers.{Answer, raised, require, returned, model_load_error, ◌>>=◌, ◌>>◌}
use ml_template.Prelude.{
  List, String, ℕ, ◌==◌, ◌∷◌, [], ◌&&◌, length, none, some, String_eq, ℕ_eq, List_eq,
}
use ml_template.Service.Artifact.{
  Pipeline, Value, Contract, verified_feature_names, verified_units, verified_target_names,
  verified_input, verified_output, verified_python, verified_sklearn, required_value, as_mapping,
  as_pipeline, string_sequence, is_text, is_int, as_version, is_supported, is_natural, read_classes,
}
pub mod Checked

-- `zip`
zip : List ℕ → List String → List (ℕ × String)
zip (n ∷ ns) (t ∷ ts) = (n, t) ∷ zip ns ts
zip _ _ = []

-- The values that the code takes out of the artifact before it tests them.
record Parts : Type 0 where
  model : Pipeline
  feature_names : List String
  target_names : List String
  feature_units : Value
  model_version : Value
  sklearn_version : Value
  python_version : Value
  input : Value
  output : Value
  min_batch_size : Value
  max_batch_size : Value

read_parts : Value → Answer Parts
read_parts artifact = do
  root ← as_mapping artifact "Artifact root must be a mapping"
  model ← required_value root "model"
  metadata ← required_value root "metadata"
  p ← as_pipeline model
  fields ← as_mapping metadata "Artifact metadata must be a mapping"
  raw_features ← required_value fields "feature_names"
  features ← string_sequence raw_features "feature_names"
  raw_targets ← required_value fields "target_names"
  targets ← string_sequence raw_targets "target_names"
  units ← required_value fields "feature_units"
  signature ← required_value fields "signature"
  version ← required_value fields "model_version"
  sklearn ← required_value fields "sklearn_version"
  python ← required_value fields "python_version"
  entries ← as_mapping signature "Artifact signature must be a mapping"
  input ← required_value entries "input"
  output ← required_value entries "output"
  low ← required_value entries "min_batch_size"
  high ← required_value entries "max_batch_size"
  returned (record {
    model = p;
    feature_names = features;
    target_names = targets;
    feature_units = units;
    model_version = version;
    sklearn_version = sklearn;
    python_version = python;
    input = input;
    output = output;
    min_batch_size = low;
    max_batch_size = high;
  })

-- `sklearn.__version__` is a parameter.
module _ (sklearn_version : String) where
  check_parts : Parts → Answer String
  check_parts parts = do
    require (parts.feature_names == verified_feature_names)
        (model_load_error "Artifact feature contract is unsupported")
    require (parts.target_names == verified_target_names)
        (model_load_error "Artifact target contract is unsupported")
    require (is_text verified_units parts.feature_units)
        (model_load_error "Artifact feature units are unsupported")
    version ← as_version parts.model_version
    require (is_text verified_python parts.python_version)
        (model_load_error "Artifact Python version is invalid")
    require (is_text verified_sklearn parts.sklearn_version)
        (model_load_error "Artifact sklearn version is invalid")
    require (sklearn_version == verified_sklearn)
        (model_load_error "Artifact and runtime sklearn versions do not match")
    require (is_int 1 parts.min_batch_size && is_int 100 parts.max_batch_size)
        (model_load_error "Artifact batch-size contract is invalid")
    require (is_text verified_input parts.input)
        (model_load_error "Artifact input signature is invalid")
    require (is_text verified_output parts.output)
        (model_load_error "Artifact output signature is invalid")
    returned version

  check_model : Parts → Answer (List ℕ)
  check_model parts = do
    require (is_supported parts.model.steps)
        (model_load_error "Artifact model pipeline is unsupported")
    require (is_natural (length parts.feature_names) parts.model.n_features_in)
        (model_load_error "Artifact model feature count does not match metadata")
    elim parts.model.classes [
      | none ↦ raised (model_load_error "Artifact model classes are malformed")
      | some ids ↦ read_classes ids parts.target_names
    ]

  contract_of : Parts → String → List ℕ → Contract
  contract_of parts version class_ids = record {
    model_version = version;
    feature_names = parts.feature_names;
    feature_units = verified_units;
    class_ids = class_ids;
    target_names = parts.target_names;
    min_batch_size = 1;
    max_batch_size = 100;
    input_signature = verified_input;
    output_signature = verified_output;
    python_version = verified_python;
    sklearn_version = verified_sklearn;
  }

  unfoldable pub validate_artifact : Value → Answer (Pipeline × Contract × List (ℕ × String))
  unfolding read_parts check_parts check_model contract_of zip
  validate_artifact artifact = do
    parts ← read_parts artifact
    version ← check_parts parts
    class_ids ← check_model parts
    returned (parts.model, contract_of parts version class_ids, zip class_ids parts.target_names)
