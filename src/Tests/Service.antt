-- ===== src/Tests/Service.antt =====
-- The model service: an artifact is loaded, and a request is answered.
use ml_template.Prelude.{◌≡◌, refl, some, true, List, ◌∷◌, [], ℕ, list_beq, option_beq}
use ml_template.Service.Artifact.{
  Value, Entries, Pipeline, Number, natural, entry, end, cons, nil, text, int, seq, mapping,
  pipeline, standard_scaler, logistic_regression, verified_units, verified_input, verified_output,
  Contract, is_supported, verified_feature_names, verified_class_ids, verified_target_names,
  verified_python, verified_sklearn, as_mapping, required_value, as_pipeline, string_sequence,
  is_text, as_version, is_int, is_natural, read_classes,
}
use ml_template.Service.Adapter.{
  Instance, load, unloaded, positive, same_names, is_positive, Adapter, predict, prepare_rows,
}
use ml_template.Service.Loading.{Loading, load-Loading, IsLoaded}
use ml_template.Service.Requests.Outcomes.{Outcomes, load-Outcomes}
use ml_template.Service.Requests.{is_request}
use ml_template.Service.Validation.{validate_artifact}
use ml_template.Service.Adapter.Answering.{IsAnswer, predict-IsAnswer}
use ml_template.Service.Validation.Checked.{verified_classes}
use ml_template.Service.Answers.{returned}

-- A model that answers class 1 for every row.
abbrev ones : List (List ℕ) → List Number
ones [] = []
ones (r ∷ rest) = natural 1 ∷ ones rest

abbrev model : Pipeline
model = record {
  steps = standard_scaler ∷ logistic_regression ∷ [];
  n_features_in = natural 4;
  classes = some (natural 0 ∷ natural 1 ∷ natural 2 ∷ []);
  run = λ rows. some (ones rows);
}

abbrev signature : Entries
signature = entry "input" (text verified_input) (
    entry "output" (text verified_output)
      (entry "min_batch_size" (int 1) (entry "max_batch_size" (int 100) end)))

abbrev metadata : Entries
metadata =
    entry "feature_names"
      (seq (
        cons (text "sepal_length")
          (cons (text "sepal_width") (cons (text "petal_length") (cons (text "petal_width") nil)))))
      (entry "target_names"
        (seq (cons (text "setosa") (cons (text "versicolor") (cons (text "virginica") nil))))
        (entry "feature_units" (text verified_units) (
          entry "model_version" (text "1.0") (
            entry "python_version" (text "3.12.14") (
              entry "sklearn_version" (text "1.7.2")
                (entry "signature" (mapping signature) end))))))

abbrev artifact : Value
artifact = mapping (entry "model" (pipeline model) (entry "metadata" (mapping metadata) end))

abbrev flower : Instance
flower =
    ("sepal_length", positive 5)
    ∷ ("sepal_width", positive 3)
    ∷ ("petal_length", positive 4)
    ∷ ("petal_width", positive 1)
    ∷ []

load-Loading_example : Loading "1.7.2" (load "1.7.2" (some artifact) unloaded)
load-Loading_example = load-Loading "1.7.2" (some artifact) unloaded

accepts_flower : is_request (flower ∷ []) ≡ true
unfolding is_request same_names is_positive
accepts_flower = refl

load-Outcomes_example : Outcomes (load "1.7.2" (some artifact) unloaded).1 (flower ∷ [])
load-Outcomes_example = load-Outcomes "1.7.2" (some artifact) unloaded (flower ∷ []) accepts_flower

abbrev contract : Contract
contract = record {
  model_version = "1.0";
  feature_names = verified_feature_names;
  feature_units = verified_units;
  class_ids = verified_class_ids;
  target_names = verified_target_names;
  min_batch_size = 1;
  max_batch_size = 100;
  input_signature = verified_input;
  output_signature = verified_output;
  python_version = verified_python;
  sklearn_version = verified_sklearn;
}

abbrev loaded : Adapter
loaded = record {
  model = some model;
  contract = some contract;
  class_name_by_id = some verified_classes;
}

-- The artifact above is accepted.
loads : (load "1.7.2" (some artifact) unloaded).1 ≡ loaded
unfolding load validate_artifact as_mapping required_value as_pipeline string_sequence list_beq
    is_text as_version is_int is_supported is_natural read_classes option_beq
loads = refl

loaded-IsLoaded : IsLoaded "1.7.2" loaded
unfolding is_supported
loaded-IsLoaded = record {
  model = model;
  contract = contract;
  has_model = refl;
  has_contract = refl;
  has_names = refl;
  verified = record {
    two_steps = refl;
    features = refl;
    least = refl;
    most = refl;
    classes = refl;
    runtime = refl;
  };
}

answers_flower : predict loaded (flower ∷ []) ≡ returned ("versicolor" ∷ [])
unfolding predict prepare_rows
answers_flower = refl

predict-IsAnswer_example : IsAnswer (flower ∷ []) ("versicolor" ∷ [])
predict-IsAnswer_example =
    predict-IsAnswer "1.7.2" loaded (flower ∷ []) loaded-IsLoaded answers_flower
