-- ===== src/Service/Artifact.antt =====
-- What joblib gives the adapter, as far as src/model_service/model/adapter.py looks at it, and the
-- contract that it accepts (`_validate_artifact`, `_required_value`, `_string_sequence`).
use ml_template.Service.Answers.{Answer, raised, returned, require, model_load_error, ◌>>=◌, ◌>>◌}
use ml_template.Prelude.{
  ℕ, List, String, Bool, Option, if◌then◌else◌, [], false, codes, all, ◌∷◌, ◌==◌, not, is_alnum,
  true, some, length, String_eq, ℕ_eq, list_beq, option_map, ◌&&◌, Option_eq, List_eq, none, ◌||◌,
}

-- An attribute or a prediction that should be a whole number; a Boolean is none.
pub data Number : Type 0 where
  not_integral negative : Number
  natural : ℕ → Number

pub data Step : Type 0 where
  standard_scaler logistic_regression other_step : Step

-- An sklearn Pipeline. `classes` is none if the attribute is missing or no sequence; `run` is its
-- `predict`, none if that raises.
pub record Pipeline : Type 0 where
  pub steps : List Step
  pub n_features_in : Number
  pub classes : Option (List Number)
  pub run : List (List ℕ) → Option (List Number)

-- A value of an artifact; the keys of a mapping are texts.
mutual
  pub data Value : Type 0 where
    int : ℕ → Value
    text : String → Value
    seq : Items → Value
    mapping : Entries → Value
    pipeline : Pipeline → Value
    other : Value

  pub data Items : Type 0 where
    nil : Items
    cons : Value → Items → Items

  pub data Entries : Type 0 where
    end : Entries
    entry : String → Value → Entries → Entries

pub record Contract : Type 0 where
  pub model_version : String
  pub feature_names : List String
  pub feature_units : String
  pub class_ids : List ℕ
  pub target_names : List String
  pub min_batch_size : ℕ
  pub max_batch_size : ℕ
  pub input_signature : String
  pub output_signature : String
  pub python_version : String
  pub sklearn_version : String

abbrev pub verified_feature_names : List String
verified_feature_names = "sepal_length" ∷ "sepal_width" ∷ "petal_length" ∷ "petal_width" ∷ []

abbrev pub verified_target_names : List String
verified_target_names = "setosa" ∷ "versicolor" ∷ "virginica" ∷ []

abbrev pub verified_class_ids : List ℕ
verified_class_ids = 0 ∷ 1 ∷ 2 ∷ []

abbrev pub verified_units : String
verified_units = "centimetres"

abbrev pub verified_python : String
verified_python = "3.12.14"

abbrev pub verified_sklearn : String
verified_sklearn = "1.7.2"

abbrev pub verified_input : String
verified_input = "instances: list of objects with four positive finite numbers"

abbrev pub verified_output : String
verified_output = "predictions: list of Iris class names"

-- `raise ModelLoadError(...)`; the messages are told apart as far as they name what is wrong
abbrev load_error : {A : Type 0} → String → Answer A
load_error what = raised (model_load_error what)

-- `_required_value`
unfoldable pub required_value : Entries → String → Answer Value
required_value end key = load_error key
required_value (entry k v rest) key = if k == key then returned v else required_value rest key

-- the entries of a mapping
unfoldable pub as_mapping : Value → String → Answer Entries
as_mapping (mapping entries) what = returned entries
as_mapping _ what = load_error what

unfoldable pub as_pipeline : Value → Answer Pipeline
as_pipeline (pipeline p) = returned p
as_pipeline _ = load_error "Artifact model must be an sklearn Pipeline"

-- the items of `_string_sequence`, which must be texts that are not empty
string_items : Items → String → Answer (List String)
string_items nil what = returned []
string_items (cons (text t) rest) what = do
  require (not (list_beq (codes t) [])) (model_load_error what)
  others ← string_items rest what
  returned (t ∷ others)
string_items (cons _ rest) what = load_error what

-- `_string_sequence`
unfoldable pub string_sequence : Value → String → Answer (List String)
unfolding string_items
string_sequence (seq (cons v rest)) what = string_items (cons v rest) what
string_sequence _ what = load_error what

unfoldable pub is_text : String → Value → Bool
is_text s (text t) = t == s
is_text s _ = false

unfoldable pub is_int : ℕ → Value → Bool
is_int n (int m) = m == n
is_int n _ = false

-- [A-Za-z0-9][A-Za-z0-9._+-]*
is_version : List ℕ → Bool
is_version [] = false
is_version (c ∷ s) =
    is_alnum c && all (λ d. is_alnum d || d == b'.' || d == b'_' || d == b'+' || d == b'-') s

unfoldable pub as_version : Value → Answer String
unfolding is_version
as_version (text t) =
    require (is_version (codes t)) (model_load_error "Artifact model version is invalid")
    >> returned t
as_version _ = load_error "Artifact model version is invalid"

-- the two steps of the model
unfoldable pub is_supported : List Step → Bool
is_supported (standard_scaler ∷ logistic_regression ∷ []) = true
is_supported _ = false

unfoldable pub is_natural : ℕ → Number → Bool
is_natural n (natural m) = m == n
is_natural n _ = false

-- whether a class is a whole number
unfoldable pub is_integral : Number → Bool
is_integral not_integral = false
is_integral _ = true

unfoldable pub naturals : List Number → Option (List ℕ)
naturals [] = some []
naturals (natural n ∷ rest) = option_map (λ ns. n ∷ ns) (naturals rest)
naturals (_ ∷ rest) = none

-- The class ids; a negative one differs from the supported ids.
unfoldable pub read_classes : List Number → List String → Answer (List ℕ)
unfolding naturals is_integral
read_classes ids target_names = do
  require (all is_integral ids) (model_load_error "Artifact model classes are malformed")
  require (length ids == length target_names)
      (model_load_error "Artifact class count does not match target names")
  require (naturals ids == some verified_class_ids)
      (model_load_error "Artifact model classes are unsupported")
  returned verified_class_ids
