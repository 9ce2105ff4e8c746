-- ===== src/Service/Requests.antt =====
-- A request's way through the service: `InferenceService` (src/model_service/services/inference.py)
-- and the routes (src/model_service/api/routes).
pub mod Outcomes
use ml_template.Service.Answers.{
  Answer, returned, raised, require, ◌>>=◌, ◌>>◌, not_ready_error, inference_error,
  input_contract_error,
}
use ml_template.Service.Adapter.{Adapter, Instance, is_ready, predict, all_positive, same_names}
use ml_template.Prelude.{List, String, ◌==◌, length, ℕ_eq, ℕ, if◌then◌else◌, Bool, leb, ◌&&◌, all}
use ml_template.Service.Artifact.{verified_feature_names}

pub data Recorded : Type 0 where
  error success input_error not_ready : Recorded

-- `InferenceService.predict`, without what it records
unfoldable pub infer : Adapter → List Instance → Answer (List String)
infer a instances = do
  require (is_ready a) (not_ready_error "Model service is not ready")
  predictions ← predict a instances
  require (length predictions == length instances)
      (inference_error "Prediction count does not match input count")
  returned predictions

-- what the finally clause records
unfoldable pub recorded : Answer (List String) → Recorded
recorded (returned predictions) = success
recorded (raised (input_contract_error what)) = input_error
recorded (raised (not_ready_error what)) = not_ready
recorded (raised _) = error

-- A response of the service; `crash` is an exception that the route does not catch.
pub data Response {ℓ} (A : Type ℓ) : Type ℓ where
  ok : A → Response A
  api_error : ℕ → String → String → Response A
  crash : Response A

-- the handlers of the predict route
respond : Answer (List String) → Response (List String)
respond (returned predictions) = ok predictions
respond (raised (input_contract_error what)) =
    api_error 422 "INPUT_CONTRACT_ERROR" "Input is not valid for the model"
respond (raised (not_ready_error what)) = api_error 503 "NOT_READY" "Model service is not ready"
respond (raised (inference_error what)) =
    api_error 500 "INFERENCE_FAILED" "Inference could not be completed"
respond (raised _) = crash

unfoldable pub predict_route : Adapter → List Instance → Response (List String)
unfolding respond
predict_route a instances = respond (infer a instances)

unfoldable pub ready_route : Adapter → Response String
ready_route a =
    if is_ready a then ok "ready" else api_error 503 "NOT_READY" "Model service is not ready"

-- A body that `PredictRequest` (src/model_service/schemas/prediction.py) accepts: one to a hundred
-- instances with the four positive finite numbers and nothing else.
unfoldable pub is_request : List Instance → Bool
is_request instances =
    leb 1 (length instances)
    && leb (length instances) 100
    && all (λ instance. same_names instance verified_feature_names && all_positive instance)
        instances
