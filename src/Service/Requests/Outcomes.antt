-- ===== src/Service/Requests/Outcomes.antt =====
-- What the routes answer after the adapter has been loaded.
use ml_template.Service.Artifact.{Value, verified_feature_names}
use ml_template.Service.Loading.{IsLoaded, load-Loading, Loading}
use ml_template.Service.Adapter.{
  Adapter, Instance, load, is_ready, unloaded, same_names, all_positive,
}
use ml_template.Service.Adapter.Answering.{IsAnswer, predict-IsAnswer}
use ml_template.Service.Adapter.Serving.{Served, predict-Served}
use ml_template.Service.Requests.{
  infer, recorded, respond, predict_route, is_request, Response, Recorded, ok, api_error, success,
  error, not_ready,
}
use ml_template.Prelude.{
  List, String, ◌≡◌, ◌⊎◌, inl, inr, refl, true, false, ℕ_eq, length, leb, all, and_iff, ==_iff,
  ◌&&◌, Option, Bool,
}

-- The readiness, the response to a request and what is recorded of it.
pub record Outcome (a : Adapter) (instances : List Instance) (ready : Bool)
    (response : Response (List String)) (noted : Recorded) : Type 0 where
  pub readiness : is_ready a ≡ ready
  pub responds : predict_route a instances ≡ response
  pub records : recorded (infer a instances) ≡ noted

-- Not ready and 503; or ready and the predictions or 500.
pub Outcomes : Adapter → List Instance → Type 0
Outcomes a instances =
    Outcome a instances false (api_error 503 "NOT_READY" "Model service is not ready") not_ready
    ⊎ ((names : List String) × IsAnswer instances names
        × Outcome a instances true (ok names) success)
    ⊎ Outcome a instances true (api_error 500 "INFERENCE_FAILED" "Inference could not be completed")
        error

IsLoaded-ready : (sklearn : String) (a : Adapter) → IsLoaded sklearn a → is_ready a ≡ true
unfolding is_ready
IsLoaded-ready sklearn a l = rw (l.has_model, l.has_contract, l.has_names) refl

unloaded-Outcomes : (instances : List Instance) → Outcomes unloaded instances
unfolding Outcomes predict_route infer recorded respond is_ready
unloaded-Outcomes instances = inl (record { readiness = refl; responds = refl; records = refl })

loaded-Outcomes :
    (sklearn : String) (a : Adapter) (instances : List Instance)
    → IsLoaded sklearn a
    → is_request instances ≡ true
    → Outcomes a instances
unfolding is_request Outcomes predict_route infer recorded respond Served
loaded-Outcomes sklearn a instances l e =
    let ready = IsLoaded-ready sklearn a l in
    let (sized, fits) =
      (and_iff (leb 1 (length instances) && leb (length instances) 100)
          (all (λ i. same_names i verified_feature_names && all_positive i) instances)).0
        e in
    elim (predict-Served sklearn a instances l sized fits) [
      | inl (names, r) ↦
          let answer = predict-IsAnswer sklearn a instances l r in
          let counted = (==_iff (length names) (length instances)).1 answer.one_each in
          inr (
            inl (
              names,
              answer,
              record {
                readiness = ready;
                responds = rw (ready, r, counted) refl;
                records = rw (ready, r, counted) refl;
              },
            ))
      | inr (what, r) ↦ inr (
          inr (record {
            readiness = ready;
            responds = rw (ready, r) refl;
            records = rw (ready, r) refl;
          }))
    ]

-- However loading ended, an accepted request is answered 503 while nothing is loaded, and otherwise
-- with a class name for each instance or, if the inference failed, with 500; success is recorded of
-- exactly the answers. It is never refused as bad input, and no exception escapes.
pub load-Outcomes :
    (sklearn : String) (artifact : Option Value) (before : Adapter) (instances : List Instance)
    → is_request instances ≡ true
    → Outcomes (load sklearn artifact before).1 instances
unfolding Loading
load-Outcomes sklearn artifact before instances e = elim (load-Loading sklearn artifact before) [
  | inl (x, r) ↦ rw r (unloaded-Outcomes instances)
  | inr (r, l) ↦ loaded-Outcomes sklearn (load sklearn artifact before).1 instances l e
]
