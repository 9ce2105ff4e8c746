-- ===== src/Tests/Serving.antt =====
-- A pair that is served: its scaling, its lane and its runtime in the catalog.
use ml_template.Serving.Objects.{lane_manifest, runtime_name, fingerprint_tag, runtime_manifest}
use ml_template.Serving.Matching.{lane_matches, validate_runtime, deployment_ready}
use ml_template.Serving.Effects.{is_internal}
use ml_template.Serving.Scaling.{decimal_setting, setting}
use ml_template.Release.Pairs.{is_digest_codes}
use ml_template.Tests.Opening.{pair_checks}
use ml_template.Prelude.{
  ◌≡◌, ok, refl, some, none, ◌∷◌, [], Option, ℕ, ◌≤◌, codes, ◌-◌, ◌+◌, if◌then◌else◌, false, true,
  Bool, leb, ◌&&◌, strip_prefix, break_at, option_beq, list_beq,
}
use ml_template.Prelude.Actions.{return}
use ml_template.Release.Controller.{stable, canary}
use ml_template.Serving.Scaling.{predictor_policy, Environment, Scaling}
use ml_template.Serving.Scaling.Bounds.{IsReviewed, predictor_policy-IsReviewed}
use ml_template.Serving.Objects.{
  Held, Service, Runtime, Deployment, runtime_env, runtime_security, fingerprint_tag,
}
use ml_template.Serving.Effects.{Api, ready, answered}
use ml_template.Serving.Effects.Readiness.{IsServing, ready-IsServing}
use ml_template.Serving.Catalog.{Registry, publish, lookup, verify_repository}
use ml_template.Serving.Catalog.Publication.{Published, publish-Published}
use ml_template.Tests.Data.{old_pair, digest}
use ml_template.Release.Pairs.{repository, runtime_image, is_digest}

abbrev digit_value : ℕ → Option ℕ
digit_value c = if leb 48 c && leb c 57 then some (c - 48) else none

abbrev environment : Environment
environment = ("V2_CANARY_MAX_REPLICAS", "2") ∷ []

abbrev one : Scaling
one = record { min_replicas = 1; max_replicas = 1; target = none }

abbrev two : Scaling
two = record { min_replicas = 1; max_replicas = 2; target = some 80 }

scales_stable : predictor_policy digit_value stable environment ≡ ok one
unfolding predictor_policy
scales_stable = refl

scales_canary : predictor_policy digit_value canary environment ≡ ok two
unfolding predictor_policy
scales_canary = refl

predictor_policy-IsReviewed_example : IsReviewed one × IsReviewed two × (1 + 2 ≤ 3)
predictor_policy-IsReviewed_example =
    predictor_policy-IsReviewed digit_value environment scales_stable scales_canary

abbrev runtime : Runtime
runtime = record {
  name = codes "runtime-0123456789abcdef0123456789abcdef01234567";
  fingerprint = some digest;
  owner = some "v2";
  containers =
      (record {
        image = old_pair.runtime_digest;
        env = some runtime_env;
        security = some runtime_security;
        has_command = false;
      })
      ∷ [];
  has_volumes = false;
}

abbrev service : Service
service = record {
  owner = some "v2";
  deployment_mode = some "Standard";
  model_version = some "1";
  service_account = some "kserve-artifact-reader";
  min_replicas = some 1;
  max_replicas = some 1;
  pod_security = some (10001, "RuntimeDefault");
  scales_on_cpu = false;
  scale_target = none;
  has_behavior = false;
  has_extras = false;
  model = record {
    format = some "mlflow";
    protocol = some "v2";
    runtime = some runtime.name;
    storage_uri = some old_pair.storage_uri;
    has_overrides = false;
  };
}

abbrev held : Held
held = record {
  service = service;
  resource_version = "7";
  generation = 3;
  observed_generation = 3;
  is_ready = true;
  address = "http://credit-risk-stable-v2-predictor.production.svc.cluster.local";
}

abbrev deployment : Deployment
deployment = record {
  count = 1;
  generation = 2;
  observed_generation = 2;
  replicas = 1;
  updated_replicas = 1;
  ready_replicas = 1;
  available_replicas = 1;
  model_version = some "1";
  source_uri = some old_pair.storage_uri;
  images = old_pair.runtime_digest ∷ [];
}

abbrev api : Api (Unit {0})
api = record {
  get_runtime = λ name. return (some runtime);
  create_runtime = λ r. return tt;
  get_service = λ lane. return (some held);
  create_service = λ lane s. return tt;
  replace_service = λ lane s version. return tt;
  get_deployment = λ lane. return (some deployment);
  probe = λ url. return (
      answered
        (record { name = some "credit-risk-stable-v2"; has_inputs = true; has_outputs = true }));
}

is_served : ready api digit_value environment stable old_pair digest tt ≡ (ok true, tt)
unfolding ready lane_manifest pair_checks predictor_policy runtime_name fingerprint_tag lane_matches
    validate_runtime is_digest_codes is_internal deployment_ready runtime_manifest decimal_setting
    setting
is_served = refl

ready-IsServing_example : IsServing api digit_value environment stable old_pair digest tt tt
ready-IsServing_example =
    ready-IsServing api digit_value environment stable old_pair digest tt is_served

-- The registry, before and after the tag is put.
abbrev ecr : Registry Bool
ecr = record {
  describe_repositories = return (
      (record { uri = some repository; tag_mutability = some "IMMUTABLE"; has_exclusions = false })
      ∷ []);
  describe_images = λ tag there. (
    ok (if there then some ((record { tags = tag ∷ []; digest = digest }) ∷ []) else none),
    there,
  );
  batch_get_image = λ d. return (false, (record { digest = d; manifest = "{}" }) ∷ []);
  put_image = λ manifest d tag there. (ok true, true);
  is_json = λ manifest. true;
}

publishes : publish ecr digest old_pair.runtime_digest false ≡ (ok old_pair.runtime_digest, true)
unfolding publish runtime_image strip_prefix break_at lookup fingerprint_tag is_digest
    verify_repository option_beq list_beq
publishes = refl

publish-Published_example :
    Published ecr digest old_pair.runtime_digest old_pair.runtime_digest true
publish-Published_example = publish-Published ecr digest old_pair.runtime_digest false publishes
