-- ===== src/Serving/Objects.antt =====
-- The objects of control_plane/kserve_effects.py: what it asks for, and what the cluster holds, as
-- far as the code reads it. In an object of the cluster, none is a value that is missing or of
-- another shape, and a flag says that one of the named keys holds something.
use ml_template.Prelude.{
  ℕ, String, Bool, List, Option, Result, ok, [], ◌∷◌, ◌>>=◌, ◌>>◌, codes, drop, check, value_error,
  true, some, ◌++◌, false, is_some, take,
}
use ml_template.Release.Types.{ServingPair, Text}
use ml_template.Release.Pairs.{runtime_image, serving_pair, is_digest}
use ml_template.Release.Controller.{Lane}
use ml_template.Serving.Scaling.{Scaling, Environment, predictor_policy}

-- The security context of the container.
pub record Security : Type 0 where
  pub run_as_non_root : Bool
  pub run_as_user : ℕ
  pub run_as_group : ℕ
  pub allow_privilege_escalation : Bool
  pub privileged : Bool
  pub dropped_capabilities : List String
  pub seccomp : String

pub record Container : Type 0 where
  pub image : String
  pub env : Option (List (String × String))
  pub security : Option Security
  -- command, args
  pub has_command : Bool

-- A ServingRuntime.
pub record Runtime : Type 0 where
  pub name : Text
  pub fingerprint : Option String
  pub owner : Option String
  pub containers : List Container
  -- volumes, hostIPC
  pub has_volumes : Bool

-- The pod security of a predictor: fsGroup and the type of the seccomp profile.
abbrev pub PodSecurity : Type 0
PodSecurity = ℕ × String

pub record Model : Type 0 where
  pub format : Option String
  pub protocol : Option String
  pub runtime : Option Text
  pub storage_uri : Option String
  -- image, command, args, env, envFrom, volumeMounts
  pub has_overrides : Bool

-- An InferenceService: its annotations, its predictor and its model.
pub record Service : Type 0 where
  pub owner : Option String
  pub deployment_mode : Option String
  pub model_version : Option String
  pub service_account : Option String
  pub min_replicas : Option ℕ
  pub max_replicas : Option ℕ
  pub pod_security : Option PodSecurity
  -- scaleMetric is cpu; scaleTarget; autoScaling is the fixed behavior
  pub scales_on_cpu : Bool
  pub scale_target : Option ℕ
  pub has_behavior : Bool
  -- containers, initContainers, volumes, hostNetwork, hostPID, hostIPC, imagePullSecrets
  pub has_extras : Bool
  pub model : Model

-- An InferenceService of the cluster, with its metadata and status.
pub record Held : Type 0 where
  pub service : Service
  pub resource_version : String
  pub generation : ℕ
  pub observed_generation : ℕ
  pub is_ready : Bool
  pub address : String

-- The deployment of a lane, with the annotations of its template.
pub record Deployment : Type 0 where
  pub count : ℕ
  pub generation : ℕ
  pub observed_generation : ℕ
  pub replicas : ℕ
  pub updated_replicas : ℕ
  pub ready_replicas : ℕ
  pub available_replicas : ℕ
  pub model_version : Option String
  pub source_uri : Option String
  -- the images of the containers named kserve-container
  pub images : List String

-- `fingerprint_tag` of control_plane/runtime_catalog.py
unfoldable pub fingerprint_tag : String → Result Text
fingerprint_tag fingerprint = do
  check (is_digest fingerprint) (value_error "Invalid technical fingerprint")
  ok (codes "runtime-fp-" ++ drop 7 (codes fingerprint))

-- `runtime_name`: forty digits of the fingerprint
unfoldable pub runtime_name : String → Result Text
runtime_name fingerprint = do
  fingerprint_tag fingerprint
  ok (codes "runtime-" ++ take 40 (drop 7 (codes fingerprint)))

abbrev pub runtime_env : List (String × String)
runtime_env =
    ("MLSERVER_MODEL_IMPLEMENTATION", "mlserver_mlflow.MLflowRuntime")
    ∷ ("MLSERVER_HTTP_PORT", "8080")
    ∷ ("MLSERVER_GRPC_PORT", "9000")
    ∷ ("MODELS_DIR", "/mnt/models")
    ∷ ("MLSERVER_PARALLEL_WORKERS", "0")
    ∷ []

abbrev pub runtime_security : Security
runtime_security = record {
  run_as_non_root = true;
  run_as_user = 10001;
  run_as_group = 10001;
  allow_privilege_escalation = false;
  privileged = false;
  dropped_capabilities = "ALL" ∷ [];
  seccomp = "RuntimeDefault";
}

a_runtime : Text → String → String → Runtime
a_runtime name fingerprint image = record {
  name = name;
  fingerprint = some fingerprint;
  owner = some "v2";
  containers =
      (record {
        image = image;
        env = some runtime_env;
        security = some runtime_security;
        has_command = false;
      })
      ∷ [];
  has_volumes = false;
}

-- `runtime_manifest`; the rest of the manifest is constant
unfoldable pub runtime_manifest : String → String → Result Runtime
unfolding a_runtime
runtime_manifest fingerprint image = do
  runtime_image image
  name ← runtime_name fingerprint
  ok (a_runtime name fingerprint image)

a_service : ServingPair → Scaling → Text → Service
a_service pair p name = record {
  owner = some "v2";
  deployment_mode = some "Standard";
  model_version = some pair.model_version;
  service_account = some "kserve-artifact-reader";
  min_replicas = some p.min_replicas;
  max_replicas = some p.max_replicas;
  pod_security = some (10001, "RuntimeDefault");
  scales_on_cpu = is_some p.target;
  scale_target = p.target;
  has_behavior = is_some p.target;
  has_extras = false;
  model = record {
    format = some "mlflow";
    protocol = some "v2";
    runtime = some name;
    storage_uri = some pair.storage_uri;
    has_overrides = false;
  };
}

-- `lane_manifest`, in an environment whose digits `int` reads so
unfoldable pub lane_manifest :
    (ℕ → Option ℕ) → Environment → Lane → ServingPair → String → Result Service
unfolding a_service
lane_manifest digit_value env lane pair fingerprint = do
  serving_pair pair
  p ← predictor_policy digit_value lane env
  name ← runtime_name fingerprint
  ok (a_service pair p name)
