-- ===== src/Tests/Data.antt =====
-- Test data: a host library, promotions, an approved candidate and release states.
use ml_template.Prelude.{ok, String, some, codes, ◌*◌, ◌∷◌, none, [], true}
use ml_template.Release.Types.{
  ServingPair, Event, Candidate, Evidence, Authorization, BuildRequest, PendingItem, State,
  resolution_blocked, approved_for_release, Json,
}
use ml_template.Release.Events.{event_json}
use ml_template.Release.Pairs.{model}
use ml_template.Backend.Memory.{Memory}
use ml_template.Release.Host.{Host}
use ml_template.Runtime.Resolver.{runtime_x_v1}

abbrev pub digest : String
digest = "sha256:0123456789abcdef0123456789abcdef0123456789abcdef0123456789abcdef"

abbrev pub uri : String
uri = "s3://mlflow-test-artifacts-quangcm/mlflow/workspaces/mlops/27/models/m-2/artifacts"

abbrev pub old_pair : ServingPair
old_pair = record {
  model_version = "1";
  runtime_digest =
      "596432515999.dkr.ecr.ap-southeast-1.amazonaws.com/model-service@sha256:0123456789abcdef0123456789abcdef0123456789abcdef0123456789abcdef";
  storage_uri =
      "s3://mlflow-test-artifacts-quangcm/mlflow/workspaces/mlops/27/models/m-1/artifacts";
}

abbrev pub new_pair : ServingPair
new_pair = record old_pair { model_version = "2"; storage_uri = uri }

abbrev pub promotion : Event
promotion = record {
  model_name = model;
  model_version = "2";
  artifact_uri = uri;
  run_id = "run-2";
  previous_version = some "1";
  promoted_at = "2026-01-01T00:00:00Z";
}

abbrev pub promotion_json : Json
promotion_json = event_json promotion

abbrev pub host : Host
host = record {
  json_loads = λ s. ok (event_json promotion);
  is_aware_stamp = λ s. true;
  evidence_hash = λ e. digest;
  contract_hash = λ v r p. digest;
  state_size = λ s. 1000;
}

abbrev pub candidate : Candidate
candidate = record {
  pair = new_pair;
  fingerprint = digest;
  event = record { model_name = model; model_version = "2"; artifact_uri = uri; run_id = "run-2" };
}

abbrev pub proof : Evidence
proof = record {
  schema_version = 1;
  candidate = candidate;
  stable = old_pair;
  stable_fingerprint = some digest;
  highest_accepted = 2;
  supersedes = none;
  ticket_reference = "REL-7";
  source = record {
    repository = "Ngducanh05/ml_template";
    workflow = ".github/workflows/release.yml";
    run_id = "77";
    run_attempt = "1";
    sha = "0123456789abcdef0123456789abcdef01234567";
    ref = "refs/tags/v1.2.3";
  };
  security_hash = digest;
  created_at = 1000 * 1000000;
}

abbrev pub approval : Authorization
approval = record {
  evidence = proof;
  evidence_hash = digest;
  authorized_at = 2000 * 1000000;
  expires_at = 2900 * 1000000;
}

abbrev pub request : BuildRequest
request = record {
  schema_version = 1;
  fingerprint = digest;
  python_version = codes "3.12.11";
  requirements = codes "numpy==2.1.0" ∷ [];
  runtime_profile = runtime_x_v1;
}

abbrev pub waiting : PendingItem
waiting = record {
  event = promotion;
  status = resolution_blocked;
  attempts = 5;
  next_attempt = 0;
  fingerprint = none;
  build_request = none;
  pair = none;
  error_type = some "ValueError";
  authorization = none;
}

abbrev pub approved_item : PendingItem
approved_item = record waiting {
  status = approved_for_release;
  attempts = 0;
  fingerprint = some digest;
  build_request = some request;
  pair = some new_pair;
  error_type = none;
  authorization = some approval;
}

abbrev pub empty_state : State
empty_state = record {
  schema_version = 2;
  model_name = model;
  highest_accepted = 1;
  pending = [];
  active = none;
  stable = some old_pair;
  stable_fingerprint = some digest;
  processed = [];
  failed = [];
  identities = [];
  audit = [];
  route = record { weight = 0; revision = 4 };
  lease = none;
}

abbrev pub approved_state : State
approved_state = record empty_state { highest_accepted = 2; pending = approved_item ∷ [] }

abbrev pub blocked_state : State
blocked_state = record empty_state { highest_accepted = 2; pending = waiting ∷ [] }

-- A store with one version, at 2100 seconds.
abbrev pub holding : State → Memory State
holding s = record { states = s ∷ []; time = 2100 * 1000000 }
