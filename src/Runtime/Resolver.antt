-- ===== src/Runtime/Resolver.antt =====
-- Fingerprints and build requests: control_plane/runtime_resolver.py and build_contract.py.
use ml_template.Release.Types.{Text, RuntimeProfile, BuildRequest}
use ml_template.Release.Host.{Host}
use ml_template.Prelude.{
  List, String, Result, ◌∷◌, ◌>>◌, [], check, ◌++◌, ◌==◌, value_error, ◌>>=◌, codes, ◌||◌, ◌&&◌, ok,
  ℕ_eq,
}
use ml_template.Runtime.Python.{parse_python_version}
use ml_template.Runtime.Requirements.{normalize_requirements}
use ml_template.Release.Equality.{RuntimeProfile_eq, BuildRequest_eq}

pub record ArtifactContract : Type 0 where
  pub python_version : Text
  pub requirements : List Text

abbrev pub runtime_x_v1 : RuntimeProfile
runtime_x_v1 = record {
  mlserver_version = "1.7.1";
  mlserver_mlflow_version = "1.7.1";
  platform = "linux/amd64";
  build_profile = "runtime-x-hardened-v1";
  serving_profile = "mlserver-v2-parallel-workers-0";
}

abbrev pub runtime_ci_v2 : RuntimeProfile
runtime_ci_v2 = record {
  mlserver_version = "1.7.1";
  mlserver_mlflow_version = "1.7.1";
  platform = "linux/amd64";
  build_profile = "runtime-ci-py31214-slim-v2";
  serving_profile = "mlserver-v2-parallel-workers-0";
}

-- "\n".join(texts)
unfoldable pub join_lines : List Text → Text
join_lines [] = []
join_lines (t ∷ ts) = let rest = join_lines ts in elim ts [ [] ↦ t | _ ∷ _ ↦ t ++ (b'\n' ∷ rest) ]

module _ (h : Host) where
  unfoldable pub runtime_fingerprint : ArtifactContract → RuntimeProfile → String
  runtime_fingerprint contract profile =
      h.contract_hash contract.python_version contract.requirements profile

  unfoldable pub build_request : ArtifactContract → RuntimeProfile → BuildRequest
  unfolding runtime_fingerprint
  build_request contract profile = record {
    schema_version = 1;
    fingerprint = runtime_fingerprint contract profile;
    python_version = contract.python_version;
    requirements = contract.requirements;
    runtime_profile = profile;
  }

  unfoldable pub validate_request : BuildRequest → Result (ArtifactContract × RuntimeProfile)
  unfolding build_request
  validate_request request = do
    check (request.schema_version == 1) (value_error "Unsupported build request")
    python_version ← parse_python_version (codes "python: " ++ request.python_version)
    requirements ← normalize_requirements (join_lines request.requirements)
    let contract : ArtifactContract = record {
      python_version = python_version;
      requirements = requirements;
    }
    let profile = request.runtime_profile
    check
        ((profile == runtime_x_v1 || profile == runtime_ci_v2)
          && build_request contract profile == request)
        (value_error "Noncanonical or unsupported technical build request")
    ok (contract, profile)
