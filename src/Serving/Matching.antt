-- ===== src/Serving/Matching.antt =====
-- The tests of control_plane/kserve_effects.py on what the cluster holds.
use ml_template.Prelude.{
  ℕ, String, Bool, List, Option, Result, ok, err, check, value_error, ◌>>=◌, ◌>>◌, [], ◌∷◌, true,
  false, other_error, or_raise, not, ltb, ◌&&◌, ◌==◌, some, is_some, leb, String_eq, Option_eq, any,
  ◌||◌, List_eq, ℕ_eq, none, if◌then◌else◌, length,
}
use ml_template.Release.Types.{ServingPair}
use ml_template.Serving.Objects.{
  Runtime, Container, Security, Service, Model, Deployment, runtime_manifest, runtime_env,
  runtime_security,
}

bool_beq : Bool → Bool → Bool
bool_beq a b = if a then b else not b

security_beq : Security → Security → Bool
unfolding bool_beq
security_beq a b =
    bool_beq a.run_as_non_root b.run_as_non_root
    && a.run_as_user == b.run_as_user
    && a.run_as_group == b.run_as_group
    && bool_beq a.allow_privilege_escalation b.allow_privilege_escalation
    && bool_beq a.privileged b.privileged
    && a.dropped_capabilities == b.dropped_capabilities
    && a.seccomp == b.seccomp

env_beq : List (String × String) → List (String × String) → Bool
env_beq [] [] = true
env_beq ((k, v) ∷ xs) ((k', v') ∷ ys) = k == k' && v == v' && env_beq xs ys
env_beq _ _ = false

has_env : Option (List (String × String)) → Bool
unfolding env_beq
has_env none = false
has_env (some env) = env_beq env runtime_env

has_security : Option Security → Bool
unfolding security_beq
has_security none = false
has_security (some s) = security_beq s runtime_security

-- the container that a runtime must have, and nothing beside it
is_hardened : Runtime → Container → List Container → Bool
unfolding has_env has_security
is_hardened r c others =
    has_env c.env
    && has_security c.security
    && not c.has_command
    && length others == 0
    && not r.has_volumes

is_owned : Runtime → String → Bool
is_owned r fingerprint = r.fingerprint == some fingerprint && r.owner == some "v2"

check_runtime : Runtime → String → String → List Container → Result (Unit {0})
unfolding is_hardened is_owned
check_runtime r fingerprint image [] =
    check (is_owned r fingerprint) (value_error "Runtime identity collision") >> err other_error
check_runtime r fingerprint image (c ∷ others) = do
  check (is_owned r fingerprint && c.image == image) (value_error "Runtime identity collision")
  check (is_hardened r c others) (value_error "Runtime security/serving configuration drift")

-- `validate_runtime`
unfoldable pub validate_runtime : Option Runtime → String → String → Result (Unit {0})
unfolding check_runtime
validate_runtime existing fingerprint image = do
  runtime_manifest fingerprint image
  r ← or_raise existing (value_error "Runtime identity collision")
  check_runtime r fingerprint image r.containers

-- the keys that a scaled lane must have
matches_scaling : Service → Service → Bool
matches_scaling actual desired =
    not (is_some desired.scale_target)
    || (actual.scales_on_cpu && actual.scale_target == desired.scale_target && actual.has_behavior)

matches_model : Model → Model → Bool
matches_model actual desired =
    not actual.has_overrides
    && actual.format == desired.format
    && actual.protocol == desired.protocol
    && actual.runtime == desired.runtime
    && actual.storage_uri == desired.storage_uri

pod_beq : Option (ℕ × String) → Option (ℕ × String) → Bool
pod_beq none none = true
pod_beq (some (g, p)) (some (g', p')) = g == g' && p == p'
pod_beq _ _ = false

-- `lane_matches`
unfoldable pub lane_matches : Service → Service → Result Bool
unfolding matches_scaling matches_model pod_beq
lane_matches actual desired = do
  check (actual.owner == some "v2") (value_error "Existing lane is not owned by v2")
  ok (
      actual.service_account == desired.service_account
      && actual.min_replicas == desired.min_replicas
      && actual.max_replicas == desired.max_replicas
      && pod_beq actual.pod_security desired.pod_security
      && matches_scaling actual desired
      && not actual.has_extras
      && matches_model actual.model desired.model
      && actual.deployment_mode == desired.deployment_mode
      && actual.model_version == desired.model_version)

-- `deployment_ready`: every replica of the newest generation is up
rolled_out : Deployment → ServingPair → Bool
rolled_out d pair =
    ltb 0 d.count
    && leb d.generation d.observed_generation
    && d.replicas == d.updated_replicas
    && d.updated_replicas == d.count
    && leb d.count d.ready_replicas
    && leb d.count d.available_replicas
    && d.model_version == some pair.model_version
    && d.source_uri == some pair.storage_uri
    && any (λ image. image == pair.runtime_digest) d.images

unfoldable pub deployment_ready : Option Deployment → ServingPair → Bool
unfolding rolled_out
deployment_ready none pair = false
deployment_ready (some d) pair = rolled_out d pair
